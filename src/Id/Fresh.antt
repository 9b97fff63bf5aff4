-- ===== src/Id/Fresh.antt =====
-- No id is given twice (compiler/src/id.rs).
use pipeit.Base.{ℕ, suc, ◌+◌, ◌≤◌, ◌<◌, ◌≡◌, refl, List, [], ◌∷◌, All, arith, inc32-eq, u32_mod}
use pipeit.Id.{IdAllocator, Request, call, def, task, serve, serve_all}

-- The next id of a kind.
abbrev pub counter : Request → IdAllocator → ℕ
counter call a = a.next_call
counter def a = a.next_def
counter task a = a.next_task

-- Every later id of the same kind is greater.
abbrev pub IsIncreasing : List (Request × ℕ) → Type 0
IsIncreasing [] = Unit
IsIncreasing ((r, id) ∷ ids) = All (λ later. later.0 ≡ r → id < later.1) ids × IsIncreasing ids

-- 1 for a request of the kind, and 0 for another.
abbrev one_if : Request → Request → ℕ
one_if call call = 1
one_if def def = 1
one_if task task = 1
one_if _ _ = 0

abbrev pub requests_of : Request → List Request → ℕ
requests_of k [] = 0
requests_of k (r ∷ rs) = one_if k r + requests_of k rs

-- No counter overflows: each has room for the requests of its own kind.
abbrev pub HasRoom : List Request → IdAllocator → Type 0
HasRoom rs a = (k : Request) → counter k a + requests_of k rs < u32_mod

one_if_same : (k : Request) → one_if k k ≡ 1
one_if_same call = refl
one_if_same def = refl
one_if_same task = refl

serve-counter :
    (r k : Request) (a : IdAllocator)
    → counter r a + 1 < u32_mod
    → ((serve r a).0 ≡ counter r a) × (counter k (serve r a).1 ≡ counter k a + one_if k r)
unfolding serve
serve-counter call call a h = ground (arith, inc32-eq a.next_call)
serve-counter call def a h = ground arith
serve-counter call task a h = ground arith
serve-counter def call a h = ground arith
serve-counter def def a h = ground (arith, inc32-eq a.next_def)
serve-counter def task a h = ground arith
serve-counter task call a h = ground arith
serve-counter task def a h = ground arith
serve-counter task task a h = ground (arith, inc32-eq a.next_task)

fits_next :
    (r : Request) (rs : List Request) (a : IdAllocator)
    → HasRoom (r ∷ rs) a
    → counter r a + 1 < u32_mod
fits_next r rs a room = omega (arith, room r, one_if_same r)

HasRoom-serve :
    (r : Request) (rs : List Request) (a : IdAllocator)
    → HasRoom (r ∷ rs) a
    → HasRoom rs (serve r a).1
HasRoom-serve r rs a room k = omega (arith, room k, serve-counter r k a (fits_next r rs a room))

serve_all-ge :
    (rs : List Request) (a : IdAllocator) (k : Request) (lo : ℕ)
    → HasRoom rs a
    → lo ≤ counter k a
    → All (λ later. later.0 ≡ k → lo ≤ later.1) (serve_all rs a)
unfolding serve_all
serve_all-ge [] a k lo room h = tt
serve_all-ge (r ∷ rs) a k lo room h =
    let fits = fits_next r rs a room in
    (
      head_ge,
      serve_all-ge rs (serve r a).1 k lo (HasRoom-serve r rs a room)
          (omega (arith, serve-counter r k a fits)),
    )
  where
    head_ge : r ≡ k → lo ≤ (serve r a).0
    head_ge e = rw ((serve-counter r r a (fits_next r rs a room)).0, e) h

-- As long as no counter of 2^32 overflows, ids of one kind are given in increasing order, so that
-- no two requests of the same kind get the same id, however the kinds are interleaved.
pub serve_all-IsIncreasing :
    (rs : List Request) (a : IdAllocator) → HasRoom rs a → IsIncreasing (serve_all rs a)
unfolding serve_all
serve_all-IsIncreasing [] a room = tt
serve_all-IsIncreasing (r ∷ rs) a room =
    let step = serve-counter r r a (fits_next r rs a room) in
    let room' = HasRoom-serve r rs a room in
    (
      serve_all-ge rs (serve r a).1 r (suc (serve r a).0) room'
          (omega (arith, step, one_if_same r)),
      serve_all-IsIncreasing rs (serve r a).1 room',
    )
