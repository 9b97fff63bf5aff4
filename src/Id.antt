-- ===== src/Id.antt =====
-- The allocator of stable ids, compiler/src/id.rs. A `CallId`, `DefId` or `TaskId` is its u32.
pub mod Fresh
pub mod Tests
use pipeit.Base.{ℕ, zero, suc, List, [], ◌∷◌, inc32}

pub record IdAllocator : Type 0 where
  pub next_call : ℕ
  pub next_def : ℕ
  pub next_task : ℕ

unfoldable pub new : IdAllocator
new = record { next_call = 0; next_def = 0; next_task = 0 }

unfoldable pub alloc_call : IdAllocator → ℕ × IdAllocator
unfolding inc32
alloc_call a = (a.next_call, record a { next_call = inc32 a.next_call })

unfoldable pub alloc_def : IdAllocator → ℕ × IdAllocator
unfolding inc32
alloc_def a = (a.next_def, record a { next_def = inc32 a.next_def })

unfoldable pub alloc_task : IdAllocator → ℕ × IdAllocator
unfolding inc32
alloc_task a = (a.next_task, record a { next_task = inc32 a.next_task })

-- The three kinds of request, as a client makes them one after another.
pub data Request : Type 0 where
  call def task : Request

unfoldable pub serve : Request → IdAllocator → ℕ × IdAllocator
unfolding alloc_call alloc_def alloc_task
serve call a = alloc_call a
serve def a = alloc_def a
serve task a = alloc_task a

-- The ids that a sequence of requests gets, with their kinds.
unfoldable pub serve_all : List Request → IdAllocator → List (Request × ℕ)
unfolding serve
serve_all [] a = []
serve_all (r ∷ rs) a = let (id, a') = serve r a in (r, id) ∷ serve_all rs a'
