-- ===== src/Balance/Normalize/Least.antt =====
-- The normalized vector divides each solution of the balance equations (compiler/src/analyze.rs,
-- `lcm` and `normalize_repetition_vector`): the values fit a u32 and no division is by zero.
use Prim.Native.Nat.{◌∣◌}
use native.Mathlib.Nat
use pipeit.Base.{
  ℕ, ◌*◌, ◌/◌, ◌%◌, ◌≤◌, ◌<◌, ◌≡◌, refl, sym, subst, ap, ◌∙◌, true, ◌||◌, [], ◌∷◌, inl, inr, arith,
  All, All-insert, Map, get-insert, insert, contains_key, eqb, ltb, u32_mod, mul64, Bool-cases,
  nat_eq, pair_eq,
}
use pipeit.Outcome.{done}
use pipeit.Balance.Gcd.{gcd, gcd-dvd, dvd-gcd-mul, gcd-pos}
use pipeit.Balance.Search.{Ratio}
use pipeit.Balance.Search.Lowest.{lowest, lowest_parts, factor_pos, mul64-eq, div-done}
use pipeit.Balance.Normalize.{
  lcm, lcm_dens, scale, gcd_values, divide_all, normalize_repetition_vector,
}
use pipeit.Graph.{NodeId}

pos_of_dvd : (a b : ℕ) → a ∣ b → 0 < b → 0 < a
pos_of_dvd a b d h = Nat.pos_of_dvd_of_pos d h

-- How a common divisor `g` of `a` and `b` stands in the least common multiple.
lcm_parts : (a b g x y : ℕ) → x * g ≡ a → y * g ≡ b → (g * (x * b) ≡ a * b) × (x * b ≡ a * y)
lcm_parts a b g x y of_a of_b = (
  Nat.mul_left_comm g x b ∙ sym (Nat.mul_assoc x g b) ∙ ap (λ t. t * b) of_a,
  ap (λ t. x * t) (sym of_b ∙ Nat.mul_comm y g) ∙ sym (Nat.mul_assoc x g y) ∙ ap (λ t. t * y) of_a,
)

lcm-eq : (a b : ℕ) → 0 < a → 0 < b → a < u32_mod → b < u32_mod → lcm a b ≡ a / gcd a b * b
unfolding lcm
lcm-eq a b a_pos b_pos a_fits b_fits =
    let small : a / gcd a b < u32_mod = omega (arith, Nat.div-le_self a (gcd a b)) in
    ground (arith, mul64-eq (a / gcd a b) b small b_fits)

-- The least common multiple of two divisors of a u32 number `m`.
lcm-dvd :
    (a b m : ℕ)
    → a ∣ m
    → b ∣ m
    → 0 < m
    → m < u32_mod
    → (lcm a b ∣ m) × (a ∣ lcm a b) × (b ∣ lcm a b)
lcm-dvd a b m a_m b_m m_pos m_fits =
    let a_pos : 0 < a = Nat.pos_of_dvd_of_pos a_m m_pos in
    let b_pos : 0 < b = Nat.pos_of_dvd_of_pos b_m m_pos in
    let small_a : a ≤ m = Nat.le_of_dvd m_pos a_m in
    let small_b : b ≤ m = Nat.le_of_dvd m_pos b_m in
    let g = gcd a b in
    let (g_a, g_b) = gcd-dvd a b in
    let (whole, swapped) =
      lcm_parts a b g (a / g) (b / g) (Nat.div-mul_cancel g g_a) (Nat.div-mul_cancel g g_b) in
    let over : a * b ∣ g * m =
      dvd-gcd-mul (a * b) a b m (Nat.mul-dvd-mul_left b a b_m)
        (subst (λ t. t ∣ b * m) (Nat.mul_comm b a) (Nat.mul-dvd-mul_left a b a_m)) in
    rw (lcm-eq a b a_pos b_pos (omega arith) (omega arith)) (
      Nat.dvd_of_mul-dvd-mul_left (a / g * b) (gcd-pos a b a_pos)
          (subst (λ t. t ∣ g * m) (sym whole) over),
      subst (λ t. a ∣ t) (sym swapped) (Nat.dvd-mul_right a (b / g)),
      Nat.dvd-mul_left b (a / g),
    )

abbrev HasDen : ℕ → NodeId × Ratio → Type 0
HasDen m (v, r) = r.1 ∣ m

lcm_dens-dvd :
    (rs : Map NodeId Ratio) (acc m : ℕ)
    → All (HasDen m) rs
    → acc ∣ m
    → 0 < m
    → m < u32_mod
    → (lcm_dens rs acc ∣ m) × (acc ∣ lcm_dens rs acc) × All (HasDen (lcm_dens rs acc)) rs
unfolding lcm_dens
lcm_dens-dvd [] acc m h acc_m m_pos m_fits = (acc_m, Nat.dvd_refl acc, tt)
lcm_dens-dvd ((v, (n, d)) ∷ rs) acc m h acc_m m_pos m_fits =
    let (l_m, acc_l, d_l) = lcm-dvd acc d m acc_m h.0 m_pos m_fits in
    let (whole, l_all, rest) = lcm_dens-dvd rs (lcm acc d) m h.1 l_m m_pos m_fits in
    (whole, Nat.dvd_trans acc acc_l l_all, (Nat.dvd_trans d d_l l_all, rest))

-- The value of a node over the common denominator `m`, a divisor of `base`.
scaled_parts :
    (n d g k y x base m : ℕ)
    → n * g ≡ x
    → d * g ≡ base
    → y * d ≡ m
    → k * m ≡ base
    → 0 < d
    → k * (n * y) ≡ x
scaled_parts n d g k y x base m of_x of_base of_m multiple d_pos =
    let over : d * g ≡ d * (k * y) =
      of_base
      ∙ sym multiple
      ∙ ap (λ t. k * t) (sym of_m)
      ∙ sym (Nat.mul_assoc k y d)
      ∙ Nat.mul_comm (k * y) d in
    Nat.mul_left_comm k n y
    ∙ ap (λ t. n * t) (sym (Nat.eq_of_mul-eq-mul_left d d_pos g (k * y) over))
    ∙ of_x

scaled :
    (x base m : ℕ)
    → (lowest x base).1 ∣ m
    → m ∣ base
    → 0 < base
    → base / m * ((lowest x base).0 * (m / (lowest x base).1)) ≡ x
scaled x base m den_m m_base base_pos =
    let (of_x, of_base) = lowest_parts x base in
    scaled_parts (lowest x base).0 (lowest x base).1 (gcd x base) (base / m) (m / (lowest x base).1)
      x base m of_x of_base (Nat.div-mul_cancel _ den_m) (Nat.div-mul_cancel m m_base)
      (factor_pos (lowest x base).1 (gcd x base) base of_base base_pos)

multiple_pos : (m base : ℕ) → m ∣ base → 0 < base → 0 < base / m
multiple_pos m base d h = factor_pos (base / m) m base (Nat.div-mul_cancel m d) h

-- No word overflows on the way to the value.
scaled_word :
    (x base m : ℕ)
    → (lowest x base).1 ∣ m
    → m ∣ base
    → 0 < base
    → base < u32_mod
    → x < u32_mod
    → mul64 (lowest x base).0 (m / (lowest x base).1) % u32_mod
      ≡ (lowest x base).0 * (m / (lowest x base).1)
scaled_word x base m den_m m_base base_pos base_fits x_fits =
    let n = (lowest x base).0 in
    let y = m / (lowest x base).1 in
    let n_le : n ≤ x = Nat.div-le_self x (gcd x base) in
    let y_le : y ≤ m = Nat.div-le_self m (lowest x base).1 in
    let m_le : m ≤ base = Nat.le_of_dvd base_pos m_base in
    let whole : base / m * (n * y) ≡ x = scaled x base m den_m m_base base_pos in
    let grows : 1 * (n * y) ≤ base / m * (n * y) =
      Nat.mul-le-mul_right (n * y) (multiple_pos m base m_base base_pos) in
    let small : n * y < u32_mod = omega (arith, Nat.one-mul (n * y)) in
    ap (λ t. t % u32_mod) (mul64-eq n y (omega arith) (omega arith)) ∙ Nat.mod-eq_of_lt small

-- `rv` holds the numbers that `k` times over are those of `q`.
abbrev pub Divides : ℕ → (NodeId → ℕ) → NodeId × ℕ → Type 0
Divides k q (v, n) = k * n ≡ q v

contains_key-insert {ℓ} :
    {V : Type ℓ} (m : Map NodeId V) (n : NodeId) (r : V) (v : NodeId)
    → contains_key (insert m n r) v ≡ (eqb n v || contains_key m v)
contains_key-insert m n r v = ground (arith, get-insert m n r v)

gcd_values-dvd :
    (rv : Map NodeId ℕ) (acc : ℕ)
    → (gcd_values rv acc ∣ acc) × All (λ (v, n). gcd_values rv acc ∣ n) rv
unfolding gcd_values
gcd_values-dvd [] acc = (Nat.dvd_refl acc, tt)
gcd_values-dvd ((v, n) ∷ rv) acc =
    let (of_gcd, rest) = gcd_values-dvd rv (gcd acc n) in
    (Nat.dvd_trans _ of_gcd (gcd-dvd acc n).0, (Nat.dvd_trans _ of_gcd (gcd-dvd acc n).1, rest))

divide_all-Divides :
    (g k : ℕ) (q : NodeId → ℕ) (rv : Map NodeId ℕ)
    → All (λ (v, n). g ∣ n) rv
    → All (Divides k q) rv
    → All (Divides (k * g) q) (divide_all g rv)
unfolding divide_all
divide_all-Divides g k q [] d h = tt
divide_all-Divides g k q ((v, n) ∷ rv) (g_n, d) (e, h) = (
  Nat.mul_assoc k g (n / g) ∙ ap (λ t. k * t) (Nat.mul-div_cancel' g g_n) ∙ e,
  divide_all-Divides g k q rv d h,
)

contains_key-divide_all :
    (g : ℕ) (rv : Map NodeId ℕ) (v : NodeId) → contains_key (divide_all g rv) v ≡ contains_key rv v
unfolding divide_all
contains_key-divide_all g [] v = refl
contains_key-divide_all g ((w, n) ∷ rv) v = ground (arith, contains_key-divide_all g rv v)

module _ (q : NodeId → ℕ) (base : ℕ) (fits : (v : NodeId) → (0 < q v) × (q v < u32_mod))
    (base_pos : 0 < base) (base_fits : base < u32_mod) where
  abbrev Lowest : NodeId × Ratio → Type 0
  Lowest (v, r) = r ≡ lowest (q v) base

  Lowest-HasDen : (rs : Map NodeId Ratio) → All Lowest rs → All (HasDen base) rs
  Lowest-HasDen [] h = tt
  Lowest-HasDen ((v, r) ∷ rs) (e, h) = (
    rw e (
        subst (λ t. (lowest (q v) base).1 ∣ t) (lowest_parts (q v) base).1
          (Nat.dvd-mul_right _ (gcd (q v) base))),
    Lowest-HasDen rs h,
  )

  scale-Divides :
      (m : ℕ) (rs : Map NodeId Ratio) (rv : Map NodeId ℕ)
      → m ∣ base
      → All Lowest rs
      → All (HasDen m) rs
      → All (Divides (base / m) q) rv
      → (rv' : Map NodeId ℕ) × (scale m rs rv ≡ done rv')
        × All (Divides (base / m) q) rv'
        × ((v : NodeId) → contains_key rs v || contains_key rv v ≡ true → contains_key rv' v ≡ true)
  unfolding scale
  scale-Divides m [] rv m_base h d a = (rv, refl, a, λ v k. k)
  scale-Divides m ((v, (num, den)) ∷ rs) rv m_base (e, h) (den_m, d) a =
      let x = q v in
      let n = (lowest x base).0 in
      let y = (lowest x base).1 in
      let den_low : y ∣ m = subst (λ (r : Ratio). r.1 ∣ m) e den_m in
      let exact : base / m * (n * (m / y)) ≡ x = scaled x base m den_low m_base base_pos in
      let word = scaled_word x base m den_low m_base base_pos base_fits (fits v).1 in
      let y_pos : 0 < y = factor_pos y (gcd x base) base (lowest_parts x base).1 base_pos in
      let (rv', scaled_all, a', keys) =
        scale-Divides m rs (insert rv v (n * (m / y))) m_base h d
          (All-insert (Divides (base / m) q) rv v (n * (m / y)) a exact) in
      (
        rv',
        rw (ap (λ (r : Ratio). r.0) e, ap (λ (r : Ratio). r.1) e, div-done m y y_pos, word)
            scaled_all,
        a',
        λ w k. keys w (ground (arith, contains_key-insert rv v (n * (m / y)) w)),
      )

  -- The vector has every node of the ratios, and divides the solution `q`.
  pub normalize-Divides :
      (rs : Map NodeId Ratio)
      → All Lowest rs
      → (rv : Map NodeId ℕ) × (k : ℕ) × (normalize_repetition_vector rs ≡ done rv)
        × (0 < k)
        × All (Divides k q) rv
        × ((v : NodeId) → contains_key rs v ≡ true → contains_key rv v ≡ true)
  unfolding normalize_repetition_vector
  normalize-Divides rs h =
      let m = lcm_dens rs 1 in
      let (m_base, _, dens) =
        lcm_dens-dvd rs 1 base (Lowest-HasDen rs h) (Nat.one-dvd base) base_pos base_fits in
      let (rv, scaled_all, a, keys) = scale-Divides m rs [] m_base h dens tt in
      let g = gcd_values rv 0 in
      let k = base / m in
      let k_pos = multiple_pos m base m_base base_pos in
      elim (Bool-cases (ltb 1 g)) [
        | inr keep ↦ (rv, k, rw (scaled_all, keep), k_pos, a, λ v c. keys v (ground arith))
        | inl cut ↦ (
          divide_all g rv,
          k * g,
          rw (scaled_all, cut),
          Nat.mul-pos k_pos (ground arith),
          divide_all-Divides g k q rv (gcd_values-dvd rv 0).1 a,
          λ v c. contains_key-divide_all g rv v ∙ keys v (ground arith),
        )
      ]
