-- ===== src/Balance/Search/Lowest.antt =====
-- Ratios in lowest terms: what `reduce_ratio` (compiler/src/analyze.rs) returns.
use native.Mathlib.Nat
use pipeit.Base.{ℕ, zero, suc, ◌*◌, ◌/◌, ◌≤◌, ◌<◌, ◌≡◌, refl, sym, ap, ◌∙◌, arith, mul64, u32_mod}
use pipeit.Outcome.{done, div}
use pipeit.Balance.Gcd.{gcd, gcd-dvd, dvd-gcd, gcd-mul, gcd-pos}
use pipeit.Balance.Search.{Ratio, reduce_ratio}

abbrev pub lowest : ℕ → ℕ → Ratio
lowest a b = (a / gcd a b, b / gcd a b)

pub lowest_parts : (a b : ℕ) → ((lowest a b).0 * gcd a b ≡ a) × ((lowest a b).1 * gcd a b ≡ b)
lowest_parts a b =
    (Nat.div-mul_cancel (gcd a b) (gcd-dvd a b).0, Nat.div-mul_cancel (gcd a b) (gcd-dvd a b).1)

pub div-done : (a b : ℕ) → 0 < b → div a b ≡ done (a / b)
unfolding div
div-done a b h = ground arith

pub reduce_ratio-lowest : (a b : ℕ) → 0 < a → reduce_ratio a b ≡ done (lowest a b)
unfolding reduce_ratio
reduce_ratio-lowest a b h =
    rw (div-done a (gcd a b) (gcd-pos a b h), div-done b (gcd a b) (gcd-pos a b h))

pub lowest-mul : (a b x : ℕ) → 0 < x → lowest (a * x) (b * x) ≡ lowest a b
lowest-mul a b x h =
    rw (gcd-mul, Nat.mul-div-mul_right a (gcd a b) h, Nat.mul-div-mul_right b (gcd a b) h)

product_fits : (a b m : ℕ) → a < m → b < m → a * b < m * m
product_fits zero b m ha hb =
    let h : 0 < m * m = Nat.mul-pos (omega arith) (omega arith) in omega (arith, Nat.zero-mul b)
product_fits (suc a) b m ha hb =
    let strict : suc a * b < suc a * m = Nat.mul-lt-mul_of_pos_left hb (omega arith) in
    let wide : suc a * m ≤ m * m = Nat.mul-le-mul_right m (omega arith) in omega arith

pub mul64-eq : (a b : ℕ) → a < u32_mod → b < u32_mod → mul64 a b ≡ a * b
unfolding mul64
mul64-eq a b ha hb = Nat.mod-eq_of_lt (product_fits a b u32_mod ha hb)

pub factor_pos : (a b c : ℕ) → a * b ≡ c → 0 < c → 0 < a
factor_pos zero b c e h = absurd (omega (arith, Nat.zero-mul b))
factor_pos (suc a) b c e h = omega arith

-- `n / d` is `x / base` in lowest terms, with `g` taken out.
crossed :
    (n d g x y base p c : ℕ)
    → n * g ≡ x
    → d * g ≡ base
    → x * p ≡ y * c
    → 0 < g
    → 0 < c
    → lowest (n * p) (d * c) ≡ lowest y base
crossed n d g x y base p c of_x of_base balanced g_pos c_pos =
    sym (lowest-mul (n * p) (d * c) g g_pos)
    ∙ rw (Nat.mul_right_comm n p g, Nat.mul_right_comm d c g, of_x, of_base, balanced)
        (lowest-mul y base c c_pos)

-- From the ratio of a node to that of a neighbor: `x` and `y` are the repetitions of the two nodes
-- in a solution of which `base` is the common denominator.
pub reduce_ratio_step :
    (x y base p c : ℕ)
    → 0 < x
    → x < u32_mod
    → base < u32_mod
    → 0 < p
    → p < u32_mod
    → 0 < c
    → c < u32_mod
    → x * p ≡ y * c
    → reduce_ratio (mul64 (lowest x base).0 p) (mul64 (lowest x base).1 c) ≡ done (lowest y base)
reduce_ratio_step x y base p c x_pos x_fits base_fits p_pos p_fits c_pos c_fits balanced =
    let g = gcd x base in
    let n = (lowest x base).0 in
    let d = (lowest x base).1 in
    let (whole_x, whole_base) = lowest_parts x base in
    let n_pos : 0 < n = factor_pos n g x whole_x x_pos in
    let product_pos : 0 < n * p = Nat.mul-pos n_pos p_pos in
    rw
      (
        mul64-eq n p (omega (arith, Nat.div-le_self x g)) p_fits,
        mul64-eq d c (omega (arith, Nat.div-le_self base g)) c_fits,
        reduce_ratio-lowest (n * p) (d * c) product_pos,
      )
      (ap (λ r. done r)
        (crossed n d g x y base p c whole_x whole_base balanced (gcd-pos x base x_pos) c_pos))

pub lowest_self : (b : ℕ) → 0 < b → (1, 1) ≡ lowest b b
lowest_self b h =
    let whole : gcd b b ≡ b =
      Nat.dvd_antisymm (gcd-dvd b b).0 (dvd-gcd b b b (Nat.dvd_refl b) (Nat.dvd_refl b)) in
    rw (whole, Nat.div_self h) refl
