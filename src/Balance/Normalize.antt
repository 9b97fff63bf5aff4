-- ===== src/Balance/Normalize.antt =====
-- `normalize_repetition_vector` and `lcm` of compiler/src/analyze.rs.
pub mod Least
use pipeit.Base.{
  ℕ, zero, suc, ◌+◌, ◌*◌, ◌/◌, ◌%◌, Bool, true, false, ◌||◌, ◌&&◌, Option, none, some, List, [],
  ◌∷◌, ◌++◌, map, String, Map, get, get_or, insert, or_insert, update, contains_key, length, eqb,
  ltb, if◌then◌else◌, inc32, mul64, u32_mod, nat_eq, string_eq, pair_eq, PartialEq,
}
use pipeit.Outcome.{Run, done, panic, out_of_fuel, ◌>>=◌, div}
use pipeit.Balance.Gcd.{gcd}
use pipeit.Balance.Search.{Ratio}
use pipeit.Graph.{NodeId}

unfoldable pub lcm : ℕ → ℕ → ℕ
lcm a b = if eqb a 0 || eqb b 0 then 0 else mul64 (a / gcd a b) b

-- The least common multiple of the denominators, from `acc` on.
unfoldable pub lcm_dens : Map NodeId Ratio → ℕ → ℕ
lcm_dens [] acc = acc
lcm_dens ((_, (_, d)) ∷ rs) acc = lcm_dens rs (lcm acc d)

-- The values for the common denominator, as u32.
unfoldable pub scale : ℕ → Map NodeId Ratio → Map NodeId ℕ → Run (Map NodeId ℕ)
scale lcm_den [] rv = done rv
scale lcm_den ((v, (num, den)) ∷ rs) rv =
    let rest = scale lcm_den rs in
    div lcm_den den >>= λ k. rest (insert rv v (mul64 num k % u32_mod))

unfoldable pub gcd_values : Map NodeId ℕ → ℕ → ℕ
gcd_values [] acc = acc
gcd_values ((_, n) ∷ rv) acc = gcd_values rv (gcd acc n)

unfoldable pub divide_all : ℕ → Map NodeId ℕ → Map NodeId ℕ
divide_all g rv = map (λ (v, n). (v, n / g)) rv

unfoldable pub normalize_repetition_vector : Map NodeId Ratio → Run (Map NodeId ℕ)
normalize_repetition_vector rv_rat = do
  rv ← scale (lcm_dens rv_rat 1) rv_rat []
  let g = gcd_values rv 0
  done (if ltb 1 g then divide_all g rv else rv)
