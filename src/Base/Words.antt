-- ===== src/Base/Words.antt =====
-- Unsigned machine words: the wrap-around of a release build is written out.
use Prim.Native.Nat.{ℕ, ◌+◌, ◌-◌, ◌*◌, ◌%◌, ◌<◌}
use mathlib.Core.Path.{◌≡◌}
use native.Mathlib.Omega.{arith}

abbrev pub u32_mod : ℕ
u32_mod = 4294967296

abbrev pub u64_mod : ℕ
u64_mod = 18446744073709551616

-- `x += 1` and `x -= 1` on a u32
unfoldable pub inc32 : ℕ → ℕ
inc32 x = (x + 1) % u32_mod

unfoldable pub dec32 : ℕ → ℕ
dec32 x = (x + u32_mod - 1) % u32_mod

unfoldable pub mul32 : ℕ → ℕ → ℕ
mul32 a b = (a * b) % u32_mod

unfoldable pub mul64 : ℕ → ℕ → ℕ
mul64 a b = (a * b) % u64_mod

pub inc32-eq : (x : ℕ) → x + 1 < u32_mod → inc32 x ≡ x + 1
unfolding inc32
inc32-eq x h = omega arith

pub dec32-eq : (x : ℕ) → 0 < x → x < u32_mod → dec32 x + 1 ≡ x
unfolding dec32
dec32-eq x p h = omega arith
