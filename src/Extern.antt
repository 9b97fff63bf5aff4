-- ===== src/Extern.antt =====
-- What the compiler takes from outside its sources: IEEE doubles, with the conversions and tests
-- that the code applies to them, and the source spans of the parser library (chumsky).
pub mod Sample
use Prim.Native.Nat.{ℕ, ◌<◌}
use mathlib.Core.Path.{◌≡◌}
use mathlib.Core.Bool.{Bool, true, false}
use pipeit.Base.{u32_mod, String}

pub record Extern : Type 1 where
  pub F64 : Type 0
  pub Span : Type 0
  -- `Span::new((), 0..0)`
  pub no_span : Span
  -- `n as f64` and `x as u32`
  pub from_u32 : ℕ → F64
  pub as_u32 : F64 → ℕ
  -- `x <= y` and `x < y`
  pub le : F64 → F64 → Bool
  pub lt : F64 → F64 → Bool
  -- `format!("{}", n)`
  pub show : ℕ → String
  pub div : F64 → F64 → F64
  pub ceil : F64 → F64

-- The documented fact that the proofs use: different numbers are printed differently.
pub record IsExtern (X : Extern) : Type 0 where
  pub show-injective : (m n : ℕ) → X.show m ≡ X.show n → m ≡ n
