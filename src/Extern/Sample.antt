-- ===== src/Extern/Sample.antt =====
-- A concrete outside world for the tests: doubles that are whole numbers, and no spans.
use Prim.Native.Nat.{min}
use Prim.Native.String.{String, count}
use text.Mathlib.TextLemmas.{length-cons}
use pipeit.Base.{zero, suc, sym, ap, refl, ◌∙◌, ℕ, ◌-◌, ◌/◌, ◌≡◌, leb, ltb, u32_mod}
use pipeit.Extern.{Extern, IsExtern}

-- A number as so many strokes.
abbrev strokes : ℕ → String
strokes zero = ""
strokes (suc n) = String.◌∷◌ "i" (strokes n)

abbrev pub whole : Extern
whole = record {
  F64 = ℕ;
  Span = Unit {0};
  no_span = tt;
  from_u32 = λ n. n;
  as_u32 = λ x. min x (u32_mod - 1);
  le = leb;
  lt = ltb;
  show = strokes;
  div = λ a b. a / b;
  ceil = λ x. x;
}

count-strokes : (n : ℕ) → count (strokes n) ≡ n
count-strokes zero = refl
count-strokes (suc n) = length-cons "i" (strokes n) ∙ ap suc (count-strokes n)

strokes-injective : (m n : ℕ) → strokes m ≡ strokes n → m ≡ n
strokes-injective m n h = sym (count-strokes m) ∙ (ap count h ∙ count-strokes n)

pub whole-IsExtern : IsExtern whole
whole-IsExtern = record { show-injective = strokes-injective }
