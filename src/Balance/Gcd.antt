-- ===== src/Balance/Gcd.antt =====
-- Euclid's algorithm, `gcd` of compiler/src/analyze.rs.
use Prim.Native.Nat.{◌∣◌}
use native.Mathlib.Nat
use pipeit.Base.{ℕ, zero, suc, ◌*◌, ◌/◌, ◌%◌, ◌<◌, ◌≡◌, subst, arith}

-- The recursion with fuel; it ends when the second argument is zero.
gcd_rounds : ℕ → ℕ → ℕ → ℕ
gcd_rounds zero a b = a
gcd_rounds (suc fuel) a zero = a
gcd_rounds (suc fuel) a (suc b) = gcd_rounds fuel (suc b) (a % suc b)

-- The second argument falls in each round, so that one more than its value is enough.
unfoldable pub gcd : ℕ → ℕ → ℕ
unfolding gcd_rounds
gcd a b = gcd_rounds (suc b) a b

rounds-dvd : (fuel a b : ℕ) → b < fuel → (gcd_rounds fuel a b ∣ a) × (gcd_rounds fuel a b ∣ b)
unfolding gcd_rounds
rounds-dvd zero a b h = absurd (omega arith)
rounds-dvd (suc fuel) a zero h = (Nat.dvd_refl a, Nat.dvd-zero a)
rounds-dvd (suc fuel) a (suc b) h =
    let (of_b, of_rest) = rounds-dvd fuel (suc b) (a % suc b) (omega arith) in
    ((Nat.dvd-mod_iff _ of_b).0 of_rest, of_b)

rest-dvd : (k a b c : ℕ) → k ∣ a * c → k ∣ b * c → k ∣ a % b * c
rest-dvd k a b c ka kb =
    (Nat.dvd-add_iff_right k (Nat.dvd-mul_right_of_dvd k kb (a / b))).1
      (subst (◌∣◌ k) (grind (arith, Nat.div-add-mod)) ka)

dvd-rounds : (fuel k c a b : ℕ) → b < fuel → k ∣ a * c → k ∣ b * c → k ∣ gcd_rounds fuel a b * c
unfolding gcd_rounds
dvd-rounds zero k c a b h ka kb = absurd (omega arith)
dvd-rounds (suc fuel) k c a zero h ka kb = ka
dvd-rounds (suc fuel) k c a (suc b) h ka kb =
    dvd-rounds fuel k c (suc b) (a % suc b) (omega arith) kb (rest-dvd k a (suc b) c ka kb)

pub gcd-dvd : (a b : ℕ) → (gcd a b ∣ a) × (gcd a b ∣ b)
unfolding gcd
gcd-dvd a b = rounds-dvd (suc b) a b (omega arith)

pub dvd-gcd-mul : (k a b c : ℕ) → k ∣ a * c → k ∣ b * c → k ∣ gcd a b * c
unfolding gcd
dvd-gcd-mul k a b c = dvd-rounds (suc b) k c a b (omega arith)

pub dvd-gcd : (k a b : ℕ) → k ∣ a → k ∣ b → k ∣ gcd a b
dvd-gcd k a b ka kb =
    subst (◌∣◌ k) (Nat.mul-one (gcd a b))
      (dvd-gcd-mul k a b 1 (Nat.dvd-mul_right_of_dvd k ka 1) (Nat.dvd-mul_right_of_dvd k kb 1))

-- A common factor comes out.
pub gcd-mul : (a b x : ℕ) → gcd (a * x) (b * x) ≡ gcd a b * x
gcd-mul a b x =
    Nat.dvd_antisymm
      (dvd-gcd-mul (gcd (a * x) (b * x)) a b x (gcd-dvd (a * x) (b * x)).0
        (gcd-dvd (a * x) (b * x)).1)
      (dvd-gcd (gcd a b * x) (a * x) (b * x) (Nat.mul-dvd-mul_right (gcd a b) (gcd-dvd a b).0 x)
        (Nat.mul-dvd-mul_right (gcd a b) (gcd-dvd a b).1 x))

pub gcd-pos : (a b : ℕ) → 0 < a → 0 < gcd a b
gcd-pos a b h = Nat.pos_of_dvd_of_pos (gcd-dvd a b).0 h
