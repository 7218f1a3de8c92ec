-- ===== src/Subscriptions/Tests/Rounding.antt =====
-- Rounding to the nearest whole amount, a half upwards, has the laws that a proration needs.
use native.Mathlib.Nat as Nat
use paywall.Prelude.{ℕ, ◌+◌, ◌*◌, ◌/◌, ◌≤◌, ◌<◌, arith}
use paywall.Subscriptions.Proration.{Scale, IsRounding}

abbrev pub nearest : Scale
nearest a r t = (2 * (a * r) + t) / (2 * t)

div_mono : (x y k : ℕ) → 0 < k → x ≤ y → x / k ≤ y / k
div_mono x y k p h = (Nat.le-div_iff_mul-le p).1 (omega (arith, Nat.div-mul-le_self x k, h))

pub nearest-IsRounding : IsRounding nearest
nearest-IsRounding = record {
  none_left = λ a t p. Nat.div-eq_of_lt-le (2 * t) (omega arith) (omega arith);
  all_left = λ a t p. Nat.div-eq_of_lt-le (2 * t) (omega arith) (omega arith);
  amount_mono =
      λ a b r t p h. div_mono _ _ _ (omega arith) (omega (arith, Nat.mul-le-mul_right r h));
  days_mono = λ a r s t p h. div_mono _ _ _ (omega arith) (omega (arith, Nat.mul-le-mul_left a h));
}
