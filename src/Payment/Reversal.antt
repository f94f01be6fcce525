-- ===== src/Payment/Reversal.antt =====
-- The 128-bit arithmetic of `reversalTarget` (internal/payment/creem_adjustments.go) against division.
use kungfu.Base.{
  ℕ, ◌+◌, ◌-◌, ◌*◌, ◌/◌, ◌%◌, ◌^◌, ◌≤◌, ◌<◌, ◌≡◌, refl, Bool, ◌&&◌, ℤ, pos, negsuc, ◌≤ℤ◌, ltb, leb,
  if◌then◌else◌, Bool-cases, inl, inr, arith,
}
use kungfu.Payment.{
  Target, reversed, reversal_error, to_uint64, mul64, div64, fits_int64, proportional,
  reversal_target,
}
use native.Mathlib.Nat.{mul-le-mul_left, mul-le-mul_right, div-le_of_le-mul, mul-div_left, mul_comm}

abbrev pub IsInt64 : ℤ → Type 0
IsInt64 n = (negsuc (2 ^ 63 - 1) ≤ℤ n) × (n ≤ℤ pos (2 ^ 63 - 1))

abbrev is_refund : ℕ → ℕ → ℕ → Bool
is_refund credits refunded paid = ltb 0 paid && (leb refunded paid && ltb 0 credits)

-- credits * refunded / paid, rounded down, where a part of a positive payment is refunded
unfoldable pub exact_target : ℤ → ℤ → ℤ → Target
exact_target (pos credits) (pos refunded) (pos paid) =
    if is_refund credits refunded paid
    then reversed (pos ((credits * refunded) / paid))
    else reversal_error
exact_target _ _ _ = reversal_error

high-low : (x : ℕ) → (x / 2 ^ 64) * 2 ^ 64 + x % 2 ^ 64 ≡ x
high-low x = omega arith

-- the high half of the product stays below the divisor
high_small : (x c r p : ℕ) → x ≡ c * r → c ≤ 2 ^ 63 - 1 → r < p → x / 2 ^ 64 < p
high_small x c r p e b l =
    let m : x ≤ (2 ^ 63 - 1) * r = rw e (mul-le-mul_right r b) in omega (arith, m, l)

quotient_small : (c r p : ℕ) → r < p → (c * r) / p ≤ c
quotient_small c r p l =
    div-le_of_le-mul p (rw (mul_comm p c) (mul-le-mul_left c (omega (arith, l))))

proportional-exact :
    (c r p : ℕ) → c ≤ 2 ^ 63 - 1 → r < p → proportional c r p ≡ reversed (pos ((c * r) / p))
unfolding proportional mul64 div64 fits_int64
proportional-exact c r p b l =
    ground (arith, high_small (c * r) c r p refl b l, high-low (c * r), quotient_small c r p l, b)

reversed_in_full : (c p : ℕ) → 0 < p → (c * p) / p ≡ c
reversed_in_full c p l = mul-div_left c l

small : (n : ℕ) → n ≤ 2 ^ 63 - 1 → n % 2 ^ 64 ≡ n
small n b = omega (arith, b)

target-pos :
    (c r p : ℕ)
    → c ≤ 2 ^ 63 - 1
    → p ≤ 2 ^ 63 - 1
    → reversal_target (pos c) (pos r) (pos p) ≡ exact_target (pos c) (pos r) (pos p)
unfolding reversal_target exact_target to_uint64
target-pos c r p b d = elim (Bool-cases (is_refund c r p)) [
  | inl y ↦ elim (Bool-cases (leb p r)) [
    | inl m ↦
        let e : r ≡ p = ground (arith, y, m) in
        rw (e) (ground (arith, y, m, e, reversed_in_full c p (ground (arith, y))))
    | inr m ↦ ground (
      arith,
      y,
      m,
      small c b,
      small r (ground (arith, m, d)),
      small p d,
      proportional-exact c r p b (ground (arith, m)),
    )
  ]
  | inr n ↦ ground (arith, n)
]

-- For all int64 credits of a payment, minor units refunded and minor units paid, the 128-bit computation
-- gives credits * refunded / paid, rounded down, if the payment and the credits are positive and the refund
-- is between nothing and the payment, and an error otherwise; the division never panics and no result is
-- refused as too large.
pub reversal_target-exact :
    (credits refunded paid : ℤ)
    → IsInt64 credits
    → IsInt64 paid
    → reversal_target credits refunded paid ≡ exact_target credits refunded paid
unfolding reversal_target exact_target
reversal_target-exact (pos c) (pos r) (pos p) (_, b) (_, d) =
    target-pos c r p (omega (arith, b)) (omega (arith, d))
reversal_target-exact (pos c) (pos r) (negsuc p) b d = ground arith
reversal_target-exact (pos c) (negsuc r) (pos p) b d = ground arith
reversal_target-exact (pos c) (negsuc r) (negsuc p) b d = ground arith
reversal_target-exact (negsuc c) (pos r) (pos p) b d = ground arith
reversal_target-exact (negsuc c) (pos r) (negsuc p) b d = ground arith
reversal_target-exact (negsuc c) (negsuc r) (pos p) b d = ground arith
reversal_target-exact (negsuc c) (negsuc r) (negsuc p) b d = ground arith
