-- ===== src/Payment.antt =====
-- internal/payment/creem_adjustments.go: how many credits of a payment a refund takes back in total.
use kungfu.Base.{
  ℕ, ◌+◌, ◌-◌, ◌*◌, ◌/◌, ◌%◌, ◌^◌, ◌≡◌, Bool, true, false, ◌||◌, Option, none, some, ℤ, pos, negsuc,
  leb_ℤ, ltb_ℤ, ltb, leb, if◌then◌else◌,
}
pub mod Reversal

-- the number of credits, an error, or the panic of bits.Div64
pub data Target : Type 0 where
  reversed : ℤ → Target
  reversal_error division_panics : Target

-- uint64(n) of an int64
unfoldable pub to_uint64 : ℤ → ℕ
to_uint64 (pos n) = n % 2 ^ 64
to_uint64 (negsuc n) = 2 ^ 64 - 1 - n

-- bits.Mul64
unfoldable pub mul64 : ℕ → ℕ → ℕ × ℕ
mul64 x y = ((x * y) / 2 ^ 64, (x * y) % 2 ^ 64)

-- bits.Div64, which panics for y == 0 (division by zero) or y <= hi (quotient overflow)
unfoldable pub div64 : ℕ → ℕ → ℕ → Option ℕ
div64 hi lo y = if leb y hi then none else some ((hi * 2 ^ 64 + lo) / y)

unfoldable pub fits_int64 : Option ℕ → Target
fits_int64 none = division_panics
fits_int64 (some quo) = if ltb (2 ^ 63 - 1) quo then reversal_error else reversed (pos quo)

unfoldable pub proportional : ℕ → ℕ → ℕ → Target
proportional credits refunded paid =
    let (hi, lo) = mul64 credits refunded in fits_int64 (div64 hi lo paid)

unfoldable pub reversal_target : ℤ → ℤ → ℤ → Target
reversal_target credits refunded paid =
    if leb_ℤ paid (pos 0)
    then reversal_error
    else if ltb_ℤ refunded (pos 0) || ltb_ℤ paid refunded
    then reversal_error
    else if leb_ℤ credits (pos 0)
    then reversal_error
    else if leb_ℤ paid refunded
    then reversed credits
    else proportional (to_uint64 credits) (to_uint64 refunded) (to_uint64 paid)
