-- ===== src/Tests/Refunds.antt =====
-- A refund whose product with the credits needs more than 64 bits.
use kungfu.Base.{◌-◌, ◌^◌, ◌≡◌, refl, pos, arith}
use kungfu.Payment.{reversed, reversal_target, proportional, mul64, div64, fits_int64, to_uint64}
use kungfu.Payment.Reversal.{exact_target, reversal_target-exact}

reversal_target-exact_example :
    reversal_target (pos (2 ^ 63 - 1)) (pos 99) (pos 100)
    ≡ exact_target (pos (2 ^ 63 - 1)) (pos 99) (pos 100)
reversal_target-exact_example =
    reversal_target-exact (pos (2 ^ 63 - 1)) (pos 99) (pos 100) (omega arith, omega arith)
      (omega arith, omega arith)

large_refund :
    reversal_target (pos (2 ^ 63 - 1)) (pos 99) (pos 100) ≡ reversed (pos 9131138316486228048)
unfolding reversal_target proportional mul64 div64 fits_int64 to_uint64
large_refund = refl
