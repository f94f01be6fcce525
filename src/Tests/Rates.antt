-- ===== src/Tests/Rates.antt =====
-- A limiter of two checks in ten seconds, and what it does.
use kungfu.Base.{
  ℕ, String, ◌≤◌, ◌≡◌, refl, true, Option, none, some, List, [], ◌∷◌, count, if◌then◌else◌, arith,
}
use kungfu.RateLimit.{
  Config, Limiter, new_limiter, check, check_with, admit, inspect, inspect_with, filter_window,
  is_recent, stored_as, config_of, gc, format_result, retry_seconds, min_from, remaining_with,
}
use kungfu.RateLimit.Admission.{
  Call, checks, inspects, collects, perform, admits, admitted, is_within, IsRun,
}
use kungfu.RateLimit.Bounds.{admitted-IsWithin}
use kungfu.RateLimit.Retry.{IsAnswered, check-IsAnswered}
use kungfu.RateLimit.Collection.{answers, gc-answers}
use text.Mathlib.TextEquality.{eq_iff}
use text.Mathlib.Text.{◌==◌ as str_eq}

-- to compute with the limiter
unfoldable rates_running : ℕ
unfolding admitted is_within perform admits check check_with admit inspect inspect_with
    filter_window is_recent stored_as config_of gc format_result retry_seconds min_from
    remaining_with count
rates_running = 0

abbrev two_in_ten : Config
two_in_ten = record { window = 10; limit = 2; enabled = true }

abbrev only_push : String → Option Config
only_push action = if str_eq action "push" then some two_in_ten else none

abbrev limiter : Limiter
limiter = new_limiter only_push

-- the third check comes too early, the fourth when the first has left
abbrev pushes : List (ℕ × Call)
pushes =
    (100, checks "a" "push")
    ∷ (104, checks "a" "push")
    ∷ (109, checks "a" "push")
    ∷ (109, inspects "a" "push")
    ∷ (109, collects)
    ∷ (110, checks "a" "push")
    ∷ (110, checks "b" "get")
    ∷ []

admitted_now : admitted "a" pushes limiter ≡ 100 ∷ 104 ∷ 110 ∷ []
unfolding rates_running
admitted_now = refl

pushes-IsRun : IsRun "a" "push" 0 pushes
pushes-IsRun = (
  omega arith,
  (λ p. refl),
  (
    omega arith,
    (λ p. refl),
    (
      omega arith,
      (λ p. refl),
      (
        omega arith,
        (λ p. refl),
        (
          omega arith,
          tt,
          (
            omega arith,
            (λ p. refl),
            (omega arith, (λ p. absurd (ground (arith, (eq_iff "a" "b").1 p))), tt),
          ),
        ),
      ),
    ),
  ),
)

push_config : config_of "push" limiter ≡ some two_in_ten
unfolding rates_running
push_config = refl

admitted-IsWithin_example : count (is_within 10 110) (admitted "a" pushes limiter) ≤ 2
admitted-IsWithin_example =
    admitted-IsWithin "a" "push" two_in_ten 0 pushes limiter push_config (omega arith) refl
      pushes-IsRun 110

abbrev used : Limiter
used = record { stores = λ key. if str_eq key "a" then 100 ∷ 104 ∷ [] else []; configs = only_push }

-- the wait is one second
check-IsAnswered_example : IsAnswered "a" "push" 109 1 (check "a" "push" 109 used)
unfolding rates_running
check-IsAnswered_example =
    check-IsAnswered "a" "push" two_in_ten 109 1 used refl (omega arith) (omega arith) refl

push_wait : (check "a" "push" 109 used).0.retry_after ≡ 1
unfolding rates_running
push_wait = refl

gc-answers_example : answers "a" "push" 112 (gc 110 used) ≡ answers "a" "push" 112 used
unfolding rates_running
gc-answers_example = gc-answers "a" "push" 110 112 used (omega arith) (λ cfg e. ground (arith, e))
