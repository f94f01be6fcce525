-- ===== src/RateLimit/Collection.antt =====
-- `GC` of internal/ratelimit/ratelimit.go is not seen by the calls.
use kungfu.Base.{
  ℕ, String, ◌≤◌, ◌≡◌, refl, Option, some, List, leb, length, Bool-cases, Option-cases, inl, inr,
}
use kungfu.RateLimit.{
  Config, Limiter, Result, filter_window, config_of, check, check_with, admit, inspect,
  inspect_with, remaining_with, gc, gc_window,
}
use kungfu.RateLimit.Windows.{filter_window-filter_window}

-- the answers of the three calls on a key
abbrev pub answers : String → String → ℕ → Limiter → Result × Result × Option ℕ
answers key action now l = (
  (check key action now l).0,
  (inspect key action now l).0,
  (remaining_with (config_of action l) key now l).0,
)

admit-same :
    (cfg : Config) (timestamps : List ℕ) (key : String) (now : ℕ) (l k : Limiter)
    → (admit cfg timestamps key now l).0 ≡ (admit cfg timestamps key now k).0
unfolding admit
admit-same cfg timestamps key now l k = elim (Bool-cases (leb cfg.limit (length timestamps))) [
  | inl y ↦ rw y refl
  | inr n ↦ rw n refl
]

config_of-gc :
    (action : String) (now : ℕ) (l : Limiter) → config_of action (gc now l) ≡ config_of action l
unfolding config_of gc
config_of-gc action now l = refl

filter_window-gc :
    (key : String) (now later window : ℕ) (l : Limiter)
    → now ≤ later
    → window ≤ gc_window
    → filter_window ((gc now l).stores key) later window ≡ filter_window (l.stores key) later window
unfolding gc
filter_window-gc key now later window l n w =
    filter_window-filter_window (l.stores key) now later window gc_window n w

-- Where the configuration of an action, if there is an enabled one, has a window of at most 30 days,
-- every call on a key answers after a collection, at the same time or later, as it does without it.
pub gc-answers :
    (key action : String) (now later : ℕ) (l : Limiter)
    → now ≤ later
    → ((cfg : Config) → config_of action l ≡ some cfg → cfg.window ≤ gc_window)
    → answers key action later (gc now l) ≡ answers key action later l
unfolding check inspect check_with inspect_with remaining_with
gc-answers key action now later l n w = elim (Option-cases (config_of action l)) [
  | inl e ↦ rw (config_of-gc action now l, e) refl
  | inr (cfg, e) ↦
      rw (config_of-gc action now l, e, filter_window-gc key now later cfg.window l n (w cfg e))
        (rw (admit-same cfg (filter_window (l.stores key) later cfg.window) key later (gc now l) l)
          refl)
]
