-- ===== src/RateLimit/Admission.antt =====
-- How many requests a limiter of internal/ratelimit/ratelimit.go lets through in one window.
use kungfu.Base.{
  ℕ, String, ◌+◌, ◌≤◌, ◌≡◌, Bool, false, ◌&&◌, List, [], ◌∷◌, ◌++◌, leb, length, count, le-count,
  if◌then◌else◌, Bool-cases, inl, inr, arith,
}
use kungfu.RateLimit.{
  Config, Limiter, is_recent, filter_window, config_of, check, inspect, remaining_with, gc,
}
use kungfu.RateLimit.Windows.{
  length-filter_window, count-filter_window, count-append, count-is_recent_later,
}
use text.Mathlib.Text.{◌==◌ as str_eq}

-- the calls on the keys of a limiter
pub data Call : Type 0 where
  checks inspects counts : String → String → Call
  collects : Call

unfoldable pub perform : Call → ℕ → Limiter → Limiter
perform (checks key action) now l = (check key action now l).1
perform (inspects key action) now l = (inspect key action now l).1
perform (counts key action) now l = (remaining_with (config_of action l) key now l).1
perform collects now l = gc now l

unfoldable pub admits : String → Call → ℕ → Limiter → Bool
admits key (checks other action) now l = str_eq key other && (check other action now l).0.allowed
admits key (inspects other action) now l = false
admits key (counts other action) now l = false
admits key collects now l = false

-- the times of the checks of a key that a sequence of calls lets through
unfoldable pub admitted : String → List (ℕ × Call) → Limiter → List ℕ
admitted key [] l = []
admitted key ((now, call) ∷ calls) l =
    let rest = admitted key calls (perform call now l) in
    if admits key call now l then now ∷ rest else rest

-- within the window that ends at a time
unfoldable pub is_within : ℕ → ℕ → ℕ → Bool
is_within window end ts = leb ts end && is_recent end window ts

-- a key belongs to one action
abbrev pub Uses : String → String → Call → Type 0
Uses key action (checks other a) = key ≡ other → a ≡ action
Uses key action (inspects other a) = key ≡ other → a ≡ action
Uses key action (counts other a) = key ≡ other → a ≡ action
Uses key action collects = Unit {0}

-- the clock does not go back
abbrev pub IsRun : String → String → ℕ → List (ℕ × Call) → Type 0
IsRun key action start [] = Unit {0}
IsRun key action start ((now, call) ∷ calls) =
    (start ≤ now) × Uses key action call × IsRun key action now calls

-- what the times stored still know of the requests let through
pub record IsCounted (cfg : Config) (log : List ℕ) (timestamps : List ℕ) (now : ℕ) : Type 0 where
  pub seen :
      (later : ℕ)
      → now ≤ later
      → count (is_recent later cfg.window) log ≤ count (is_recent later cfg.window) timestamps
  pub few : (end : ℕ) → count (is_within cfg.window end) log ≤ cfg.limit

module _ (cfg : Config) where
  pub IsCounted-later :
      (log timestamps : List ℕ) (now later : ℕ)
      → now ≤ later
      → IsCounted cfg log timestamps now
      → IsCounted cfg log timestamps later
  IsCounted-later log timestamps now later n v = record {
    seen = λ t m. v.seen t (omega (arith, n, m));
    few = v.few;
  }

  pub IsCounted-filter_window :
      (log timestamps : List ℕ) (now longer : ℕ)
      → cfg.window ≤ longer
      → IsCounted cfg log timestamps now
      → IsCounted cfg log (filter_window timestamps now longer) now
  IsCounted-filter_window log timestamps now longer w v = record {
    seen = λ t m.
        omega (arith, v.seen t m, count-filter_window timestamps now t cfg.window longer m w);
    few = v.few;
  }

  within_few :
      (log timestamps : List ℕ) (now end : ℕ)
      → now ≤ end
      → IsCounted cfg log timestamps now
      → leb cfg.limit (length (filter_window timestamps now cfg.window)) ≡ false
      → count (is_within cfg.window end) log + 1 ≤ cfg.limit
  unfolding is_within
  within_few log timestamps now end n v g = ground (
    arith,
    n,
    g,
    le-count (is_within cfg.window end) (is_recent end cfg.window) log (λ ts e. ground (arith, e)),
    v.seen end n,
    count-is_recent_later timestamps now end cfg.window n,
    length-filter_window timestamps now cfg.window,
  )

  pub IsCounted-admit :
      (log timestamps : List ℕ) (now : ℕ)
      → IsCounted cfg log timestamps now
      → leb cfg.limit (length (filter_window timestamps now cfg.window)) ≡ false
      → IsCounted cfg (now ∷ log) (filter_window timestamps now cfg.window ++ now ∷ []) now
  unfolding count is_within
  IsCounted-admit log timestamps now v g = record {
    seen = λ t m. omega (
      arith,
      v.seen t m,
      count-filter_window timestamps now t cfg.window cfg.window m (omega arith),
      count-append (is_recent t cfg.window) (filter_window timestamps now cfg.window) now,
    );
    few = λ end. elim (Bool-cases (leb now end)) [
      | inl y ↦ ground (arith, y, within_few log timestamps now end (ground (arith, y)) v g)
      | inr n ↦ ground (arith, n, v.few end)
    ];
  }
