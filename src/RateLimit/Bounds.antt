-- ===== src/RateLimit/Bounds.antt =====
-- The bound that internal/ratelimit/ratelimit.go keeps over any sequence of calls.
use kungfu.Base.{
  ℕ, String, ◌+◌, ◌≤◌, ◌≡◌, refl, sym, ◌∙◌, true, false, Option, none, some, List, [], ◌∷◌, leb,
  length, count, if◌then◌else◌, Bool-cases, inl, inr, arith,
}
use kungfu.RateLimit.{
  Config, Limiter, Result, filter_window, stored_as, config_of, check, check_with, admit, inspect,
  inspect_with, remaining_with, gc, gc_window, format_result,
}
use kungfu.RateLimit.Admission.{
  Call, checks, inspects, counts, collects, perform, admits, admitted, is_within, Uses, IsRun,
  IsCounted, IsCounted-later, IsCounted-filter_window, IsCounted-admit,
}
use text.Mathlib.Text.{◌==◌ as str_eq}
use text.Mathlib.TextEquality.{eq_iff}

pub same_key : (key : String) → str_eq key key ≡ true
same_key key = (eq_iff key key).1 refl

check_with-configs :
    (o : Option Config) (key : String) (now : ℕ) (l : Limiter)
    → (check_with o key now l).1.configs ≡ l.configs
unfolding check_with admit stored_as
check_with-configs none key now l = refl
check_with-configs (some cfg) key now l =
    elim (Bool-cases (leb cfg.limit (length (filter_window (l.stores key) now cfg.window)))) [
      | inl y ↦ rw y refl
      | inr n ↦ rw n refl
    ]

check_with-stores :
    (o : Option Config) (key other : String) (now : ℕ) (l : Limiter)
    → str_eq key other ≡ false
    → (check_with o other now l).1.stores key ≡ l.stores key
unfolding check_with admit stored_as
check_with-stores none key other now l d = refl
check_with-stores (some cfg) key other now l d =
    elim (Bool-cases (leb cfg.limit (length (filter_window (l.stores other) now cfg.window)))) [
      | inl y ↦ rw (y, d) refl
      | inr n ↦ rw (n, d) refl
    ]

inspect_with-stores :
    (o : Option Config) (key other : String) (now : ℕ) (l : Limiter)
    → str_eq key other ≡ false
    → (inspect_with o other now l).1.stores key ≡ l.stores key
unfolding inspect_with stored_as
inspect_with-stores none key other now l d = refl
inspect_with-stores (some cfg) key other now l d = rw d refl

inspect_with-configs :
    (o : Option Config) (key : String) (now : ℕ) (l : Limiter)
    → (inspect_with o key now l).1.configs ≡ l.configs
unfolding inspect_with stored_as
inspect_with-configs none key now l = refl
inspect_with-configs (some cfg) key now l = refl

remaining_with-stores :
    (o : Option Config) (key other : String) (now : ℕ) (l : Limiter)
    → str_eq key other ≡ false
    → (remaining_with o other now l).1.stores key ≡ l.stores key
unfolding remaining_with stored_as
remaining_with-stores none key other now l d = refl
remaining_with-stores (some cfg) key other now l d = rw d refl

remaining_with-configs :
    (o : Option Config) (key : String) (now : ℕ) (l : Limiter)
    → (remaining_with o key now l).1.configs ≡ l.configs
unfolding remaining_with stored_as
remaining_with-configs none key now l = refl
remaining_with-configs (some cfg) key now l = refl

perform-configs : (call : Call) (now : ℕ) (l : Limiter) → (perform call now l).configs ≡ l.configs
unfolding perform check inspect gc
perform-configs (checks key a) now l = check_with-configs (config_of a l) key now l
perform-configs (inspects key a) now l = inspect_with-configs (config_of a l) key now l
perform-configs (counts key a) now l = remaining_with-configs (config_of a l) key now l
perform-configs collects now l = refl

config_of-perform :
    (action : String) (call : Call) (now : ℕ) (l : Limiter)
    → config_of action (perform call now l) ≡ config_of action l
unfolding config_of
config_of-perform action call now l = rw (perform-configs call now l) refl

module _ (key : String) (action : String) (cfg : Config) where
  -- what is counted after a call
  abbrev IsCountedAfter : List ℕ → Call → ℕ → Limiter → Type 0
  IsCountedAfter log call now l =
      IsCounted cfg (if admits key call now l then now ∷ log else log)
        ((perform call now l).stores key) now

  abbrev IsCountedIn : List ℕ → ℕ → Result × Limiter → Type 0
  IsCountedIn log now r =
      IsCounted cfg (if r.0.allowed then now ∷ log else log) (r.1.stores key) now

  admit-IsCounted :
      (log : List ℕ) (now : ℕ) (l : Limiter)
      → IsCounted cfg log (l.stores key) now
      → IsCountedIn log now (admit cfg (filter_window (l.stores key) now cfg.window) key now l)
  unfolding admit stored_as format_result
  admit-IsCounted log now l v =
      elim (Bool-cases (leb cfg.limit (length (filter_window (l.stores key) now cfg.window)))) [
        | inl y ↦
            rw (y, same_key key)
              (IsCounted-filter_window cfg log (l.stores key) now cfg.window (omega arith) v)
        | inr n ↦ rw (n, same_key key) (IsCounted-admit cfg log (l.stores key) now v n)
      ]

  check-IsCounted :
      (log : List ℕ) (now : ℕ) (l : Limiter)
      → config_of action l ≡ some cfg
      → IsCounted cfg log (l.stores key) now
      → IsCountedIn log now (check key action now l)
  unfolding check check_with
  check-IsCounted log now l c v = rw c (admit-IsCounted log now l v)

  inspect-IsCounted :
      (log : List ℕ) (now : ℕ) (l : Limiter)
      → config_of action l ≡ some cfg
      → IsCounted cfg log (l.stores key) now
      → IsCounted cfg log ((inspect key action now l).1.stores key) now
  unfolding inspect inspect_with stored_as
  inspect-IsCounted log now l c v =
      rw (c, same_key key)
        (IsCounted-filter_window cfg log (l.stores key) now cfg.window (omega arith) v)

  remaining-IsCounted :
      (log : List ℕ) (now : ℕ) (l : Limiter)
      → config_of action l ≡ some cfg
      → IsCounted cfg log (l.stores key) now
      → IsCounted cfg log ((remaining_with (config_of action l) key now l).1.stores key) now
  unfolding remaining_with stored_as
  remaining-IsCounted log now l c v =
      rw (c, same_key key)
        (IsCounted-filter_window cfg log (l.stores key) now cfg.window (omega arith) v)

  perform-IsCounted :
      (log : List ℕ) (call : Call) (now : ℕ) (l : Limiter)
      → config_of action l ≡ some cfg
      → cfg.window ≤ gc_window
      → Uses key action call
      → IsCounted cfg log (l.stores key) now
      → IsCountedAfter log call now l
  unfolding perform admits check inspect gc
  perform-IsCounted log (checks other a) now l c w u v = elim (Bool-cases (str_eq key other)) [
    | inl y ↦
        let p = (eq_iff key other).0 y in
        rw (sym p, u p, same_key key) (check-IsCounted log now l c v)
    | inr n ↦ rw (n, check_with-stores (config_of a l) key other now l n) v
  ]
  perform-IsCounted log (inspects other a) now l c w u v = elim (Bool-cases (str_eq key other)) [
    | inl y ↦ let p = (eq_iff key other).0 y in rw (sym p, u p) (inspect-IsCounted log now l c v)
    | inr n ↦ rw (inspect_with-stores (config_of a l) key other now l n) v
  ]
  perform-IsCounted log (counts other a) now l c w u v = elim (Bool-cases (str_eq key other)) [
    | inl y ↦ let p = (eq_iff key other).0 y in rw (sym p, u p) (remaining-IsCounted log now l c v)
    | inr n ↦ rw (remaining_with-stores (config_of a l) key other now l n) v
  ]
  perform-IsCounted log collects now l c w u v =
      IsCounted-filter_window cfg log (l.stores key) now gc_window w v

  -- what was let through before and what the calls let through, in one window
  admitted_few :
      (log : List ℕ) (start : ℕ) (calls : List (ℕ × Call)) (l : Limiter)
      → config_of action l ≡ some cfg
      → cfg.window ≤ gc_window
      → IsRun key action start calls
      → IsCounted cfg log (l.stores key) start
      → (end : ℕ)
      → count (is_within cfg.window end) log
          + count (is_within cfg.window end) (admitted key calls l)
        ≤ cfg.limit
  unfolding admitted count
  admitted_few log start [] l c w u v end = omega (arith, v.few end)
  admitted_few log start ((now, call) ∷ calls) l c w (n, u, us) v end =
      let rest =
        admitted_few (if admits key call now l then now ∷ log else log) now calls
          (perform call now l) (config_of-perform action call now l ∙ c) w us
          (perform-IsCounted log call now l c w u
            (IsCounted-later cfg log (l.stores key) start now n v))
          end in
      elim (Bool-cases (admits key call now l)) [
        | inl y ↦ ground (arith, y, rest)
        | inr e ↦ ground (arith, e, rest)
      ]

-- Over any sequence of calls at times that do not go back, on a key that belongs to one action, whose
-- configuration is enabled with a window of at most 30 days, a limiter with no times stored for the key
-- lets at most the limit of checks through in any window, whatever other keys do and whenever expired
-- entries are collected.
pub admitted-IsWithin :
    (key action : String) (cfg : Config) (start : ℕ) (calls : List (ℕ × Call)) (l : Limiter)
    → config_of action l ≡ some cfg
    → cfg.window ≤ gc_window
    → l.stores key ≡ []
    → IsRun key action start calls
    → (end : ℕ) → count (is_within cfg.window end) (admitted key calls l) ≤ cfg.limit
unfolding count
admitted-IsWithin key action cfg start calls l c w z u end = omega (
  arith,
  admitted_few key action cfg [] start calls l c w u
      (rw z (record { seen = λ t m. omega arith; few = λ e. omega arith })) end,
)
