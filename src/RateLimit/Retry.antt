-- ===== src/RateLimit/Retry.antt =====
-- The seconds that internal/ratelimit/ratelimit.go tells a refused caller to wait.
use kungfu.Base.{
  ℕ, String, ◌+◌, ◌≤◌, ◌<◌, ◌≡◌, refl, sym, ap, subst, ◌∙◌, true, false, not, some, List, [], ◌∷◌,
  ltb, leb, length, one_if, count, Bool-cases, inl, inr, arith,
}
use kungfu.RateLimit.{
  Config, Limiter, Result, is_recent, filter_window, min_from, stored_as, config_of, check,
  check_with, admit, inspect, inspect_with, format_result, retry_seconds,
}
use kungfu.RateLimit.Windows.{length-filter_window, filter_window-filter_window}
use kungfu.RateLimit.Bounds.{same_key}

-- while the oldest time is in the window, all are
recent-count :
    (m : ℕ) (timestamps : List ℕ) (now window : ℕ)
    → is_recent now window (min_from m timestamps) ≡ true
    → (is_recent now window m ≡ true)
      × (count (is_recent now window) timestamps ≡ length timestamps)
unfolding count is_recent min_from
recent-count m [] now window e = (e, refl)
recent-count m (ts ∷ timestamps) now window e = elim (Bool-cases (ltb ts m)) [
  | inl y ↦ ground (arith, y, recent-count ts timestamps now window (ground (arith, y, e)))
  | inr n ↦ ground (arith, n, recent-count m timestamps now window (ground (arith, n, e)))
]

-- when the oldest time has left, one of them has
gone-count :
    (m : ℕ) (timestamps : List ℕ) (now window : ℕ)
    → is_recent now window (min_from m timestamps) ≡ false
    → one_if (is_recent now window m) + count (is_recent now window) timestamps ≤ length timestamps
unfolding count is_recent min_from
gone-count m [] now window e = ground (arith, e)
gone-count m (ts ∷ timestamps) now window e = elim (Bool-cases (ltb ts m)) [
  | inl y ↦ ground (arith, y, gone-count ts timestamps now window (ground (arith, y, e)))
  | inr n ↦ ground (arith, n, gone-count m timestamps now window (ground (arith, n, e)))
]

-- with as many times as the limit
retry-exact :
    (timestamps : List ℕ) (now window limit d : ℕ)
    → 0 < limit
    → length timestamps ≡ limit
    → not (leb limit (count (is_recent (now + d) window) timestamps))
      ≡ leb (retry_seconds false timestamps window now) d
unfolding count retry_seconds is_recent
retry-exact [] now window limit d p e = ground (arith, p, e)
retry-exact (m ∷ timestamps) now window limit d p e =
    elim (Bool-cases (is_recent (now + d) window (min_from m timestamps))) [
      | inl y ↦ ground (arith, y, e, recent-count m timestamps (now + d) window y)
      | inr n ↦ ground (arith, n, e, gone-count m timestamps (now + d) window n)
    ]

allowed-admit :
    (cfg : Config) (timestamps : List ℕ) (key : String) (now : ℕ) (l : Limiter)
    → (admit cfg timestamps key now l).0.allowed ≡ not (leb cfg.limit (length timestamps))
unfolding admit format_result
allowed-admit cfg timestamps key now l = elim (Bool-cases (leb cfg.limit (length timestamps))) [
  | inl y ↦ rw y refl
  | inr n ↦ rw n refl
]

abbrev refusal : Config → List ℕ → ℕ → Result
refusal cfg timestamps now = format_result false timestamps cfg.window cfg.limit now

refused-admit :
    (cfg : Config) (timestamps : List ℕ) (key : String) (now : ℕ) (l : Limiter)
    → leb cfg.limit (length timestamps) ≡ true
    → admit cfg timestamps key now l ≡ (refusal cfg timestamps now, stored_as key timestamps l)
unfolding admit
refused-admit cfg timestamps key now l g = rw g refl

check-admit :
    (key action : String) (cfg : Config) (now : ℕ) (l : Limiter)
    → config_of action l ≡ some cfg
    → check key action now l ≡ admit cfg (filter_window (l.stores key) now cfg.window) key now l
unfolding check check_with
check-admit key action cfg now l c = rw c refl

stored_as-config :
    (key action : String) (timestamps : List ℕ) (l : Limiter)
    → config_of action (stored_as key timestamps l) ≡ config_of action l
unfolding config_of stored_as
stored_as-config key action timestamps l = refl

stored_as-stores :
    (key : String) (timestamps : List ℕ) (l : Limiter)
    → (stored_as key timestamps l).stores key ≡ timestamps
unfolding stored_as
stored_as-stores key timestamps l = rw (same_key key) refl

-- after a refusal: what the details say, and whether a later check passes
abbrev pub IsAnswered : String → String → ℕ → ℕ → Result × Limiter → Type 0
IsAnswered key action now d (r, s) =
    ((inspect key action now s).0 ≡ r)
    × ((check key action (now + d) s).0.allowed ≡ leb r.retry_after d)

ltb-same : (n : ℕ) → ltb n n ≡ false
ltb-same n = ground arith

refused-IsAnswered :
    (key action : String) (cfg : Config) (now d : ℕ) (timestamps : List ℕ) (l : Limiter)
    → config_of action l ≡ some cfg
    → 0 < cfg.limit
    → length timestamps ≡ cfg.limit
    → filter_window timestamps now cfg.window ≡ timestamps
    → IsAnswered key action now d (refusal cfg timestamps now, stored_as key timestamps l)
unfolding inspect inspect_with format_result
refused-IsAnswered key action cfg now d timestamps l c p e f = (
  rw (stored_as-config key action timestamps l, c, stored_as-stores key timestamps l, f, e)
      (rw (ltb-same cfg.limit) refl),
  rw
      (
        check-admit key action cfg (now + d) (stored_as key timestamps l)
            (stored_as-config key action timestamps l ∙ c),
        stored_as-stores key timestamps l,
      )
      (allowed-admit cfg (filter_window timestamps (now + d) cfg.window) key (now + d)
          (stored_as key timestamps l)
        ∙ (rw (length-filter_window timestamps (now + d) cfg.window)
            (retry-exact timestamps now cfg.window cfg.limit d p e))),
)

-- A check of a key whose configuration is enabled with a positive limit, refused at a time when no more
-- recent times than the limit are stored: `inspect` at the same time repeats the answer, and if nothing
-- else uses the key, a check passes exactly from `retry_after` seconds later on.
pub check-IsAnswered :
    (key action : String) (cfg : Config) (now d : ℕ) (l : Limiter)
    → config_of action l ≡ some cfg
    → 0 < cfg.limit
    → length (filter_window (l.stores key) now cfg.window) ≤ cfg.limit
    → (check key action now l).0.allowed ≡ false
    → IsAnswered key action now d (check key action now l)
check-IsAnswered key action cfg now d l c p n g =
    let a = check-admit key action cfg now l c in
    let timestamps = filter_window (l.stores key) now cfg.window in
    let h : not (leb cfg.limit (length timestamps)) ≡ false =
      sym (allowed-admit cfg timestamps key now l) ∙ (ap (λ r. r.0.allowed) (sym a) ∙ g) in
    let e = a ∙ refused-admit cfg timestamps key now l (ground (arith, h)) in
    subst (IsAnswered key action now d) (sym e) (
      refused-IsAnswered key action cfg now d timestamps l c p (ground (arith, h, n)) (
        filter_window-filter_window (l.stores key) now now cfg.window cfg.window (omega arith)
          (omega arith)))
