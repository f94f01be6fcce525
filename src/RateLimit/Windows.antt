-- ===== src/RateLimit/Windows.antt =====
-- The lists of times of internal/ratelimit/ratelimit.go under `filterWindow`.
use kungfu.Base.{
  ℕ, ◌+◌, ◌≤◌, ◌≡◌, refl, Bool, List, [], ◌∷◌, ◌++◌, length, one_if, count, le-count, arith,
}
use kungfu.RateLimit.{is_recent, filter_window}

pub length-filter_window :
    (timestamps : List ℕ) (now window : ℕ)
    → length (filter_window timestamps now window) ≡ count (is_recent now window) timestamps
unfolding filter_window count
length-filter_window [] now window = refl
length-filter_window (ts ∷ timestamps) now window =
    ground (arith, length-filter_window timestamps now window)

-- later windows that are no longer do not see what a filter dropped
pub count-filter_window :
    (timestamps : List ℕ) (now later window longer : ℕ)
    → now ≤ later
    → window ≤ longer
    → count (is_recent later window) (filter_window timestamps now longer)
      ≡ count (is_recent later window) timestamps
unfolding filter_window count is_recent
count-filter_window [] now later window longer n w = refl
count-filter_window (ts ∷ timestamps) now later window longer n w =
    ground (arith, n, w, count-filter_window timestamps now later window longer n w)

pub filter_window-filter_window :
    (timestamps : List ℕ) (now later window longer : ℕ)
    → now ≤ later
    → window ≤ longer
    → filter_window (filter_window timestamps now longer) later window
      ≡ filter_window timestamps later window
unfolding filter_window is_recent
filter_window-filter_window [] now later window longer n w = refl
filter_window-filter_window (ts ∷ timestamps) now later window longer n w =
    ground (arith, n, w, filter_window-filter_window timestamps now later window longer n w)

pub count-append :
    (p : ℕ → Bool) (timestamps : List ℕ) (now : ℕ)
    → count p (timestamps ++ now ∷ []) ≡ count p timestamps + one_if (p now)
unfolding count
count-append p [] now = omega arith
count-append p (ts ∷ timestamps) now = ground (arith, count-append p timestamps now)

-- a later window sees no more of the same times
pub count-is_recent_later :
    (timestamps : List ℕ) (now later window : ℕ)
    → now ≤ later
    → count (is_recent later window) timestamps ≤ count (is_recent now window) timestamps
unfolding is_recent
count-is_recent_later timestamps now later window n =
    le-count (is_recent later window) (is_recent now window) timestamps
      (λ ts e. ground (arith, n, e))
