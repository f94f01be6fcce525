-- ===== src/RateLimit.antt =====
-- internal/ratelimit/ratelimit.go: the sliding windows of request times, in memory, under one mutex.
-- A time is the unix second that the call reads, and an argument. The map of the stores is a function,
-- whose value is empty where Go's map has no key.
use kungfu.Base.{
  ℕ, String, ◌+◌, ◌-◌, ◌≡◌, Bool, true, false, Option, none, some, List, [], ◌∷◌, ◌++◌, ltb, leb,
  length, if◌then◌else◌,
}
use package.text.Mathlib.Text.{◌==◌ as str_eq}
use Prim.Native.String.{◌++◌ as ◌+++◌}
pub mod Windows
pub mod Admission
pub mod Bounds
pub mod Retry
pub mod Collection

pub record Result : Type 0 where
  pub allowed : Bool
  pub retry_after : ℕ
  pub limit : ℕ
  pub window : ℕ

pub record Config : Type 0 where
  pub window : ℕ
  pub limit : ℕ
  pub enabled : Bool

pub record Limiter : Type 0 where
  pub stores : String → List ℕ
  pub configs : String → Option Config

abbrev pub new_limiter : (String → Option Config) → Limiter
new_limiter configs = record { stores = λ key. []; configs = configs }

-- ts > cutoff, with cutoff = now - window below zero allowed
unfoldable pub is_recent : ℕ → ℕ → ℕ → Bool
is_recent now window ts = ltb now (ts + window)

unfoldable pub filter_window : List ℕ → ℕ → ℕ → List ℕ
filter_window [] now window = []
filter_window (ts ∷ timestamps) now window =
    let rest = filter_window timestamps now window in
    if is_recent now window ts then ts ∷ rest else rest

unfoldable pub min_from : ℕ → List ℕ → ℕ
min_from min_ts [] = min_ts
min_from min_ts (ts ∷ timestamps) =
    if ltb ts min_ts then min_from ts timestamps else min_from min_ts timestamps

-- the seconds until the oldest time leaves the window
unfoldable pub retry_seconds : Bool → List ℕ → ℕ → ℕ → ℕ
retry_seconds true timestamps window now = 0
retry_seconds false [] window now = 0
retry_seconds false (ts ∷ timestamps) window now = (min_from ts timestamps + window) - now

unfoldable pub format_result : Bool → List ℕ → ℕ → ℕ → ℕ → Result
format_result allowed timestamps window limit now = record {
  allowed = allowed;
  retry_after = retry_seconds allowed timestamps window now;
  limit = limit;
  window = window;
}

unfoldable pub stored_as : String → List ℕ → Limiter → Limiter
stored_as key timestamps l = record l {
  stores = λ other. if str_eq other key then timestamps else l.stores other;
}

abbrev when_enabled : Option Config → Option Config
when_enabled none = none
when_enabled (some cfg) = if cfg.enabled then some cfg else none

-- the configuration of an action that is there and enabled
unfoldable pub config_of : String → Limiter → Option Config
config_of action l = when_enabled (l.configs action)

abbrev pub unlimited : Result
unlimited = record { allowed = true; retry_after = 0; limit = 0; window = 0 }

unfoldable pub admit : Config → List ℕ → String → ℕ → Limiter → Result × Limiter
admit cfg timestamps key now l =
    if leb cfg.limit (length timestamps)
    then (format_result false timestamps cfg.window cfg.limit now, stored_as key timestamps l)
    else (
      format_result true (timestamps ++ now ∷ []) cfg.window cfg.limit now,
      stored_as key (timestamps ++ now ∷ []) l,
    )

unfoldable pub check_with : Option Config → String → ℕ → Limiter → Result × Limiter
check_with none key now l = (unlimited, l)
check_with (some cfg) key now l = admit cfg (filter_window (l.stores key) now cfg.window) key now l

unfoldable pub check : String → String → ℕ → Limiter → Result × Limiter
check key action now l = check_with (config_of action l) key now l

abbrev look : Config → List ℕ → String → ℕ → Limiter → Result × Limiter
look cfg timestamps key now l = (
  format_result (ltb (length timestamps) cfg.limit) timestamps cfg.window cfg.limit now,
  stored_as key timestamps l,
)

unfoldable pub inspect_with : Option Config → String → ℕ → Limiter → Result × Limiter
inspect_with none key now l = (unlimited, l)
inspect_with (some cfg) key now l = look cfg (filter_window (l.stores key) now cfg.window) key now l

unfoldable pub inspect : String → String → ℕ → Limiter → Result × Limiter
inspect key action now l = inspect_with (config_of action l) key now l

-- `GetRemaining`: none is the greatest int
unfoldable pub remaining_with : Option Config → String → ℕ → Limiter → Option ℕ × Limiter
remaining_with none key now l = (none, l)
remaining_with (some cfg) key now l =
    let timestamps = filter_window (l.stores key) now cfg.window in
    (some (cfg.limit - length timestamps), stored_as key timestamps l)

abbrev pub gc_window : ℕ
gc_window = 2592000

-- `GC`: a key without times is deleted
unfoldable pub gc : ℕ → Limiter → Limiter
gc now l = record l { stores = λ key. filter_window (l.stores key) now gc_window }

module _ (decimal : ℕ → String) where
  unfoldable pub agent_key : ℕ → String → String
  agent_key bot_id action = "agent:" +++ (decimal bot_id +++ (":" +++ action))

  -- `CheckAgent`
  unfoldable pub check_agent : ℕ → String → ℕ → Limiter → Bool × Limiter
  check_agent bot_id action now l =
      let (r, after) = check (agent_key bot_id action) action now l in (r.allowed, after)

  -- `CheckAgentWithDetails`
  unfoldable pub check_agent_with_details : ℕ → String → ℕ → Limiter → Result × Limiter
  check_agent_with_details bot_id action now l = inspect (agent_key bot_id action) action now l

  -- `GetRemaining`
  unfoldable pub get_remaining : ℕ → String → ℕ → Limiter → Option ℕ × Limiter
  get_remaining bot_id action now l =
      remaining_with (config_of action l) (agent_key bot_id action) now l

unfoldable pub check_register : String → ℕ → Limiter → Result × Limiter
check_register ip now l = check ("reg:" +++ ip) "register" now l

unfoldable pub check_owner_login : String → ℕ → Limiter → Result × Limiter
check_owner_login ip now l = check ("owner_login:" +++ ip) "owner_login" now l

unfoldable pub check_admin_login : String → ℕ → Limiter → Result × Limiter
check_admin_login ip now l = check ("admin_login:" +++ ip) "admin_login" now l
