-- ===== src/Service/Governance.antt =====
-- internal/service/task_report.go and task_governance.go: reports, the platform's close and what it does
-- with a report. The account of the administrator is a parameter, and the row in the administrators'
-- audit log is not modelled.
use Prim.Native.Char.{code}
use kungfu.Base.{
  ℕ, String, Bool, ◌&&◌, ◌||◌, not, Option, none, some, ◌==◌, ltb, leb, if◌then◌else◌, lookup,
}
use kungfu.Task.{event_platform_close, rune_count}
use kungfu.Tx.{
  Tx, ◌>>=◌, ◌>>◌, pure, fail_if, or_fail, mask, internal_error, task_not_found, not_found,
  admin_login_required, validation_failed, invalid_report_state,
}
use kungfu.Tables.{Db, report_open, report_dismissed}
use kungfu.Repository.{
  find_task_by_code, find_open_report, insert_task_report, set_report_status, action_open_reports,
  same_report_status,
}
use kungfu.Service.Limits.{require_task_audience}
use kungfu.Service.Claim.{get_db}
use kungfu.Service.Publisher.{lock_any_task, apply_status_change}

-- unicode.IsSpace
abbrev is_space : ℕ → Bool
is_space c =
    leb 9 c && leb c 13
    || c == 32
    || c == 0x85
    || c == 0xA0
    || c == 0x1680
    || leb 0x2000 c && leb c 0x200A
    || c == 0x2028
    || c == 0x2029
    || c == 0x202F
    || c == 0x205F
    || c == 0x3000

unfoldable pub trim_left : String → String
trim_left String.[] = String.[]
trim_left (String.◌∷◌ c s) =
    let rest = trim_left s in if is_space (code c) then rest else String.◌∷◌ c s

unfoldable pub trim_right : String → String
trim_right String.[] = String.[]
trim_right (String.◌∷◌ c s) =
    let rest = trim_right s in
    if is_space (code c) && rune_count rest == 0 then String.[] else String.◌∷◌ c rest

-- strings.TrimSpace
abbrev pub trim_space : String → String
trim_space s = trim_left (trim_right s)

abbrev out_of_bounds : String → ℕ → Bool
out_of_bounds s most = ltb (rune_count s) 1 || ltb most (rune_count s)

abbrev pub report_reason_max_runes : ℕ
report_reason_max_runes = 2000

abbrev pub platform_close_reason_max_runes : ℕ
platform_close_reason_max_runes = 500

abbrev pub file_report : Option ℕ → ℕ → ℕ → String → Tx Db ℕ
file_report (some id) task_id agent_id reason = pure id
file_report none task_id agent_id reason =
    mask internal_error (insert_task_report task_id agent_id reason)

-- `ReportTask`: an open report of the same agent on the same task is the answer
unfoldable pub report_task : ℕ → String → String → Tx Db ℕ
report_task agent_id code reason = do
  fail_if (out_of_bounds (trim_space reason) report_reason_max_runes) validation_failed
  db ← get_db
  (task_id, t) ← or_fail (find_task_by_code code db) task_not_found
  require_task_audience task_id t agent_id
  file_report (find_open_report task_id agent_id db.reports) task_id agent_id (trim_space reason)

-- `platformClose`; the result is the number of reports that it actioned
unfoldable pub platform_close : Bool → String → String → Tx Db ℕ
platform_close is_admin code reason = do
  fail_if (out_of_bounds (trim_space reason) platform_close_reason_max_runes) validation_failed
  (task_id, t) ← lock_any_task code
  apply_status_change code none event_platform_close (some (trim_space reason))
  fail_if (not is_admin) admin_login_required
  mask internal_error (action_open_reports task_id)

-- `ResolveReport` with the action `dismiss`
unfoldable pub dismiss_report : Bool → ℕ → Tx Db (Unit {0})
dismiss_report is_admin report_id = do
  db ← get_db
  r ← or_fail (lookup report_id db.reports) not_found
  fail_if (not (same_report_status r.status report_open)) (invalid_report_state r.status)
  fail_if (not is_admin) admin_login_required
  mask internal_error (set_report_status report_id report_open report_dismissed)

-- … and with the action `close`; `message` is the text with the report's number
unfoldable pub close_reported : Bool → ℕ → String → Tx Db ℕ
close_reported is_admin report_id message = do
  db ← get_db
  r ← or_fail (lookup report_id db.reports) not_found
  t ← or_fail (lookup r.task_id db.tasks) internal_error
  platform_close is_admin t.code message
