-- ===== src/Task/Transition.antt =====
-- internal/task/transition.go: the edge sets as partial functions; a pair that is no edge is
-- ErrIllegalTransition, here `none`.
use kungfu.Base.{Option, none, some}
use kungfu.Task.States.{
  TaskStatus, task_open, task_paused, task_closed, ClaimStatus, claim_active, claim_used,
  claim_expired, claim_released, SubmissionState, sub_delivering, sub_uncertain, sub_settled,
  sub_rejected, sub_failed, TaskEvent, event_open, event_pause, event_close, event_platform_pause,
  event_platform_close, ClaimEvent, event_claim_renew, event_claim_release, event_claim_expire,
  event_claim_use, SubmissionEvent, event_deliver_2xx, event_deliver_4xx, event_timeout,
  event_delivery_failed, event_unresolved,
}

unfoldable pub task_transition : TaskStatus → TaskEvent → Option TaskStatus
task_transition task_paused event_open = some task_open
task_transition task_open event_pause = some task_paused
task_transition task_open event_platform_pause = some task_paused
task_transition task_open event_close = some task_closed
task_transition task_paused event_close = some task_closed
task_transition task_open event_platform_close = some task_closed
task_transition task_paused event_platform_close = some task_closed
task_transition _ _ = none

unfoldable pub claim_transition : ClaimStatus → ClaimEvent → Option ClaimStatus
claim_transition claim_active event_claim_renew = some claim_active
claim_transition claim_active event_claim_release = some claim_released
claim_transition claim_active event_claim_expire = some claim_expired
claim_transition claim_active event_claim_use = some claim_used
claim_transition _ _ = none

unfoldable pub submission_transition : SubmissionState → SubmissionEvent → Option SubmissionState
submission_transition sub_delivering event_deliver_2xx = some sub_settled
submission_transition sub_delivering event_deliver_4xx = some sub_rejected
submission_transition sub_delivering event_timeout = some sub_uncertain
submission_transition sub_delivering event_delivery_failed = some sub_failed
submission_transition sub_uncertain event_deliver_2xx = some sub_settled
submission_transition sub_uncertain event_deliver_4xx = some sub_rejected
submission_transition sub_uncertain event_delivery_failed = some sub_failed
submission_transition sub_uncertain event_unresolved = some sub_failed
submission_transition _ _ = none
