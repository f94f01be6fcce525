-- ===== src/Task/States.antt =====
-- internal/task/states.go and the events of transition.go. The database keeps a state as a string
-- under a CHECK that allows the enumerated ones only.
use kungfu.Base.{Bool, true, false, List, [], ◌∷◌}

pub data TaskStatus : Type 0 where
  task_open task_paused task_closed : TaskStatus

pub data ClaimStatus : Type 0 where
  claim_active claim_used claim_expired claim_released : ClaimStatus

pub data SubmissionState : Type 0 where
  sub_delivering sub_uncertain sub_settled sub_rejected sub_failed : SubmissionState

pub data TaskEvent : Type 0 where
  event_open event_pause event_close event_platform_pause event_platform_close : TaskEvent

pub data ClaimEvent : Type 0 where
  event_claim_renew event_claim_release event_claim_expire event_claim_use : ClaimEvent

pub data SubmissionEvent : Type 0 where
  event_submit event_deliver_2xx event_deliver_4xx event_timeout event_delivery_failed
        event_unresolved :
      SubmissionEvent

abbrev pub submission_terminal : SubmissionState → Bool
submission_terminal sub_settled = true
submission_terminal sub_rejected = true
submission_terminal sub_failed = true
submission_terminal _ = false

abbrev pub is_open : TaskStatus → Bool
is_open task_open = true
is_open _ = false

abbrev pub is_active : ClaimStatus → Bool
is_active claim_active = true
is_active _ = false

-- `==` on the strings of the states
abbrev pub same_task_status : TaskStatus → TaskStatus → Bool
same_task_status task_open task_open = true
same_task_status task_paused task_paused = true
same_task_status task_closed task_closed = true
same_task_status _ _ = false

abbrev pub same_claim_status : ClaimStatus → ClaimStatus → Bool
same_claim_status claim_active claim_active = true
same_claim_status claim_used claim_used = true
same_claim_status claim_expired claim_expired = true
same_claim_status claim_released claim_released = true
same_claim_status _ _ = false

abbrev pub same_submission_state : SubmissionState → SubmissionState → Bool
same_submission_state sub_delivering sub_delivering = true
same_submission_state sub_uncertain sub_uncertain = true
same_submission_state sub_settled sub_settled = true
same_submission_state sub_rejected sub_rejected = true
same_submission_state sub_failed sub_failed = true
same_submission_state _ _ = false

abbrev pub task_statuses : List TaskStatus
task_statuses = task_open ∷ task_paused ∷ task_closed ∷ []
