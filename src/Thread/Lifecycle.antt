-- ===== src/Thread/Lifecycle.antt =====
-- The lifecycle of an assignment, as an order of its states.
use kungfu.Base.{◌≡◌, refl, true, arith}
use kungfu.Thread.{AssignState, assign_delivered, assign_voided, Verdict, adopt, reject}
use kungfu.Thread.Obligations.{same_assign_state, is_undelivered}
use kungfu.Thread.Assignments.{settled_as}
use kungfu.Thread.Laws.{leads}

pub same_assign_state_eq : (s t : AssignState) → same_assign_state s t ≡ true → s ≡ t
unfolding same_assign_state
same_assign_state_eq s t e = ground arith

pub leads_refl : (s : AssignState) → leads s s ≡ true
unfolding leads same_assign_state
leads_refl s = ground arith

pub leads_trans : (s t u : AssignState) → leads s t ≡ true → leads t u ≡ true → leads s u ≡ true
unfolding leads same_assign_state
leads_trans s t u e f = ground arith

pub verdict-leads : (verdict : Verdict) → leads assign_delivered (settled_as verdict) ≡ true
unfolding leads
verdict-leads adopt = refl
verdict-leads reject = refl

pub undelivered-leads : (s : AssignState) → is_undelivered s ≡ true → leads s assign_voided ≡ true
unfolding leads is_undelivered
undelivered-leads s e = ground arith
