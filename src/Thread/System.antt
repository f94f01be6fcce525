-- ===== src/Thread/System.antt =====
-- Every write to the rooms as one step, and the runs of such steps.
use kungfu.Base.{ℕ, String, Bool, Option, List, [], ◌∷◌}
use kungfu.Tx.{Tx, Result, Ensures-fail_if, after, committed, committed_of}
use kungfu.Thread.{Rooms, ThreadRole, Verdict}
use kungfu.Thread.Replay.{Encoding, Outcome, run_thread_action, run_thread_action_compat}
use kungfu.Thread.Kernel.{
  start_room, issue_key, revoke_key, thread_start, thread_issue_key, thread_revoke_key,
}
use kungfu.Thread.Membership.{
  join_room, leave_room, remove_member, change_role, close_room, thread_join, thread_leave,
  thread_remove_member, thread_set_role, thread_close,
}
use kungfu.Thread.Speech.{Post, PostChecks}
use kungfu.Thread.Requests.{PostEncoding, thread_post, thread_handle, thread_retract}
use kungfu.Thread.Assign.{
  DeliveryChecks, assign_take, assign_submit, assign_judge, assign_drop, assign_void,
}
use kungfu.Thread.Cascade.{admin_set_bot_status, recover_assigns}
use kungfu.Thread.Seam.{run_thread_action-Keeps}
use kungfu.Thread.Writes.{Governed}
use kungfu.Thread.Laws.{Laws, Keeps}
use kungfu.Thread.Kept.{Governed-Laws, admin_set_bot_status-Governed}
use kungfu.Thread.Governance.{
  start_room-Governed, issue_key-Governed, revoke_key-Governed, join_room-Governed,
  leave_room-Governed, remove_member-Governed, change_role-Governed, close_room-Governed,
}
use kungfu.Thread.Quiet.{post_entry-Keeps, handle_receipt-Keeps, retract_entry-Keeps}
use kungfu.Thread.Work.{
  take_assign-Keeps, submit_assign-Keeps, judge_assign-Keeps, drop_assign-Keeps, void_assign-Keeps,
  recover_assigns-Keeps,
}

-- the calls of the tools, of the account administration and of the ticker
pub data Request : Type 0 where
  starts : ℕ → String → Option String → String → List String → Request
  issues_key : ℕ → String → Option ThreadRole → String → String → Request
  revokes_key joins leaves closes : ℕ → String → String → Request
  removes : ℕ → String → ℕ → String → Request
  sets_role : ℕ → String → ℕ → ThreadRole → String → Request
  posts : ℕ → Post → String → List String → Request
  handles : ℕ → String → ℕ → String → String → Request
  retracts : ℕ → String → ℕ → String → Request
  takes submits : ℕ → ℕ → String → String → String → Request
  judges : ℕ → ℕ → Verdict → String → String → Request
  drops voids : ℕ → ℕ → String → Request
  sets_status : ℕ → Bool → Request
  recovers : ℕ → Request
  waits : ℕ → Request

pub record Setup : Type 0 where
  pub encoding : PostEncoding
  pub post_checks : PostChecks
  pub delivery_checks : DeliveryChecks

-- what the database holds after a call, which may have failed
unfoldable pub perform : Setup → Request → Rooms → Rooms
perform s (starts bot subject key idem draws) db =
    committed db (thread_start s.encoding.encoding bot subject key idem draws db)
perform s (issues_key bot room role idem body) db =
    committed db (thread_issue_key s.encoding.encoding bot room role idem body db)
perform s (revokes_key bot room idem) db =
    committed db (thread_revoke_key s.encoding.encoding bot room idem db)
perform s (joins bot raw idem) db = committed db (thread_join s.encoding.encoding bot raw idem db)
perform s (leaves bot room idem) db =
    committed db (thread_leave s.encoding.encoding bot room idem db)
perform s (closes bot room idem) db =
    committed db (thread_close s.encoding.encoding bot room idem db)
perform s (removes bot room member idem) db =
    committed db (thread_remove_member s.encoding.encoding bot room member idem db)
perform s (sets_role bot room member role idem) db =
    committed db (thread_set_role s.encoding.encoding bot room member role idem db)
perform s (posts bot p idem draws) db =
    committed db (thread_post s.encoding s.post_checks bot p idem draws db)
perform s (handles bot room entry said idem) db =
    committed db (thread_handle s.encoding.encoding bot room entry said idem db)
perform s (retracts bot room entry idem) db =
    committed db (thread_retract s.encoding.encoding bot room entry idem db)
perform s (takes bot id payload memories idem) db =
    committed db (assign_take s.encoding.encoding s.delivery_checks bot id payload memories idem db)
perform s (submits bot id payload memories idem) db =
    committed db
      (assign_submit s.encoding.encoding s.delivery_checks bot id payload memories idem db)
perform s (judges bot id verdict reason idem) db =
    committed db (assign_judge s.encoding.encoding bot id verdict reason idem db)
perform s (drops bot id idem) db = committed db (assign_drop s.encoding.encoding bot id idem db)
perform s (voids bot id idem) db = committed db (assign_void s.encoding.encoding bot id idem db)
perform s (sets_status bot enabled) db = committed db (admin_set_bot_status bot enabled db)
perform s (recovers batch) db = committed db (recover_assigns batch db)
perform s (waits later) db = record db { now = later }

unfoldable pub perform_all : Setup → List Request → Rooms → Rooms
perform_all s [] db = db
perform_all s (r ∷ rs) db = perform_all s rs (perform s r db)

-- what an invariant owes for the operations on who is in the rooms
pub record RoomLaws (enc : Encoding) (I : Rooms → Type 0) : Type 0 where
  pub starting :
      (bot : ℕ) (subject : String) (key : Option String) (draws : List String) (db : Rooms)
      → I db
      → Keeps I (start_room enc bot subject key draws db)
  pub keying :
      (bot : ℕ) (room : String) (role : ThreadRole) (body : String) (db : Rooms)
      → I db
      → Keeps I (issue_key enc bot room role body db)
  pub unkeying :
      (bot : ℕ) (room : String) (db : Rooms) → I db → Keeps I (revoke_key enc bot room db)
  pub joining : (bot : ℕ) (raw : String) (db : Rooms) → I db → Keeps I (join_room enc bot raw db)
  pub leaving : (bot : ℕ) (room : String) (db : Rooms) → I db → Keeps I (leave_room enc bot room db)
  pub removing :
      (bot : ℕ) (room : String) (member : ℕ) (db : Rooms)
      → I db
      → Keeps I (remove_member enc bot room member db)
  pub changing :
      (bot : ℕ) (room : String) (member : ℕ) (role : ThreadRole) (db : Rooms)
      → I db
      → Keeps I (change_role enc bot room member role db)
  pub closing : (bot : ℕ) (room : String) (db : Rooms) → I db → Keeps I (close_room enc bot room db)
  pub disabling :
      (bot : ℕ) (enabled : Bool) (db : Rooms) → I db → Keeps I (admin_set_bot_status bot enabled db)

module _ (I : Rooms → Type 0) (L : Laws I) where
  kept : {A : Type 0} (db : Rooms) (r : Result (A × Rooms)) → I db → Keeps I r → I (committed db r)
  kept db r v k = committed_of I db r v k

  acted :
      (bot_id : ℕ) (tool key request_hash legacy_hash : String) (work : Tx Rooms Outcome)
      → ((db : Rooms) → I db → Keeps I (work db))
      → (db : Rooms) → I db
      → Keeps I (run_thread_action_compat bot_id tool key request_hash legacy_hash work db)
  acted bot_id tool key request_hash legacy_hash work works db v =
      run_thread_action-Keeps I L.requests bot_id tool key request_hash legacy_hash work works db v

  module _ (s : Setup) (R : RoomLaws s.encoding.encoding I) where
    -- Every call, successful or not, keeps an invariant with these laws.
    pub perform-Keeps : (r : Request) (db : Rooms) → I db → I (perform s r db)
    unfolding perform run_thread_action thread_start thread_issue_key thread_revoke_key thread_join
        thread_leave thread_remove_member thread_set_role thread_close thread_post thread_handle
        thread_retract assign_take assign_submit assign_judge assign_drop assign_void after
    perform-Keeps (starts bot subject key idem draws) db v = kept db _ v (
        Ensures-fail_if _ _ _ _ λ g. acted _ _ _ _ _ _ (λ d w. R.starting bot _ key draws d w) db v)
    perform-Keeps (issues_key bot room role idem body) db v =
        kept db _ v (acted _ _ _ _ _ _ (λ d w. R.keying bot room _ body d w) db v)
    perform-Keeps (revokes_key bot room idem) db v =
        kept db _ v (acted _ _ _ _ _ _ (λ d w. R.unkeying bot room d w) db v)
    perform-Keeps (joins bot raw idem) db v =
        kept db _ v (acted _ _ _ _ _ _ (λ d w. R.joining bot raw d w) db v)
    perform-Keeps (leaves bot room idem) db v =
        kept db _ v (acted _ _ _ _ _ _ (λ d w. R.leaving bot room d w) db v)
    perform-Keeps (closes bot room idem) db v =
        kept db _ v (acted _ _ _ _ _ _ (λ d w. R.closing bot room d w) db v)
    perform-Keeps (removes bot room member idem) db v =
        kept db _ v (acted _ _ _ _ _ _ (λ d w. R.removing bot room member d w) db v)
    perform-Keeps (sets_role bot room member role idem) db v =
        kept db _ v (acted _ _ _ _ _ _ (λ d w. R.changing bot room member role d w) db v)
    perform-Keeps (posts bot p idem draws) db v = kept db _ v (
        acted _ _ _ _ _ _
          (λ d w. post_entry-Keeps I L s.encoding.encoding s.post_checks bot p draws d w) db v)
    perform-Keeps (handles bot room entry said idem) db v =
        kept db _ v
          (acted _ _ _ _ _ _ (λ d w. handle_receipt-Keeps I L bot room entry said d w) db v)
    perform-Keeps (retracts bot room entry idem) db v =
        kept db _ v (acted _ _ _ _ _ _ (λ d w. retract_entry-Keeps I L bot room entry d w) db v)
    perform-Keeps (takes bot id payload memories idem) db v = kept db _ v (
        acted _ _ _ _ _ _
          (λ d w. take_assign-Keeps I L s.delivery_checks bot id payload memories d w) db v)
    perform-Keeps (submits bot id payload memories idem) db v = kept db _ v (
        acted _ _ _ _ _ _
          (λ d w. submit_assign-Keeps I L s.delivery_checks bot id payload memories d w) db v)
    perform-Keeps (judges bot id verdict reason idem) db v = kept db _ v (
        Ensures-fail_if _ _ _ _ λ g.
          Ensures-fail_if _ _ _ _
            λ h. acted _ _ _ _ _ _ (λ d w. judge_assign-Keeps I L bot id verdict reason d w) db v)
    perform-Keeps (drops bot id idem) db v =
        kept db _ v (acted _ _ _ _ _ _ (λ d w. drop_assign-Keeps I L bot id d w) db v)
    perform-Keeps (voids bot id idem) db v =
        kept db _ v (acted _ _ _ _ _ _ (λ d w. void_assign-Keeps I L bot id d w) db v)
    perform-Keeps (sets_status bot enabled) db v = kept db _ v (R.disabling bot enabled db v)
    perform-Keeps (recovers batch) db v = kept db _ v (recover_assigns-Keeps I L batch db v)
    perform-Keeps (waits later) db v = L.waits db later v

    pub perform_all-Keeps : (rs : List Request) (db : Rooms) → I db → I (perform_all s rs db)
    unfolding perform_all
    perform_all-Keeps [] db v = v
    perform_all-Keeps (r ∷ rs) db v = perform_all-Keeps rs _ (perform-Keeps r db v)

Governed-RoomLaws : (enc : Encoding) → RoomLaws enc Governed
Governed-RoomLaws enc = record {
  starting = start_room-Governed enc;
  keying = issue_key-Governed enc;
  unkeying = revoke_key-Governed enc;
  joining = join_room-Governed enc;
  leaving = leave_room-Governed enc;
  removing = remove_member-Governed enc;
  changing = change_role-Governed enc;
  closing = close_room-Governed enc;
  disabling = admin_set_bot_status-Governed;
}

-- From a database whose rooms are governed, every sequence of calls of the thread and assignment
-- tools, of changes of an account's status, of deadline sweeps and of passing time leads to one:
-- each open room has a governor, no room has more than 50 members nor a member twice, no account
-- is in more than 100 open rooms, and a closed room has no key.
pub perform_all-Governed :
    (s : Setup) (rs : List Request) (db : Rooms) → Governed db → Governed (perform_all s rs db)
perform_all-Governed s =
    perform_all-Keeps Governed Governed-Laws s (Governed-RoomLaws s.encoding.encoding)
