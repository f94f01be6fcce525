-- ===== src/Thread/Work.antt =====
-- The operations of internal/service/assign.go and the sweep of deadlines, and what every lawful
-- invariant of the rooms makes of them.
use kungfu.Base.{
  ℕ, String, ◌&&◌, refl, Bool, true, false, Option, none, some, List, [], ◌∷◌, Bool-cases, inl, inr,
  sym, ◌≡◌, lookup, arith,
}
use kungfu.Tx.{holds, Ensures-fail_if, Ensures-or_fail, Ensures-after, Ensures-after_masked, after}
use kungfu.Thread.{
  Rooms, AssignRow, AssignState, assign_open, assign_taken, assign_delivered, assign_dropped,
  assign_voided, assign_timed_out, assign_undecided, Verdict, BoundMemory, by_take,
}
use kungfu.Tables.{Time}
use kungfu.Thread.Obligations.{same_assign_state, ended}
use package.text.Mathlib.Text.{◌==◌ as str_eq}
use kungfu.Thread.Assignments.{
  move_assignment, take_assignment, set_assignment_state, insert_assignment_delivery,
  judge_assignment, move_row, mirror_verdict, settled_as,
}
use kungfu.Thread.Assign.{
  DeliveryChecks, load_assignment_room, bind_memories, check_payload, check_memories, deliver,
  deliver_with, take_assign, submit_assign, judge_assign, drop_assign, void_assign, MemoryRef,
  lists_none, is_empty_list,
}
use kungfu.Thread.Cascade.{settle_expired, recover_assigns}
use kungfu.Thread.Laws.{Laws, Keeps, IsFollowedBy, leads}
use kungfu.Thread.Lifecycle.{same_assign_state_eq, verdict-leads, undelivered-leads}
use kungfu.Thread.Quiet.{
  Reads, fail_if-Reads, require_active_account-Reads, enqueue_notify-Keeps,
  fulfill_thread_receipt-Keeps,
}

load_assignment_room-Reads :
    (id bot_id : ℕ) (db : Rooms) → Reads db (load_assignment_room id bot_id db)
unfolding load_assignment_room after
load_assignment_room-Reads id bot_id db =
    Ensures-or_fail _ _ _ _
      λ a e. Ensures-or_fail _ _ _ _ λ t f. Ensures-or_fail _ _ _ _ λ m g. holds refl

bind_memories-Reads :
    (bot_id : ℕ) (refs : List MemoryRef) (db : Rooms) → Reads db (bind_memories bot_id refs db)
unfolding bind_memories after
bind_memories-Reads bot_id [] db = holds refl
bind_memories-Reads bot_id (r ∷ refs) db = Ensures-fail_if _ _ _ _ λ g.
    Ensures-or_fail _ _ _ _
      λ k e. Ensures-after _ _ (bind_memories-Reads bot_id refs db) λ rest s f. rw f (holds refl)

module _ (checks : DeliveryChecks) where
  check_payload-Reads :
      (schema : Option String) (payload : String) (db : Rooms)
      → Reads db (check_payload checks schema payload db)
  unfolding check_payload after
  check_payload-Reads schema payload db = elim (Bool-cases (str_eq payload "")) [
    | inl y ↦ rw y (holds refl)
    | inr n ↦ rw n (Ensures-fail_if _ _ _ _ λ g. Ensures-fail_if _ _ _ _ λ h. fail_if-Reads _ _ db)
  ]

  check_memories-Reads :
      (bot_id : ℕ) (memories : String) (db : Rooms)
      → Reads db (check_memories checks bot_id memories db)
  unfolding check_memories after
  check_memories-Reads bot_id memories db = elim (Bool-cases (lists_none memories)) [
    | inl y ↦ rw y (holds refl)
    | inr n ↦ rw n (
        Ensures-or_fail _ _ _ _ λ refs e.
          Ensures-fail_if _ _ _ _
            λ g. Ensures-fail_if _ _ _ _ λ h. bind_memories-Reads bot_id refs db)
  ]

-- a test of the state gives the state
from_state :
    (s from to : AssignState)
    → same_assign_state s from ≡ true
    → leads from to ≡ true
    → leads s to ≡ true
from_state s from to e l = rw (same_assign_state_eq s from e) l

-- an invariant that allows what the work on assignments writes
module _ (I : Rooms → Type 0) (L : Laws I) where
  move_row-Keeps :
      (o : Option AssignRow) (fits : AssignRow → Bool) (f : AssignRow → Time → AssignRow) (id : ℕ)
      (db : Rooms)
      → o ≡ lookup id db.assigns
      → ((a : AssignRow) → fits a ≡ true → IsFollowedBy a (f a db.now))
      → I db
      → Keeps I (move_row o fits f id db)
  unfolding after
  move_row-Keeps none fits f id db e w v = holds v
  move_row-Keeps (some a) fits f id db e w v = elim (Bool-cases (fits a)) [
    | inl y ↦ rw y (holds (L.moves db id a (f a db.now) (sym e) (w a y) v))
    | inr n ↦ rw n (holds v)
  ]

  move_assignment-Keeps :
      (fits : AssignRow → Bool) (f : AssignRow → Time → AssignRow) (id : ℕ) (db : Rooms)
      → ((a : AssignRow) → fits a ≡ true → IsFollowedBy a (f a db.now))
      → I db
      → Keeps I (move_assignment fits f id db)
  unfolding move_assignment after
  move_assignment-Keeps fits f id db w v = move_row-Keeps _ fits f id db refl w v

  mirror_verdict-Keeps :
      (moved : Bool) (id : ℕ) (verdict : Verdict) (reason : String) (db : Rooms)
      → I db
      → Keeps I (mirror_verdict moved id verdict reason db)
  unfolding after
  mirror_verdict-Keeps true id verdict reason db v = holds (L.delivers db _ v)
  mirror_verdict-Keeps false id verdict reason db v = holds v

  take_assignment-Keeps :
      (id bot_id : ℕ) (db : Rooms) → I db → Keeps I (take_assignment id bot_id db)
  unfolding take_assignment leads
  take_assignment-Keeps id bot_id db v =
      move_assignment-Keeps _ _ id db
        (λ a e. (from_state a.state assign_open assign_taken (ground (arith, e)) refl, refl)) v

  pub set_assignment_state-Keeps :
      (id : ℕ) (from to : AssignState) (db : Rooms)
      → leads from to ≡ true
      → I db
      → Keeps I (set_assignment_state id from to db)
  unfolding set_assignment_state ended
  set_assignment_state-Keeps id from to db l v =
      move_assignment-Keeps _ _ id db (λ a e. (from_state a.state from to e l, refl)) v

  insert_assignment_delivery-Keeps :
      (id : ℕ) (payload : String) (memories : List BoundMemory) (db : Rooms)
      → I db
      → Keeps I (insert_assignment_delivery id payload memories db)
  unfolding insert_assignment_delivery after leads
  insert_assignment_delivery-Keeps id payload memories db v = Ensures-fail_if _ _ _ _ λ g.
      Ensures-or_fail _ _ _ _ λ due e.
        Ensures-after _ _
          (move_assignment-Keeps _ _ id _
            (λ a f. (from_state a.state assign_taken assign_delivered f refl, refl))
            (L.delivers db _ v))
          λ moved s k. Ensures-fail_if _ _ _ _ λ h. holds k

  judge_assignment-Keeps :
      (id creator : ℕ) (verdict : Verdict) (reason : String) (db : Rooms)
      → I db
      → Keeps I (judge_assignment id creator verdict reason db)
  unfolding judge_assignment after ended
  judge_assignment-Keeps id creator verdict reason db v =
      Ensures-after _ _
        (move_assignment-Keeps _ _ id db
          (λ a e. (
            from_state a.state assign_delivered (settled_as verdict) (ground (arith, e))
                (verdict-leads verdict),
            refl,
          ))
          v)
        λ moved s k. mirror_verdict-Keeps moved id verdict reason s k

  module _ (checks : DeliveryChecks) where
    deliver-Keeps :
        (id : ℕ) (a : AssignRow) (payload : String) (memories : List BoundMemory) (db : Rooms)
        → I db
        → Keeps I (deliver checks id a payload memories db)
    unfolding deliver after
    deliver-Keeps id a payload memories db v =
        Ensures-after _ _ (check_payload-Reads checks a.output_schema payload db) λ _ s e. rw e (
          Ensures-after_masked _ _ _ (insert_assignment_delivery-Keeps id payload memories db v)
            λ due s₁ k.
              Ensures-after _ _ (enqueue_notify-Keeps I L a.creator_id _ _ s₁ k) λ _ s₂ w. holds w)

    deliver_with-Keeps :
        (id : ℕ) (a : AssignRow) (payload : String) (memories : List BoundMemory) (db : Rooms)
        → I db
        → Keeps I (deliver_with checks id a payload memories db)
    unfolding deliver_with after
    deliver_with-Keeps id a payload memories db v =
        elim (Bool-cases (str_eq payload "" && is_empty_list memories)) [
          | inl y ↦ rw y (holds v)
          | inr n ↦
              rw n (Ensures-after _ _ (deliver-Keeps id a payload memories db v) λ due s k. holds k)
        ]

    pub take_assign-Keeps :
        (bot_id id : ℕ) (payload memories : String) (db : Rooms)
        → I db
        → Keeps I (take_assign checks bot_id id payload memories db)
    unfolding take_assign after
    take_assign-Keeps bot_id id payload memories db v =
        Ensures-after _ _ (require_active_account-Reads bot_id db) λ _ s e. rw e (
          Ensures-after _ _ (load_assignment_room-Reads id bot_id db) λ (a, code) s₁ e₁. rw e₁ (
            Ensures-fail_if _ _ _ _ λ g. Ensures-fail_if _ _ _ _ λ h.
              Ensures-after_masked _ _ _ (take_assignment-Keeps id bot_id db v) λ done s₂ k₂.
                Ensures-fail_if _ _ _ _ λ i.
                  Ensures-after_masked _ _ _
                    (fulfill_thread_receipt-Keeps I L a.entry_id bot_id by_take none s₂ k₂)
                    λ _ s₃ k₃.
                      Ensures-after _ _ (check_memories-Reads checks bot_id memories _)
                        λ bound s₄ e₄. rw e₄ (
                          Ensures-after _ _ (deliver_with-Keeps id a payload bound _ k₃)
                            λ due s₅ k₅. holds k₅)))

    pub submit_assign-Keeps :
        (bot_id id : ℕ) (payload memories : String) (db : Rooms)
        → I db
        → Keeps I (submit_assign checks bot_id id payload memories db)
    unfolding submit_assign after
    submit_assign-Keeps bot_id id payload memories db v =
        Ensures-after _ _ (require_active_account-Reads bot_id db) λ _ s e. rw e (
          Ensures-after _ _ (load_assignment_room-Reads id bot_id db) λ (a, code) s₁ e₁. rw e₁ (
            Ensures-fail_if _ _ _ _ λ g. Ensures-fail_if _ _ _ _ λ h. Ensures-fail_if _ _ _ _ λ i.
              Ensures-after _ _ (check_memories-Reads checks bot_id memories db) λ bound s₂ e₂.
                rw e₂ (
                  Ensures-fail_if _ _ _ _ λ j.
                    Ensures-after _ _ (deliver-Keeps id a payload bound db v)
                      λ due s₃ k₃. holds k₃)))

  pub judge_assign-Keeps :
      (bot_id id : ℕ) (verdict : Verdict) (reason : String) (db : Rooms)
      → I db
      → Keeps I (judge_assign bot_id id verdict reason db)
  unfolding judge_assign after
  judge_assign-Keeps bot_id id verdict reason db v =
      Ensures-after _ _ (require_active_account-Reads bot_id db) λ _ s e. rw e (
        Ensures-after _ _ (load_assignment_room-Reads id bot_id db) λ (a, code) s₁ e₁. rw e₁ (
          Ensures-fail_if _ _ _ _ λ g. Ensures-fail_if _ _ _ _ λ h. Ensures-fail_if _ _ _ _ λ i.
            Ensures-fail_if _ _ _ _ λ j.
              Ensures-after_masked _ _ _ (judge_assignment-Keeps id bot_id verdict reason db v)
                λ done s₂ k₂. Ensures-fail_if _ _ _ _ λ l.
                  Ensures-after _ _ (enqueue_notify-Keeps I L a.assignee_id _ _ s₂ k₂)
                    λ _ s₃ w. holds w))

  pub drop_assign-Keeps : (bot_id id : ℕ) (db : Rooms) → I db → Keeps I (drop_assign bot_id id db)
  unfolding drop_assign after leads
  drop_assign-Keeps bot_id id db v =
      Ensures-after _ _ (require_active_account-Reads bot_id db) λ _ s e. rw e (
        Ensures-after _ _ (load_assignment_room-Reads id bot_id db) λ (a, code) s₁ e₁. rw e₁ (
          Ensures-fail_if _ _ _ _ λ g. Ensures-fail_if _ _ _ _ λ h. Ensures-fail_if _ _ _ _ λ i.
            Ensures-after_masked _ _ _
              (set_assignment_state-Keeps id assign_taken assign_dropped db refl v)
              λ done s₂ k₂. Ensures-fail_if _ _ _ _ λ l.
                Ensures-after _ _ (enqueue_notify-Keeps I L a.creator_id _ _ s₂ k₂)
                  λ _ s₃ w. holds w))

  pub void_assign-Keeps : (bot_id id : ℕ) (db : Rooms) → I db → Keeps I (void_assign bot_id id db)
  unfolding void_assign after
  void_assign-Keeps bot_id id db v =
      Ensures-after _ _ (require_active_account-Reads bot_id db) λ _ s e. rw e (
        Ensures-after _ _ (load_assignment_room-Reads id bot_id db) λ (a, code) s₁ e₁. rw e₁ (
          Ensures-fail_if _ _ _ _ λ g. Ensures-fail_if _ _ _ _ λ h.
            Ensures-after_masked _ _ _
              (set_assignment_state-Keeps id a.state assign_voided db
                (undelivered-leads a.state (ground (arith, h))) v)
              λ done s₂ k₂. Ensures-fail_if _ _ _ _ λ l.
                Ensures-after _ _ (enqueue_notify-Keeps I L a.assignee_id _ _ s₂ k₂)
                  λ _ s₃ w. holds w))

  settle_expired-Keeps :
      (from to : AssignState) (rows : List (ℕ × AssignRow)) (db : Rooms)
      → leads from to ≡ true
      → I db
      → Keeps I (settle_expired from to rows db)
  unfolding settle_expired after
  settle_expired-Keeps from to [] db l v = holds v
  settle_expired-Keeps from to ((id, a) ∷ rows) db l v =
      Ensures-after _ _ (set_assignment_state-Keeps id from to db l v) λ _ s k.
        Ensures-after _ _ (enqueue_notify-Keeps I L a.assignee_id _ _ s k) λ _ s₁ k₁.
          Ensures-after _ _ (enqueue_notify-Keeps I L a.creator_id _ _ s₁ k₁) λ _ s₂ k₂.
            Ensures-after _ _ (settle_expired-Keeps from to rows s₂ l k₂) λ n s₃ k₃. holds k₃

  pub recover_assigns-Keeps : (batch : ℕ) (db : Rooms) → I db → Keeps I (recover_assigns batch db)
  unfolding recover_assigns after leads
  recover_assigns-Keeps batch db v =
      Ensures-after _ _ (settle_expired-Keeps assign_taken assign_timed_out _ db refl v) λ n s k.
        Ensures-after _ _ (settle_expired-Keeps assign_delivered assign_undecided _ s refl k)
          λ m s₁ k₁. holds k₁
