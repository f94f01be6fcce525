-- ===== src/Thread/Leaving.antt =====
-- Leaving, the changes to members, the close and the cascade of a disabled account
-- (internal/service/thread_kernel.go, internal/repository/thread.go), for an invariant that does not
-- look at who is in the rooms.
use kungfu.Base.{ℕ, String, refl, Bool, true, false, Option, none, some, arith}
use kungfu.Tx.{
  holds, Ensures-fail_if, Ensures-or_fail, Ensures-after, Ensures-after_masked, Ensures-masked,
  after,
}
use kungfu.Thread.{Rooms, ThreadRole, governor, speaker, observer}
use kungfu.Thread.Replay.{Encoding}
use kungfu.Thread.Obligations.{withdraw_thread_receipts_by_member, withdraw_all_thread_receipts}
use kungfu.Thread.Membership.{
  leave_room, governed_member_change, remove_member, change_role, close_room, collect_on_demotion,
}
use kungfu.Thread.Cascade.{
  terminate_account_thread_memberships, admin_set_bot_status, undelivered_with,
}
use kungfu.Thread.Laws.{FreeLaws, Keeps}
use kungfu.Thread.Quiet.{Reads, require_active_account-Reads, withdraw_receipts-Keeps}
use kungfu.Thread.Free.{
  load_room_for_governor-Reads, set_thread_member_role-Keeps, delete_thread_member-Keeps,
  void_assigns-Keeps, forfeit-Keeps, close_thread_by_id-Keeps, void_member-Keeps, void_room-Keeps,
}

module _ (I : Rooms → Type 0) (L : FreeLaws I) (enc : Encoding) where
  pub leave_room-Keeps :
      (bot_id : ℕ) (code : String) (db : Rooms) → I db → Keeps I (leave_room enc bot_id code db)
  unfolding leave_room withdraw_thread_receipts_by_member after
  leave_room-Keeps bot_id code db v =
      Ensures-after _ _ (require_active_account-Reads bot_id db) λ _ s₀ e₀. rw e₀ (
        Ensures-or_fail _ _ _ _ λ (id, t) e. Ensures-or_fail _ _ _ _ λ me m.
          Ensures-fail_if _ _ _ _ λ g.
            Ensures-after_masked _ _ _ (void_member-Keeps I L id bot_id db v) λ _ s₁ k₁.
              Ensures-after_masked _ _ _ (forfeit-Keeps I L id bot_id s₁ k₁) λ _ s₂ k₂.
                Ensures-after_masked _ _ _ (withdraw_receipts-Keeps I L.laws _ _ s₂ k₂) λ _ s₃ k₃.
                  Ensures-after_masked _ _ _ (delete_thread_member-Keeps I L id bot_id s₃ k₃)
                    λ _ s₄ k₄. holds k₄)

  governed_member_change-Reads :
      (code : String) (bot_id member : ℕ) (new_role : Option ThreadRole) (db : Rooms)
      → Reads db (governed_member_change enc code bot_id member new_role db)
  unfolding governed_member_change after
  governed_member_change-Reads code bot_id member new_role db =
      Ensures-after _ _ (require_active_account-Reads bot_id db) λ _ s₀ e₀. rw e₀ (
        Ensures-after _ _ (load_room_for_governor-Reads code bot_id db) λ (id, t) s₁ e₁. rw e₁ (
          Ensures-or_fail _ _ _ _
            λ target f. Ensures-fail_if _ _ _ _ λ g. Ensures-fail_if _ _ _ _ λ h. holds refl))

  pub remove_member-Keeps :
      (bot_id : ℕ) (code : String) (member : ℕ) (db : Rooms)
      → I db
      → Keeps I (remove_member enc bot_id code member db)
  unfolding remove_member withdraw_thread_receipts_by_member after
  remove_member-Keeps bot_id code member db v =
      Ensures-after _ _ (governed_member_change-Reads code bot_id member none db) λ (id, t) s₀ e₀.
        rw e₀ (
          Ensures-after_masked _ _ _ (void_member-Keeps I L id member db v) λ _ s₁ k₁.
            Ensures-after_masked _ _ _ (forfeit-Keeps I L id member s₁ k₁) λ _ s₂ k₂.
              Ensures-after_masked _ _ _ (withdraw_receipts-Keeps I L.laws _ _ s₂ k₂) λ _ s₃ k₃.
                Ensures-after_masked _ _ _ (delete_thread_member-Keeps I L id member s₃ k₃)
                  λ _ s₄ k₄. holds k₄)

  collect-Keeps :
      (role : ThreadRole) (id member : ℕ) (db : Rooms)
      → I db
      → Keeps I (collect_on_demotion enc role id member db)
  unfolding withdraw_thread_receipts_by_member
  collect-Keeps governor id member db v = holds v
  collect-Keeps speaker id member db v = holds v
  collect-Keeps observer id member db v =
      Ensures-masked _ _ (withdraw_receipts-Keeps I L.laws _ _ db v)

  pub change_role-Keeps :
      (bot_id : ℕ) (code : String) (member : ℕ) (role : ThreadRole) (db : Rooms)
      → I db
      → Keeps I (change_role enc bot_id code member role db)
  unfolding change_role after
  change_role-Keeps bot_id code member role db v =
      Ensures-after _ _ (governed_member_change-Reads code bot_id member (some role) db)
        λ (id, t) s₀ e₀. rw e₀ (
          Ensures-after _ _ (collect-Keeps role id member db v) λ _ s₁ k₁.
            Ensures-after_masked _ _ _ (set_thread_member_role-Keeps I L id member role s₁ k₁)
              λ _ s₂ k₂. holds k₂)

  pub close_room-Keeps :
      (bot_id : ℕ) (code : String) (db : Rooms) → I db → Keeps I (close_room enc bot_id code db)
  unfolding close_room withdraw_all_thread_receipts after
  close_room-Keeps bot_id code db v =
      Ensures-after _ _ (require_active_account-Reads bot_id db) λ _ s₀ e₀. rw e₀ (
        Ensures-after _ _ (load_room_for_governor-Reads code bot_id db) λ (id, t) s₁ e₁. rw e₁ (
          Ensures-after_masked _ _ _ (void_room-Keeps I L id db v) λ _ s₂ k₂.
            Ensures-after_masked _ _ _ (withdraw_receipts-Keeps I L.laws _ _ s₂ k₂) λ _ s₃ k₃.
              Ensures-after_masked _ _ _ (close_thread_by_id-Keeps I L id s₃ k₃)
                λ _ s₄ k₄. Ensures-fail_if _ _ _ _ λ g. holds k₄))

module _ (I : Rooms → Type 0) (L : FreeLaws I) where
  terminate-Keeps :
      (bot_id : ℕ) (db : Rooms) → I db → Keeps I (terminate_account_thread_memberships bot_id db)
  unfolding terminate_account_thread_memberships undelivered_with after
  terminate-Keeps bot_id db v =
      Ensures-after _ _ (withdraw_receipts-Keeps I L.laws _ _ _ (L.rooms db _ db.members v))
        λ _ s₁ k₁.
          Ensures-after _ _
            (void_assigns-Keeps I L _ _ (λ b e. ground (arith, e)) (L.queue s₁ _ k₁))
            λ _ s₂ k₂.
              Ensures-after _ _ (forfeit-Keeps I L 0 bot_id s₂ k₂)
                λ _ s₃ k₃. holds (L.rooms s₃ s₃.threads _ k₃)

  pub admin_set_bot_status-Keeps :
      (bot_id : ℕ) (enabled : Bool) (db : Rooms)
      → I db
      → Keeps I (admin_set_bot_status bot_id enabled db)
  unfolding admin_set_bot_status after
  admin_set_bot_status-Keeps bot_id true db v =
      Ensures-or_fail _ _ _ _ λ a e. holds (L.enables db _ v)
  admin_set_bot_status-Keeps bot_id false db v =
      Ensures-or_fail _ _ _ _
        λ a e. Ensures-after _ _ (terminate-Keeps bot_id _ (L.enables db _ v)) λ codes s k. holds k
