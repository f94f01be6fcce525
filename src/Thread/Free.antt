-- ===== src/Thread/Free.antt =====
-- The operations of internal/service/thread_kernel.go and the cascade of a disabled account, for an
-- invariant that does not look at who is in the rooms.
use kungfu.Base.{ℕ, String, ◌≡◌, refl, Bool, true, false, Option, none, some, List, arith}
use kungfu.Tables.{Time}
use kungfu.Tx.{
  holds, Ensures-fail_if, Ensures-or_fail, Ensures-after, Ensures-after_masked, after, Ensures-map,
}
use kungfu.Thread.{
  Rooms, ThreadRow, ThreadKey, ThreadRole, governor, speaker, MemberRow, AssignRow, assign_voided,
}
use kungfu.Thread.Store.{
  update_thread, issue_thread_key, revoke_thread_key, insert_thread, insert_thread_member,
  delete_thread_member, set_thread_member_role, close_thread_by_id, close_if, closed,
  generate_unique_thread_code,
}
use kungfu.Thread.Replay.{Encoding}
use kungfu.Thread.Obligations.{
  void_assigns, is_undelivered, void_undelivered_assigns, void_undelivered_assigns_for_member,
  undelivered_in, undelivered_of, forfeit_judgments_for_creator, awaits_judgment_of, forfeited,
  ended,
}
use kungfu.Thread.Kernel.{load_room_for_governor, start_room, first_key, issue_key, revoke_key}
use kungfu.Thread.Membership.{join_room, join_as, admit, admitted}
use kungfu.Thread.Laws.{FreeLaws, Keeps}
use kungfu.Thread.Lifecycle.{undelivered-leads, leads_refl}
use kungfu.Thread.Writes.{
  update_thread_lem, generate_unique_same, insert_thread_lem, insert_thread_member_lem,
  set_thread_member_role_lem,
}
use kungfu.Thread.Quiet.{Reads, require_active_account-Reads}

pub load_room_for_governor-Reads :
    (room : String) (bot_id : ℕ) (db : Rooms) → Reads db (load_room_for_governor room bot_id db)
unfolding load_room_for_governor after
load_room_for_governor-Reads room bot_id db = Ensures-or_fail _ _ _ _ λ t e.
    Ensures-or_fail _ _ _ _
      λ me m. Ensures-fail_if _ _ _ _ λ g. Ensures-fail_if _ _ _ _ λ o. holds refl

module _ (I : Rooms → Type 0) (L : FreeLaws I) where
  update_thread-Keeps :
      (id : ℕ) (f : ThreadRow → Time → ThreadRow) (db : Rooms)
      → I db
      → Keeps I (update_thread id f db)
  update_thread-Keeps id f db v =
      Ensures-map _ (λ _ s (t, l, e). rw e (L.rooms db _ db.members v)) (update_thread_lem id f db)

  insert_thread-Keeps :
      (room : String) (subject : Option String) (db : Rooms)
      → I db
      → Keeps I (insert_thread room subject db)
  insert_thread-Keeps room subject db v =
      Ensures-map _ (λ _ s (i, e). rw e (L.rooms db _ db.members v))
        (insert_thread_lem room subject db)

  insert_thread_member-Keeps :
      (id a : ℕ) (role : ThreadRole) (via : Option String) (db : Rooms)
      → I db
      → Keeps I (insert_thread_member id a role via db)
  insert_thread_member-Keeps id a role via db v =
      Ensures-map _ (λ _ s (n, e). rw e (L.rooms db db.threads _ v))
        (insert_thread_member_lem id a role via db)

  pub set_thread_member_role-Keeps :
      (id a : ℕ) (role : ThreadRole) (db : Rooms)
      → I db
      → Keeps I (set_thread_member_role id a role db)
  set_thread_member_role-Keeps id a role db v =
      Ensures-map _ (λ _ s e. rw e (L.rooms db db.threads _ v))
        (set_thread_member_role_lem id a role db)

  pub delete_thread_member-Keeps :
      (id a : ℕ) (db : Rooms) → I db → Keeps I (delete_thread_member id a db)
  unfolding delete_thread_member after
  delete_thread_member-Keeps id a db v = holds (L.rooms db db.threads _ v)

  pub void_assigns-Keeps :
      (p : AssignRow → Bool) (db : Rooms)
      → ((a : AssignRow) → p a ≡ true → is_undelivered a.state ≡ true)
      → I db
      → Keeps I (void_assigns p db)
  unfolding void_assigns ended after
  void_assigns-Keeps p db u v = holds (
      L.revises db p (ended assign_voided db.now) (λ a e. (undelivered-leads a.state (u a e), refl))
        v)

  pub forfeit-Keeps :
      (id a : ℕ) (db : Rooms) → I db → Keeps I (forfeit_judgments_for_creator id a db)
  unfolding forfeit_judgments_for_creator forfeited
  forfeit-Keeps id a db v = holds (
      L.revises db (awaits_judgment_of id a) (forfeited db.now) (λ b e. (leads_refl b.state, refl))
        v)

  close_if-Keeps : (b : Bool) (id : ℕ) (db : Rooms) → I db → Keeps I (close_if b id db)
  unfolding after
  close_if-Keeps false id db v = holds v
  close_if-Keeps true id db v =
      Ensures-after _ _ (update_thread-Keeps id closed db v) λ _ s k. holds k

  pub close_thread_by_id-Keeps : (id : ℕ) (db : Rooms) → I db → Keeps I (close_thread_by_id id db)
  unfolding close_thread_by_id after
  close_thread_by_id-Keeps id db v = close_if-Keeps _ id db v

  pub void_member-Keeps :
      (id a : ℕ) (db : Rooms) → I db → Keeps I (void_undelivered_assigns_for_member id a db)
  unfolding void_undelivered_assigns_for_member undelivered_of undelivered_in
  void_member-Keeps id a db v = void_assigns-Keeps _ db (λ b e. ground (arith, e)) v

  pub void_room-Keeps : (id : ℕ) (db : Rooms) → I db → Keeps I (void_undelivered_assigns id db)
  unfolding void_undelivered_assigns undelivered_in
  void_room-Keeps id db v = void_assigns-Keeps _ db (λ b e. ground (arith, e)) v

  issue_thread_key-Keeps :
      (id : ℕ) (hash : String) (role : ThreadRole) (db : Rooms)
      → I db
      → Keeps I (issue_thread_key id hash role db)
  unfolding issue_thread_key
  issue_thread_key-Keeps id hash role db v = update_thread-Keeps id _ db v

  module _ (enc : Encoding) where
    pub issue_key-Keeps :
        (bot_id : ℕ) (room : String) (role : ThreadRole) (body : String) (db : Rooms)
        → I db
        → Keeps I (issue_key enc bot_id room role body db)
    unfolding issue_key after
    issue_key-Keeps bot_id room role body db v =
        Ensures-after _ _ (require_active_account-Reads bot_id db) λ _ s₀ e₀. rw e₀ (
          Ensures-after _ _ (load_room_for_governor-Reads room bot_id db) λ (id, t) s₁ e₁. rw e₁ (
            Ensures-after_masked _ _ _ (issue_thread_key-Keeps id _ role db v)
              λ _ s k. Ensures-or_fail _ _ _ _ λ r e. holds k))

    pub revoke_key-Keeps :
        (bot_id : ℕ) (room : String) (db : Rooms) → I db → Keeps I (revoke_key enc bot_id room db)
    unfolding revoke_key revoke_thread_key after
    revoke_key-Keeps bot_id room db v =
        Ensures-after _ _ (require_active_account-Reads bot_id db) λ _ s₀ e₀. rw e₀ (
          Ensures-after _ _ (load_room_for_governor-Reads room bot_id db) λ (id, t) s₁ e₁. rw e₁ (
            Ensures-fail_if _ _ _ _
              λ g. Ensures-after_masked _ _ _ (update_thread-Keeps id _ db v) λ _ s k. holds k))

    first_key-Keeps :
        (body : Option String) (id : ℕ) (db : Rooms) → I db → Keeps I (first_key enc body id db)
    unfolding first_key after
    first_key-Keeps none id db v = holds v
    first_key-Keeps (some body) id db v =
        Ensures-after_masked _ _ _ (issue_thread_key-Keeps id _ speaker db v) λ _ s k. holds k

    pub start_room-Keeps :
        (bot_id : ℕ) (subject : String) (body : Option String) (draws : List String) (db : Rooms)
        → I db
        → Keeps I (start_room enc bot_id subject body draws db)
    unfolding start_room generate_unique_thread_code after
    start_room-Keeps bot_id subject body draws db v =
        Ensures-after _ _ (require_active_account-Reads bot_id db) λ _ s₀ e₀. rw e₀ (
          Ensures-fail_if _ _ _ _ λ g.
            Ensures-after_masked _ _ _ (generate_unique_same _ draws db) λ c s₁ e₁. rw e₁ (
              Ensures-after_masked _ _ _ (insert_thread-Keeps c _ db v) λ id s₂ k₂.
                Ensures-after_masked _ _ _
                  (insert_thread_member-Keeps id bot_id governor none s₂ k₂)
                  λ _ s₃ k₃.
                    Ensures-after _ _ (first_key-Keeps body id s₃ k₃)
                      λ _ s₄ k₄. Ensures-or_fail _ _ _ _ λ r e. holds k₄))

    admit-Keeps :
        (bot_id id : ℕ) (t : ThreadRow) (key : ThreadKey) (db : Rooms)
        → I db
        → Keeps I (admit enc bot_id id t key db)
    unfolding admit admitted after
    admit-Keeps bot_id id t key db v = Ensures-fail_if _ _ _ _ λ g. Ensures-fail_if _ _ _ _ λ h.
        Ensures-after_masked _ _ _ (insert_thread_member-Keeps id bot_id _ _ db v)
          λ _ s k. Ensures-or_fail _ _ _ _ λ me f. holds k

    join_as-Keeps :
        (found : Option MemberRow) (bot_id id : ℕ) (t : ThreadRow) (key : ThreadKey) (db : Rooms)
        → I db
        → Keeps I (join_as enc found bot_id id t key db)
    unfolding join_as admitted after
    join_as-Keeps none bot_id id t key db v = admit-Keeps bot_id id t key db v
    join_as-Keeps (some me) bot_id id t key db v = holds v

    pub join_room-Keeps :
        (bot_id : ℕ) (raw : String) (db : Rooms) → I db → Keeps I (join_room enc bot_id raw db)
    unfolding join_room after
    join_room-Keeps bot_id raw db v =
        Ensures-after _ _ (require_active_account-Reads bot_id db) λ _ s₀ e₀. rw e₀ (
          Ensures-or_fail _ _ _ _ λ p e.
            Ensures-or_fail _ _ _ _
              λ t l. Ensures-or_fail _ _ _ _ λ key k. join_as-Keeps _ bot_id p.0 t key db v)
