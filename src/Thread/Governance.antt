-- ===== src/Thread/Governance.antt =====
-- The operations of internal/service/thread_kernel.go on who governs the rooms.
use kungfu.Base.{
  ℕ, String, ◌≡◌, refl, true, false, ◌&&◌, not, Option, none, some, List, ◌∷◌, leb, Table, lookup,
  fresh, count, find, arith,
}
use kungfu.Tx.{
  Tx, Ensures, holds, Ensures-fail_if, Ensures-or_fail, Ensures-after, Ensures-after_masked,
  Ensures-last, fail_if-same, after, masked,
}
use kungfu.Thread.{
  Rooms, ThreadRow, ThreadKey, ThreadRole, governor, speaker, observer, MemberRow, is_open_status,
  is_governor,
}
use kungfu.Thread.Store.{
  find_thread_by_code, find_thread_member, issue_thread_key, revoke_thread_key, with_key, unkeyed,
  delete_thread_member, is_member, governs, generate_unique_thread_code, count_open_memberships,
  count_thread_members, count_thread_governors,
}
use kungfu.Thread.Replay.{Encoding, require_active_account}
use kungfu.Thread.Obligations.{
  void_undelivered_assigns_for_member, forfeit_judgments_for_creator,
  withdraw_thread_receipts_by_member, withdraw_all_thread_receipts, void_undelivered_assigns,
  withdraw_receipts, void_assigns,
}
use kungfu.Thread.Kernel.{load_room_for_governor, start_room, first_key, issue_key, revoke_key}
use kungfu.Thread.Membership.{
  join_room, join_as, admit, admitted, leave_room, governed_member_change, remove_member,
  change_role, close_room, collect_on_demotion, stays_governor,
}
use kungfu.Thread.Governed.{IsGoverned-admit, IsGoverned-part, IsGoverned-role}
use kungfu.Thread.Founding.{IsGoverned-found}
use kungfu.Thread.Laws.{Keeps}
use kungfu.Thread.Writes.{
  Governed, update_thread-Governed, generate_unique_same, insert_thread_lem,
  insert_thread_member_lem, set_thread_member_role_lem, close_thread_by_id-Governed, code-lookup,
}

-- what the governance preconditions establish
abbrev IsGovernedBy : String → Rooms → ℕ × ThreadRow → Rooms → Type 0
IsGovernedBy code db (id, t) s =
    (s ≡ db)
    × (find_thread_by_code code db ≡ some (id, t))
    × (lookup id db.threads ≡ some t)
    × (is_open_status t.status ≡ true)

load_room_for_governor_lem :
    (code : String) (bot_id : ℕ) (db : Rooms)
    → Governed db
    → Ensures (IsGovernedBy code db) (load_room_for_governor code bot_id db)
unfolding load_room_for_governor after
load_room_for_governor_lem code bot_id db v = Ensures-or_fail _ _ _ _ λ (id, t) e.
    Ensures-or_fail _ _ _ _ λ me m. Ensures-fail_if _ _ _ _ λ g.
      Ensures-fail_if _ _ _ _ λ o. holds (refl, e, code-lookup code db id t v e, ground (arith, o))

require_active_account_same :
    (bot_id : ℕ) (db : Rooms) → Ensures (λ _ s. s ≡ db) (require_active_account bot_id db)
unfolding require_active_account after
require_active_account_same bot_id db = Ensures-last _ λ u s e. fail_if-same _ _ db u s e

-- A transaction that begins with `require_active_account` goes on in the same database.
pub active_first :
    {B : Type 0} {P : B → Rooms → Type 0} (bot_id : ℕ) (db : Rooms) (f : Unit {0} → Tx Rooms B)
    → Ensures P (f tt db)
    → Ensures P (after (require_active_account bot_id db) f)
active_first {P} bot_id db f h =
    Ensures-after _ f (require_active_account_same bot_id db) λ u s e. rw e h

-- The same for `load_room_for_governor`.
pub room_first :
    {B : Type 0} {P : B → Rooms → Type 0} (code : String) (bot_id : ℕ) (db : Rooms)
    (f : ℕ × ThreadRow → Tx Rooms B)
    → Governed db
    → ((id : ℕ) (t : ThreadRow)
        → find_thread_by_code code db ≡ some (id, t)
        → lookup id db.threads ≡ some t
        → is_open_status t.status ≡ true
        → Ensures P (f (id, t) db))
    → Ensures P (after (load_room_for_governor code bot_id db) f)
room_first {P} code bot_id db f v h =
    Ensures-after _ f (load_room_for_governor_lem code bot_id db v)
      λ (id, t) s (e, c, l, o). rw e (h id t c l o)

issue_thread_key-Governed :
    (id : ℕ) (hash : String) (role : ThreadRole) (db : Rooms)
    → ((t : ThreadRow) → lookup id db.threads ≡ some t → is_open_status t.status ≡ true)
    → Governed db
    → Keeps Governed (issue_thread_key id hash role db)
unfolding issue_thread_key
issue_thread_key-Governed id hash role db o v =
    update_thread-Governed id (with_key hash role) db (λ t e. (refl, λ c. ground (arith, o t e))) v

new_is_open :
    (id : ℕ) (new : ThreadRow) (rest : Table ThreadRow) (t : ThreadRow)
    → is_open_status new.status ≡ true
    → lookup id ((id, new) ∷ rest) ≡ some t
    → is_open_status t.status ≡ true
unfolding lookup
new_is_open id new rest t o e = ground arith

module _ (enc : Encoding) where
  pub issue_key-Governed :
      (bot_id : ℕ) (code : String) (role : ThreadRole) (body : String) (db : Rooms)
      → Governed db
      → Keeps Governed (issue_key enc bot_id code role body db)
  unfolding issue_key after
  issue_key-Governed bot_id code role body db v = active_first bot_id db _ (
      room_first code bot_id db _ v λ id t c l o.
        Ensures-after_masked _ _ _
          (issue_thread_key-Governed id _ role db (λ u e. ground (arith, o)) v)
          λ _ s k. Ensures-or_fail _ _ _ _ λ r e. holds k)

  pub revoke_key-Governed :
      (bot_id : ℕ) (code : String) (db : Rooms)
      → Governed db
      → Keeps Governed (revoke_key enc bot_id code db)
  unfolding revoke_key revoke_thread_key after
  revoke_key-Governed bot_id code db v = active_first bot_id db _ (
      room_first code bot_id db _ v λ id t c l o. Ensures-fail_if _ _ _ _ λ g.
        Ensures-after_masked _ _ _
          (update_thread-Governed id unkeyed db (λ u e. (refl, λ c. refl)) v) λ _ s k. holds k)

  first_key-Governed :
      (body : Option String) (id : ℕ) (db : Rooms)
      → ((t : ThreadRow) → lookup id db.threads ≡ some t → is_open_status t.status ≡ true)
      → Governed db
      → Keeps Governed (first_key enc body id db)
  unfolding first_key after
  first_key-Governed none id db o v = holds v
  first_key-Governed (some body) id db o v =
      Ensures-after_masked _ _ _ (issue_thread_key-Governed id _ speaker db o v) λ _ s k. holds k

  pub start_room-Governed :
      (bot_id : ℕ) (subject : String) (body : Option String) (draws : List String) (db : Rooms)
      → Governed db
      → Keeps Governed (start_room enc bot_id subject body draws db)
  unfolding start_room generate_unique_thread_code count_open_memberships after is_open_status
      is_governor
  start_room-Governed bot_id subject body draws db v = active_first bot_id db _ (
      Ensures-fail_if _ _ _ _ λ g.
        Ensures-after_masked _ _ _ (generate_unique_same _ draws db) λ code s₀ e₀. rw e₀ (
          Ensures-after_masked _ _ _ (insert_thread_lem code _ db) λ id s₁ (i, e₁).
            rw (e₁, i)
              (Ensures-after_masked _ _ _
                (insert_thread_member_lem (fresh db.threads) bot_id governor none _)
                λ _ s₂ (n, e₂). rw e₂ (
                  Ensures-after _ _
                    (first_key-Governed body (fresh db.threads) _
                      (λ t f. new_is_open _ _ db.threads t refl f)
                      (IsGoverned-found db.threads db.members _ _ refl refl refl (ground (arith, g))
                        v))
                    λ _ s₃ k. Ensures-or_fail _ _ _ _ λ r e. holds k))))

  admitted-Governed :
      (id : ℕ) (t : ThreadRow) (m : MemberRow) (n : ℕ) (db : Rooms)
      → Governed db
      → Keeps Governed (admitted enc id t m n db)
  unfolding admitted after
  admitted-Governed id t m n db v = holds v

  admit-Governed :
      (bot_id id : ℕ) (t : ThreadRow) (key : ThreadKey) (db : Rooms)
      → lookup id db.threads ≡ some t
      → Governed db
      → Keeps Governed (admit enc bot_id id t key db)
  unfolding admit count_thread_members count_open_memberships after
  admit-Governed bot_id id t key db l v = Ensures-fail_if _ _ _ _ λ g. Ensures-fail_if _ _ _ _ λ h.
      Ensures-after_masked _ _ _
        (insert_thread_member_lem id bot_id key.key_role (some key.key_hash) db)
        λ _ s (n, e). rw e (
          Ensures-or_fail _ _ _ _ λ me f. admitted-Governed id t me _ _ (
            IsGoverned-admit db.threads db.members _ t l n (ground (arith, g)) (ground (arith, h))
              v))

  join_as-Governed :
      (found : Option MemberRow) (bot_id id : ℕ) (t : ThreadRow) (key : ThreadKey) (db : Rooms)
      → lookup id db.threads ≡ some t
      → Governed db
      → Keeps Governed (join_as enc found bot_id id t key db)
  unfolding join_as after
  join_as-Governed none bot_id id t key db l v = admit-Governed bot_id id t key db l v
  join_as-Governed (some me) bot_id id t key db l v = admitted-Governed id t me _ db v

  pub join_room-Governed :
      (bot_id : ℕ) (raw : String) (db : Rooms)
      → Governed db
      → Keeps Governed (join_room enc bot_id raw db)
  unfolding join_room after
  join_room-Governed bot_id raw db v = active_first bot_id db _ (
      Ensures-or_fail _ _ _ _ λ (id, _) e.
        Ensures-or_fail _ _ _ _
          λ t l. Ensures-or_fail _ _ _ _ λ key k. join_as-Governed _ bot_id id t key db l v)

  pub leave_room-Governed :
      (bot_id : ℕ) (code : String) (db : Rooms)
      → Governed db
      → Keeps Governed (leave_room enc bot_id code db)
  unfolding leave_room after masked find_thread_member count_thread_governors
      void_undelivered_assigns_for_member void_assigns forfeit_judgments_for_creator
      withdraw_thread_receipts_by_member withdraw_receipts delete_thread_member
  leave_room-Governed bot_id code db v = active_first bot_id db _ (
      Ensures-or_fail _ _ _ _ λ (id, t) e. Ensures-or_fail _ _ _ _ λ me m.
        Ensures-fail_if _ _ _ _ λ g. holds (
          IsGoverned-part id bot_id me db.threads db.members t (code-lookup code db id t v e) m g
            v))

  collect_same :
      (role : ThreadRole) (id member : ℕ) (db : Rooms)
      → Ensures
          (λ _ s. (s.threads ≡ db.threads) × (s.members ≡ db.members))
          (collect_on_demotion enc role id member db)
  unfolding masked withdraw_thread_receipts_by_member withdraw_receipts after
  collect_same governor id member db = holds (refl, refl)
  collect_same speaker id member db = holds (refl, refl)
  collect_same observer id member db = holds (refl, refl)

  -- what the preconditions of a change to a member establish
  abbrev IsChangeOf : ℕ → Option ThreadRole → Rooms → ℕ × ThreadRow → Rooms → Type 0
  IsChangeOf member new_role db (id, t) s =
      (s ≡ db)
      × (lookup id db.threads ≡ some t)
      × ((target : MemberRow) × (find (is_member id member) db.members ≡ some target)
          × ((is_governor target.role
                && (not (stays_governor enc new_role) && leb (count (governs id) db.members) 1))
              ≡ false))

  governed_member_change_lem :
      (code : String) (bot_id member : ℕ) (new_role : Option ThreadRole) (db : Rooms)
      → Governed db
      → Ensures
          (IsChangeOf member new_role db)
          (governed_member_change enc code bot_id member new_role db)
  unfolding governed_member_change after find_thread_member count_thread_governors
  governed_member_change_lem code bot_id member new_role db v = active_first bot_id db _ (
      room_first code bot_id db _ v λ id t c l o. Ensures-or_fail _ _ _ _ λ target f.
        Ensures-fail_if _ _ _ _ λ g. Ensures-fail_if _ _ _ _ λ h. holds (refl, l, (target, f, h)))

  pub remove_member-Governed :
      (bot_id : ℕ) (code : String) (member : ℕ) (db : Rooms)
      → Governed db
      → Keeps Governed (remove_member enc bot_id code member db)
  unfolding remove_member after masked void_undelivered_assigns_for_member void_assigns
      forfeit_judgments_for_creator withdraw_thread_receipts_by_member withdraw_receipts
      delete_thread_member
  remove_member-Governed bot_id code member db v =
      Ensures-after _ _ (governed_member_change_lem code bot_id member none db v)
        λ (id, t) s (e, l, (target, f, g)). rw e (
          holds
            (IsGoverned-part id member target db.threads db.members t l f (ground (arith, g)) v))

  pub change_role-Governed :
      (bot_id : ℕ) (code : String) (member : ℕ) (role : ThreadRole) (db : Rooms)
      → Governed db
      → Keeps Governed (change_role enc bot_id code member role db)
  unfolding change_role after masked withdraw_thread_receipts_by_member withdraw_receipts
  change_role-Governed bot_id code member role db v =
      Ensures-after _ _ (governed_member_change_lem code bot_id member (some role) db v)
        λ (id, t) s (e, l, (target, f, g)). rw e (
          Ensures-after _ _ (collect_same role id member db) λ n s₁ (k, m).
            Ensures-after_masked _ _ _ (set_thread_member_role_lem id member role s₁) λ _ s₂ w.
              rw (w, k, m)
                (holds (IsGoverned-role id member target db.threads db.members role t l f g v)))

  pub close_room-Governed :
      (bot_id : ℕ) (code : String) (db : Rooms)
      → Governed db
      → Keeps Governed (close_room enc bot_id code db)
  unfolding close_room after masked void_undelivered_assigns void_assigns
      withdraw_all_thread_receipts withdraw_receipts
  close_room-Governed bot_id code db v = active_first bot_id db _ (
      room_first code bot_id db _ v λ id t c l o.
        Ensures-after_masked _ _ _ (close_thread_by_id-Governed id _ v)
          λ done s k. Ensures-fail_if _ _ _ _ λ g. holds k)
