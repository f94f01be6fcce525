-- ===== src/Thread/Closing.antt =====
-- What a close collects, what a closed room still accepts, and what the cascade of a disabled
-- account leaves: internal/service/thread_kernel.go and internal/repository/thread.go.
use kungfu.Base.{
  ℕ, String, ◌≡◌, refl, Bool, true, false, ◌&&◌, not, none, some, List, lookup, lookup-put_self,
  count, update, count-cleared, count-update, arith,
}
use kungfu.Tx.{
  ok, Ensures, holds, Ensures-fail_if, Ensures-after, Ensures-after_masked, Ensures_elim, after,
  masked, internal_error, thread_closed,
}
use kungfu.Thread.{
  Rooms, ThreadRow, ReceiptRow, is_open_status, is_pending, assign_voided, by_close,
}
use kungfu.Thread.Store.{find_thread_by_code, close_thread_by_id, close_if, closed}
use kungfu.Thread.Replay.{Encoding, Outcome}
use kungfu.Thread.Obligations.{
  withdraw_all_thread_receipts, withdraw_receipts, void_undelivered_assigns, void_assigns, is_owed,
  of_thread, of_assign, to_assign, undelivered_in, is_undelivered, ended, withdrawn_by,
  forfeit_judgments_for_creator,
}
use kungfu.Thread.Membership.{close_room}
use kungfu.Thread.Cascade.{terminate_account_thread_memberships, owed_by}
use kungfu.Thread.Writes.{Governed, update_thread_lem}
use kungfu.Thread.Governance.{active_first, room_first}

-- nothing is owed in the room, and nothing that was taken or offered waits there
pub record IsCollected (id : ℕ) (s : Rooms) : Type 0 where
  pub no_receipt : count (is_owed (of_thread id)) s.receipts ≡ 0
  pub no_assign : count (of_assign (undelivered_in id)) s.assigns ≡ 0
  pub is_closed :
      (t : ThreadRow)
      → lookup id s.threads ≡ some t
      → (is_open_status t.status ≡ false) × (t.key ≡ none)

-- a close that is done leaves the room closed, and the obligations as they are
abbrev IsClosing : ℕ → Rooms → Bool → Rooms → Type 0
IsClosing id db done s =
    done ≡ true
    → (s.receipts ≡ db.receipts)
      × (s.assigns ≡ db.assigns)
      × ((t : ThreadRow)
          → lookup id s.threads ≡ some t
          → (is_open_status t.status ≡ false) × (t.key ≡ none))

close_if_lem : (b : Bool) (id : ℕ) (db : Rooms) → Ensures (IsClosing id db) (close_if b id db)
unfolding after is_open_status
close_if_lem false id db = holds (λ e. absurd (ground arith))
close_if_lem true id db = Ensures-after _ _ (update_thread_lem id closed db) λ _ s (t, l, e). rw e (
    holds (λ _.
      (refl, refl, λ u f. ground (arith, lookup-put_self id (closed t db.now) t db.threads l))))

close_thread_by_id_lem :
    (id : ℕ) (db : Rooms) → Ensures (IsClosing id db) (close_thread_by_id id db)
unfolding close_thread_by_id after
close_thread_by_id_lem id db = close_if_lem _ id db

-- the room's receipts withdrawn and its undelivered assignments voided
abbrev swept : ℕ → Rooms → Rooms
swept id db = record db {
  receipts = update (is_owed (of_thread id)) (withdrawn_by by_close db.now) db.receipts;
  assigns =
      update (of_assign (undelivered_in id)) (to_assign (ended assign_voided db.now)) db.assigns;
}

surely : (b : Bool) → not b ≡ false → b ≡ true
surely true e = refl
surely false e = absurd (ground arith)

close_room-IsCollected :
    (enc : Encoding) (bot_id : ℕ) (code : String) (db : Rooms)
    → Governed db
    → Ensures
        (λ _ s.
          (id : ℕ) × (t : ThreadRow) × (find_thread_by_code code db ≡ some (id, t))
          × IsCollected id s)
        (close_room enc bot_id code db)
unfolding close_room after masked void_undelivered_assigns void_assigns withdraw_all_thread_receipts
    withdraw_receipts is_owed withdrawn_by undelivered_in ended is_undelivered is_pending
close_room-IsCollected enc bot_id code db v = active_first bot_id db _ (
    room_first code bot_id db _ v λ id t c l o.
      Ensures-after_masked _ internal_error _ (close_thread_by_id_lem id (swept id db)) λ done s k.
        Ensures-fail_if (not done) thread_closed s _ λ g.
          let (e, f, h) = k (surely done g) in
          holds {s = s} (
            id,
            t,
            c,
            record {
              no_receipt = rw e (count-cleared _ _ db.receipts (λ r p. ground arith));
              no_assign = rw f (count-cleared _ _ db.assigns (λ (i, a) p. ground arith));
              is_closed = h;
            },
          ))

-- After `ThreadClose` the room that the code names has no pending receipt and no open or taken
-- assignment; it is closed and without a key.
pub close_room_collects :
    (enc : Encoding) (bot_id : ℕ) (code : String) (db : Rooms) (out : Outcome) (s : Rooms)
    → Governed db
    → close_room enc bot_id code db ≡ ok (out, s)
    → (id : ℕ) × (t : ThreadRow) × (find_thread_by_code code db ≡ some (id, t)) × IsCollected id s
close_room_collects enc bot_id code db out s v e =
    Ensures_elim _ (close_room-IsCollected enc bot_id code db v) e

-- a pending receipt in the room that another member than the account owes
abbrev pub owed_by_others : ℕ → ℕ → ReceiptRow → Bool
owed_by_others id bot_id r = is_owed (of_thread id) r && not (owed_by bot_id r)

others_stay :
    (id bot_id : ℕ) (db : Rooms)
    → Ensures
        (λ _ s.
          count (owed_by_others id bot_id) s.receipts
          ≡ count (owed_by_others id bot_id) db.receipts)
        (terminate_account_thread_memberships bot_id db)
unfolding terminate_account_thread_memberships withdraw_receipts void_assigns
    forfeit_judgments_for_creator after is_owed owed_by withdrawn_by is_pending of_thread
others_stay id bot_id db =
    holds (count-update _ (owed_by_others id bot_id) _ db.receipts (λ r p. ground arith))

-- Whatever rooms the end of an account's memberships closes, it leaves in every room exactly as many
-- pending receipts of the other members as there were.
pub terminate_leaves_receipts :
    (id bot_id : ℕ) (db : Rooms) (codes : List String) (s : Rooms)
    → terminate_account_thread_memberships bot_id db ≡ ok (codes, s)
    → count (owed_by_others id bot_id) s.receipts ≡ count (owed_by_others id bot_id) db.receipts
terminate_leaves_receipts id bot_id db codes s e = Ensures_elim _ (others_stay id bot_id db) e
