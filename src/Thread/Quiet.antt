-- ===== src/Thread/Quiet.antt =====
-- The operations of internal/service/thread_state.go, and what every lawful invariant of the rooms
-- makes of them.
use kungfu.Base.{
  ℕ, String, ◌≡◌, refl, Bool, Option, none, some, List, [], ◌∷◌, ◌==◌, Bool-cases, inl, inr, arith,
}
use kungfu.Tx.{
  Err, Result, Ensures, holds, Ensures-fail_if, Ensures-or_fail, Ensures-after,
  Ensures-after_masked, Ensures-last, fail_if-same, after, Ensures-map, Ensures-masked, fail_if,
}
use kungfu.Thread.{Rooms, MemoRow, NotifyKind, Resolution, ReceiptRow, is_pending}
use kungfu.Thread.Replay.{Encoding, require_active_account}
use kungfu.Thread.Obligations.{
  insert_thread_receipt, fulfill_thread_receipt, withdraw_receipts, enqueue_notify,
  withdraw_thread_receipts_by_entry, fulfilled_by, withdrawn_by, owed_on, pending_row,
}
use kungfu.Thread.Entries.{
  next_thread_seq, create_thread_kungfu, insert_thread_entry, insert_assignment,
  link_entry_assignment, advanced, NewEntry, NewAssignment, assign_row,
}
use kungfu.Thread.Speech.{
  Post, PostChecks, AssignSpec, load_open_room, pinnable, store_content, pin_memory, replied_author,
  ask_members, response_objects, insert_receipts, notify_asked, create_assignment, end_own_receipt,
  post_entry, handle_receipt, retract_entry, has_id, notify_assignee, resolve_memory,
}
use package.text.Mathlib.Text.{◌==◌ as str_eq}
use kungfu.Thread.Laws.{Laws, Keeps}
use kungfu.Thread.Writes.{update_thread_lem, generate_unique_same}

-- a transaction that writes nothing
abbrev pub Reads : {A : Type 0} → Rooms → Result (A × Rooms) → Type 0
Reads db r = Ensures (λ _ s. s ≡ db) r

pub fail_if-Reads : (b : Bool) (e : Err) (db : Rooms) → Reads db (fail_if b e db)
fail_if-Reads b e db = Ensures-last _ λ u s h. fail_if-same b e db u s h

pub require_active_account-Reads :
    (bot_id : ℕ) (db : Rooms) → Reads db (require_active_account bot_id db)
unfolding require_active_account after
require_active_account-Reads bot_id db = fail_if-Reads _ _ db

load_open_room-Reads :
    (code : String) (bot_id : ℕ) (db : Rooms) → Reads db (load_open_room code bot_id db)
unfolding load_open_room after
load_open_room-Reads code bot_id db =
    Ensures-after _ _ (require_active_account-Reads bot_id db) λ _ s e. rw e (
      Ensures-or_fail _ _ _ _
        λ t f. Ensures-or_fail _ _ _ _ λ me m. Ensures-fail_if _ _ _ _ λ g. holds refl)

pinnable-Reads : (bot_id : ℕ) (k : MemoRow) (db : Rooms) → Reads db (pinnable bot_id k db)
unfolding pinnable
pinnable-Reads bot_id k db = elim (Bool-cases (k.bot_id == bot_id)) [
  | inl y ↦ rw y (fail_if-Reads _ _ db)
  | inr n ↦ rw n (fail_if-Reads _ _ db)
]

pin_memory-Reads : (bot_id : ℕ) (code : String) (db : Rooms) → Reads db (pin_memory bot_id code db)
unfolding pin_memory after
pin_memory-Reads bot_id code db =
    Ensures-or_fail _ _ _ _
      λ (id, k) f. Ensures-after _ _ (pinnable-Reads bot_id k db) λ _ s e. rw e (holds refl)

replied_author-Reads :
    (id : ℕ) (reply : Option ℕ) (db : Rooms) → Reads db (replied_author id reply db)
unfolding replied_author after
replied_author-Reads id none db = holds refl
replied_author-Reads id (some entry) db = Ensures-or_fail _ _ _ _ λ t f. holds refl

ask_members-Reads :
    (id bot_id : ℕ) (ids seen : List ℕ) (db : Rooms) → Reads db (ask_members id bot_id ids seen db)
unfolding ask_members after
ask_members-Reads id bot_id [] seen db = holds refl
ask_members-Reads id bot_id (x ∷ ids) seen db = Ensures-fail_if _ _ _ _ λ g.
    elim (Bool-cases (has_id x seen)) [
      | inl y ↦ rw y (ask_members-Reads id bot_id ids seen db)
      | inr n ↦ rw n (
          Ensures-fail_if _ _ _ _ λ h.
            Ensures-after _ _ (ask_members-Reads id bot_id ids (x ∷ seen) db)
              λ rest s e. rw e (holds refl))
    ]

response_objects-Reads :
    (id bot_id : ℕ) (ask : Option (List ℕ)) (author : Option ℕ) (db : Rooms)
    → Reads db (response_objects id bot_id ask author db)
unfolding response_objects after
response_objects-Reads id bot_id none author db = holds refl
response_objects-Reads id bot_id (some ask) author db =
    Ensures-fail_if _ _ _ _ λ g. ask_members-Reads id bot_id ask [] db

-- an invariant that allows what speaking writes
module _ (I : Rooms → Type 0) (L : Laws I) where
  pub enqueue_notify-Keeps :
      (to : ℕ) (kind : NotifyKind) (n : ℕ) (db : Rooms)
      → I db
      → Keeps I (enqueue_notify to kind n db)
  unfolding enqueue_notify
  enqueue_notify-Keeps to kind n db v = holds (L.queue db _ v)

  pub fulfill_thread_receipt-Keeps :
      (entry bot_id : ℕ) (by : Resolution) (said : Option String) (db : Rooms)
      → I db
      → Keeps I (fulfill_thread_receipt entry bot_id by said db)
  unfolding fulfill_thread_receipt fulfilled_by is_pending after
  fulfill_thread_receipt-Keeps entry bot_id by said db v = holds (
      L.ends db (owed_on entry bot_id) (fulfilled_by by said db.now) (λ r. (refl, refl, refl, refl))
        v)

  pub withdraw_receipts-Keeps :
      (p : ReceiptRow → Bool) (by : Resolution) (db : Rooms)
      → I db
      → Keeps I (withdraw_receipts p by db)
  unfolding withdraw_receipts withdrawn_by is_pending after
  withdraw_receipts-Keeps p by db v =
      holds (L.ends db p (withdrawn_by by db.now) (λ r. (refl, refl, refl, refl)) v)

  insert_thread_receipt-Keeps :
      (id entry member : ℕ) (db : Rooms) → I db → Keeps I (insert_thread_receipt id entry member db)
  unfolding insert_thread_receipt after
  insert_thread_receipt-Keeps id entry member db v =
      Ensures-fail_if _ _ _ _
        λ g. holds (L.asks db (pending_row id entry member db.now) (ground (arith, g)) v)

  insert_assignment-Keeps :
      (id entry : ℕ) (a : NewAssignment) (db : Rooms)
      → I db
      → Keeps I (insert_assignment id entry a db)
  unfolding insert_assignment after
  insert_assignment-Keeps id entry a db v = holds (L.offers db (assign_row id entry a db.now) v)

  link_entry_assignment-Keeps :
      (entry assign : ℕ) (db : Rooms) → I db → Keeps I (link_entry_assignment entry assign db)
  unfolding link_entry_assignment
  link_entry_assignment-Keeps entry assign db v = holds (L.writes db _ v)

  create_thread_kungfu-Keeps :
      (bot_id : ℕ) (summary content checksum : String) (draws : List String) (db : Rooms)
      → I db
      → Keeps I (create_thread_kungfu bot_id summary content checksum draws db)
  unfolding create_thread_kungfu after
  create_thread_kungfu-Keeps bot_id summary content checksum draws db v =
      Ensures-after _ _ (generate_unique_same _ draws db) λ c s e. rw e (holds (L.stores db _ v))

  store_content-Keeps :
      (enc : Encoding) (checks : PostChecks) (bot_id : ℕ) (content summary : String)
      (draws : List String) (db : Rooms)
      → I db
      → Keeps I (store_content enc checks bot_id content summary draws db)
  unfolding store_content after
  store_content-Keeps enc checks bot_id content summary draws db v = Ensures-fail_if _ _ _ _ λ g1.
      Ensures-fail_if _ _ _ _ λ g2. Ensures-fail_if _ _ _ _ λ g3. Ensures-fail_if _ _ _ _ λ g4.
        Ensures-fail_if _ _ _ _ λ g5.
          Ensures-after_masked _ _ _
            (create_thread_kungfu-Keeps bot_id summary content _ draws db v) λ p s k. holds k

  insert_receipts-Keeps :
      (id entry : ℕ) (ids : List ℕ) (db : Rooms) → I db → Keeps I (insert_receipts id entry ids db)
  unfolding insert_receipts after
  insert_receipts-Keeps id entry [] db v = holds v
  insert_receipts-Keeps id entry (x ∷ ids) db v =
      Ensures-after_masked _ _ _ (insert_thread_receipt-Keeps id entry x db v)
        λ _ s k. insert_receipts-Keeps id entry ids s k

  notify_asked-Keeps : (ids : List ℕ) (db : Rooms) → I db → Keeps I (notify_asked ids db)
  unfolding notify_asked after
  notify_asked-Keeps [] db v = holds v
  notify_asked-Keeps (x ∷ ids) db v =
      Ensures-after _ _ (enqueue_notify-Keeps x _ _ db v) λ _ s k. notify_asked-Keeps ids s k

  notify_assignee-Keeps :
      (to bot_id : ℕ) (db : Rooms) → I db → Keeps I (notify_assignee to bot_id db)
  notify_assignee-Keeps to bot_id db v = elim (Bool-cases (to == bot_id)) [
    | inl y ↦ rw y (holds v)
    | inr n ↦ rw n (enqueue_notify-Keeps to _ _ db v)
  ]

  create_assignment-Keeps :
      (checks : PostChecks) (bot_id id entry : ℕ) (spec : Option AssignSpec) (db : Rooms)
      → I db
      → Keeps I (create_assignment checks bot_id id entry spec db)
  unfolding create_assignment after
  create_assignment-Keeps checks bot_id id entry none db v = holds v
  create_assignment-Keeps checks bot_id id entry (some spec) db v = Ensures-fail_if _ _ _ _ λ g.
      Ensures-fail_if _ _ _ _ λ h. Ensures-or_fail _ _ _ _ λ d e. Ensures-or_fail _ _ _ _ λ j f.
        Ensures-fail_if _ _ _ _ λ k.
          Ensures-after_masked _ _ _ (insert_assignment-Keeps id entry _ db v) λ a s₁ k₁.
            Ensures-after_masked _ _ _ (link_entry_assignment-Keeps entry a s₁ k₁) λ _ s₂ k₂.
              Ensures-after _ _ (notify_assignee-Keeps spec.to bot_id s₂ k₂) λ _ s₃ k₃. holds k₃

  end_own_receipt-Keeps :
      (bot_id : ℕ) (reply : Option ℕ) (db : Rooms)
      → I db
      → Keeps I (end_own_receipt bot_id reply db)
  unfolding end_own_receipt
  end_own_receipt-Keeps bot_id none db v = holds v
  end_own_receipt-Keeps bot_id (some entry) db v =
      Ensures-masked _ _ (fulfill_thread_receipt-Keeps entry bot_id _ none db v)

  next_thread_seq-Keeps : (id : ℕ) (db : Rooms) → I db → Keeps I (next_thread_seq id db)
  unfolding next_thread_seq after
  next_thread_seq-Keeps id db v = Ensures-or_fail _ _ _ _ λ t e.
      Ensures-after _ _ (update_thread_lem id advanced db)
        λ _ s (u, l, h). rw h (holds (L.advances db id u l v))

  insert_thread_entry-Keeps :
      (id seq : ℕ) (e : NewEntry) (db : Rooms) → I db → Keeps I (insert_thread_entry id seq e db)
  unfolding insert_thread_entry after
  insert_thread_entry-Keeps id seq e db v = Ensures-fail_if _ _ _ _ λ g. holds (L.writes db _ v)

  resolve_memory-Keeps :
      (enc : Encoding) (checks : PostChecks) (bot_id : ℕ) (p : Post) (draws : List String)
      (db : Rooms)
      → I db
      → Keeps I (resolve_memory enc checks bot_id p draws db)
  resolve_memory-Keeps enc checks bot_id p draws db v = elim (Bool-cases (str_eq p.content "")) [
    | inl y ↦ rw y (Ensures-map _ (λ a s e. rw e v) (pin_memory-Reads bot_id p.memory_code db))
    | inr n ↦ rw n (store_content-Keeps enc checks bot_id p.content _ draws db v)
  ]

  pub post_entry-Keeps :
      (enc : Encoding) (checks : PostChecks) (bot_id : ℕ) (p : Post) (draws : List String)
      (db : Rooms)
      → I db
      → Keeps I (post_entry enc checks bot_id p draws db)
  unfolding post_entry after
  post_entry-Keeps enc checks bot_id p draws db v =
      Ensures-after _ _ (load_open_room-Reads p.thread_code bot_id db) λ (id, t, me) s e. rw e (
        Ensures-fail_if _ _ _ _ λ g. Ensures-fail_if _ _ _ _ λ h.
          Ensures-after _ _ (resolve_memory-Keeps enc checks bot_id p draws db v) λ m s₁ k₁.
            Ensures-after _ _ (replied_author-Reads id p.reply_to s₁) λ author s₂ e₂. rw e₂ (
              Ensures-after _ _ (response_objects-Reads id bot_id p.ask author s₁) λ asked s₃ e₃.
                rw e₃ (
                  Ensures-after_masked _ _ _ (next_thread_seq-Keeps id s₁ k₁) λ seq s₄ k₄.
                    Ensures-after_masked _ _ _ (insert_thread_entry-Keeps id seq _ s₄ k₄)
                      λ entry s₅ k₅.
                        Ensures-after _ _ (insert_receipts-Keeps id entry asked s₅ k₅) λ _ s₆ k₆.
                          Ensures-after _ _ (notify_asked-Keeps asked s₆ k₆) λ _ s₇ k₇.
                            Ensures-after _ _
                              (create_assignment-Keeps checks bot_id id entry p.assign s₇ k₇)
                              λ a s₈ k₈.
                                Ensures-after _ _ (end_own_receipt-Keeps bot_id p.reply_to s₈ k₈)
                                  λ f s₉ k₉. holds k₉)))

  pub handle_receipt-Keeps :
      (bot_id : ℕ) (code : String) (entry : ℕ) (note : String) (db : Rooms)
      → I db
      → Keeps I (handle_receipt bot_id code entry note db)
  unfolding handle_receipt after
  handle_receipt-Keeps bot_id code entry note db v =
      Ensures-after _ _ (load_open_room-Reads code bot_id db) λ (id, t, me) s e. rw e (
        Ensures-fail_if _ _ _ _ λ g. Ensures-or_fail _ _ _ _ λ x f.
          Ensures-after_masked _ _ _ (fulfill_thread_receipt-Keeps entry bot_id _ _ db v)
            λ done s₁ k. Ensures-fail_if _ _ _ _ λ h. holds k)

  pub retract_entry-Keeps :
      (bot_id : ℕ) (code : String) (entry : ℕ) (db : Rooms)
      → I db
      → Keeps I (retract_entry bot_id code entry db)
  unfolding retract_entry withdraw_thread_receipts_by_entry after
  retract_entry-Keeps bot_id code entry db v =
      Ensures-after _ _ (load_open_room-Reads code bot_id db) λ (id, t, me) s e. rw e (
        Ensures-or_fail _ _ _ _ λ x f. Ensures-fail_if _ _ _ _ λ g.
          Ensures-after_masked _ _ _ (withdraw_receipts-Keeps _ _ db v)
            λ n s₁ k. Ensures-fail_if _ _ _ _ λ h. holds k)
