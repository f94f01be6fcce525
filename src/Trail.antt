-- ===== src/Trail.antt =====
-- internal/task/invariants.go, item 9: the append-only events of a submission and its state.
use kungfu.Base.{
  ℕ, ◌≤◌, ◌<◌, ◌≡◌, refl, sym, Bool, true, false, none, some, arith, List, [], ◌∷◌, lookup, put,
  put-cases, lookup-put, fresh, lookup-fresh, ◌==◌, Bool-cases, Option-cases, inl, inr, subst, ◌⊎◌,
  Table, ◌∙◌,
}
use kungfu.Task.{SubmissionState, SubmissionEvent}
use kungfu.Tx.{Ensures, holds, Ensures-ok, Ensures-or_fail, Ensures-fail_if}
use kungfu.Tables.{Db, SubmissionRow, SubmissionEventRow}
use kungfu.Repository.{
  set_submission_state, SetSubmissionStateOpts, updated_submission, insert_submission,
  NewSubmissionRow, max_seq, last_event,
}

abbrev pub any_state : SubmissionState → Bool
any_state s = true

-- Every submission has a last event, whose state is its own; a submission that is not there has none.
pub record IsRecorded (db : Db) : Type 0 where
  pub recorded :
      (id : ℕ) (s : SubmissionRow)
      → lookup id db.submissions ≡ some s
      → (e : SubmissionEventRow) × (last_event any_state id db.events ≡ some e)
        × (e.to_state ≡ s.state)
  pub unknown :
      (id : ℕ) → lookup id db.submissions ≡ none → last_event any_state id db.events ≡ none

last_event_max :
    (id : ℕ) (f : SubmissionEventRow) (es : List SubmissionEventRow)
    → last_event any_state id es ≡ some f
    → f.seq ≤ max_seq id es
unfolding last_event max_seq
last_event_max id f [] h = absurd (ground arith)
last_event_max id f (e ∷ es) h = elim (Option-cases (last_event any_state id es)) [
  | inl n ↦ ground arith
  | inr (g, found) ↦ ground (arith, last_event_max id g es found)
]

last_of_appended :
    (id : ℕ) (e : SubmissionEventRow) (es : List SubmissionEventRow)
    → e.submission_id ≡ id
    → max_seq id es < e.seq
    → last_event any_state id (e ∷ es) ≡ some e
unfolding last_event
last_of_appended id e es same later = elim (Option-cases (last_event any_state id es)) [
  | inl n ↦ ground arith
  | inr (f, found) ↦ ground (arith, last_event_max id f es found)
]

last_of_other :
    (id : ℕ) (e : SubmissionEventRow) (es : List SubmissionEventRow)
    → (e.submission_id == id) ≡ false
    → last_event any_state id (e ∷ es) ≡ last_event any_state id es
unfolding last_event
last_of_other id e es other = rw other refl

put-none :
    (k j : ℕ) (s u : SubmissionRow) (t : Table SubmissionRow)
    → lookup k t ≡ some u
    → lookup j (put k s t) ≡ none
    → ((k == j) ≡ false) × (lookup j t ≡ none)
put-none k j s u t e f =
    (ground (arith, lookup-put k j s u t e), ground (arith, lookup-put k j s u t e))

-- a state is set: its event is the last one
set_state-IsRecorded :
    (submission_id : ℕ) (to : SubmissionState) (s u : SubmissionRow) (e : SubmissionEventRow)
    (db db' : Db)
    → IsRecorded db
    → lookup submission_id db.submissions ≡ some u
    → s.state ≡ to
    → e.submission_id ≡ submission_id
    → e.to_state ≡ to
    → max_seq submission_id db.events < e.seq
    → db'.submissions ≡ put submission_id s db.submissions
    → db'.events ≡ e ∷ db.events
    → IsRecorded db'
set_state-IsRecorded submission_id to s u e db db' h found st own ev later es ee = record {
  recorded = λ id r f.
      rw ee (elim (put-cases submission_id id s u r db.submissions found (rw (sym es) f)) [
        | inl (same, new) ↦ (
          e,
          subst (λ k. last_event any_state k (e ∷ db.events) ≡ some e) (sym same)
              (last_of_appended submission_id e db.events own later),
          rw new (ev ∙ sym st),
        )
        | inr (other, old) ↦
            let (l, last, state) = h.recorded id r old in
            (l, last_of_other id e db.events (rw own other) ∙ last, state)
      ]);
  unknown = λ id gone.
      let (apart, old) = put-none submission_id id s u db.submissions found (rw (sym es) gone) in
      rw ee (last_of_other id e db.events (rw own apart) ∙ h.unknown id old);
}

-- Where the last event of every submission tells its state, it still does after a state is set.
pub set_submission_state-IsRecorded :
    (submission_id : ℕ) (from : SubmissionState) (event : SubmissionEvent)
    (opts : SetSubmissionStateOpts) (db : Db)
    → IsRecorded db
    → Ensures (λ _ db'. IsRecorded db') (set_submission_state submission_id from event opts db)
unfolding set_submission_state updated_submission
set_submission_state-IsRecorded submission_id from event opts db h =
    Ensures-or_fail _ _ _ _ λ to st. Ensures-ok _ _ _ (
      Ensures-or_fail _ _ _ _ λ s e. Ensures-fail_if _ _ _ _ λ g. holds (
        set_state-IsRecorded submission_id to _ s _ db _ h e refl refl refl (omega arith) refl
          refl))

first_of :
    (id : ℕ) (e : SubmissionEventRow) (es : List SubmissionEventRow)
    → e.submission_id ≡ id
    → last_event any_state id es ≡ none
    → last_event any_state id (e ∷ es) ≡ some e
unfolding last_event
first_of id e es own n = ground arith

cons_none :
    (k j : ℕ) (s : SubmissionRow) (t : Table SubmissionRow)
    → lookup j ((k, s) ∷ t) ≡ none
    → ((k == j) ≡ false) × (lookup j t ≡ none)
unfolding lookup
cons_none k j s t f = (ground arith, ground arith)

cons_some :
    (k j : ℕ) (s r : SubmissionRow) (t : Table SubmissionRow)
    → lookup j ((k, s) ∷ t) ≡ some r
    → ((j ≡ k) × (r ≡ s)) ⊎ (((k == j) ≡ false) × (lookup j t ≡ some r))
unfolding lookup
cons_some k j s r t f = elim (Bool-cases (j == k)) [
  | inl y ↦ inl (ground arith, ground arith)
  | inr n ↦ inr (ground arith, ground arith)
]

insert-IsRecorded :
    (s : SubmissionRow) (e : SubmissionEventRow) (db db' : Db)
    → IsRecorded db
    → e.submission_id ≡ fresh db.submissions
    → e.to_state ≡ s.state
    → db'.submissions ≡ (fresh db.submissions, s) ∷ db.submissions
    → db'.events ≡ e ∷ db.events
    → IsRecorded db'
insert-IsRecorded s e db db' h own ev es ee =
    let new_id = fresh db.submissions in
    record {
      recorded = λ id r f. rw ee (elim (cons_some new_id id s r db.submissions (rw (sym es) f)) [
        | inl (same, new) ↦ (
          e,
          first_of id e db.events (own ∙ sym same) (
              h.unknown id (
                subst (λ k. lookup k db.submissions ≡ none) (sym same)
                  (lookup-fresh db.submissions))),
          rw new ev,
        )
        | inr (other, old) ↦
            let (l, last, state) = h.recorded id r old in
            (l, last_of_other id e db.events (rw own other) ∙ last, state)
      ]);
      unknown = λ id gone.
          let (apart, old) = cons_none new_id id s db.submissions (rw (sym es) gone) in
          rw ee (last_of_other id e db.events (rw own apart) ∙ h.unknown id old);
    }

-- Where the last event of every submission tells its state, it still does after an insertion.
pub insert_submission-IsRecorded :
    (input : NewSubmissionRow) (db : Db)
    → IsRecorded db
    → Ensures (λ _ db'. IsRecorded db') (insert_submission input db)
unfolding insert_submission
insert_submission-IsRecorded input db h = Ensures-ok _ _ _ (
    Ensures-fail_if _ _ _ _ λ ft. Ensures-fail_if _ _ _ _ λ fa. Ensures-fail_if _ _ _ _ λ z.
      Ensures-fail_if _ _ _ _
        λ u. Ensures-ok _ _ _ (holds (insert-IsRecorded _ _ db _ h refl refl refl refl)))
