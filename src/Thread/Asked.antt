-- ===== src/Thread/Asked.antt =====
-- Whom an entry asks: internal/service/thread_state.go, the response objects.
use kungfu.Base.{
  ℕ, ◌≤◌, ◌≡◌, refl, true, false, Option, none, some, List, [], ◌∷◌, ◌==◌, length, find, find_fits,
  count-found, count-found_both, count-find, count-both_none, Bool-cases, Option-cases, inl, inr,
  arith, eq_refl,
}
use kungfu.Tx.{ok, Ensures, holds, Ensures-fail_if, Ensures-after, Ensures_elim, Ensures-map, after}
use kungfu.Thread.{Rooms, MemberRow, speech_right}
use kungfu.Thread.Store.{find_thread_member, is_member, in_thread}
use kungfu.Thread.Entries.{can_speak_in, count_thread_speech_capable}
use kungfu.Thread.Speech.{
  can_speak, has_id, ask_members, ask_author, ask_other, ask_by_default, is_other_speaker,
  response_objects,
}
use kungfu.Thread.Writes.{Governed}

abbrev pub Distinct : List ℕ → Type 0
Distinct [] = Unit {0}
Distinct (x ∷ xs) = (has_id x xs ≡ false) × Distinct xs

abbrev pub AllSpeak : ℕ → Rooms → List ℕ → Type 0
AllSpeak id db [] = Unit {0}
AllSpeak id db (x ∷ xs) = (can_speak (find_thread_member id x db) ≡ true) × AllSpeak id db xs

-- distinct members with the right to speak, at most fifty, the author not among them
pub record IsAskable (id bot_id : ℕ) (db : Rooms) (asked : List ℕ) : Type 0 where
  pub distinct : Distinct asked
  pub others : has_id bot_id asked ≡ false
  pub speakers : AllSpeak id db asked
  pub few : length asked ≤ 50

-- what the loop adds to those that it has seen
record IsAdded (id bot_id : ℕ) (db : Rooms) (ids seen asked : List ℕ) : Type 0 where
  added_distinct : Distinct asked
  added_others : has_id bot_id asked ≡ false
  added_speakers : AllSpeak id db asked
  added_new : (x : ℕ) → has_id x seen ≡ true → has_id x asked ≡ false
  added_few : length asked ≤ length ids

ask_members-IsAdded :
    (id bot_id : ℕ) (ids seen : List ℕ) (db : Rooms)
    → Ensures
        (λ asked s. (s ≡ db) × IsAdded id bot_id db ids seen asked)
        (ask_members id bot_id ids seen db)
unfolding ask_members after has_id
ask_members-IsAdded id bot_id [] seen db = holds (
  refl,
  record {
    added_distinct = tt;
    added_others = refl;
    added_speakers = tt;
    added_new = λ x h. refl;
    added_few = omega arith;
  },
)
ask_members-IsAdded id bot_id (x ∷ ids) seen db = Ensures-fail_if _ _ _ _ λ g.
    elim (Bool-cases (has_id x seen)) [
      | inl y ↦ rw y (
          Ensures-map _
            (λ asked s (e, w). (
              e,
              record {
                added_distinct = w.added_distinct;
                added_others = w.added_others;
                added_speakers = w.added_speakers;
                added_new = w.added_new;
                added_few = omega (arith, w.added_few);
              },
            ))
            (ask_members-IsAdded id bot_id ids seen db))
      | inr n ↦ rw n (
          Ensures-fail_if _ _ _ _ λ h.
            Ensures-after _ _ (ask_members-IsAdded id bot_id ids (x ∷ seen) db) λ asked s (e, w).
              rw e (
                holds (
                  refl,
                  record {
                    added_distinct = (w.added_new x (rw (eq_refl x) refl), w.added_distinct);
                    added_others = ground (arith, g, w.added_others);
                    added_speakers = (ground (arith, h), w.added_speakers);
                    added_new = λ z q. ground (arith, w.added_new z, n, q);
                    added_few = omega (arith, w.added_few);
                  },
                )))
    ]

nobody : (id bot_id : ℕ) (db : Rooms) → IsAskable id bot_id db []
unfolding has_id
nobody id bot_id db = record { distinct = tt; others = refl; speakers = tt; few = omega arith }

other_fits :
    (id bot_id : ℕ) (m : MemberRow) (db : Rooms)
    → find (is_other_speaker id bot_id) db.members ≡ some m
    → (m.thread_id ≡ id) × (speech_right m.role ≡ true) × ((m.account_id == bot_id) ≡ false)
unfolding is_other_speaker can_speak_in in_thread
other_fits id bot_id m db e = ground (arith, find_fits (is_other_speaker id bot_id) m db.members e)

other_speaks :
    (id bot_id : ℕ) (m : MemberRow) (db : Rooms)
    → Governed db
    → find (is_other_speaker id bot_id) db.members ≡ some m
    → can_speak (find_thread_member id m.account_id db) ≡ true
unfolding is_other_speaker can_speak_in in_thread is_member find_thread_member
other_speaks id bot_id m db v e =
    elim (Option-cases (find (is_member id m.account_id) db.members)) [
      | inl n ↦ absurd (
          ground (
            arith,
            n,
            other_fits id bot_id m db e,
            count-find (is_member id m.account_id) db.members n,
            count-both_none (is_member id m.account_id) (is_other_speaker id bot_id) db.members,
            count-found_both (is_member id m.account_id) (is_other_speaker id bot_id) m db.members
                e,
          ))
      | inr (w, f) ↦ ground (
        arith,
        f,
        other_fits id bot_id m db e,
        count-found (is_member id m.account_id) (is_other_speaker id bot_id) w db.members f
            (v.unique id m.account_id),
        count-found_both (is_member id m.account_id) (is_other_speaker id bot_id) m db.members e,
      )
    ]

ask_other-IsAskable :
    (id bot_id : ℕ) (db : Rooms) → Governed db → IsAskable id bot_id db (ask_other id bot_id db)
unfolding ask_other is_other_speaker find_thread_member has_id
ask_other-IsAskable id bot_id db v = elim (Bool-cases (count_thread_speech_capable id db == 2)) [
  | inl y ↦ rw y (elim (Option-cases (find (is_other_speaker id bot_id) db.members)) [
    | inl e ↦ rw e (nobody id bot_id db)
    | inr (m, e) ↦ rw e (record {
      distinct = (refl, tt);
      others = ground (arith, other_fits id bot_id m db e);
      speakers = (other_speaks id bot_id m db v e, tt);
      few = omega arith;
    })
  ])
  | inr n ↦ rw n (nobody id bot_id db)
]

ask_author-IsAskable :
    (id bot_id author : ℕ) (db : Rooms)
    → (author == bot_id) ≡ false
    → IsAskable id bot_id db (ask_author id author db)
unfolding ask_author has_id
ask_author-IsAskable id bot_id author db n =
    elim (Bool-cases (can_speak (find_thread_member id author db))) [
      | inl y ↦ rw y (record {
        distinct = (refl, tt);
        others = ground (arith, n);
        speakers = (y, tt);
        few = omega arith;
      })
      | inr n ↦ rw n (record { distinct = tt; others = refl; speakers = tt; few = omega arith })
    ]

ask_by_default-IsAskable :
    (id bot_id : ℕ) (author : Option ℕ) (db : Rooms)
    → Governed db
    → IsAskable id bot_id db (ask_by_default id bot_id author db)
unfolding ask_by_default
ask_by_default-IsAskable id bot_id none db v = ask_other-IsAskable id bot_id db v
ask_by_default-IsAskable id bot_id (some author) db v = elim (Bool-cases (author == bot_id)) [
  | inl y ↦ rw y (ask_other-IsAskable id bot_id db v)
  | inr n ↦ rw n (ask_author-IsAskable id bot_id author db n)
]

response_objects_lem :
    (id bot_id : ℕ) (ask : Option (List ℕ)) (author : Option ℕ) (db : Rooms)
    → Governed db
    → Ensures
        (λ asked s. (s ≡ db) × IsAskable id bot_id db asked)
        (response_objects id bot_id ask author db)
unfolding response_objects after
response_objects_lem id bot_id none author db v =
    holds (refl, ask_by_default-IsAskable id bot_id author db v)
response_objects_lem id bot_id (some ask) author db v = Ensures-fail_if _ _ _ _ λ g.
    Ensures-map _
      (λ asked s (e, w). (
        e,
        record {
          distinct = w.added_distinct;
          others = w.added_others;
          speakers = w.added_speakers;
          few = ground (arith, g, w.added_few);
        },
      ))
      (ask_members-IsAdded id bot_id ask [] db)

-- The response objects of an entry, whichever of the ordered rules finds them, are distinct members
-- of the room with the right to speak, at most fifty, and not its author; finding them writes
-- nothing.
pub response_objects-IsAskable :
    (id bot_id : ℕ) (ask : Option (List ℕ)) (author : Option ℕ) (db s : Rooms) (asked : List ℕ)
    → Governed db
    → response_objects id bot_id ask author db ≡ ok (asked, s)
    → (s ≡ db) × IsAskable id bot_id db asked
response_objects-IsAskable id bot_id ask author db s asked v e =
    Ensures_elim _ (response_objects_lem id bot_id ask author db v) e
