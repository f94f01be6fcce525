-- ===== src/Thread/Founding.antt =====
-- A room comes into being with its creator as governor; the rooms that lose their last governor
-- to a disabled account close with it.
use kungfu.Base.{
  ℕ, ◌≤◌, ◌<◌, ◌≡◌, refl, inl, inr, true, false, ◌&&◌, not, Option, none, some, List, [], ◌∷◌, ◌==◌,
  if◌then◌else◌, Table, lookup, fresh, Keyed, count, delete, lookup-fresh, count-delete, le-count,
  count-ext, count-same, count-split, arith, Option-cases,
}
use kungfu.Tables.{Time}
use kungfu.Thread.{ThreadRow, MemberRow, is_open_status, is_governor}
use kungfu.Thread.Store.{is_member, in_thread, governs, in_open_room, is_open_row, closed}
use kungfu.Thread.Cascade.{close_orphans, loses_governance, governs_as, governs_beside, is_account}
use kungfu.Thread.Governed.{IsGoverned}

module _ (threads : Table ThreadRow) (members : List MemberRow) (t : ThreadRow)
    (m : MemberRow) where
  -- the rows that were there are in older rooms
  elsewhere :
      m.thread_id ≡ fresh threads
      → IsGoverned threads members
      → count (in_thread m.thread_id) members ≡ 0
  elsewhere e v = v.homed m.thread_id (ground (arith, lookup-fresh threads, e))

  pub IsGoverned-found :
      m.thread_id ≡ fresh threads
      → is_governor m.role ≡ true
      → is_open_status t.status ≡ true
      → count (in_open_room threads m.account_id) members < 100
      → IsGoverned threads members
      → IsGoverned ((fresh threads, t) ∷ threads) (m ∷ members)
  unfolding count lookup is_member in_thread governs in_open_room
  IsGoverned-found e g o l v = record {
    keyed = (lookup-fresh threads, v.keyed);
    unique = λ id a. ground (
      arith,
      v.unique id a,
      elsewhere e v,
      le-count (is_member m.thread_id a) (in_thread m.thread_id) members (λ w h. ground arith),
    );
    homed = λ id z. ground (arith, v.homed id, e);
    governed = λ id u f k. ground (arith, v.governed id u, e, g);
    bounded = λ id. ground (arith, v.bounded id, elsewhere e v, e);
    limited = λ a. ground (
      arith,
      v.limited a,
      l,
      count-ext (in_thread m.thread_id) (in_open_room ((fresh threads, t) ∷ threads) a)
          (in_open_room threads a) members (elsewhere e v) (λ w h. ground (arith, e)),
    );
    keyless = λ id u f k. ground (arith, v.keyless id u, o);
  }

module _ (bot_id : ℕ) (members : List MemberRow) (now : Time) where
  abbrev outcome : ℕ → Option ThreadRow → Option ThreadRow
  outcome id none = none
  outcome id (some t) = some (if loses_governance bot_id members id t then closed t now else t)

  lookup-close_orphans :
      (id : ℕ) (threads : Table ThreadRow)
      → lookup id (close_orphans bot_id members now threads) ≡ outcome id (lookup id threads)
  unfolding lookup close_orphans
  lookup-close_orphans id [] = refl
  lookup-close_orphans id ((j, t) ∷ rest) = ground (arith, lookup-close_orphans id rest)

  Keyed-close_orphans :
      (threads : Table ThreadRow) → Keyed threads → Keyed (close_orphans bot_id members now threads)
  unfolding close_orphans
  Keyed-close_orphans [] k = tt
  Keyed-close_orphans ((j, t) ∷ rest) k =
      ground (arith, lookup-close_orphans j rest, Keyed-close_orphans rest k.1)

  -- the governors that stay are those beside the account
  governors-stay :
      (id : ℕ)
      → count (governs id) (delete (is_account bot_id) members)
        ≡ count (governs_beside id bot_id) members
  unfolding governs_beside is_account
  governors-stay id = omega (
    arith,
    count-delete (is_account bot_id) (governs id) members,
    count-split (is_account bot_id) (governs id) members,
    count-same (λ w. is_account bot_id w && governs id w) (λ w. governs id w && is_account bot_id w)
        members (λ w. ground arith),
    count-same (λ w. governs id w && not (is_account bot_id w)) (governs_beside id bot_id) members
        (λ w. beside w),
  )
    where
      beside :
          (w : MemberRow) → (governs id w && not (is_account bot_id w)) ≡ governs_beside id bot_id w
      beside w = refl

  still_governed :
      (id : ℕ) (t : ThreadRow)
      → is_open_status t.status ≡ true
      → loses_governance bot_id members id t ≡ false
      → 1 ≤ count (governs id) members
      → 1 ≤ count (governs_beside id bot_id) members
  unfolding loses_governance governs_as governs_beside
  still_governed id t o l n =
      ground (arith, count-split (λ (w : MemberRow). w.account_id == bot_id) (governs id) members)

  open_row-close_orphans :
      (threads : Table ThreadRow) (id : ℕ)
      → is_open_row (lookup id (close_orphans bot_id members now threads)) ≡ true
      → is_open_row (lookup id threads) ≡ true
  unfolding is_open_status
  open_row-close_orphans threads id h = ground (arith, lookup-close_orphans id threads)

  module _ {threads : Table ThreadRow} (i : ℕ) (u : ThreadRow) where
    governed_after :
        lookup i (close_orphans bot_id members now threads) ≡ some u
        → is_open_status u.status ≡ true
        → IsGoverned threads members
        → 1 ≤ count (governs i) (delete (is_account bot_id) members)
    unfolding is_open_status
    governed_after h o v = elim (Option-cases (lookup i threads)) [
      | inl e ↦ ground (arith, lookup-close_orphans i threads)
      | inr (t, e) ↦ ground (
        arith,
        lookup-close_orphans i threads,
        governors-stay i,
        still_governed i t,
        v.governed i t e,
      )
    ]

    keyless_after :
        lookup i (close_orphans bot_id members now threads) ≡ some u
        → is_open_status u.status ≡ false
        → IsGoverned threads members
        → u.key ≡ none
    unfolding is_open_status
    keyless_after h o v = elim (Option-cases (lookup i threads)) [
      | inl e ↦ ground (arith, lookup-close_orphans i threads)
      | inr (t, e) ↦ ground (arith, lookup-close_orphans i threads, v.keyless i t e)
    ]

  pub IsGoverned-close_orphans :
      (threads : Table ThreadRow)
      → IsGoverned threads members
      → IsGoverned (close_orphans bot_id members now threads) (delete (is_account bot_id) members)
  unfolding in_open_room is_open_status
  IsGoverned-close_orphans threads v = record {
    keyed = Keyed-close_orphans threads v.keyed;
    unique = λ i b.
        omega (arith, v.unique i b, count-delete (is_account bot_id) (is_member i b) members);
    homed = λ i z. ground (
      arith,
      lookup-close_orphans i threads,
      v.homed i,
      count-delete (is_account bot_id) (in_thread i) members,
    );
    governed = λ i u h o. governed_after i u h o v;
    bounded =
        λ i. omega (arith, v.bounded i, count-delete (is_account bot_id) (in_thread i) members);
    limited = λ b. ground (
      arith,
      v.limited b,
      count-delete (is_account bot_id) (in_open_room (close_orphans bot_id members now threads) b)
          members,
      le-count (in_open_room (close_orphans bot_id members now threads) b) (in_open_room threads b)
          members (λ w h. ground (arith, open_row-close_orphans threads w.thread_id)),
    );
    keyless = λ i u h o. keyless_after i u h o v;
  }
