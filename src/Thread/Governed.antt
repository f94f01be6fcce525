-- ===== src/Thread/Governed.antt =====
-- Who is in a room and who governs it, as a property of the rooms and the memberships, and the
-- changes of those two tables that keep it.
use kungfu.Base.{
  ℕ, ◌+◌, ◌≤◌, ◌<◌, ◌≡◌, refl, inl, inr, true, false, ◌&&◌, not, none, some, List, ◌∷◌, ◌==◌, leb,
  if◌then◌else◌, Table, lookup, put, Keyed, Keyed-put, count, find, update, delete, one_if,
  Bool-cases, lookup-put, put-cases, find_fits, count-find, count-found, count-delete, count-update,
  count-update_into, count-update_out, le-count, count-same, count-none, one-count, arith,
}
use kungfu.Thread.{ThreadRow, ThreadRole, MemberRow, is_open_status, is_governor}
use kungfu.Thread.Store.{is_member, in_thread, governs, in_open_room, is_open_row, with_role}

pub record IsGoverned (threads : Table ThreadRow) (members : List MemberRow) : Type 0 where
  pub keyed : Keyed threads
  pub unique : (id a : ℕ) → count (is_member id a) members ≤ 1
  pub homed : (id : ℕ) → lookup id threads ≡ none → count (in_thread id) members ≡ 0
  pub governed :
      (id : ℕ) (t : ThreadRow)
      → lookup id threads ≡ some t
      → is_open_status t.status ≡ true
      → 1 ≤ count (governs id) members
  pub bounded : (id : ℕ) → count (in_thread id) members ≤ 50
  pub limited : (a : ℕ) → count (in_open_room threads a) members ≤ 100
  pub keyless :
      (id : ℕ) (t : ThreadRow)
      → lookup id threads ≡ some t
      → is_open_status t.status ≡ false
      → t.key ≡ none

-- a row that keeps its status, and has no key where it is closed
module _ (id : ℕ) (t u : ThreadRow) (threads : Table ThreadRow) (members : List MemberRow) where
  open_row-put :
      lookup id threads ≡ some t
      → is_open_status u.status ≡ is_open_status t.status
      → (j : ℕ) → is_open_row (lookup j (put id u threads)) ≡ is_open_row (lookup j threads)
  open_row-put e s j = ground (arith, lookup-put id j u t threads e)

  pub IsGoverned-row :
      lookup id threads ≡ some t
      → is_open_status u.status ≡ is_open_status t.status
      → (is_open_status t.status ≡ false → u.key ≡ none)
      → IsGoverned threads members
      → IsGoverned (put id u threads) members
  unfolding in_open_room
  IsGoverned-row e s k v = record {
    keyed = Keyed-put id u threads v.keyed;
    unique = v.unique;
    homed = λ j n. v.homed j (ground (arith, lookup-put id j u t threads e));
    governed = λ j w f o.
        ground (arith, put-cases id j u t w threads e f, v.governed j w, v.governed id t e);
    bounded = v.bounded;
    limited = λ a. ground (
      arith,
      v.limited a,
      count-same (in_open_room (put id u threads) a) (in_open_room threads a) members
          (λ m. ground (arith, open_row-put e s m.thread_id)),
    );
    keyless = λ j w f o. ground (arith, put-cases id j u t w threads e f, v.keyless j w, k);
  }

  -- a row that closes
  pub IsGoverned-closing :
      lookup id threads ≡ some t
      → is_open_status u.status ≡ false
      → u.key ≡ none
      → IsGoverned threads members
      → IsGoverned (put id u threads) members
  unfolding in_open_room
  IsGoverned-closing e s k v = record {
    keyed = Keyed-put id u threads v.keyed;
    unique = v.unique;
    homed = λ j n. v.homed j (ground (arith, lookup-put id j u t threads e));
    governed = λ j w f o. ground (arith, put-cases id j u t w threads e f, v.governed j w);
    bounded = v.bounded;
    limited = λ a. ground (
      arith,
      v.limited a,
      le-count (in_open_room (put id u threads) a) (in_open_room threads a) members
          (λ m h. ground (arith, lookup-put id m.thread_id u t threads e)),
    );
    keyless = λ j w f o. ground (arith, put-cases id j u t w threads e f, v.keyless j w);
  }

module _ (threads : Table ThreadRow) (members : List MemberRow) (m : MemberRow) where
  -- a membership in a room that has fewer than fifty, of an account with fewer than a hundred
  pub IsGoverned-admit :
      (t : ThreadRow)
      → lookup m.thread_id threads ≡ some t
      → find (is_member m.thread_id m.account_id) members ≡ none
      → count (in_thread m.thread_id) members < 50
      → count (in_open_room threads m.account_id) members < 100
      → IsGoverned threads members
      → IsGoverned threads (m ∷ members)
  unfolding count is_member in_thread governs in_open_room
  IsGoverned-admit t e n b l v = record {
    keyed = v.keyed;
    unique = λ id a.
        ground (arith, v.unique id a, count-find (is_member m.thread_id m.account_id) members n);
    homed = λ id z. ground (arith, v.homed id z, e);
    governed = λ id u f o. ground (arith, v.governed id u f o);
    bounded = λ id. ground (arith, v.bounded id, b);
    limited = λ a. ground (arith, v.limited a, l);
    keyless = v.keyless;
  }

module _ (id a : ℕ) (me : MemberRow) (threads : Table ThreadRow) (members : List MemberRow) where
  governors-delete :
      (j : ℕ)
      → find (is_member id a) members ≡ some me
      → count (is_member id a) members ≤ 1
      → count (governs j) (delete (is_member id a) members)
          + (if j == id then one_if (is_governor me.role) else 0)
        ≡ count (governs j) members
  unfolding is_member governs
  governors-delete j f n = elim (Bool-cases (j == id)) [
    | inl y ↦ ground (
      arith,
      count-delete (is_member id a) (governs j) members,
      count-found (is_member id a) (governs j) me members f n,
      find_fits (is_member id a) me members f,
    )
    | inr y ↦ ground (
      arith,
      count-delete (is_member id a) (governs j) members,
      count-none (λ v. is_member id a v && governs j v) members (λ v. ground arith),
    )
  ]

  -- a membership ends, unless it is the last governor's of an open room
  pub IsGoverned-part :
      (t : ThreadRow)
      → lookup id threads ≡ some t
      → find (is_member id a) members ≡ some me
      → (is_open_status t.status && (is_governor me.role && leb (count (governs id) members) 1))
        ≡ false
      → IsGoverned threads members
      → IsGoverned threads (delete (is_member id a) members)
  IsGoverned-part t e f g v = record {
    keyed = v.keyed;
    unique =
        λ i b. omega (arith, v.unique i b, count-delete (is_member id a) (is_member i b) members);
    homed = λ i z. omega (arith, v.homed i z, count-delete (is_member id a) (in_thread i) members);
    governed =
        λ i u h o. ground (arith, v.governed i u h o, governors-delete i f (v.unique id a), e, h);
    bounded = λ i. omega (arith, v.bounded i, count-delete (is_member id a) (in_thread i) members);
    limited = λ b.
        omega (arith, v.limited b, count-delete (is_member id a) (in_open_room threads b) members);
    keyless = v.keyless;
  }

  governors-update :
      (role : ThreadRole) (j : ℕ)
      → find (is_member id a) members ≡ some me
      → count (is_member id a) members ≤ 1
      → count (governs j) (update (is_member id a) (with_role role) members)
          + (if j == id then one_if (is_governor me.role) else 0)
        ≡ count (governs j) members + (if j == id then one_if (is_governor role) else 0)
  unfolding is_member governs with_role
  governors-update role j f n = elim (Bool-cases (j == id)) [
    | inl y ↦ elim (Bool-cases (is_governor role)) [
      | inl r ↦ ground (
        arith,
        count-update_into (is_member id a) (governs j) (with_role role) members
            (λ v h. ground arith),
        count-found (is_member id a) (governs j) me members f n,
        count_one n f,
        find_fits (is_member id a) me members f,
      )
      | inr r ↦ ground (
        arith,
        count-update_out (is_member id a) (governs j) (with_role role) members
            (λ v h. ground arith),
        count-found (is_member id a) (governs j) me members f n,
        find_fits (is_member id a) me members f,
      )
    ]
    | inr y ↦ ground (
      arith,
      count-update (is_member id a) (governs j) (with_role role) members (λ v h. ground arith),
    )
  ]
    where
      count_one :
          count (is_member id a) members ≤ 1
          → find (is_member id a) members ≡ some me
          → count (is_member id a) members ≡ 1
      count_one n f = ground (arith, one-count (is_member id a) me members f)

  -- a role changes, unless an open room would lose its last governor
  pub IsGoverned-role :
      (role : ThreadRole) (t : ThreadRow)
      → lookup id threads ≡ some t
      → find (is_member id a) members ≡ some me
      → (is_governor me.role && (not (is_governor role) && leb (count (governs id) members) 1))
        ≡ false
      → IsGoverned threads members
      → IsGoverned threads (update (is_member id a) (with_role role) members)
  unfolding is_member in_thread in_open_room with_role
  IsGoverned-role role t e f g v = record {
    keyed = v.keyed;
    unique = λ i b. ground (
      arith,
      v.unique i b,
      count-update (is_member id a) (is_member i b) (with_role role) members (λ v h. refl),
    );
    homed = λ i z. ground (
      arith,
      v.homed i z,
      count-update (is_member id a) (in_thread i) (with_role role) members (λ v h. refl),
    );
    governed =
        λ i u h o. ground (arith, v.governed i u h o, governors-update role i f (v.unique id a));
    bounded = λ i. ground (
      arith,
      v.bounded i,
      count-update (is_member id a) (in_thread i) (with_role role) members (λ v h. refl),
    );
    limited = λ b. ground (
      arith,
      v.limited b,
      count-update (is_member id a) (in_open_room threads b) (with_role role) members (λ v h. refl),
    );
    keyless = v.keyless;
  }
