-- ===== src/Thread/Progress.antt =====
-- How the rows of the assignments and of the receipts change over time.
use kungfu.Base.{
  ℕ, ◌≡◌, refl, sym, ◌∙◌, Bool, true, false, none, some, List, [], ◌∷◌, ◌==◌, ◌⊎◌, inl, inr,
  if◌then◌else◌, Table, lookup, put, fresh, lookup-put, lookup-fresh, find, update, Bool-cases,
  arith,
}
use kungfu.Thread.{Rooms, ReceiptRow, AssignRow, is_pending}
use kungfu.Thread.Obligations.{owed_on, is_owed, of_assign, to_assign}
use kungfu.Thread.Laws.{FreeLaws, IsFollowedBy, IsEndedAs}
use kungfu.Thread.Lifecycle.{leads_refl, leads_trans}

-- a receipt stays as it is, or it was pending and has ended
abbrev pub IsKeptOrEnded : ReceiptRow → ReceiptRow → Type 0
IsKeptOrEnded r q = (q ≡ r) ⊎ ((is_pending r.state ≡ true) × IsEndedAs r q)

abbrev pub HasFollower : ℕ → AssignRow → Table AssignRow → Type 0
HasFollower id a rows = (b : AssignRow) × (lookup id rows ≡ some b) × IsFollowedBy a b

abbrev pub HasSuccessor : ℕ → ℕ → ReceiptRow → List ReceiptRow → Type 0
HasSuccessor entry account r rows =
    (q : ReceiptRow) × (find (owed_on entry account) rows ≡ some q) × IsKeptOrEnded r q

-- From the first database to the second no assignment and no receipt is lost, assignments follow
-- their lifecycle on unchanged terms, and a receipt ends at most once.
pub record IsProgress (old : Rooms) (new : Rooms) : Type 0 where
  pub assigns_follow :
      (id : ℕ) (a : AssignRow) → lookup id old.assigns ≡ some a → HasFollower id a new.assigns
  pub receipts_end :
      (entry account : ℕ) (r : ReceiptRow)
      → find (owed_on entry account) old.receipts ≡ some r
      → HasSuccessor entry account r new.receipts

lookup-update :
    (p : AssignRow → Bool) (f : AssignRow → AssignRow) (id : ℕ) (a : AssignRow)
    (rows : Table AssignRow)
    → lookup id rows ≡ some a
    → lookup id (update (of_assign p) (to_assign f) rows) ≡ some (if p a then f a else a)
unfolding lookup update
lookup-update p f id a [] e = ground arith
lookup-update p f id a ((j, b) ∷ rows) e =
    ground (arith, Bool-cases (id == j), Bool-cases (p b), lookup-update p f id a rows)

find-update :
    (q p : ReceiptRow → Bool) (f : ReceiptRow → ReceiptRow) (r : ReceiptRow)
    (rows : List ReceiptRow)
    → ((u : ReceiptRow) → q (f u) ≡ q u)
    → find q rows ≡ some r
    → find q (update p f rows) ≡ some (if p r then f r else r)
unfolding find update
find-update q p f r [] s e = ground arith
find-update q p f r (u ∷ rows) s e =
    ground (arith, Bool-cases (p u), s u, find-update q p f r rows s)

IsFollowedBy-trans : (a b c : AssignRow) → IsFollowedBy a b → IsFollowedBy b c → IsFollowedBy a c
IsFollowedBy-trans a b c (l, t) (m, u) = (leads_trans a.state b.state c.state l m, u ∙ t)

IsFollowedBy-refl : (a : AssignRow) → IsFollowedBy a a
IsFollowedBy-refl a = (leads_refl a.state, refl)

IsFollowedBy-if :
    (b : Bool) (a c : AssignRow)
    → (b ≡ true → IsFollowedBy a c)
    → IsFollowedBy a (if b then c else a)
IsFollowedBy-if true a c w = w refl
IsFollowedBy-if false a c w = IsFollowedBy-refl a

IsKeptOrEnded-trans :
    (r q u : ReceiptRow) → IsKeptOrEnded r q → IsKeptOrEnded q u → IsKeptOrEnded r u
IsKeptOrEnded-trans r q u (inl e) k = rw (sym e) k
IsKeptOrEnded-trans r q u (inr (p, w)) (inl e) = inr (p, rw e w)
IsKeptOrEnded-trans r q u (inr (p, w)) (inr (m, z)) = ground (arith, w.1, m)

IsEndedAs-if :
    (b : Bool) (r q : ReceiptRow)
    → (b ≡ true → is_pending r.state ≡ true)
    → IsEndedAs r q
    → IsKeptOrEnded r (if b then q else r)
IsEndedAs-if true r q p w = inr (p refl, w)
IsEndedAs-if false r q p w = inl refl

put-HasFollower :
    (j id : ℕ) (a b d : AssignRow) (rows : Table AssignRow)
    → lookup id rows ≡ some a
    → IsFollowedBy a b
    → lookup j rows ≡ some d
    → HasFollower j d (put id b rows)
put-HasFollower j id a b d rows l w m = elim (Bool-cases (j == id)) [
  | inl y ↦
      let p : j ≡ id = ground (arith, y) in
      let q : d ≡ a = ground (arith, p, l, m) in
      (b, ground (arith, y, lookup-put id j b a rows l), rw q w)
  | inr n ↦ (d, ground (arith, n, m, lookup-put id j b a rows l), IsFollowedBy-refl d)
]

owed-clash :
    (entry account : ℕ) (r q : ReceiptRow) (rows : List ReceiptRow)
    → owed_on entry account r ≡ true
    → find (owed_on r.entry_id r.account_id) rows ≡ none
    → find (owed_on entry account) rows ≡ some q
    → ⊥
unfolding owed_on
owed-clash entry account r q rows y n f =
    let a : r.entry_id ≡ entry = ground (arith, y) in
    let b : r.account_id ≡ account = ground (arith, y) in ground (arith, a, b, n, f)

module _ (old : Rooms) where
  revised :
      (s : Rooms) (p : AssignRow → Bool) (f : AssignRow → AssignRow)
      → ((a : AssignRow) → p a ≡ true → IsFollowedBy a (f a))
      → IsProgress old s
      → IsProgress old (record s { assigns = update (of_assign p) (to_assign f) s.assigns })
  revised s p f w v = record {
    assigns_follow = λ id a e.
        let (b, l, k) = v.assigns_follow id a e in
        (
          if p b then f b else b,
          lookup-update p f id b s.assigns l,
          IsFollowedBy-trans a b (if p b then f b else b) k (IsFollowedBy-if (p b) b (f b) (w b)),
        );
    receipts_end = v.receipts_end;
  }

  offered :
      (s : Rooms) (a : AssignRow)
      → IsProgress old s
      → IsProgress old (record s { assigns = (fresh s.assigns, a) ∷ s.assigns })
  unfolding lookup
  offered s a v = record {
    assigns_follow = λ id c e.
        let (b, l, k) = v.assigns_follow id c e in
        (
          b,
          elim (Bool-cases (id == fresh s.assigns)) [
            | inl y ↦ ground (arith, y, l, lookup-fresh s.assigns)
            | inr n ↦ rw n l
          ],
          k,
        );
    receipts_end = v.receipts_end;
  }

  moved :
      (s : Rooms) (id : ℕ) (a b : AssignRow)
      → lookup id s.assigns ≡ some a
      → IsFollowedBy a b
      → IsProgress old s
      → IsProgress old (record s { assigns = put id b s.assigns })
  moved s id a b l w v = record {
    assigns_follow = λ j c e.
        let (d, m, k) = v.assigns_follow j c e in
        let (u, n, z) = put-HasFollower j id a b d s.assigns l w m in
        (u, n, IsFollowedBy-trans c d u k z);
    receipts_end = v.receipts_end;
  }

  asked :
      (s : Rooms) (r : ReceiptRow)
      → find (owed_on r.entry_id r.account_id) s.receipts ≡ none
      → IsProgress old s
      → IsProgress old (record s { receipts = r ∷ s.receipts })
  unfolding find
  asked s r n v = record {
    assigns_follow = v.assigns_follow;
    receipts_end = λ entry account u e.
        let (q, f, k) = v.receipts_end entry account u e in
        (
          q,
          elim (Bool-cases (owed_on entry account r)) [
            | inl y ↦ absurd (owed-clash entry account r q s.receipts y n f)
            | inr m ↦ rw m f
          ],
          k,
        );
  }

  ended :
      (s : Rooms) (p : ReceiptRow → Bool) (f : ReceiptRow → ReceiptRow)
      → ((r : ReceiptRow) → IsEndedAs r (f r))
      → IsProgress old s
      → IsProgress old (record s { receipts = update (is_owed p) f s.receipts })
  unfolding is_owed owed_on
  ended s p f w v = record {
    assigns_follow = v.assigns_follow;
    receipts_end = λ entry account u e.
        let (q, g, k) = v.receipts_end entry account u e in
        (
          if is_owed p q then f q else q,
          find-update (owed_on entry account) (is_owed p) f q s.receipts
              (λ r. ground (arith, (w r).2, (w r).3)) g,
          IsKeptOrEnded-trans u q (if is_owed p q then f q else q) k
              (IsEndedAs-if (is_owed p q) q (f q) (λ b. ground (arith, b)) (w q)),
        );
  }

  advanced :
      (new : Rooms)
      → IsProgress old new
      → (s : Rooms) → s.assigns ≡ new.assigns
      → s.receipts ≡ new.receipts
      → IsProgress old s
  advanced new v s a r = record {
    assigns_follow = λ id b e. rw a (v.assigns_follow id b e);
    receipts_end = λ entry account b e. rw r (v.receipts_end entry account b e);
  }

  pub IsProgress-Laws : FreeLaws (IsProgress old)
  IsProgress-Laws = record {
    laws = record {
      requests = λ db rows v. advanced db v _ refl refl;
      queue = λ db rows v. advanced db v _ refl refl;
      stores = λ db rows v. advanced db v _ refl refl;
      writes = λ db rows v. advanced db v _ refl refl;
      delivers = λ db rows v. advanced db v _ refl refl;
      waits = λ db now v. advanced db v _ refl refl;
      advances = λ db id t l v. advanced db v _ refl refl;
      asks = λ db r n v. asked db r n v;
      ends = λ db p f w v. ended db p f w v;
      offers = λ db a v. offered db a v;
      moves = λ db id a b l w v. moved db id a b l w v;
    };
    rooms = λ db threads members v. advanced db v _ refl refl;
    enables = λ db rows v. advanced db v _ refl refl;
    revises = λ db p f w v. revised db p f w v;
  }

  pub IsProgress-refl : IsProgress old old
  IsProgress-refl = record {
    assigns_follow = λ id a e. (a, e, IsFollowedBy-refl a);
    receipts_end = λ entry account r e. (r, e, inl refl);
  }
