-- ===== src/Base/Rows.antt =====
-- SELECT COUNT, UPDATE and DELETE by a condition, on a table whose rows have no key of their own.
use Prim.Native.Nat.{ℕ, ◌+◌, ◌≤◌}
use mathlib.Core.Path.{◌≡◌, refl}
use mathlib.Core.Bool.{Bool, true, false, ◌&&◌, not}
use mathlib.Core.Option.{Option, none, some}
use mathlib.Core.List.{List, [], ◌∷◌}
use native.Mathlib.Omega.{arith}
use kungfu.Base.Tests.{if◌then◌else◌, Bool-cases}

abbrev pub one_if : Bool → ℕ
one_if true = 1
one_if false = 0

module _ {V : Type 0} where
  unfoldable pub count : (V → Bool) → List V → ℕ
  count p [] = 0
  count p (v ∷ l) = one_if (p v) + count p l

  unfoldable pub find : (V → Bool) → List V → Option V
  find p [] = none
  find p (v ∷ l) = if p v then some v else find p l

  unfoldable pub update : (V → Bool) → (V → V) → List V → List V
  update p f [] = []
  update p f (v ∷ l) = (if p v then f v else v) ∷ update p f l

  unfoldable pub delete : (V → Bool) → List V → List V
  delete p [] = []
  delete p (v ∷ l) = let rest = delete p l in if p v then rest else v ∷ rest

  -- a row that is found fits the test
  pub find_fits : (p : V → Bool) (v : V) (l : List V) → find p l ≡ some v → p v ≡ true
  unfolding find
  find_fits p v [] h = ground arith
  find_fits p v (w ∷ l) h = ground (arith, find_fits p v l)

  pub count-find : (p : V → Bool) (l : List V) → find p l ≡ none → count p l ≡ 0
  unfolding find count
  count-find p [] h = refl
  count-find p (w ∷ l) h = ground (arith, count-find p l)

  pub count-both_none :
      (p q : V → Bool) (l : List V) → count p l ≡ 0 → count (λ w. p w && q w) l ≡ 0
  unfolding count
  count-both_none p q [] z = refl
  count-both_none p q (u ∷ k) z = ground (arith, count-both_none p q k)

  -- with at most one row of kind `p`, the row found decides about `q`
  pub count-found :
      (p q : V → Bool) (v : V) (l : List V)
      → find p l ≡ some v
      → count p l ≤ 1
      → count (λ w. p w && q w) l ≡ one_if (q v)
  unfolding find count
  count-found p q v [] h n = ground arith
  count-found p q v (w ∷ l) h n = ground (arith, count-found p q v l, count-both_none p q l)

  pub count-update :
      (p q : V → Bool) (f : V → V) (l : List V)
      → ((v : V) → p v ≡ true → q (f v) ≡ q v)
      → count q (update p f l) ≡ count q l
  unfolding count update
  count-update p q f [] h = refl
  count-update p q f (w ∷ l) h = ground (arith, h w, count-update p q f l h)

  -- a deletion takes away the rows that it fits
  pub count-delete :
      (p q : V → Bool) (l : List V) → count q (delete p l) + count (λ v. p v && q v) l ≡ count q l
  unfolding count delete
  count-delete p q [] = refl
  count-delete p q (w ∷ l) = ground (arith, count-delete p q l)

  pub le-count :
      (p q : V → Bool) (l : List V) → ((v : V) → p v ≡ true → q v ≡ true) → count p l ≤ count q l
  unfolding count
  le-count p q [] h = ground arith
  le-count p q (w ∷ l) h = ground (arith, h w, le-count p q l h)

  -- where no row is of kind `r`, two tests that differ on such rows only count the same
  pub count-ext :
      (r p q : V → Bool) (l : List V)
      → count r l ≡ 0
      → ((v : V) → r v ≡ false → p v ≡ q v)
      → count p l ≡ count q l
  unfolding count
  count-ext r p q [] z h = refl
  count-ext r p q (w ∷ l) z h = ground (arith, h w, count-ext r p q l)

  -- an update of the rows of kind `p` cannot raise a count by more than their number
  pub count-update_bounds :
      (p q : V → Bool) (f : V → V) (l : List V)
      → count q (update p f l) + count (λ v. p v && q v) l ≤ count q l + count p l
  unfolding count update
  count-update_bounds p q f [] = ground arith
  count-update_bounds p q f (w ∷ l) =
      ground (arith, Bool-cases (q w), Bool-cases (q (f w)), count-update_bounds p q f l)

  -- an update that puts every row of kind `p` into `q`
  pub count-update_into :
      (p q : V → Bool) (f : V → V) (l : List V)
      → ((v : V) → p v ≡ true → q (f v) ≡ true)
      → count q l + count p l ≡ count q (update p f l) + count (λ v. p v && q v) l
  unfolding count update
  count-update_into p q f [] h = refl
  count-update_into p q f (w ∷ l) h = ground (arith, h w, count-update_into p q f l h)

  -- an update that takes every row of kind `p` out of `q`
  pub count-update_out :
      (p q : V → Bool) (f : V → V) (l : List V)
      → ((v : V) → p v ≡ true → q (f v) ≡ false)
      → count q (update p f l) + count (λ v. p v && q v) l ≡ count q l
  unfolding count update
  count-update_out p q f [] h = refl
  count-update_out p q f (w ∷ l) h = ground (arith, h w, count-update_out p q f l h)

  pub count-same : (p q : V → Bool) (l : List V) → ((v : V) → p v ≡ q v) → count p l ≡ count q l
  unfolding count
  count-same p q [] h = refl
  count-same p q (w ∷ l) h = ground (arith, h w, count-same p q l h)

  pub count-none : (p : V → Bool) (l : List V) → ((v : V) → p v ≡ false) → count p l ≡ 0
  unfolding count
  count-none p [] h = refl
  count-none p (w ∷ l) h = ground (arith, h w, count-none p l h)

  -- a row found is counted
  pub one-count : (p : V → Bool) (v : V) (l : List V) → find p l ≡ some v → 1 ≤ count p l
  unfolding find count
  one-count p v [] h = ground arith
  one-count p v (w ∷ l) h = ground (arith, one-count p v l)

  -- a test splits a count in two
  pub count-split :
      (p q : V → Bool) (l : List V)
      → count (λ v. q v && p v) l + count (λ v. q v && not (p v)) l ≡ count q l
  unfolding count
  count-split p q [] = refl
  count-split p q (w ∷ l) = ground (arith, count-split p q l)

  -- an update that moves every row it fits out of the test leaves none
  pub count-cleared :
      (p : V → Bool) (f : V → V) (l : List V)
      → ((v : V) → p v ≡ true → p (f v) ≡ false)
      → count p (update p f l) ≡ 0
  unfolding count update
  count-cleared p f [] h = refl
  count-cleared p f (w ∷ l) h = ground (arith, h w, count-cleared p f l h)

  -- a row found by one test counts for every test that it fits too
  pub count-found_both :
      (p q : V → Bool) (v : V) (l : List V)
      → find q l ≡ some v
      → p v ≡ true
      → 1 ≤ count (λ w. p w && q w) l
  unfolding find count
  count-found_both p q v [] h e = ground arith
  count-found_both p q v (w ∷ l) h e = ground (arith, count-found_both p q v l)
