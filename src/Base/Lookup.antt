-- ===== src/Base/Lookup.antt =====
-- A database table as a list of rows under their primary key. `lookup` is the SELECT by key and
-- `put` the UPDATE of the row that it finds; an INSERT adds a row in front.
use Prim.Native.Nat.{ℕ, suc, ◌+◌, ◌<◌, ◌≤◌, max}
use mathlib.Core.Path.{◌≡◌, refl}
use mathlib.Core.Logic.{◌≢◌, ◌⊎◌, inl, inr}
use mathlib.Core.Bool.{Bool, true, false}
use mathlib.Core.Option.{Option, none, some}
use mathlib.Core.List.{List, [], ◌∷◌}
use native.Mathlib.Omega.{arith}
use kungfu.Base.Tests.{◌==◌, if◌then◌else◌, Bool-cases}

abbrev pub Table : Type 0 → Type 0
Table V = List (ℕ × V)

module _ {V : Type 0} where
  unfoldable pub lookup : ℕ → Table V → Option V
  lookup k [] = none
  lookup k ((j, v) ∷ t) = if k == j then some v else lookup k t

  unfoldable pub put : ℕ → V → Table V → Table V
  put k v [] = []
  put k v ((j, w) ∷ t) = if k == j then (j, v) ∷ t else (j, w) ∷ put k v t

  -- SELECT … WHERE, in the order of the table: newest row first.
  unfoldable pub select : (V → Bool) → Table V → Table V
  select p [] = []
  select p ((j, v) ∷ t) = let rest = select p t in if p v then (j, v) ∷ rest else rest

  unfoldable pub first : (V → Bool) → Table V → Option (ℕ × V)
  first p [] = none
  first p ((j, v) ∷ t) = if p v then some (j, v) else first p t

  -- SUM(w) over all rows
  unfoldable pub total : (V → ℕ) → Table V → ℕ
  total w [] = 0
  total w ((j, v) ∷ t) = w v + total w t

  unfoldable pub all : (V → Bool) → Table V → Bool
  all p [] = true
  all p ((j, v) ∷ t) = if p v then all p t else false

  pub lookup-put :
      (k j : ℕ) (v w : V) (t : Table V)
      → lookup k t ≡ some w
      → lookup j (put k v t) ≡ (if j == k then some v else lookup j t)
  unfolding lookup put
  lookup-put k j v w [] h = ground arith
  lookup-put k j v w ((i, u) ∷ t) h = ground (arith, lookup-put k j v w t)

  pub lookup-put_self :
      (k : ℕ) (v w : V) (t : Table V) → lookup k t ≡ some w → lookup k (put k v t) ≡ some v
  unfolding lookup put
  lookup-put_self k v w [] h = ground arith
  lookup-put_self k v w ((i, u) ∷ t) h = ground (arith, lookup-put_self k v w t)

  -- the row that an update leads to is the new one or another key's
  pub put-cases :
      (k j : ℕ) (v w x : V) (t : Table V)
      → lookup k t ≡ some w
      → lookup j (put k v t) ≡ some x
      → ((j ≡ k) × (x ≡ v)) ⊎ (((k == j) ≡ false) × (lookup j t ≡ some x))
  put-cases k j v w x t e f = elim (Bool-cases (j == k)) [
    | inl y ↦ inl (ground arith, ground (arith, lookup-put k j v w t e))
    | inr n ↦ inr (ground arith, ground (arith, lookup-put k j v w t e))
  ]

  pub lookup-put_ne : (k j : ℕ) (v : V) (t : Table V) → j ≢ k → lookup j (put k v t) ≡ lookup j t
  unfolding lookup put
  lookup-put_ne k j v [] h = refl
  lookup-put_ne k j v ((i, u) ∷ t) h = ground (arith, lookup-put_ne k j v t h)

  pub total-put :
      (w : V → ℕ) (k : ℕ) (v u : V) (t : Table V)
      → lookup k t ≡ some u
      → total w (put k v t) + w u ≡ total w t + w v
  unfolding lookup put total
  total-put w k v u [] h = ground arith
  total-put w k v u ((i, x) ∷ t) h = ground (arith, total-put w k v u t)

  pub le-total : (w : V → ℕ) (k : ℕ) (u : V) (t : Table V) → lookup k t ≡ some u → w u ≤ total w t
  unfolding lookup total
  le-total w k u [] h = ground arith
  le-total w k u ((i, x) ∷ t) h = ground (arith, le-total w k u t)

  -- the row found fits the test
  pub first_fits :
      (p : V → Bool) (k : ℕ) (v : V) (t : Table V) → first p t ≡ some (k, v) → p v ≡ true
  unfolding first
  first_fits p k v [] h = ground arith
  first_fits p k v ((i, x) ∷ t) h = ground (arith, first_fits p k v t)

  -- No key stands twice.
  abbrev pub Keyed : Table V → Type 0
  Keyed [] = Unit {0}
  Keyed ((k, v) ∷ t) = (lookup k t ≡ none) × Keyed t

  abbrev max_key : Table V → ℕ
  max_key [] = 0
  max_key ((k, v) ∷ t) = max k (max_key t)

  -- GENERATED ALWAYS AS IDENTITY: a key that no row has had; here the one after the highest.
  unfoldable pub fresh : Table V → ℕ
  fresh t = suc (max_key t)

  lookup_above : (k : ℕ) (t : Table V) → max_key t < k → lookup k t ≡ none
  unfolding lookup
  lookup_above k [] h = refl
  lookup_above k ((i, x) ∷ t) h = ground (arith, lookup_above k t)

  pub lookup-fresh : (t : Table V) → lookup (fresh t) t ≡ none
  unfolding fresh
  lookup-fresh t = lookup_above (suc (max_key t)) t (omega arith)

  pub Keyed-put : (k : ℕ) (v : V) (t : Table V) → Keyed t → Keyed (put k v t)
  unfolding put
  Keyed-put k v [] h = tt
  Keyed-put k v ((i, x) ∷ t) h = ground (arith, Keyed-put k v t h.1, lookup-put_ne k i v t)

  pub first-lookup :
      (p : V → Bool) (k : ℕ) (v : V) (t : Table V)
      → Keyed t
      → first p t ≡ some (k, v)
      → lookup k t ≡ some v
  unfolding first lookup
  first-lookup p k v [] h e = ground arith
  first-lookup p k v ((i, x) ∷ t) h e = ground (arith, first-lookup p k v t h.1)

  -- an update that leaves the test as it was moves nothing in a search
  pub first-put :
      (p : V → Bool) (k j : ℕ) (v w w' : V) (t : Table V)
      → Keyed t
      → lookup j t ≡ some w
      → p w' ≡ p w
      → first p t ≡ some (k, v)
      → first p (put j w' t) ≡ some (k, if k == j then w' else v)
  unfolding first lookup put
  first-put p k j v w w' [] h e q f = ground arith
  first-put p k j v w w' ((i, x) ∷ t) h e q f =
      ground (arith, first-put p k j v w w' t h.1, first-lookup p k v t h.1)
