-- ===== src/Pins.antt =====
-- internal/repository/task_v1.go: the pinned revisions of a claim, whose primary key is the claim and
-- the memory.
use kungfu.Base.{
  ℕ, ◌≡◌, refl, Bool, true, false, ◌||◌, arith, List, [], ◌∷◌, ◌==◌, Bool-cases, inl, inr, eq_refl,
}
use kungfu.Tx.{Ensures, Ensures-ok, Ensures-fail_if}
use kungfu.Tables.{Db, HarnessPin}
use kungfu.Repository.{insert_claim_harness_revisions, is_pinned}

abbrev pub mentions : ℕ → List HarnessPin → Bool
mentions m [] = false
mentions m (p ∷ ps) = p.memory_id == m || mentions m ps

-- two pins of one memory
abbrev pub repeats : List HarnessPin → Bool
repeats [] = false
repeats (p ∷ ps) = mentions p.memory_id ps || repeats ps

module _ (Q : Type 0) (claim_id : ℕ) where
  pinned_later :
      (m : ℕ) (ps : List HarnessPin) (db : Db)
      → is_pinned claim_id m db.pins ≡ true
      → mentions m ps ≡ true
      → Ensures (λ _ _. Q) (insert_claim_harness_revisions claim_id ps db)
  unfolding insert_claim_harness_revisions is_pinned
  pinned_later m [] db h g = absurd (ground arith)
  pinned_later m (p ∷ ps) db h g = Ensures-ok _ _ _ (
      Ensures-fail_if _ _ _ _
        λ free. Ensures-ok _ _ _ (pinned_later m ps _ (ground arith) (ground arith)))

  pub repeats-fails :
      (ps : List HarnessPin) (db : Db)
      → repeats ps ≡ true
      → Ensures (λ _ _. Q) (insert_claim_harness_revisions claim_id ps db)
  unfolding insert_claim_harness_revisions is_pinned
  repeats-fails [] db h = absurd (ground arith)
  repeats-fails (p ∷ ps) db h = Ensures-ok _ _ _ (
      Ensures-fail_if _ _ _ _ λ free.
        Ensures-ok _ _ _ (elim (Bool-cases (mentions p.memory_id ps)) [
          | inl y ↦
              pinned_later p.memory_id ps _ (rw (eq_refl claim_id, eq_refl p.memory_id) refl) y
          | inr n ↦ repeats-fails ps _ (ground arith)
        ]))
