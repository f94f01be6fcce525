-- ===== src/Tx.antt =====
-- internal/errors codes, Go's `(value, error)` results, and database transactions: a transaction
-- is a function of the database, whose error discards what it wrote, as the deferred rollback does.
use kungfu.Base.{
  ℕ, ◌≡◌, refl, ◌⊎◌, inl, inr, Bool, true, false, Option, none, some, if◌then◌else◌, arith,
}
use mathlib.Core.Path.{subst}
use kungfu.Task.{TaskStatus}
use kungfu.Tables.{ReportStatus}

pub data Err : Type 0 where
  -- errors of the repository layer
  illegal_transition state_conflict no_available_budget insufficient_reservation no_rows : Err
  bad_amount constraint_violation unique_violation out_of_range : Err
  -- codes of the service layer; the status or amount is the error's detail
  internal_error task_not_found own_task claim_invalid claim_required slots_exhausted : Err
  not_owner insufficient_credits credit_overflow nothing_to_refund submission_not_found : Err
  idempotency_conflict invalid_request_key payload_too_large invalid_revises schema_mismatch : Err
  credential_in_payload validation_failed not_found admin_login_required : Err
  unauthorized thread_not_found not_member not_governor thread_closed key_invalid room_limit : Err
  member_limit last_manager invalid_target read_only content_too_large summary_required : Err
  sensitive_content not_yours assign_not_found assign_state code_generation_failed : Err
  task_not_open invalid_state : TaskStatus → Err
  invalid_report_state : ReportStatus → Err
  has_reservations : ℕ → Err
  submission_limit : ℕ → Err
  -- fmt.Errorf("…: %w", err): no AppError of its own, though it wraps one
  wrapped : Err → Err

pub data Result {ℓ} (A : Type ℓ) : Type ℓ where
  ok : A → Result A
  err : Err → Result A

pub Result-cases {ℓ} :
    {A : Type ℓ} (r : Result A) → ((a : A) × (r ≡ ok a)) ⊎ ((e : Err) × (r ≡ err e))
Result-cases (ok a) = inl (a, refl)
Result-cases (err e) = inr (e, refl)

abbrev pub Tx : Type 0 → Type 0 → Type 0
Tx S A = S → Result (A × S)

module _ {S A B : Type 0} where
  unfoldable pub after : Result (A × S) → (A → Tx S B) → Result (B × S)
  after (ok (a, s)) f = f a s
  after (err e) f = err e

  infixl 5 ◌>>=◌ ◌>>◌
  abbrev pub ◌>>=◌ : Tx S A → (A → Tx S B) → Tx S B
  ◌>>=◌ m f s = after (m s) f

  abbrev pub ◌>>◌ : Tx S A → Tx S B → Tx S B
  m >> k = m >>= λ _. k

module _ {S A : Type 0} where
  abbrev pub pure : A → Tx S A
  pure a s = ok (a, s)

  abbrev pub fail : Err → Tx S A
  fail e s = err e

  abbrev pub gets : (S → A) → Tx S A
  gets f s = ok (f s, s)

  unfoldable pub or_fail : Option A → Err → Tx S A
  or_fail none e s = err e
  or_fail (some a) e s = ok (a, s)

  -- `if err != nil { return errors.New(…) }`
  unfoldable pub masked : Err → Result (A × S) → Result (A × S)
  masked e (ok p) = ok p
  masked e (err _) = err e

  abbrev pub mask : Err → Tx S A → Tx S A
  mask e m s = masked e (m s)

  unfoldable pub wrap_error : Result (A × S) → Result (A × S)
  wrap_error (ok p) = ok p
  wrap_error (err e) = err (wrapped e)

  abbrev pub wrap : Tx S A → Tx S A
  wrap m s = wrap_error (m s)

module _ {S : Type 0} where
  unfoldable pub fail_if : Bool → Err → Tx S (Unit {0})
  fail_if true e s = err e
  fail_if false e s = ok (tt, s)

  abbrev pub modify : (S → S) → Tx S (Unit {0})
  modify f s = ok (tt, f s)

module _ {A S : Type 0} where
  -- What a caller sees of the database: the new one after a commit, the old one after an error.
  abbrev pub committed : S → Result (A × S) → S
  committed s (ok (_, s')) = s'
  committed s (err _) = s

  -- `P` holds of a result that is no error.
  pub data Ensures (P : A → S → Type 0) : Result (A × S) → Type 0 where
    holds : {a : A} {s : S} → P a s → Ensures P (ok (a, s))
    failed : {e : Err} → Ensures P (err e)

-- a success satisfies what every success satisfies
abbrev OnSuccess : {A S : Type 0} → (A → S → Type 0) → Result (A × S) → Type 0
OnSuccess P (ok (a, s)) = P a s
OnSuccess P (err e) = Unit {0}

on_success : {A S : Type 0} {P : A → S → Type 0} {r : Result (A × S)} → Ensures P r → OnSuccess P r
on_success (holds p) = p
on_success failed = tt

-- To compute with transactions, name this on the `unfolding` line.
unfoldable pub running : ℕ
unfolding after or_fail masked fail_if wrap_error
running = 0

-- One rule for each way to begin a transaction; the rest may use that the beginning succeeded.
module _ {A B S : Type 0} {P : B → S → Type 0} where
  pub Ensures-call :
      (r : Result (A × S)) (f : A → Tx S B)
      → ((a : A) (s : S) → r ≡ ok (a, s) → Ensures P (f a s))
      → Ensures P (after r f)
  unfolding after
  Ensures-call (ok (a, s)) f h = h a s refl
  Ensures-call (err e) f h = failed

  pub Ensures-mask :
      (r : Result (A × S)) (e : Err) (f : A → Tx S B)
      → ((a : A) (s : S) → r ≡ ok (a, s) → Ensures P (f a s))
      → Ensures P (after (masked e r) f)
  unfolding after masked
  Ensures-mask (ok (a, s)) e f h = h a s refl
  Ensures-mask (err e') e f h = failed

  pub Ensures-wrap :
      (r : Result (A × S)) (f : A → Tx S B)
      → ((a : A) (s : S) → r ≡ ok (a, s) → Ensures P (f a s))
      → Ensures P (after (wrap_error r) f)
  unfolding after wrap_error
  Ensures-wrap (ok (a, s)) f h = h a s refl
  Ensures-wrap (err e) f h = failed

  -- after a read
  pub Ensures-ok :
      (a : A) (s : S) (f : A → Tx S B) → Ensures P (f a s) → Ensures P (after (ok (a, s)) f)
  unfolding after
  Ensures-ok a s f h = h

  pub Ensures-or_fail :
      (o : Option A) (e : Err) (s : S) (f : A → Tx S B)
      → ((a : A) → o ≡ some a → Ensures P (f a s))
      → Ensures P (after (or_fail o e s) f)
  unfolding after or_fail
  Ensures-or_fail none e s f h = failed
  Ensures-or_fail (some a) e s f h = h a refl

pub Ensures-masked :
    {A S : Type 0} {P : A → S → Type 0} (r : Result (A × S)) (e : Err)
    → Ensures P r
    → Ensures P (masked e r)
unfolding masked
Ensures-masked (ok (a, s)) e h = holds (on_success h)
Ensures-masked (err e') e h = failed

-- The same where a lemma says what the beginning ensures.
module _ {A B S : Type 0} {Q : A → S → Type 0} {P : B → S → Type 0} where
  pub Ensures-after :
      (r : Result (A × S)) (f : A → Tx S B)
      → Ensures Q r
      → ((a : A) (s : S) → Q a s → Ensures P (f a s))
      → Ensures P (after r f)
  unfolding after
  Ensures-after (ok (a, s)) f q h = h a s (on_success q)
  Ensures-after (err e) f q h = failed

  pub Ensures-after_masked :
      (r : Result (A × S)) (e : Err) (f : A → Tx S B)
      → Ensures Q r
      → ((a : A) (s : S) → Q a s → Ensures P (f a s))
      → Ensures P (after (masked e r) f)
  unfolding after masked
  Ensures-after_masked (ok (a, s)) e f q h = h a s (on_success q)
  Ensures-after_masked (err e') e f q h = failed

module _ {B S : Type 0} {P : B → S → Type 0} where
  pub Ensures-fail_if :
      (b : Bool) (e : Err) (s : S) (f : Unit {0} → Tx S B)
      → (b ≡ false → Ensures P (f tt s))
      → Ensures P (after (fail_if b e s) f)
  unfolding after fail_if
  Ensures-fail_if true e s f h = failed
  Ensures-fail_if false e s f h = h refl

  pub Ensures-if :
      (b : Bool) (m n : Tx S B) (s : S)
      → (b ≡ true → Ensures P (m s))
      → (b ≡ false → Ensures P (n s))
      → Ensures P ((if b then m else n) s)
  Ensures-if true m n s h k = h refl
  Ensures-if false m n s h k = k refl

module _ {A S : Type 0} {P : A → S → Type 0} where
  pub Ensures-last : (r : Result (A × S)) → ((a : A) (s : S) → r ≡ ok (a, s) → P a s) → Ensures P r
  Ensures-last (ok (a, s)) h = holds (h a s refl)
  Ensures-last (err e) h = failed

  pub Ensures-last_masked :
      (r : Result (A × S)) (e : Err)
      → ((a : A) (s : S) → r ≡ ok (a, s) → P a s)
      → Ensures P (masked e r)
  unfolding masked
  Ensures-last_masked (ok (a, s)) e h = holds (h a s refl)
  Ensures-last_masked (err e') e h = failed

pub Ensures_elim :
    {A S : Type 0} {P : A → S → Type 0} (r : Result (A × S)) {a : A} {s : S}
    → Ensures P r
    → r ≡ ok (a, s)
    → P a s
Ensures_elim {P} r h e = subst (OnSuccess P) e (on_success h)

pub Ensures-map :
    {A S : Type 0} {P Q : A → S → Type 0} (r : Result (A × S))
    → ((a : A) (s : S) → P a s → Q a s)
    → Ensures P r
    → Ensures Q r
Ensures-map (ok (a, s)) f h = holds (f a s (on_success h))
Ensures-map (err e) f h = failed

-- What holds before, and after every success, holds of the database that a caller sees then.
pub committed_of :
    {A S : Type 0} (Q : S → Type 0) (s : S) (r : Result (A × S))
    → Q s
    → Ensures (λ _ s'. Q s') r
    → Q (committed s r)
committed_of Q s (ok (a, s')) h k = Ensures_elim (ok (a, s')) k refl
committed_of Q s (err e) h k = h

pub fail_if-same :
    {S : Type 0} (b : Bool) (e : Err) (s : S) (u : Unit {0}) (s' : S)
    → fail_if b e s ≡ ok (u, s')
    → s' ≡ s
unfolding fail_if
fail_if-same true e s u s' h = absurd (ground arith)
fail_if-same false e s u s' h = ground arith

pub or_fail-same :
    {S A : Type 0} (o : Option A) (e : Err) (s : S) (a : A) (s' : S)
    → or_fail o e s ≡ ok (a, s')
    → (s' ≡ s) × (o ≡ some a)
unfolding or_fail
or_fail-same none e s a s' h = absurd (ground arith)
or_fail-same (some b) e s a s' h = (ground arith, ground arith)
