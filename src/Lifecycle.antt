-- ===== src/Lifecycle.antt =====
-- internal/task: sequences of events of a submission, and contracts without violations.
use kungfu.Base.{
  ◌-◌, ◌^◌, ◌≤◌, ◌≡◌, refl, Bool, true, false, not, ◌||◌, Option, none, some, arith, List, [], ◌∷◌,
  ◌++◌, length, ltb, pos, ◌≤ℤ◌, leb_ℤ, ltb_ℤ, inl, inr, ◌⊎◌,
}
use kungfu.Task.{
  SubmissionState, SubmissionEvent, sub_delivering, sub_uncertain, submission_terminal,
  submission_transition, Contract, ContractChecks, Field, validate_contract, reject_if,
  require_bounded, check_schema, outside, repeat, check_audience, title_field, requirements_field,
  receiver_url_field, harness_refs_field, price_field, max_rejected_field, ttl_field,
  max_duration_field, credential_field, with_defaults, or_default, default_claim_ttl_seconds,
  default_claim_max_duration, max_amount,
}

-- a sequence of events from a state, as long as each has an edge
unfoldable pub run_submission : SubmissionState → List SubmissionEvent → Option SubmissionState
run_submission s [] = some s
run_submission s (e ∷ es) = elim (submission_transition s e) [
  | none ↦ none
  | some t ↦ run_submission t es
]

-- From delivering, no sequence of more than two events has edges all the way; one that has ends in
-- a final state, or in delivering after no event, or in uncertain after one.
pub run_submission_lem :
    (es : List SubmissionEvent) (t : SubmissionState)
    → run_submission sub_delivering es ≡ some t
    → (length es ≤ 2)
      × ((submission_terminal t ≡ true)
          ⊎ (((t ≡ sub_delivering) × (es ≡ [])) ⊎ ((t ≡ sub_uncertain) × (length es ≡ 1))))
unfolding submission_transition run_submission
run_submission_lem [] t h = (omega arith, inr (inl (ground arith, refl)))
run_submission_lem (e ∷ []) t h = (omega arith, ground arith)
run_submission_lem (e ∷ e' ∷ []) t h = (omega arith, ground arith)
run_submission_lem (e ∷ e' ∷ e'' ∷ es) t h = absurd (ground arith)

-- `xs ++ ys` is empty only where both are.
nil_right : (xs ys : List Field) → xs ++ ys ≡ [] → ys ≡ []
nil_right [] ys h = h
nil_right (x ∷ xs) ys h = absurd (ground arith)

accepted : (b : Bool) (f : Field) (rest : List Field) → reject_if b f ++ rest ≡ [] → b ≡ false
accepted true f rest h = absurd (ground arith)
accepted false f rest h = refl

all_accepted :
    (p₁ p₂ p₃ p₄ : List Field) (b₁ b₂ b₃ b₄ b₅ b₆ : Bool) (f₁ f₂ f₃ f₄ f₅ f₆ : Field)
    (rest : List Field)
    → p₁
        ++ (p₂
            ++ (p₃
                ++ (p₄
                    ++ (reject_if b₁ f₁
                        ++ (reject_if b₂ f₂
                            ++ (reject_if b₃ f₃
                                ++ (reject_if b₄ f₄
                                    ++ (reject_if b₅ f₅ ++ (reject_if b₆ f₆ ++ rest)))))))))
      ≡ []
    → (b₁ ≡ false) × (b₂ ≡ false) × (b₃ ≡ false) × (b₄ ≡ false) × (b₅ ≡ false) × (b₆ ≡ false)
all_accepted p₁ p₂ p₃ p₄ b₁ b₂ b₃ b₄ b₅ b₆ f₁ f₂ f₃ f₄ f₅ f₆ rest h =
    let h₁ = nil_right p₄ _ (nil_right p₃ _ (nil_right p₂ _ (nil_right p₁ _ h))) in
    let h₂ = nil_right (reject_if b₁ f₁) _ h₁ in
    let h₃ = nil_right (reject_if b₂ f₂) _ h₂ in
    let h₄ = nil_right (reject_if b₃ f₃) _ h₃ in
    let h₅ = nil_right (reject_if b₄ f₄) _ h₄ in
    let h₆ = nil_right (reject_if b₅ f₅) _ h₅ in
    (
      accepted b₁ f₁ _ h₁,
      accepted b₂ f₂ _ h₂,
      accepted b₃ f₃ _ h₃,
      accepted b₄ f₄ _ h₄,
      accepted b₅ f₅ _ h₅,
      accepted b₆ f₆ rest h₆,
    )

-- A contract without violations, its defaults filled in, has a price from 1 to the limit, a claim
-- lifetime from 300 to 7200 seconds within a maximal duration from 600 to 86400, between 1 and 50
-- rejections, and at most ten references.
pub validate_contract_lem :
    (checks : ContractChecks) (c : Contract)
    → validate_contract checks (with_defaults c) ≡ []
    → ((pos 1 ≤ℤ c.price) × (c.price ≤ℤ pos (2 ^ 53 - 1)))
      × ((pos 300 ≤ℤ or_default c.claim_ttl (pos 1800))
          × (or_default c.claim_ttl (pos 1800) ≤ℤ pos 7200))
      × (or_default c.claim_ttl (pos 1800) ≤ℤ or_default c.claim_max_duration (pos 7200))
      × ((pos 600 ≤ℤ or_default c.claim_max_duration (pos 7200))
          × (or_default c.claim_max_duration (pos 7200) ≤ℤ pos 86400))
      × ((pos 1 ≤ℤ or_default c.max_rejected_per_agent (pos 5))
          × (or_default c.max_rejected_per_agent (pos 5) ≤ℤ pos 50))
      × (length c.harness_refs ≤ 10)
unfolding validate_contract with_defaults
validate_contract_lem checks c h =
    let d = with_defaults c in
    let ttl = or_default c.claim_ttl default_claim_ttl_seconds in
    let duration = or_default c.claim_max_duration default_claim_max_duration in
    let (refs, price, rejected, lifetime, longest, order) =
      all_accepted (require_bounded title_field d.title 128)
        (require_bounded requirements_field d.requirements 20000) (check_schema checks d.schema)
        (reject_if (not (checks.is_https_url d.receiver_url)) receiver_url_field)
        (ltb 10 (length d.harness_refs)) (leb_ℤ d.price (pos 0) || ltb_ℤ (pos max_amount) d.price)
        (outside d.max_rejected_per_agent 1 50) (outside d.claim_ttl 300 7200)
        (outside d.claim_max_duration 600 86400) (ltb_ℤ duration ttl) harness_refs_field price_field
        max_rejected_field ttl_field max_duration_field max_duration_field
        (check_audience d.contract_audience ++ repeat (checks.credential_hits d) credential_field)
        h in
    (
      (ground arith, ground arith),
      (ground arith, ground arith),
      ground arith,
      (ground arith, ground arith),
      (ground arith, ground arith),
      ground arith,
    )
