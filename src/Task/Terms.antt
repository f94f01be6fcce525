-- ===== src/Task/Terms.antt =====
-- internal/task/contract.go: the contract, its defaults and its validation. What other packages
-- decide (the parse of the URL, the JSON Schema compiler, the credential scan of
-- internal/security) is a field of `ContractChecks`.
use text.Mathlib.Text.{◌==◌ as str_eq}
use kungfu.Base.{
  ℕ, zero, suc, ◌+◌, ◌-◌, ◌^◌, String, Bool, true, false, ◌||◌, not, Option, none, some, List, [],
  ◌∷◌, ◌++◌, ◌==◌, ltb, if◌then◌else◌, ℤ, pos, leb_ℤ, ltb_ℤ, length,
}

pub data AudienceType : Type 0 where
  audience_open audience_restricted : AudienceType

pub record Audience : Type 0 where
  pub audience_type : AudienceType
  pub agents : List String

-- `schema` and payloads are raw JSON bytes; an absent `schema` is `none`. A recorded reply body is
-- the list of its code points.
pub record Contract : Type 0 where
  pub title : String
  pub requirements : String
  pub harness_refs : List String
  pub schema : Option (List ℕ)
  pub receiver_url : String
  pub price : ℤ
  pub max_rejected_per_agent : Option ℤ
  pub claim_required : Bool
  pub claim_ttl : Option ℤ
  pub claim_max_duration : Option ℤ
  pub contract_audience : Option Audience

abbrev pub default_max_rejected_per_agent : ℤ
default_max_rejected_per_agent = pos 5

abbrev pub default_claim_ttl_seconds : ℤ
default_claim_ttl_seconds = pos 1800

abbrev pub default_claim_max_duration : ℤ
default_claim_max_duration = pos 7200

abbrev pub max_amount : ℕ
max_amount = 2 ^ 53 - 1

abbrev pub or_default : Option ℤ → ℤ → ℤ
or_default none d = d
or_default (some v) d = v

abbrev or_open : Option Audience → Audience
or_open none = record { audience_type = audience_open; agents = [] }
or_open (some a) = a

-- `WithDefaults`
unfoldable pub with_defaults : Contract → Contract
with_defaults c = record c {
  max_rejected_per_agent =
      some (or_default c.max_rejected_per_agent default_max_rejected_per_agent);
  claim_ttl = some (or_default c.claim_ttl default_claim_ttl_seconds);
  claim_max_duration = some (or_default c.claim_max_duration default_claim_max_duration);
  contract_audience = some (or_open c.contract_audience);
}

-- runes of a text
abbrev pub rune_count : String → ℕ
rune_count String.[] = 0
rune_count (String.◌∷◌ c s) = suc (rune_count s)

pub record ContractChecks : Type 0 where
  pub schema_problems : List ℕ → ℕ
  pub is_https_url : String → Bool
  pub credential_hits : Contract → ℕ

-- the field of a FieldError; an entry of `audience.agents` has its index
pub data Field : Type 0 where
  title_field requirements_field schema_field receiver_url_field harness_refs_field : Field
  price_field max_rejected_field ttl_field max_duration_field : Field
  audience_type_field audience_agents_field credential_field : Field
  audience_agent_field : ℕ → Field

abbrev pub reject_if : Bool → Field → List Field
reject_if true f = f ∷ []
reject_if false f = []

abbrev pub repeat : ℕ → Field → List Field
repeat zero f = []
repeat (suc n) f = f ∷ repeat n f

-- `requireBounded`
abbrev pub require_bounded : Field → String → ℕ → List Field
require_bounded f value max_len =
    reject_if (rune_count value == 0 || ltb max_len (rune_count value)) f

abbrev pub outside : Option ℤ → ℕ → ℕ → Bool
outside none lo hi = false
outside (some v) lo hi = ltb_ℤ v (pos lo) || ltb_ℤ (pos hi) v

unfoldable pub contains_name : String → List String → Bool
contains_name n [] = false
contains_name n (m ∷ ms) = if str_eq n m then true else contains_name n ms

abbrev max_agent_name_len : ℕ
max_agent_name_len = 64

-- the loop over the names; `seen` are the names before, an empty one is not recorded
unfoldable pub check_names : ℕ → List String → List String → List Field
unfolding contains_name
check_names i seen [] = []
check_names i seen (n ∷ ns) =
    let rest = check_names (i + 1) (if rune_count n == 0 then seen else n ∷ seen) ns in
    if rune_count n == 0
    then audience_agent_field i ∷ rest
    else reject_if (ltb max_agent_name_len (rune_count n)) (audience_agent_field i)
      ++ (reject_if (contains_name n seen) (audience_agent_field i) ++ rest)

abbrev max_audience_agents : ℕ
max_audience_agents = 50

abbrev check_shape : AudienceType → List String → List Field
check_shape audience_open names = reject_if (ltb 0 (length names)) audience_agents_field
check_shape audience_restricted names =
    reject_if (ltb (length names) 1 || ltb max_audience_agents (length names)) audience_agents_field
    ++ check_names 0 [] names

unfoldable pub check_audience : Option Audience → List Field
unfolding check_names
check_audience none = []
check_audience (some a) = check_shape a.audience_type a.agents

abbrev pub check_schema : ContractChecks → Option (List ℕ) → List Field
check_schema checks none = []
check_schema checks (some raw) = repeat (checks.schema_problems raw) schema_field

-- `ValidateContract`: all violations, in the order of the source
unfoldable pub validate_contract : ContractChecks → Contract → List Field
unfolding check_audience
validate_contract checks c =
    require_bounded title_field c.title 128
    ++ (require_bounded requirements_field c.requirements 20000
        ++ (check_schema checks c.schema
            ++ (reject_if (not (checks.is_https_url c.receiver_url)) receiver_url_field
                ++ (reject_if (ltb 10 (length c.harness_refs)) harness_refs_field
                    ++ (reject_if (leb_ℤ c.price (pos 0) || ltb_ℤ (pos max_amount) c.price)
                          price_field
                        ++ (reject_if (outside c.max_rejected_per_agent 1 50) max_rejected_field
                            ++ (reject_if (outside c.claim_ttl 300 7200) ttl_field
                                ++ (reject_if (outside c.claim_max_duration 600 86400)
                                      max_duration_field
                                    ++ (reject_if
                                          (ltb_ℤ
                                            (or_default c.claim_max_duration
                                              default_claim_max_duration)
                                            (or_default c.claim_ttl default_claim_ttl_seconds))
                                          max_duration_field
                                        ++ (check_audience c.contract_audience
                                            ++ repeat (checks.credential_hits c)
                                                credential_field))))))))))
