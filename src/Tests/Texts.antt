-- ===== src/Tests/Texts.antt =====
-- Replies, waits and contracts, at concrete values.
use kungfu.Base.{
  ℕ, ◌+◌, ◌-◌, ◌*◌, ◌^◌, ◌≤◌, ◌<◌, ◌≡◌, refl, true, false, none, some, List, [], ◌∷◌, ◌++◌, pos,
  length, ◌↔◌, ◌⊎◌, ◌≤ℤ◌,
}
use kungfu.Task.{
  sub_delivering, sub_uncertain, sub_settled, event_deliver_2xx, event_deliver_4xx, event_timeout,
  with_defaults, validate_contract, submission_transition,
}
use kungfu.Service.Deliver.{map_reply}
use kungfu.Service.Limits.{wait_seconds, second}
use kungfu.Service.Deliver.{is_definitive_not_delivered, reply_body, cut_text}
use kungfu.Utf8.{to_valid_utf8, to_valid_from, width, follows, cut_back, starts_at}
use kungfu.Utf8.Cut.{IsCut}
use kungfu.Utf8.CodePoints.{IsUtf8}
use kungfu.Base.{take}
use kungfu.Replies.{map_reply_lem, reply_body_lem, wait_seconds_lem}
use kungfu.Lifecycle.{run_submission, run_submission_lem, validate_contract_lem}
use kungfu.Task.{submission_terminal, check_audience}
use kungfu.Tests.Data.{contract, reply, contract_checks}

map_reply_lem_example :
    (((map_reply (reply 404)).event ≡ event_deliver_2xx)
      ↔ ((code : ℕ) × ((reply 404).response_code ≡ some code) × (200 ≤ code) × (code < 300)))
    × (((map_reply (reply 404)).event ≡ event_deliver_4xx)
        ↔ ((code : ℕ) × ((reply 404).response_code ≡ some code) × (400 ≤ code) × (code < 500)))
    × (((map_reply (reply 404)).event ≡ event_timeout)
        ↔ (((reply 404).response_code ≡ none) × (is_definitive_not_delivered (reply 404) ≡ false)))
map_reply_lem_example = map_reply_lem (reply 404)

-- é, a run of two invalid bytes, and a cut-off character
abbrev mixed : List ℕ
mixed = 0xC3 ∷ 0xA9 ∷ 0xFF ∷ 0x80 ∷ 0x21 ∷ 0xE2 ∷ 0x82 ∷ []

mixed_valid :
    to_valid_utf8 mixed ≡ 0xC3 ∷ 0xA9 ∷ 0xEF ∷ 0xBF ∷ 0xBD ∷ 0x21 ∷ 0xEF ∷ 0xBF ∷ 0xBD ∷ []
unfolding to_valid_from width follows
mixed_valid = refl

-- the euro sign does not fit into four bytes with what stands before it
cut_euro : cut_text 4 (0x61 ∷ 0x62 ∷ 0xE2 ∷ 0x82 ∷ 0xAC ∷ []) ≡ 0x61 ∷ 0x62 ∷ []
unfolding cut_text cut_back starts_at take
cut_euro = refl

reply_body_lem_example :
    (kept rest : List ℕ) × (reply_body (some mixed) ≡ some kept)
    × IsCut 4000 (to_valid_utf8 mixed) kept rest
    × IsUtf8 kept
    × ((¬ IsUtf8 mixed) ⊎ (kept ++ rest ≡ mixed))
reply_body_lem_example = reply_body_lem mixed

wait_seconds_lem_example :
    (1 ≤ wait_seconds 2_500_000_000 1_000_000_000)
    × (2_500_000_000 ≤ 1_000_000_000 + wait_seconds 2_500_000_000 1_000_000_000 * second)
wait_seconds_lem_example = wait_seconds_lem 2_500_000_000 1_000_000_000

run_submission_lem_example :
    (length (event_timeout ∷ event_deliver_2xx ∷ []) ≤ 2)
    × ((submission_terminal sub_settled ≡ true)
        ⊎ (((sub_settled ≡ sub_delivering) × ((event_timeout ∷ event_deliver_2xx ∷ []) ≡ []))
            ⊎ ((sub_settled ≡ sub_uncertain)
                × (length (event_timeout ∷ event_deliver_2xx ∷ []) ≡ 1))))
unfolding run_submission submission_transition
run_submission_lem_example =
    run_submission_lem (event_timeout ∷ event_deliver_2xx ∷ []) sub_settled refl

accepts : validate_contract contract_checks (with_defaults contract) ≡ []
unfolding validate_contract with_defaults check_audience
accepts = refl

validate_contract_lem_example :
    ((pos 1 ≤ℤ pos 10) × (pos 10 ≤ℤ pos (2 ^ 53 - 1)))
    × ((pos 300 ≤ℤ pos 600) × (pos 600 ≤ℤ pos 7200))
    × (pos 600 ≤ℤ pos 7200)
    × ((pos 600 ≤ℤ pos 7200) × (pos 7200 ≤ℤ pos 86400))
    × ((pos 1 ≤ℤ pos 5) × (pos 5 ≤ℤ pos 50))
    × (0 ≤ 10)
validate_contract_lem_example = validate_contract_lem contract_checks contract accepts
