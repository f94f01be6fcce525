-- ===== src/Replies.antt =====
-- internal/service/task_deliver.go: how a reply is classified, and what of it is kept.
use kungfu.Base.{
  ℕ, ◌+◌, ◌*◌, ◌≤◌, ◌<◌, ◌≡◌, ◌↔◌, refl, ◌∙◌, ◌⊎◌, ltb, length, true, false, none, some, arith,
  List, [], ◌++◌, Bool-cases, Option-cases, inl, inr,
}
use kungfu.Task.{event_deliver_2xx, event_deliver_4xx, event_timeout}
use kungfu.Tables.{Time}
use kungfu.Service.Limits.{wait_seconds, second}
use kungfu.Utf8.{is_valid, to_valid_utf8, cut_back}
use kungfu.Utf8.Valid.{to_valid_from-is_valid, to_valid_from_same}
use kungfu.Utf8.Runes.{drop}
use kungfu.Utf8.CodePoints.{IsUtf8, is_valid-IsUtf8, IsUtf8-is_valid}
use kungfu.Utf8.Cut.{IsCut, cut_back-IsCut, uncut}
use kungfu.Service.Deliver.{
  PostResult, map_reply, reply_body, cut_text, is_definitive_not_delivered,
}

cut_text-IsCut :
    (room : ℕ) (text : List ℕ)
    → is_valid text ≡ true
    → (rest : List ℕ) × IsCut room text (cut_text room text) rest
unfolding cut_text
cut_text-IsCut room text v = elim (Bool-cases (ltb room (length text))) [
  | inl y ↦ (drop (cut_back room text) text, rw y (cut_back-IsCut room text v (ground (arith, y))))
  | inr n ↦ ([], rw n (uncut room text v (ground (arith, n))))
]

-- What is kept of a reply's body, whatever its bytes: a prefix of the body with each run of invalid
-- UTF-8 replaced, of at most 4000 bytes, cut between characters and as long as that allows. What is kept
-- is the UTF-8 encoding of Unicode code points, and of a body that is such an encoding it is a prefix
-- as it came.
pub reply_body_lem :
    (body : List ℕ)
    → (kept rest : List ℕ) × (reply_body (some body) ≡ some kept)
      × IsCut 4000 (to_valid_utf8 body) kept rest
      × IsUtf8 kept
      × ((¬ IsUtf8 body) ⊎ (kept ++ rest ≡ body))
unfolding reply_body
reply_body_lem body =
    let text = to_valid_utf8 body in
    let valid = to_valid_from-is_valid 0 false body (omega arith) in
    let (rest, cut) = cut_text-IsCut 4000 text valid in
    (
      cut_text 4000 text,
      rest,
      refl,
      cut,
      is_valid-IsUtf8 (cut_text 4000 text) cut.kept_valid,
      elim (Bool-cases (is_valid body)) [
        | inl y ↦ inr (cut.whole ∙ to_valid_from_same 0 false body y)
        | inr n ↦ inl (λ u. ground (arith, n, IsUtf8-is_valid body u))
      ],
    )

-- A reply means 2xx exactly with a status from 200 to 299, 4xx exactly with one from 400 to 499,
-- and a timeout exactly where no status came and it is not certain that nothing was delivered.
pub map_reply_lem :
    (res : PostResult)
    → (((map_reply res).event ≡ event_deliver_2xx)
        ↔ ((code : ℕ) × (res.response_code ≡ some code) × (200 ≤ code) × (code < 300)))
      × (((map_reply res).event ≡ event_deliver_4xx)
          ↔ ((code : ℕ) × (res.response_code ≡ some code) × (400 ≤ code) × (code < 500)))
      × (((map_reply res).event ≡ event_timeout)
          ↔ ((res.response_code ≡ none) × (is_definitive_not_delivered res ≡ false)))
unfolding map_reply is_definitive_not_delivered
map_reply_lem res = elim (Option-cases res.response_code) [
  | inl e ↦
      rw (map_reply, is_definitive_not_delivered, e)
        (
          (λ h. absurd (ground arith), λ (x, same, lo, hi). absurd (ground arith)),
          (λ h. absurd (ground arith), λ (x, same, lo, hi). absurd (ground arith)),
          (λ h. (refl, ground arith), λ (same, sent). ground arith),
        )
  | inr (code, e) ↦
      rw (map_reply, is_definitive_not_delivered, e)
        (
          (λ h. (code, refl, ground arith, ground arith), λ (x, same, lo, hi). ground arith),
          (λ h. (code, refl, ground arith, ground arith), λ (x, same, lo, hi). ground arith),
          (λ h. absurd (ground arith), λ (same, sent). absurd (ground arith)),
        )
]

-- The wait that the limit's error tells is at least a second, and is over no earlier than the time
-- that it is meant to reach.
pub wait_seconds_lem :
    (at now : Time) → (1 ≤ wait_seconds at now) × (at ≤ now + wait_seconds at now * second)
unfolding wait_seconds
wait_seconds_lem at now = ground arith
