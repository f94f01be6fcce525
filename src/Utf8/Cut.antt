-- ===== src/Utf8/Cut.antt =====
-- The cut of a valid text between characters.
use kungfu.Base.{
  ℕ, suc, zero, ◌+◌, ◌≤◌, ◌<◌, ◌≡◌, refl, ap, sym, ◌∙◌, true, false, List, [], ◌∷◌, ◌++◌, ◌⊎◌, inl,
  inr, length, take, ltb, leb, Bool-cases, arith,
}
use kungfu.Utf8.{follows, width, is_valid, is_valid_from, starts_at, cut_back}
use kungfu.Utf8.Valid.{width-cases, is_valid_from-char, is_valid_from-bad}
use kungfu.Utf8.Runes.{
  drop, take-drop, length-take, length-drop, after-starts, split-is_valid, starts_at-drop,
}

no_later :
    (j room : ℕ) (s : List ℕ)
    → starts_at (suc room) s ≡ false
    → j ≤ suc room
    → (j ≤ room → starts_at j s ≡ false)
    → starts_at j s ≡ false
no_later j room s n m h = elim (Bool-cases (leb j room)) [
  | inl y ↦ h (ground (arith, y))
  | inr x ↦ let e : j ≡ suc room = ground (arith, x, m) in rw e n
]

-- the last beginning of a character up to `room`
cut_back-last :
    (room : ℕ) (s : List ℕ)
    → ((cut_back room s ≡ 0) ⊎ (starts_at (cut_back room s) s ≡ true))
      × (cut_back room s ≤ room)
      × ((j : ℕ) → cut_back room s < j → j ≤ room → starts_at j s ≡ false)
unfolding cut_back
cut_back-last zero s = (inl refl, omega arith, λ j l m. absurd (omega (arith, l, m)))
cut_back-last (suc room) s =
    let (at, low, none_between) = cut_back-last room s in
    elim (Bool-cases (starts_at (suc room) s)) [
      | inl y ↦ rw y (inr y, omega arith, λ j l m. absurd (omega (arith, l, m)))
      | inr n ↦ rw n (at, omega (arith, low), λ j l m. no_later j room s n m (none_between j l))
    ]

-- what is kept of a text and what is dropped: valid texts, the first within the room, the second with a
-- first character that does not fit any more
pub record IsCut (room : ℕ) (s : List ℕ) (kept : List ℕ) (rest : List ℕ) : Type 0 where
  pub whole : kept ++ rest ≡ s
  pub fits : length kept ≤ room
  pub kept_valid : is_valid kept ≡ true
  pub rest_valid : is_valid rest ≡ true
  pub longest : (a : ℕ) (t : List ℕ) → rest ≡ a ∷ t → room < length kept + width a t

starts_inside : (i : ℕ) (s : List ℕ) → starts_at i s ≡ true → i < length s
unfolding starts_at
starts_inside i [] b = absurd (ground (arith, b))
starts_inside zero (a ∷ s) b = omega arith
starts_inside (suc i) (a ∷ s) b = omega (arith, starts_inside i s b)

cut-starts :
    (room : ℕ) (s : List ℕ)
    → is_valid s ≡ true
    → room < length s
    → starts_at (cut_back room s) s ≡ true
cut-starts room s v l = elim (cut_back-last room s).0 [
  | inl e ↦ rw e (after-starts 0 s v (omega (arith, l)))
  | inr b ↦ b
]

-- A character that would fit would end where another begins, which is after the cut.
fitting-absurd :
    (room : ℕ) (s : List ℕ) (a : ℕ) (t : List ℕ)
    → is_valid s ≡ true
    → room < length s
    → drop (cut_back room s) s ≡ a ∷ t
    → is_valid (a ∷ t) ≡ true
    → cut_back room s + width a t ≤ room
    → ⊥
unfolding starts_at
fitting-absurd room s a t v l d w f = elim (width-cases (width a t)) [
  | inl e ↦ ground (arith, is_valid_from-bad a t e, w)
  | inr (n, e) ↦
      let c = cut_back room s in
      let (at, low, none_between) = cut_back-last room s in
      let fit : c + suc n ≤ room = rw (sym e) f in
      let size = length-drop c s (omega (arith, low, l)) in
      let long : n < length t = omega (arith, size, ap length d, fit, l) in
      let begins : starts_at n t ≡ true =
        after-starts n t (sym (is_valid_from-char a t n e) ∙ w) long in
      let here =
        starts_at-drop c (suc n) s (omega (arith, low, l))
        ∙ (ap (λ u. starts_at (suc n) u) d ∙ begins) in
      ground (arith, here, none_between (c + suc n) (omega arith) fit)
]

pub cut_back-IsCut :
    (room : ℕ) (s : List ℕ)
    → is_valid s ≡ true
    → room < length s
    → IsCut room s (take (cut_back room s) s) (drop (cut_back room s) s)
unfolding follows
cut_back-IsCut room s v l =
    let c = cut_back room s in
    let low = (cut_back-last room s).1 in
    let (left, right) = split-is_valid 0 c s v refl (cut-starts room s v l) in
    let size = length-take c s (omega (arith, low, l)) in
    record {
      whole = take-drop c s;
      fits = omega (arith, size, low);
      kept_valid = left;
      rest_valid = right;
      longest = λ a t d. elim (Bool-cases (ltb room (length (take c s) + width a t))) [
        | inl y ↦ ground (arith, y)
        | inr n ↦
            absurd (fitting-absurd room s a t v l d (rw (sym d) right) (ground (arith, n, size)))
      ];
    }

append_nothing : (s : List ℕ) → s ++ [] ≡ s
append_nothing [] = refl
append_nothing (a ∷ s) = ap (λ l. a ∷ l) (append_nothing s)

pub uncut : (room : ℕ) (s : List ℕ) → is_valid s ≡ true → length s ≤ room → IsCut room s s []
unfolding is_valid_from
uncut room s v l = record {
  whole = append_nothing s;
  fits = l;
  kept_valid = v;
  rest_valid = refl;
  longest = λ a t e. absurd (ground (arith, e));
}
