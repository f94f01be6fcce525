-- ===== src/Utf8/Valid.antt =====
-- `to_valid_utf8` gives valid UTF-8, and changes nothing that is valid.
use kungfu.Base.{
  ℕ, suc, zero, ◌≤◌, ◌≡◌, refl, ap, sym, ◌∙◌, Bool, true, false, Option, none, some, List, [], ◌∷◌,
  ◌⊎◌, length, Bool-cases, inl, inr, arith,
}
use kungfu.Utf8.{lead, follows, width_by, width, is_valid_from, replaced, to_valid_from}

-- a character of more than no bytes
abbrev pub IsWidth : ℕ → List ℕ → ℕ → Type 0
IsWidth a s n = (lo : ℕ) × (hi : ℕ) × (lead a ≡ some (n, lo, hi)) × (follows n lo hi s ≡ true)

width_by-suc :
    (o : Option (ℕ × ℕ × ℕ)) (s : List ℕ) (n : ℕ)
    → width_by o s ≡ suc n
    → (lo : ℕ) × (hi : ℕ) × (o ≡ some (n, lo, hi)) × (follows n lo hi s ≡ true)
width_by-suc none s n e = absurd (ground (arith, e))
width_by-suc (some (m, lo, hi)) s n e = elim (Bool-cases (follows m lo hi s)) [
  | inl y ↦
      let same : m ≡ n = ground (arith, y, e) in (lo, hi, rw same refl, ground (arith, same, y))
  | inr x ↦ absurd (ground (arith, x, e))
]

pub width-IsWidth : (a : ℕ) (s : List ℕ) (n : ℕ) → width a s ≡ suc n → IsWidth a s n
unfolding width
width-IsWidth a s n e = width_by-suc (lead a) s n e

pub IsWidth-width : (a : ℕ) (s : List ℕ) (n : ℕ) → IsWidth a s n → width a s ≡ suc n
unfolding width
IsWidth-width a s n (lo, hi, e, f) = rw (e, f) refl

pub length-follows : (n lo hi : ℕ) (s : List ℕ) → follows n lo hi s ≡ true → n ≤ length s
unfolding follows
length-follows zero lo hi s e = omega arith
length-follows (suc n) lo hi [] e = absurd (ground (arith, e))
length-follows (suc n) lo hi (b ∷ s) e = ground (arith, e, length-follows n 0x80 0xBF s)

-- the bytes that follow are copied
follows-to_valid_from :
    (n lo hi : ℕ) (in_run : Bool) (s : List ℕ)
    → follows n lo hi s ≡ true
    → follows n lo hi (to_valid_from n in_run s) ≡ true
unfolding follows to_valid_from
follows-to_valid_from zero lo hi in_run s e = refl
follows-to_valid_from (suc n) lo hi in_run [] e = absurd (ground (arith, e))
follows-to_valid_from (suc n) lo hi in_run (b ∷ s) e =
    ground (arith, e, follows-to_valid_from n 0x80 0xBF false s)

-- a width is none or one more
pub width-cases : (n : ℕ) → (n ≡ 0) ⊎ ((m : ℕ) × (n ≡ suc m))
width-cases zero = inl refl
width-cases (suc m) = inr (m, refl)

pub is_valid_from-char :
    (a : ℕ) (s : List ℕ) (n : ℕ) → width a s ≡ suc n → is_valid_from 0 (a ∷ s) ≡ is_valid_from n s
unfolding is_valid_from
is_valid_from-char a s n e = rw e refl

pub is_valid_from-bad : (a : ℕ) (s : List ℕ) → width a s ≡ 0 → is_valid_from 0 (a ∷ s) ≡ false
unfolding is_valid_from
is_valid_from-bad a s e = rw e refl

to_valid_from-char :
    (in_run : Bool) (a : ℕ) (s : List ℕ) (n : ℕ)
    → width a s ≡ suc n
    → to_valid_from 0 in_run (a ∷ s) ≡ a ∷ to_valid_from n false s
unfolding to_valid_from
to_valid_from-char in_run a s n e = rw e refl

to_valid_from-bad :
    (in_run : Bool) (a : ℕ) (s : List ℕ)
    → width a s ≡ 0
    → to_valid_from 0 in_run (a ∷ s) ≡ replaced in_run (to_valid_from 0 true s)
unfolding to_valid_from
to_valid_from-bad in_run a s e = rw e refl

replaced-is_valid :
    (in_run : Bool) (s : List ℕ)
    → is_valid_from 0 s ≡ true
    → is_valid_from 0 (replaced in_run s) ≡ true
unfolding is_valid_from width follows
replaced-is_valid true s v = v
replaced-is_valid false s v = v

pub to_valid_from-is_valid :
    (k : ℕ) (in_run : Bool) (s : List ℕ)
    → k ≤ length s
    → is_valid_from k (to_valid_from k in_run s) ≡ true
unfolding is_valid_from to_valid_from
to_valid_from-is_valid zero in_run [] l = refl
to_valid_from-is_valid (suc k) in_run [] l = absurd (omega (arith, l))
to_valid_from-is_valid (suc k) in_run (b ∷ s) l =
    to_valid_from-is_valid k false s (omega (arith, l))
to_valid_from-is_valid zero in_run (a ∷ s) l = elim (width-cases (width a s)) [
  | inl e ↦
      ap (λ l. is_valid_from 0 l) (to_valid_from-bad in_run a s e)
      ∙ replaced-is_valid in_run _ (to_valid_from-is_valid 0 true s (omega arith))
  | inr (n, e) ↦
      let (lo, hi, w, f) = width-IsWidth a s n e in
      ap (λ l. is_valid_from 0 l) (to_valid_from-char in_run a s n e)
      ∙ (is_valid_from-char a (to_valid_from n false s) n (
            IsWidth-width a (to_valid_from n false s) n
              (lo, hi, w, follows-to_valid_from n lo hi false s f))
          ∙ to_valid_from-is_valid n false s (length-follows n lo hi s f))
]

pub to_valid_from_same :
    (k : ℕ) (in_run : Bool) (s : List ℕ) → is_valid_from k s ≡ true → to_valid_from k in_run s ≡ s
unfolding to_valid_from is_valid_from
to_valid_from_same k in_run [] v = refl
to_valid_from_same (suc k) in_run (b ∷ s) v = ap (λ l. b ∷ l) (to_valid_from_same k false s v)
to_valid_from_same zero in_run (a ∷ s) v = elim (width-cases (width a s)) [
  | inl e ↦ absurd (ground (arith, is_valid_from-bad a s e, v))
  | inr (n, e) ↦
      to_valid_from-char in_run a s n e
      ∙ ap (λ l. a ∷ l) (to_valid_from_same n false s (sym (is_valid_from-char a s n e) ∙ v))
]
