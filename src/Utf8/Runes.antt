-- ===== src/Utf8/Runes.antt =====
-- Valid UTF-8 falls apart into characters at the bytes that begin one.
use kungfu.Base.{
  ℕ, suc, zero, ◌+◌, ◌≤◌, ◌<◌, ◌≡◌, refl, ap, sym, ◌∙◌, true, some, List, [], ◌∷◌, ◌++◌, length,
  inl, inr, take, arith,
}
use kungfu.Utf8.{lead, follows, width, is_valid_from, rune_start, starts_at}
use kungfu.Utf8.Valid.{
  width-IsWidth, IsWidth-width, width-cases, is_valid_from-char, is_valid_from-bad,
}

unfoldable pub drop : ℕ → List ℕ → List ℕ
drop zero s = s
drop (suc n) [] = []
drop (suc n) (a ∷ s) = drop n s

pub take-drop : (n : ℕ) (s : List ℕ) → take n s ++ drop n s ≡ s
unfolding take drop
take-drop zero s = refl
take-drop (suc n) [] = refl
take-drop (suc n) (a ∷ s) = ap (λ l. a ∷ l) (take-drop n s)

pub length-take : (n : ℕ) (s : List ℕ) → n ≤ length s → length (take n s) ≡ n
unfolding take
length-take zero s l = refl
length-take (suc n) [] l = absurd (omega (arith, l))
length-take (suc n) (a ∷ s) l = ap suc (length-take n s (omega (arith, l)))

pub length-drop : (n : ℕ) (s : List ℕ) → n ≤ length s → n + length (drop n s) ≡ length s
unfolding drop
length-drop zero s l = omega arith
length-drop (suc n) [] l = absurd (omega (arith, l))
length-drop (suc n) (a ∷ s) l = omega (arith, length-drop n s (omega (arith, l)))

lead-range :
    (a n lo hi : ℕ) → lead a ≡ some (n, lo, hi) → (0x80 ≤ lo) × (hi ≤ 0xBF) × (rune_start a ≡ true)
lead-range a n lo hi e = ground (arith, e)

-- a continuation byte begins no character
follows-continues :
    (n lo hi : ℕ) (s : List ℕ)
    → 0x80 ≤ lo
    → hi ≤ 0xBF
    → follows n lo hi s ≡ true
    → follows n 0x80 0xBF s ≡ true
unfolding follows
follows-continues zero lo hi s l h f = refl
follows-continues (suc n) lo hi [] l h f = f
follows-continues (suc n) lo hi (b ∷ s) l h f = ground (arith, l, h, f)

follows-take :
    (n lo hi i : ℕ) (s : List ℕ)
    → n ≤ i
    → follows n lo hi s ≡ true
    → follows n lo hi (take i s) ≡ true
unfolding follows take
follows-take zero lo hi i s l f = refl
follows-take (suc n) lo hi zero s l f = absurd (omega (arith, l))
follows-take (suc n) lo hi (suc i) [] l f = f
follows-take (suc n) lo hi (suc i) (b ∷ s) l f =
    ground (arith, f, follows-take n 0x80 0xBF i s (omega (arith, l)))

is_valid_from-long : (k : ℕ) (s : List ℕ) → is_valid_from k s ≡ true → k ≤ length s
unfolding is_valid_from
is_valid_from-long zero s v = omega arith
is_valid_from-long (suc k) [] v = absurd (ground (arith, v))
is_valid_from-long (suc k) (b ∷ s) v = omega (arith, is_valid_from-long k s v)

take-short : (i : ℕ) (s : List ℕ) → length (take i s) ≤ i
unfolding take
take-short zero s = omega arith
take-short (suc i) [] = omega arith
take-short (suc i) (a ∷ s) = omega (arith, take-short i s)

pub char-starts : (a : ℕ) (s : List ℕ) → is_valid_from 0 (a ∷ s) ≡ true → rune_start a ≡ true
char-starts a s v = elim (width-cases (width a s)) [
  | inl e ↦ absurd (ground (arith, is_valid_from-bad a s e, v))
  | inr (n, e) ↦ let (lo, hi, w, f) = width-IsWidth a s n e in (lead-range a n lo hi w).2
]

-- the byte after a character begins one
pub after-starts :
    (n : ℕ) (s : List ℕ) → is_valid_from n s ≡ true → n < length s → starts_at n s ≡ true
unfolding is_valid_from starts_at
after-starts zero [] v l = absurd (omega (arith, l))
after-starts zero (a ∷ s) v l = char-starts a s v
after-starts (suc n) [] v l = absurd (omega (arith, l))
after-starts (suc n) (b ∷ s) v l = after-starts n s v (omega (arith, l))

-- both sides of the beginning of a character are valid
pub split-is_valid :
    (k i : ℕ) (s : List ℕ)
    → is_valid_from k s ≡ true
    → follows k 0x80 0xBF s ≡ true
    → starts_at i s ≡ true
    → (is_valid_from k (take i s) ≡ true) × (is_valid_from 0 (drop i s) ≡ true)
unfolding is_valid_from follows starts_at take drop
split-is_valid k i [] v f b = absurd (ground (arith, b))
split-is_valid zero zero (a ∷ s) v f b = (refl, v)
split-is_valid (suc k) zero (a ∷ s) v f b = absurd (ground (arith, f, b))
split-is_valid (suc k) (suc i) (a ∷ s) v f b = split-is_valid k i s v (ground (arith, f)) b
split-is_valid zero (suc i) (a ∷ s) v f b = elim (width-cases (width a s)) [
  | inl e ↦ absurd (ground (arith, is_valid_from-bad a s e, v))
  | inr (n, e) ↦
      let (lo, hi, w, g) = width-IsWidth a s n e in
      let (l, h, r) = lead-range a n lo hi w in
      let (left, right) =
        split-is_valid n i s (sym (is_valid_from-char a s n e) ∙ v)
          (follows-continues n lo hi s l h g) b in
      let long : n ≤ i = omega (arith, is_valid_from-long n (take i s) left, take-short i s) in
      (
        is_valid_from-char a (take i s) n
              (IsWidth-width a (take i s) n (lo, hi, w, follows-take n lo hi i s long g))
            ∙ left,
        right,
      )
]

pub starts_at-drop :
    (i j : ℕ) (s : List ℕ) → i ≤ length s → starts_at (i + j) s ≡ starts_at j (drop i s)
unfolding drop starts_at
starts_at-drop zero j s l = ap (λ m. starts_at m s) (omega arith)
starts_at-drop (suc i) j [] l = absurd (omega (arith, l))
starts_at-drop (suc i) j (a ∷ s) l =
    let e : suc i + j ≡ suc (i + j) = omega arith in
    ap (λ m. starts_at m (a ∷ s)) e ∙ starts_at-drop i j s (omega (arith, l))
