-- ===== src/Utf8/CodePoints.antt =====
-- Valid UTF-8 is the encoding of Unicode code points.
use kungfu.Base.{
  ℕ, suc, zero, ◌+◌, ◌-◌, ◌*◌, ◌/◌, ◌%◌, ◌≤◌, ◌<◌, ◌≡◌, ◌⊎◌, refl, ap, sym, ◌∙◌, true, some, List,
  [], ◌∷◌, ◌++◌, ltb, if◌then◌else◌, inl, inr, Bool-cases, take, arith,
}
use kungfu.Utf8.{lead, follows, width, is_valid, is_valid_from}
use kungfu.Utf8.Valid.{width-IsWidth, width-cases, is_valid_from-char, is_valid_from-bad}
use kungfu.Utf8.Runes.{drop, take-drop}

-- a code point that is no surrogate
abbrev pub IsScalar : ℕ → Type 0
IsScalar c = (c < 0xD800) ⊎ ((0xE000 ≤ c) × (c ≤ 0x10FFFF))

unfoldable pub encode_char : ℕ → List ℕ
encode_char c =
    if ltb c 0x80
    then c ∷ []
    else if ltb c 0x800
    then (0xC0 + c / 64) ∷ (0x80 + c % 64) ∷ []
    else if ltb c 0x10000
    then (0xE0 + c / 4096) ∷ (0x80 + c / 64 % 64) ∷ (0x80 + c % 64) ∷ []
    else (0xF0 + c / 262144) ∷ (0x80 + c / 4096 % 64) ∷ (0x80 + c / 64 % 64) ∷ (0x80 + c % 64) ∷ []

unfoldable pub encode : List ℕ → List ℕ
encode [] = []
encode (c ∷ cs) = encode_char c ++ encode cs

abbrev pub AllScalar : List ℕ → Type 0
AllScalar [] = Unit {0}
AllScalar (c ∷ cs) = IsScalar c × AllScalar cs

-- the encoding of code points
abbrev pub IsUtf8 : List ℕ → Type 0
IsUtf8 s = (cs : List ℕ) × AllScalar cs × (encode cs ≡ s)

abbrev Encodes : List ℕ → Type 0
Encodes s = (c : ℕ) × IsScalar c × (encode_char c ≡ s)

two-Encodes : (a b : ℕ) → 0xC2 ≤ a → a ≤ 0xDF → 0x80 ≤ b → b ≤ 0xBF → Encodes (a ∷ b ∷ [])
unfolding encode_char
two-Encodes a b l h m k =
    let x = a - 0xC0 in
    let y = b - 0x80 in
    let c = x * 64 + y in (c, inl (omega (arith, l, h, m, k)), ground (arith, l, h, m, k))

three-Encodes :
    (a b c : ℕ)
    → 0xE0 ≤ a
    → a ≤ 0xEF
    → 0x80 ≤ b
    → b ≤ 0xBF
    → 0x80 ≤ c
    → c ≤ 0xBF
    → 0xE0A0 ≤ a * 256 + b
    → (a * 256 + b < 0xEDA0) ⊎ (0xEE80 ≤ a * 256 + b)
    → Encodes (a ∷ b ∷ c ∷ [])
unfolding encode_char
three-Encodes a b c l h m k n o p q =
    let x = a - 0xE0 in
    let y = b - 0x80 in
    let z = c - 0x80 in
    let d = x * 4096 + y * 64 + z in
    (
      d,
      elim q [
        | inl u ↦ inl (omega (arith, l, h, m, k, n, o, u))
        | inr u ↦ inr (omega (arith, l, h, m, k, n, o, u), omega (arith, l, h, m, k, n, o))
      ],
      ground (arith, l, h, m, k, n, o, p),
    )

four-Encodes :
    (a b c d : ℕ)
    → 0xF0 ≤ a
    → a ≤ 0xF4
    → 0x80 ≤ b
    → b ≤ 0xBF
    → 0x80 ≤ c
    → c ≤ 0xBF
    → 0x80 ≤ d
    → d ≤ 0xBF
    → 0xF090 ≤ a * 256 + b
    → a * 256 + b ≤ 0xF48F
    → Encodes (a ∷ b ∷ c ∷ d ∷ [])
unfolding encode_char
four-Encodes a b c d l h m k n o r s p q =
    let x = a - 0xF0 in
    let y = b - 0x80 in
    let z = c - 0x80 in
    let w = d - 0x80 in
    let e = x * 262144 + y * 4096 + z * 64 + w in
    (
      e,
      inr (omega (arith, l, h, m, k, n, o, r, s, p), omega (arith, l, h, m, k, n, o, r, s, q)),
      ground (arith, l, h, m, k, n, o, r, s, p, q),
    )

one-Encodes : (a : ℕ) → a < 0x80 → Encodes (a ∷ [])
unfolding encode_char
one-Encodes a l = (a, inl (omega (arith, l)), ground (arith, l))

lead-Encodes :
    (n a lo hi : ℕ) (s : List ℕ)
    → lead a ≡ some (n, lo, hi)
    → follows n lo hi s ≡ true
    → Encodes (a ∷ take n s)
unfolding follows take
lead-Encodes zero a lo hi s e f = one-Encodes a (ground (arith, e))
lead-Encodes (suc zero) a lo hi (b ∷ s) e f =
    two-Encodes a b (ground (arith, e)) (ground (arith, e)) (ground (arith, e, f))
      (ground (arith, e, f))
lead-Encodes (suc (suc zero)) a lo hi (b ∷ c ∷ s) e f =
    three-Encodes a b c (ground (arith, e)) (ground (arith, e)) (ground (arith, e, f))
      (ground (arith, e, f)) (ground (arith, f)) (ground (arith, f)) (ground (arith, e, f))
      (elim (Bool-cases (ltb (a * 256 + b) 0xEDA0)) [
        | inl y ↦ inl (ground (arith, y))
        | inr x ↦ inr (ground (arith, x, e, f))
      ])
lead-Encodes (suc (suc (suc zero))) a lo hi (b ∷ c ∷ d ∷ s) e f =
    four-Encodes a b c d (ground (arith, e)) (ground (arith, e)) (ground (arith, e, f))
      (ground (arith, e, f)) (ground (arith, f)) (ground (arith, f)) (ground (arith, f))
      (ground (arith, f)) (ground (arith, e, f)) (ground (arith, e, f))
lead-Encodes (suc (suc (suc (suc n)))) a lo hi s e f = absurd (ground (arith, e))
lead-Encodes (suc zero) a lo hi [] e f = absurd (ground (arith, f))
lead-Encodes (suc (suc zero)) a lo hi [] e f = absurd (ground (arith, f))
lead-Encodes (suc (suc zero)) a lo hi (b ∷ []) e f = absurd (ground (arith, f))
lead-Encodes (suc (suc (suc zero))) a lo hi [] e f = absurd (ground (arith, f))
lead-Encodes (suc (suc (suc zero))) a lo hi (b ∷ []) e f = absurd (ground (arith, f))
lead-Encodes (suc (suc (suc zero))) a lo hi (b ∷ c ∷ []) e f = absurd (ground (arith, f))

-- the rest of a text, after what is left of a character, encodes code points
decode_from :
    (k : ℕ) (s : List ℕ)
    → is_valid_from k s ≡ true
    → (cs : List ℕ) × AllScalar cs × (encode cs ≡ drop k s)
unfolding is_valid_from drop encode
decode_from zero [] v = ([], tt, refl)
decode_from (suc k) [] v = absurd (ground (arith, v))
decode_from (suc k) (b ∷ s) v = decode_from k s v
decode_from zero (a ∷ s) v = elim (width-cases (width a s)) [
  | inl e ↦ absurd (ground (arith, is_valid_from-bad a s e, v))
  | inr (n, e) ↦
      let (lo, hi, w, f) = width-IsWidth a s n e in
      let (c, scalar, first) = lead-Encodes n a lo hi s w f in
      let (cs, all, others) = decode_from n s (sym (is_valid_from-char a s n e) ∙ v) in
      (c ∷ cs, (scalar, all), rw (first, others) (ap (λ l. a ∷ l) (take-drop n s)))
]

pub is_valid-IsUtf8 : (s : List ℕ) → is_valid s ≡ true → IsUtf8 s
unfolding drop
is_valid-IsUtf8 s v = decode_from 0 s v

width-one : (a : ℕ) (s : List ℕ) → a < 0x80 → width a s ≡ 1
unfolding width follows
width-one a s l = ground (arith, l)

width-two : (a b : ℕ) (s : List ℕ) → 0xC2 ≤ a → a ≤ 0xDF → 0x80 ≤ b → b ≤ 0xBF → width a (b ∷ s) ≡ 2
unfolding width follows
width-two a b s l h m k = ground (arith, l, h, m, k)

width-three :
    (a b c : ℕ) (s : List ℕ)
    → 0xE0 ≤ a
    → a ≤ 0xEF
    → 0x80 ≤ b
    → b ≤ 0xBF
    → 0x80 ≤ c
    → c ≤ 0xBF
    → 0xE0A0 ≤ a * 256 + b
    → (a * 256 + b < 0xEDA0) ⊎ (0xEE80 ≤ a * 256 + b)
    → width a (b ∷ c ∷ s) ≡ 3
unfolding width follows
width-three a b c s l h m k n o p q = ground (arith, l, h, m, k, n, o, p, q)

width-four :
    (a b c d : ℕ) (s : List ℕ)
    → 0xF0 ≤ a
    → a ≤ 0xF4
    → 0x80 ≤ b
    → b ≤ 0xBF
    → 0x80 ≤ c
    → c ≤ 0xBF
    → 0x80 ≤ d
    → d ≤ 0xBF
    → 0xF090 ≤ a * 256 + b
    → a * 256 + b ≤ 0xF48F
    → width a (b ∷ c ∷ d ∷ s) ≡ 4
unfolding width follows
width-four a b c d s l h m k n o r t p q = ground (arith, l, h, m, k, n, o, r, t, p, q)

encode_char-is_valid :
    (c : ℕ) (s : List ℕ) → IsScalar c → is_valid_from 0 (encode_char c ++ s) ≡ is_valid_from 0 s
unfolding encode_char is_valid_from
encode_char-is_valid c s i = elim (Bool-cases (ltb c 0x80)) [
  | inl y ↦ rw (y, width-one c s (ground (arith, y))) refl
  | inr x ↦ elim (Bool-cases (ltb c 0x800)) [
    | inl y ↦
        rw
          (
            x,
            y,
            width-two (0xC0 + c / 64) (0x80 + c % 64) s (ground (arith, x)) (ground (arith, y))
                (omega arith) (omega arith),
          )
          refl
    | inr z ↦ elim (Bool-cases (ltb c 0x10000)) [
      | inl y ↦
          rw
            (
              x,
              z,
              y,
              width-three (0xE0 + c / 4096) (0x80 + c / 64 % 64) (0x80 + c % 64) s (omega arith)
                  (ground (arith, y)) (omega arith) (omega arith) (omega arith) (omega arith)
                  (ground (arith, z))
                  (elim i [ inl l ↦ inl (omega (arith, l)) | inr (m, n) ↦ inr (omega (arith, m)) ]),
            )
            refl
      | inr w ↦
          rw
            (
              x,
              z,
              w,
              width-four (0xF0 + c / 262144) (0x80 + c / 4096 % 64) (0x80 + c / 64 % 64)
                  (0x80 + c % 64) s (omega arith) (ground (arith, i)) (omega arith) (omega arith)
                  (omega arith) (omega arith) (omega arith) (omega arith) (ground (arith, w))
                  (ground (arith, i)),
            )
            refl
    ]
  ]
]

encode-is_valid : (cs : List ℕ) → AllScalar cs → is_valid (encode cs) ≡ true
unfolding encode is_valid_from
encode-is_valid [] all = refl
encode-is_valid (c ∷ cs) (scalar, all) =
    encode_char-is_valid c (encode cs) scalar ∙ encode-is_valid cs all

pub IsUtf8-is_valid : (s : List ℕ) → IsUtf8 s → is_valid s ≡ true
IsUtf8-is_valid s (cs, all, e) = rw (sym e) (encode-is_valid cs all)
