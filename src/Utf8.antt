-- ===== src/Utf8.antt =====
-- What internal/service/task_deliver.go uses of Go's UTF-8 on the bytes of a text:
-- strings.ToValidUTF8 with the replacement "\uFFFD", utf8.RuneStart, and the cut of `replyBody`.
use kungfu.Base.{
  ℕ, suc, zero, Bool, true, false, ◌&&◌, not, Option, none, some, List, [], ◌∷◌, ◌==◌, leb, ltb,
  if◌then◌else◌,
}
pub mod Valid
pub mod Runes
pub mod Cut
pub mod CodePoints

abbrev pub between : ℕ → ℕ → ℕ → Bool
between lo hi b = leb lo b && leb b hi

-- What may follow a first byte: how many bytes, and the range of the first of them. The ranges leave
-- out overlong forms, surrogates and what is above U+10FFFF.
abbrev pub lead : ℕ → Option (ℕ × ℕ × ℕ)
lead a =
    if ltb a 0x80
    then some (0, 0x80, 0xBF)
    else if between 0xC2 0xDF a
    then some (1, 0x80, 0xBF)
    else if a == 0xE0
    then some (2, 0xA0, 0xBF)
    else if a == 0xED
    then some (2, 0x80, 0x9F)
    else if between 0xE1 0xEF a
    then some (2, 0x80, 0xBF)
    else if a == 0xF0
    then some (3, 0x90, 0xBF)
    else if between 0xF1 0xF3 a
    then some (3, 0x80, 0xBF)
    else if a == 0xF4
    then some (3, 0x80, 0x8F)
    else none

unfoldable pub follows : ℕ → ℕ → ℕ → List ℕ → Bool
follows zero lo hi s = true
follows (suc n) lo hi [] = false
follows (suc n) lo hi (b ∷ s) = between lo hi b && follows n 0x80 0xBF s

abbrev pub width_by : Option (ℕ × ℕ × ℕ) → List ℕ → ℕ
width_by none s = 0
width_by (some (n, lo, hi)) s = if follows n lo hi s then suc n else 0

-- the bytes of the character that a text begins with; 0 where it begins with an invalid byte
unfoldable pub width : ℕ → List ℕ → ℕ
width a s = width_by (lead a) s

abbrev pub is_zero : ℕ → Bool
is_zero zero = true
is_zero (suc n) = false

abbrev pub pred : ℕ → ℕ
pred zero = 0
pred (suc n) = n

-- utf8.ValidString, with the bytes that are left of the current character
unfoldable pub is_valid_from : ℕ → List ℕ → Bool
is_valid_from zero [] = true
is_valid_from (suc k) [] = false
is_valid_from (suc k) (b ∷ s) = is_valid_from k s
is_valid_from zero (a ∷ s) =
    let rest = is_valid_from (pred (width a s)) s in if is_zero (width a s) then false else rest

abbrev pub is_valid : List ℕ → Bool
is_valid s = is_valid_from 0 s

-- one replacement for a run of invalid bytes
abbrev pub replaced : Bool → List ℕ → List ℕ
replaced true rest = rest
replaced false rest = 0xEF ∷ 0xBF ∷ 0xBD ∷ rest

-- with the bytes that are left of the current character, and whether the last byte was invalid
unfoldable pub to_valid_from : ℕ → Bool → List ℕ → List ℕ
to_valid_from k in_run [] = []
to_valid_from (suc k) in_run (b ∷ s) = b ∷ to_valid_from k false s
to_valid_from zero in_run (a ∷ s) =
    let rest = to_valid_from (pred (width a s)) (is_zero (width a s)) s in
    if is_zero (width a s) then replaced in_run rest else a ∷ rest

-- strings.ToValidUTF8(s, "\uFFFD")
abbrev pub to_valid_utf8 : List ℕ → List ℕ
to_valid_utf8 s = to_valid_from 0 false s

-- b & 0xC0 != 0x80
abbrev pub rune_start : ℕ → Bool
rune_start b = not (between 0x80 0xBF b)

unfoldable pub starts_at : ℕ → List ℕ → Bool
starts_at i [] = false
starts_at zero (b ∷ s) = rune_start b
starts_at (suc i) (b ∷ s) = starts_at i s

-- `for cut > 0 && !utf8.RuneStart(b[cut]) { cut-- }`
unfoldable pub cut_back : ℕ → List ℕ → ℕ
cut_back zero s = 0
cut_back (suc cut) s =
    let before = cut_back cut s in if starts_at (suc cut) s then suc cut else before
