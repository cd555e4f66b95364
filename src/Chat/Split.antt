-- ===== src/Chat/Split.antt =====
-- chat/split.go: a reply broken into messages that a platform accepts. A text is the list of its code
-- points. The loop that cuts a long word recurs on fuel, and a run that has no fuel left gives `none`;
-- the length of the word is enough for every limit of two or more.
pub mod Marks
pub mod Taking
pub mod Cutting
pub mod Pieces
mod Tests
use stelfin.Prelude.{
  ℕ, zero, suc, ◌+◌, List, [], ◌∷◌, ◌++◌, Bool, true, false, ◌&&◌, ◌||◌, not, leb, ltb, ◌==◌,
  if◌then◌else◌, Option, none, some, length,
}
use stelfin.Text.{is_empty}

abbrev pub Runes : Type 0
Runes = List ℕ

-- unicode.IsSpace
abbrev pub is_space : ℕ → Bool
is_space c =
    (leb 9 c && leb c 13)
    || c == 0x20
    || c == 0x85
    || c == 0xa0
    || c == 0x1680
    || (leb 0x2000 c && leb c 0x200a)
    || c == 0x2028
    || c == 0x2029
    || c == 0x202f
    || c == 0x205f
    || c == 0x3000

-- strings.TrimSpace
abbrev pub trim_left_space : Runes → Runes
trim_left_space [] = []
trim_left_space (c ∷ s) = let rest = trim_left_space s in if is_space c then rest else c ∷ s

abbrev pub trim_right_space : Runes → Runes
trim_right_space [] = []
trim_right_space (c ∷ s) =
    let rest = trim_right_space s in if is_space c && is_empty rest then [] else c ∷ rest

abbrev pub trim_space : Runes → Runes
trim_space s = trim_right_space (trim_left_space s)

abbrev pub newline : ℕ
newline = 10

abbrev pub onto_first : ℕ → List Runes → List Runes
onto_first c [] = (c ∷ []) ∷ []
onto_first c (s ∷ ss) = (c ∷ s) ∷ ss

-- strings.Split(s, "\n")
abbrev pub split_lines : Runes → List Runes
split_lines [] = [] ∷ []
split_lines (c ∷ s) =
    let rest = split_lines s in if c == newline then [] ∷ rest else onto_first c rest

-- strings.Split(s, "\n\n")
abbrev pub split_paragraphs : Runes → List Runes
split_paragraphs [] = [] ∷ []
split_paragraphs (c ∷ []) = (c ∷ []) ∷ []
split_paragraphs (c ∷ d ∷ s) =
    let behind = split_paragraphs s in
    let rest = split_paragraphs (d ∷ s) in
    if c == newline && d == newline then [] ∷ behind else onto_first c rest

-- strings.Fields, behind the start of a word.
abbrev pub fields_from : Runes → Runes → List Runes
fields_from word [] = if is_empty word then [] else word ∷ []
fields_from word (c ∷ s) =
    let rest = fields_from [] s in
    let more = fields_from (word ++ c ∷ []) s in
    if is_space c then (if is_empty word then rest else word ∷ rest) else more

abbrev pub fields : Runes → List Runes
fields s = fields_from [] s

-- utf16.RuneLen of a code point.
abbrev pub width : ℕ → ℕ
width c = if leb 0x10000 c then 2 else 1

abbrev pub units : Runes → ℕ
units [] = 0
units (c ∷ s) = width c + units s

-- cut, with `n` code units behind.
abbrev pub cut_from : ℕ → ℕ → Runes → Runes × Runes
cut_from limit n [] = ([], [])
cut_from limit n (c ∷ s) =
    let rest = cut_from limit (n + width c) s in
    if ltb limit (n + width c) then ([], c ∷ s) else (c ∷ rest.0, rest.1)

abbrev pub cut : Runes → ℕ → Runes × Runes
cut s limit = cut_from limit 0 s

-- The variables of Split: the messages so far, and the one that is being filled.
pub record Builder : Type 0 where
  pub out : List Runes
  pub piece : Runes

unfoldable pub flush : Builder → Builder
flush b =
    let s = trim_space b.piece in
    record { out = if is_empty s then b.out else b.out ++ s ∷ []; piece = [] }

unfoldable pub add : ℕ → Builder → Runes → Runes → Builder
add limit b s sep =
    let full = not (is_empty b.piece) && ltb limit (units b.piece + units sep + units s) in
    let c = if full then flush b else b in
    record c { piece = if is_empty c.piece then s else c.piece ++ sep ++ s }

-- for units(word) > limit
unfoldable pub cut_word : ℕ → ℕ → Builder → Runes → Option (Builder × Runes)
cut_word zero limit b word = if ltb limit (units word) then none else some (b, word)
cut_word (suc fuel) limit b word =
    let f = flush b in
    let later =
      cut_word fuel limit (record f { out = f.out ++ (cut word limit).0 ∷ [] })
        (cut word limit).1 in
    if ltb limit (units word) then later else some (b, word)

-- The words of a line.
unfoldable pub add_words : ℕ → Builder → List Runes → Runes → Option Builder
add_words limit b [] sep = some b
add_words limit b (word ∷ words) sep = elim (cut_word (length word) limit b word) [
  | none ↦ none
  | some (c, rest) ↦ add_words limit (add limit c rest sep) words (0x20 ∷ [])
]

-- The lines of a paragraph.
unfoldable pub add_lines : ℕ → Builder → List Runes → Runes → Option Builder
add_lines limit b [] sep = some b
add_lines limit b (line ∷ lines) sep =
    let fits = add_lines limit (add limit b line sep) lines (newline ∷ []) in
    if leb (units line) limit then fits else elim (add_words limit b (fields line) sep) [
      | none ↦ none
      | some c ↦ add_lines limit c lines (newline ∷ [])
    ]

unfoldable pub add_paragraphs : ℕ → Builder → List Runes → Option Builder
add_paragraphs limit b [] = some b
add_paragraphs limit b (paragraph ∷ paragraphs) =
    let fits = add_paragraphs limit (add limit b paragraph (newline ∷ newline ∷ [])) paragraphs in
    if leb (units paragraph) limit
    then fits
    else elim (add_lines limit b (split_lines paragraph) (newline ∷ newline ∷ [])) [
      | none ↦ none
      | some c ↦ add_paragraphs limit c paragraphs
    ]

-- Split
unfoldable pub split : Runes → ℕ → Option (List Runes)
split text limit =
    let s = trim_space text in
    if is_empty s || limit == 0
    then some []
    else if leb (units s) limit
    then some (s ∷ [])
    else elim (add_paragraphs limit (record { out = []; piece = [] }) (split_paragraphs s)) [
      | none ↦ none
      | some b ↦ some (flush b).out
    ]
