-- ===== src/Chat/Split/Marks.antt =====
-- The characters of a text that are not spaces, and its length: what trimming and splitting keep.
use stelfin.Prelude.{
  ℕ, ◌+◌, ◌≤◌, List, [], ◌∷◌, ◌++◌, ◌&&◌, ◌==◌, if◌then◌else◌, ◌≡◌, inl, inr, refl, sym, ◌∙◌, arith,
  Bool-cases, append_assoc, append-nil, ==_iff,
}
use stelfin.Text.Equality.{is_empty_sound}
use stelfin.Text.{is_empty}
use stelfin.Chat.Split.{
  Runes, is_space, trim_left_space, trim_right_space, trim_space, newline, onto_first, split_lines,
  split_paragraphs, fields_from, units,
}

abbrev pub marks : Runes → Runes
marks [] = []
marks (c ∷ s) = let rest = marks s in if is_space c then rest else c ∷ rest

abbrev pub marks_all : List Runes → Runes
marks_all [] = []
marks_all (s ∷ ss) = marks s ++ marks_all ss

pub marks-append : (s t : Runes) → marks (s ++ t) ≡ marks s ++ marks t
marks-append [] t = refl
marks-append (c ∷ s) t = elim (Bool-cases (is_space c)) [
  | inl e ↦ rw (e, marks-append s t) refl
  | inr e ↦ rw (e, marks-append s t) refl
]

pub marks_all-append : (ss ts : List Runes) → marks_all (ss ++ ts) ≡ marks_all ss ++ marks_all ts
marks_all-append [] ts = refl
marks_all-append (s ∷ ss) ts = rw (marks_all-append ss ts, append_assoc) refl

pub units-append : (s t : Runes) → units (s ++ t) ≡ units s + units t
units-append [] t = omega arith
units-append (c ∷ s) t = omega (arith, units-append s t)

marks-trim_left_space : (s : Runes) → marks (trim_left_space s) ≡ marks s
marks-trim_left_space [] = refl
marks-trim_left_space (c ∷ s) = elim (Bool-cases (is_space c)) [
  | inl e ↦ rw (e, marks-trim_left_space s) refl
  | inr e ↦ rw (e, e) refl
]

marks-trim_right_space : (s : Runes) → marks (trim_right_space s) ≡ marks s
marks-trim_right_space [] = refl
marks-trim_right_space (c ∷ s) = elim (Bool-cases (is_space c)) [
  | inr e ↦ rw (e, e, marks-trim_right_space s) refl
  | inl e ↦ elim (Bool-cases (is_empty (trim_right_space s))) [
    | inr f ↦ rw (e, f, e) (marks-trim_right_space s)
    | inl f ↦
        let same = marks-trim_right_space s in
        rw (e, f) (rw (is_empty_sound (trim_right_space s) f) at same)
  ]
]

pub marks-trim_space : (s : Runes) → marks (trim_space s) ≡ marks s
marks-trim_space s = marks-trim_right_space (trim_left_space s) ∙ marks-trim_left_space s

units-trim_left_space : (s : Runes) → units (trim_left_space s) ≤ units s
units-trim_left_space [] = omega arith
units-trim_left_space (c ∷ s) = elim (Bool-cases (is_space c)) [
  | inl e ↦ rw e (omega (arith, units-trim_left_space s))
  | inr e ↦ rw e (omega arith)
]

units-trim_right_space : (s : Runes) → units (trim_right_space s) ≤ units s
units-trim_right_space [] = omega arith
units-trim_right_space (c ∷ s) = elim (Bool-cases (is_space c && is_empty (trim_right_space s))) [
  | inl e ↦ rw e (omega arith)
  | inr e ↦ rw e (omega (arith, units-trim_right_space s))
]

pub units-trim_space : (s : Runes) → units (trim_space s) ≤ units s
units-trim_space s =
    omega (arith, units-trim_right_space (trim_left_space s), units-trim_left_space s)

marks_all-onto_first :
    (c : ℕ) (ss : List Runes) → marks_all (onto_first c ss) ≡ marks (c ∷ []) ++ marks_all ss
marks_all-onto_first c [] = refl
marks_all-onto_first c (s ∷ ss) = elim (Bool-cases (is_space c)) [
  | inl e ↦ rw e refl
  | inr e ↦ rw e refl
]

marks-cons : (c : ℕ) (s : Runes) → marks (c ∷ []) ++ marks s ≡ marks (c ∷ s)
marks-cons c s = sym (marks-append (c ∷ []) s)

pub marks_all-split_lines : (s : Runes) → marks_all (split_lines s) ≡ marks s
marks_all-split_lines [] = refl
marks_all-split_lines (c ∷ s) = elim (Bool-cases (c == newline)) [
  | inl e ↦ rw ((==_iff c newline).0 e) (marks_all-split_lines s)
  | inr e ↦ rw (e, marks_all-onto_first c (split_lines s), marks_all-split_lines s) (marks-cons c s)
]

pub marks_all-split_paragraphs : (s : Runes) → marks_all (split_paragraphs s) ≡ marks s
marks_all-split_paragraphs [] = refl
marks_all-split_paragraphs (c ∷ []) = append-nil (marks (c ∷ []))
marks_all-split_paragraphs (c ∷ d ∷ s) = elim (Bool-cases (c == newline && d == newline)) [
  | inl e ↦
      let first : c ≡ newline = ground arith in
      let second : d ≡ newline = ground arith in rw (first, second) (marks_all-split_paragraphs s)
  | inr e ↦
      rw (e, marks_all-onto_first c (split_paragraphs (d ∷ s)), marks_all-split_paragraphs (d ∷ s))
        (marks-cons c (d ∷ s))
]

pub marks_all-fields_from :
    (word s : Runes) → marks_all (fields_from word s) ≡ marks word ++ marks s
marks_all-fields_from word [] = elim (Bool-cases (is_empty word)) [
  | inl e ↦ rw (is_empty_sound word e) refl
  | inr e ↦ rw e refl
]
marks_all-fields_from word (c ∷ s) = elim (Bool-cases (is_space c)) [
  | inr e ↦
      rw (e, marks_all-fields_from (word ++ c ∷ []) s, marks-append word (c ∷ []), e, append_assoc)
        refl
  | inl e ↦ elim (Bool-cases (is_empty word)) [
    | inl f ↦ rw (is_empty_sound word f, e) (marks_all-fields_from [] s)
    | inr f ↦ rw (e, f, marks_all-fields_from [] s) refl
  ]
]
