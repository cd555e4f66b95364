-- ===== src/Chat/Split/Pieces.antt =====
-- Split as a whole: it ends, every message fits, and nothing but spaces is lost.
use stelfin.Prelude.{
  ℕ, zero, suc, ◌≤◌, List, [], ◌∷◌, ◌++◌, true, false, leb, ◌==◌, ◌≡◌, inl, inr, refl, sym, ap, ◌∙◌,
  arith, Bool-cases, append_assoc, append-nil, none, some, length, All, leb→le, subst, ==_apart,
}
use stelfin.Text.Equality.{is_empty_sound}
use stelfin.Text.{is_empty}
use stelfin.Chat.Split.{
  Runes, Builder, trim_space, newline, split_lines, split_paragraphs, fields, units, flush, add,
  cut_word, add_words, add_lines, add_paragraphs, split,
}
use stelfin.Chat.Split.Marks.{
  marks, marks_all, marks-trim_space, marks_all-split_lines, marks_all-split_paragraphs,
  marks_all-fields_from,
}
use stelfin.Chat.Split.Cutting.{
  Fits, Holds, is_empty_complete, flush-Holds, add-Holds, cut_word-Holds,
}

add_words-Holds :
    (limit : ℕ) (read : Runes) (b : Builder) (words : List Runes) (sep : Runes)
    → 2 ≤ limit
    → marks sep ≡ []
    → Holds limit read b
    → (c : Builder) × (add_words limit b words sep ≡ some c)
      × Holds limit (read ++ marks_all words) c
unfolding add_words
add_words-Holds limit read b [] sep two blank h = (b, refl, rw append-nil h)
add_words-Holds limit read b (word ∷ words) sep two blank h =
    let (c, rest, before, run, held, short, same) =
      cut_word-Holds (length word) limit read b word two (omega arith) h in
    let added = add-Holds limit before c rest sep held short blank in
    let (d, runs, holds) =
      add_words-Holds limit (before ++ marks rest) (add limit c rest sep) words (0x20 ∷ []) two refl
        added in
    (
      d,
      rw (add_words, run) runs,
      subst (λ m. Holds limit m d)
          (ap (λ m. m ++ marks_all words) same ∙ append_assoc read (marks word) (marks_all words))
          holds,
    )

add_lines-Holds :
    (limit : ℕ) (read : Runes) (b : Builder) (lines : List Runes) (sep : Runes)
    → 2 ≤ limit
    → marks sep ≡ []
    → Holds limit read b
    → (c : Builder) × (add_lines limit b lines sep ≡ some c)
      × Holds limit (read ++ marks_all lines) c
unfolding add_lines
add_lines-Holds limit read b [] sep two blank h = (b, refl, rw append-nil h)
add_lines-Holds limit read b (line ∷ lines) sep two blank h =
    elim (Bool-cases (leb (units line) limit)) [
      | inl e ↦
          let added = add-Holds limit read b line sep h (leb→le (units line) limit e) blank in
          let (d, runs, holds) =
            add_lines-Holds limit (read ++ marks line) (add limit b line sep) lines (newline ∷ [])
              two refl added in
          (
            d,
            rw (add_lines, e) runs,
            subst (λ m. Holds limit m d) (append_assoc read (marks line) (marks_all lines)) holds,
          )
      | inr e ↦
          let (c, run, held) = add_words-Holds limit read b (fields line) sep two blank h in
          let words : marks_all (fields line) ≡ marks line = marks_all-fields_from [] line in
          let (d, runs, holds) =
            add_lines-Holds limit (read ++ marks_all (fields line)) c lines (newline ∷ []) two refl
              held in
          (
            d,
            rw (add_lines, e, run) runs,
            subst (λ m. Holds limit m d)
                (ap (λ m. (read ++ m) ++ marks_all lines) words
                  ∙ append_assoc read (marks line) (marks_all lines))
                holds,
          )
    ]

add_paragraphs-Holds :
    (limit : ℕ) (read : Runes) (b : Builder) (paragraphs : List Runes)
    → 2 ≤ limit
    → Holds limit read b
    → (c : Builder) × (add_paragraphs limit b paragraphs ≡ some c)
      × Holds limit (read ++ marks_all paragraphs) c
unfolding add_paragraphs
add_paragraphs-Holds limit read b [] two h = (b, refl, rw append-nil h)
add_paragraphs-Holds limit read b (paragraph ∷ rest) two h =
    let sep = newline ∷ newline ∷ [] in
    elim (Bool-cases (leb (units paragraph) limit)) [
      | inl e ↦
          let added =
            add-Holds limit read b paragraph sep h (leb→le (units paragraph) limit e) refl in
          let (d, runs, holds) =
            add_paragraphs-Holds limit (read ++ marks paragraph) (add limit b paragraph sep) rest
              two added in
          (
            d,
            rw (add_paragraphs, e) runs,
            subst (λ m. Holds limit m d) (append_assoc read (marks paragraph) (marks_all rest))
                holds,
          )
      | inr e ↦
          let (c, run, held) =
            add_lines-Holds limit read b (split_lines paragraph) sep two refl h in
          let (d, runs, holds) =
            add_paragraphs-Holds limit (read ++ marks_all (split_lines paragraph)) c rest two
              held in
          (
            d,
            rw (add_paragraphs, e, run) runs,
            subst (λ m. Holds limit m d)
                (ap (λ m. (read ++ m) ++ marks_all rest) (marks_all-split_lines paragraph)
                  ∙ append_assoc read (marks paragraph) (marks_all rest))
                holds,
          )
    ]

-- For a limit of at least two code units, Split ends for every text. Each message that it returns is
-- within the limit and not empty, and the messages one after the other spell the text but for spaces:
-- no other character is lost, doubled or moved.
pub split-Fits :
    (text : Runes) (limit : ℕ)
    → 2 ≤ limit
    → (pieces : List Runes) × (split text limit ≡ some pieces)
      × All (Fits limit) pieces
      × (marks_all pieces ≡ marks text)
unfolding split
split-Fits text limit two =
    let s = trim_space text in
    let nonzero : (limit == 0) ≡ false = ==_apart limit 0 (λ e. omega arith) in
    elim (Bool-cases (is_empty s)) [
      | inl e ↦
          ([], rw (split, e) refl, tt, sym (ap marks (is_empty_sound s e)) ∙ marks-trim_space text)
      | inr e ↦ elim (Bool-cases (leb (units s) limit)) [
        | inl f ↦ (
          s ∷ [],
          rw (split, e, nonzero, f) refl,
          (record { short = leb→le (units s) limit f; filled = is_empty_complete s e }, tt),
          append-nil (marks s) ∙ marks-trim_space text,
        )
        | inr f ↦
            let empty : Builder = record { out = []; piece = [] } in
            let start : Holds limit [] empty = record {
              pieces = tt;
              short = omega arith;
              whole = refl;
            } in
            let (b, run, held) =
              add_paragraphs-Holds limit [] empty (split_paragraphs s) two start in
            let (last, cleared) = flush-Holds limit (marks_all (split_paragraphs s)) b held in
            (
              (flush b).out,
              rw (split, e, nonzero, f, run) refl,
              last.pieces,
              sym (append-nil (marks_all (flush b).out))
                  ∙ (rw cleared at last.whole)
                  ∙ marks_all-split_paragraphs s
                  ∙ marks-trim_space text,
            )
      ]
    ]

-- One code unit is no room for a character outside the basic plane: cut takes nothing off it, and the
-- loop goes on as long as it is let.
cut_word-stuck : (fuel c : ℕ) (b : Builder) → 0x10000 ≤ c → cut_word fuel 1 b (c ∷ []) ≡ none
unfolding cut_word
cut_word-stuck zero c b wide = ground arith
cut_word-stuck (suc fuel) c b wide =
    let two : leb 0x10000 c ≡ true = ground arith in
    let f = flush b in rw two (cut_word-stuck fuel c (record f { out = f.out ++ [] ∷ [] }) wide)
