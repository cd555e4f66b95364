-- ===== src/Chat/Split/Cutting.antt =====
-- The builder of Split under `flush`, `add` and the loop that cuts a word.
use stelfin.Prelude.{
  ℕ, zero, suc, ◌+◌, ◌≤◌, [], ◌∷◌, ◌++◌, false, ◌&&◌, not, ltb, ◌≡◌, ◌≢◌, inl, inr, refl, sym, ap,
  ◌∙◌, arith, Bool-cases, append_assoc, append-nil, some, length, All, All-append, ltb→ge, ltb→lt,
}
use stelfin.Text.Equality.{is_empty_sound}
use stelfin.Text.{is_empty}
use stelfin.Chat.Split.{Runes, Builder, trim_space, units, cut, flush, add, cut_word}
use stelfin.Chat.Split.Marks.{
  marks, marks_all, marks-append, marks_all-append, marks-trim_space, units-append,
  units-trim_space,
}
use stelfin.Chat.Split.Taking.{cut_from-whole, cut_from-short, cut_shortens}

-- A message that the platform accepts.
pub record Fits (limit : ℕ) (p : Runes) : Type 0 where
  pub short : units p ≤ limit
  pub filled : p ≢ []

-- What was read so far stands in the messages and in the one that is being filled.
pub record Holds (limit : ℕ) (read : Runes) (b : Builder) : Type 0 where
  pub pieces : All (Fits limit) b.out
  pub short : units b.piece ≤ limit
  pub whole : marks_all b.out ++ marks b.piece ≡ read

pub is_empty_complete : (s : Runes) → is_empty s ≡ false → s ≢ []
is_empty_complete [] h = λ e. cc
is_empty_complete (c ∷ s) h = λ e. cc

pub flush-Holds :
    (limit : ℕ) (read : Runes) (b : Builder)
    → Holds limit read b
    → Holds limit read (flush b) × ((flush b).piece ≡ [])
unfolding flush
flush-Holds limit read b h = elim (Bool-cases (is_empty (trim_space b.piece))) [
  | inl e ↦
      let kept : marks (trim_space b.piece) ≡ marks b.piece = marks-trim_space b.piece in
      let blank : marks b.piece ≡ [] =
        sym kept ∙ ap marks (is_empty_sound (trim_space b.piece) e) in
      (
        record {
          pieces = rw (flush, e) h.pieces;
          short = omega arith;
          whole = rw (flush, e) (rw blank at h.whole);
        },
        refl,
      )
  | inr e ↦ (
    record {
      pieces =
          rw (flush, e)
            (All-append (Fits limit) b.out (trim_space b.piece ∷ []) h.pieces (
              record {
                short = omega (arith, units-trim_space b.piece, h.short);
                filled = is_empty_complete (trim_space b.piece) e;
              },
              tt,
            ));
      short = omega arith;
      whole =
          rw
            (
              flush,
              e,
              marks_all-append b.out (trim_space b.piece ∷ []),
              append-nil,
              append-nil,
              marks-trim_space b.piece,
            )
            h.whole;
    },
    refl,
  )
]

-- An empty piece is filled.
place-Holds :
    (limit : ℕ) (read : Runes) (b : Builder) (s : Runes)
    → Holds limit read b
    → b.piece ≡ []
    → units s ≤ limit
    → Holds limit (read ++ marks s) (record b { piece = s })
place-Holds limit read b s h blank fits =
    let before : marks_all b.out ≡ read =
      sym (append-nil (marks_all b.out)) ∙ (rw blank at h.whole) in
    record { pieces = h.pieces; short = fits; whole = rw before refl }

join-Holds :
    (limit : ℕ) (read : Runes) (b : Builder) (s sep : Runes)
    → Holds limit read b
    → units b.piece + units sep + units s ≤ limit
    → marks sep ≡ []
    → Holds limit (read ++ marks s) (record b { piece = b.piece ++ sep ++ s })
join-Holds limit read b s sep h fits blank = record {
  pieces = h.pieces;
  short = omega (arith, units-append (b.piece ++ sep) s, units-append b.piece sep);
  whole =
      rw
        (
          marks-append (b.piece ++ sep) s,
          marks-append b.piece sep,
          blank,
          append-nil,
          sym h.whole,
          append_assoc,
        )
        refl;
}

pub add-Holds :
    (limit : ℕ) (read : Runes) (b : Builder) (s sep : Runes)
    → Holds limit read b
    → units s ≤ limit
    → marks sep ≡ []
    → Holds limit (read ++ marks s) (add limit b s sep)
unfolding add
add-Holds limit read b s sep h fits blank =
    elim (Bool-cases (not (is_empty b.piece) && ltb limit (units b.piece + units sep + units s))) [
      | inl full ↦
          let (flushed, cleared) = flush-Holds limit read b h in
          rw (add, full, cleared) (place-Holds limit read (flush b) s flushed cleared fits)
      | inr room ↦ elim (Bool-cases (is_empty b.piece)) [
        | inl e ↦ rw (add, room, e) (place-Holds limit read b s h (is_empty_sound b.piece e) fits)
        | inr e ↦
            let short = ltb→ge limit (units b.piece + units sep + units s) (rw e at room) in
            rw (add, room, e) (join-Holds limit read b s sep h short blank)
      ]
    ]

cut_piece-Holds :
    (limit : ℕ) (read : Runes) (b : Builder) (head : Runes)
    → Holds limit read b
    → b.piece ≡ []
    → Fits limit head
    → Holds limit (read ++ marks head) (record b { out = b.out ++ head ∷ [] })
cut_piece-Holds limit read b head h blank fits =
    let before : marks_all b.out ≡ read =
      sym (append-nil (marks_all b.out)) ∙ (rw blank at h.whole) in
    record {
      pieces = All-append (Fits limit) b.out (head ∷ []) h.pieces (fits, tt);
      short = h.short;
      whole =
          rw
            (blank, marks_all-append b.out (head ∷ []), before, append-nil (marks head), append-nil)
            refl;
    }

-- The loop over a long word ends, and leaves a part of it that fits.
pub cut_word-Holds :
    (fuel limit : ℕ) (read : Runes) (b : Builder) (word : Runes)
    → 2 ≤ limit
    → length word ≤ fuel
    → Holds limit read b
    → (c : Builder) × (rest : Runes) × (before : Runes) × (cut_word fuel limit b word
        ≡ some (c, rest))
      × Holds limit before c
      × (units rest ≤ limit)
      × (before ++ marks rest ≡ read ++ marks word)
unfolding cut_word
cut_word-Holds zero limit read b [] two enough h =
    let short : ltb limit 0 ≡ false = ground arith in
    (b, [], read, rw short refl, h, omega arith, refl)
cut_word-Holds zero limit read b (x ∷ word) two enough h = absurd (omega arith)
cut_word-Holds (suc fuel) limit read b word two enough h =
    elim (Bool-cases (ltb limit (units word))) [
      | inr e ↦ (b, word, read, rw e refl, h, ltb→ge limit (units word) e, refl)
      | inl e ↦
          let long = ltb→lt limit (units word) e in
          let (filled, shorter) = cut_shortens limit word two long in
          let (flushed, cleared) = flush-Holds limit read b h in
          let head = (cut word limit).0 in
          let tail = (cut word limit).1 in
          let fits : Fits limit head = record {
            short = omega (arith, cut_from-short limit 0 word (omega arith));
            filled = filled;
          } in
          let next = cut_piece-Holds limit read (flush b) head flushed cleared fits in
          let (c, rest, before, run, held, short, same) =
            cut_word-Holds fuel limit (read ++ marks head)
              (record (flush b) { out = (flush b).out ++ head ∷ [] }) tail two (omega arith) next in
          (
            c,
            rest,
            before,
            rw e run,
            held,
            short,
            same
                ∙ (rw (append_assoc, sym (marks-append head tail), cut_from-whole limit 0 word)
                    refl),
          )
    ]
