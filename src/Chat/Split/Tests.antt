-- ===== src/Chat/Split/Tests.antt =====
-- A text of two lines and a long word, in messages of four code units.
use stelfin.Prelude.{List, [], ◌∷◌, ◌++◌, ◌≡◌, refl, arith, some, All}
use stelfin.Text.{codes}
use stelfin.Chat.Split.{Runes, split, newline}
use stelfin.Chat.Split.Marks.{marks, marks_all}
use stelfin.Chat.Split.Cutting.{Fits}
use stelfin.Chat.Split.Pieces.{split-Fits}

abbrev text : Runes
text = codes "ab cd" ++ newline ∷ codes "efghij"

text-split : split text 4 ≡ some (codes "ab" ∷ codes "cd" ∷ codes "efgh" ∷ codes "ij" ∷ [])
unfolding split stelfin.Chat.Split.add_paragraphs stelfin.Chat.Split.add_lines
    stelfin.Chat.Split.add_words stelfin.Chat.Split.cut_word stelfin.Chat.Split.flush
    stelfin.Chat.Split.add
text-split = refl

split-Fits_example :
    (pieces : List Runes) × (split text 4 ≡ some pieces)
    × All (Fits 4) pieces
    × (marks_all pieces ≡ marks text)
split-Fits_example = split-Fits text 4 (omega arith)
