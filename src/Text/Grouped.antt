-- ===== src/Text/Grouped.antt =====
-- How thousands are separated: up to three digits, then a comma before each three.
use stelfin.Prelude.{ℕ, [], ◌∷◌, ◌++◌, ◌==◌, if◌then◌else◌, ◌≡◌, refl, arith, ◌≤◌, All, length}
use stelfin.Text.{Bytes, IsDigit}

-- Groups of three digits, a comma in front of each.
pub data Threes : Bytes → Type 0 where
  no_more : Threes []
  comma :
      {a b c : ℕ} {s : Bytes}
      → All IsDigit (a ∷ b ∷ c ∷ [])
      → Threes s
      → Threes (b',' ∷ a ∷ b ∷ c ∷ s)

-- A whole number with separators, where it is long enough for them.
pub record IsGrouped (s : Bytes) : Type 0 where
  pub lead : Bytes
  pub groups : Bytes
  pub parts : s ≡ lead ++ groups
  pub nonempty : 1 ≤ length lead
  pub short : length lead ≤ 3
  pub digits : All IsDigit lead
  pub threes : Threes groups

-- A text without its commas.
unfoldable pub without_commas : Bytes → Bytes
without_commas [] = []
without_commas (c ∷ s) = if c == b',' then without_commas s else c ∷ without_commas s

pub without_commas-append :
    (xs ys : Bytes) → without_commas (xs ++ ys) ≡ without_commas xs ++ without_commas ys
unfolding without_commas
without_commas-append [] ys = refl
without_commas-append (x ∷ xs) ys = ground (arith, without_commas-append xs ys)

pub without_commas-digits : (s : Bytes) → All IsDigit s → without_commas s ≡ s
unfolding without_commas
without_commas-digits [] h = refl
without_commas-digits (c ∷ s) (hc, hs) = ground (arith, without_commas-digits s hs)
