-- ===== src/Connector/Amount.antt =====
-- connector/amount.go: an amount read out of a cell of a spreadsheet. Every refusal is the one error,
-- with a text that is left out. strings.TrimSpace is an argument: what Unicode calls space is not code
-- of the repository.
pub mod Cell
pub mod Canonical
use stelfin.Prelude.{
  ℕ, suc, ◌+◌, List, [], ◌∷◌, ◌++◌, Bool, true, false, ◌&&◌, ◌||◌, not, ltb, leb, ◌==◌,
  if◌then◌else◌, Result, ok, err, ◌>>=◌, ◌>>◌, refuse_if, all, any, length,
}
use stelfin.Text.{Bytes, codes, Cut, cut, is_digit, is_empty, trim_left, trim_right}

pub data Error : Type 0 where
  amount_unreadable : Error

abbrev pub max_decimal_places : ℕ
max_decimal_places = 7

-- The package's own allDigits and isDigit; no digit is part of a longer rune.
abbrev pub all_digits : Bytes → Bool
all_digits = all is_digit

abbrev pub starts_with : ℕ → Bytes → Bool
starts_with c [] = false
starts_with c (x ∷ s) = x == c

abbrev pub ends_with : ℕ → Bytes → Bool
ends_with c [] = false
ends_with c (x ∷ s) = if is_empty s then x == c else ends_with c s

abbrev pub contains : ℕ → Bytes → Bool
contains c = any (λ x. x == c)

abbrev pub trim_prefix : ℕ → Bytes → Bytes
trim_prefix c [] = []
trim_prefix c (x ∷ s) = if x == c then s else x ∷ s

abbrev pub grow : ℕ → List Bytes → List Bytes
grow c [] = (c ∷ []) ∷ []
grow c (g ∷ gs) = (c ∷ g) ∷ gs

-- strings.Split for a one-byte separator, and strings.Join with nothing between.
unfoldable pub split : ℕ → Bytes → List Bytes
split sep [] = [] ∷ []
split sep (c ∷ s) = let rest = split sep s in if c == sep then [] ∷ rest else grow c rest

unfoldable pub join : List Bytes → Bytes
join [] = []
join (g ∷ gs) = g ++ join gs

abbrev pub is_group : Bytes → Bool
is_group g = all_digits g && not (is_empty g) && length g == 3

abbrev pub is_first_group : Bytes → Bool
is_first_group g = all_digits g && not (is_empty g) && leb (length g) 3

unfoldable pub grouped : List Bytes → Bool
grouped [] = true
grouped (g ∷ gs) = is_first_group g && all is_group gs

unfoldable pub strip_grouping : Bytes → Result Error Bytes
strip_grouping whole =
    if not (contains b',' whole)
    then ok whole
    else if grouped (split b',' whole)
    then ok (join (split b',' whole))
    else err amount_unreadable

abbrev pub or_zero : Bytes → Bytes
or_zero s = if is_empty s then codes "0" else s

-- An empty whole part is zero, and leading zeros are dropped.
unfoldable pub canonical_whole : Bytes → Bytes
canonical_whole whole = or_zero (trim_left b'0' (or_zero whole))

abbrev pub trim_zeros : Bytes → Bytes
trim_zeros s = trim_right b'0' (trim_left b'0' s)

unfoldable pub is_zero : Bytes → Bytes → Bool
is_zero whole fraction = is_empty (trim_zeros whole) && is_empty (trim_zeros fraction)

unfoldable pub finish : Bytes → Bytes → Result Error Bytes
finish whole fraction = do
  refuse_if (is_zero whole fraction) amount_unreadable
  ok (whole ++ (if is_empty fraction then [] else b'.' ∷ fraction))

unfoldable pub read_parts : Cut → Result Error Bytes
read_parts p = do
  refuse_if (contains b',' p.after) amount_unreadable
  whole ← strip_grouping p.before
  refuse_if (is_empty whole && not p.found) amount_unreadable
  refuse_if (contains b'.' p.after) amount_unreadable
  refuse_if (not (all_digits whole) || (p.found && not (all_digits p.after))) amount_unreadable
  refuse_if (p.found && is_empty p.after) amount_unreadable
  refuse_if (ltb max_decimal_places (length p.after)) amount_unreadable
  finish (canonical_whole whole) p.after

-- NormalizeTabularAmount
unfoldable pub normalize_tabular_amount : (Bytes → Bytes) → Bytes → Result Error Bytes
normalize_tabular_amount trim_space raw =
    let text = trim_prefix b'\'' (trim_space raw) in
    do
      refuse_if (is_empty (trim_space raw)) amount_unreadable
      refuse_if (starts_with b'=' text) amount_unreadable
      refuse_if (starts_with b'(' text && ends_with b')' text) amount_unreadable
      refuse_if (starts_with b'-' text) amount_unreadable
      refuse_if (starts_with b'+' text) amount_unreadable
      read_parts (cut b'.' text)
