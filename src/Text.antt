-- ===== src/Text.antt =====
-- Go's strings as lists of bytes, with what the code uses of the packages strings, strconv and fmt
-- on them: Cut, TrimRight, FormatUint, ParseInt, and the padding of a number by "%0*d".
-- `digits` recurs on fuel; a number is fuel enough for its own digits, since each round divides it.
pub mod Decimal
pub mod Equality
pub mod Grouped
use Prim.Native.Char.{code}
use Prim.Native.String.{String}
use stelfin.Prelude.{
  ℕ, zero, suc, ◌+◌, ◌-◌, ◌*◌, ◌/◌, ◌%◌, ◌^◌, ◌≤◌, List, [], ◌∷◌, ◌++◌, Bool, true, false, ◌&&◌,
  ◌||◌, ltb, leb, ◌==◌, if◌then◌else◌, Result, ok, err, all, any, length, replicate, Option, none,
  some,
}
use stelfin.Prelude.Int.{ℤ, pos, neg, half}

abbrev pub Bytes : Type 0
Bytes = List ℕ

-- The code points of a literal: its bytes, when it is ASCII.
abbrev pub codes : String → Bytes
codes String.[] = []
codes (String.◌∷◌ c s) = code c ∷ codes s

abbrev pub is_empty {ℓ} : {A : Type ℓ} → List A → Bool
is_empty [] = true
is_empty (x ∷ xs) = false

abbrev pub bytes_eq : Bytes → Bytes → Bool
bytes_eq [] [] = true
bytes_eq (x ∷ xs) (y ∷ ys) = x == y && bytes_eq xs ys
bytes_eq _ _ = false

abbrev pub is_digit : ℕ → Bool
is_digit c = leb b'0' c && leb c b'9'

abbrev pub IsDigit : ℕ → Type 0
IsDigit c = (b'0' ≤ c) × (c ≤ b'9')

-- strings.Cut(s, sep) for a one-byte separator.
pub record Cut : Type 0 where
  pub before : Bytes
  pub after : Bytes
  pub found : Bool

unfoldable pub cut : ℕ → Bytes → Cut
cut sep [] = record { before = []; after = []; found = false }
cut sep (c ∷ s) =
    let rest = cut sep s in
    if c == sep
    then record { before = []; after = s; found = true }
    else record { before = c ∷ rest.before; after = rest.after; found = rest.found }

-- strings.TrimRight(s, c) and strings.TrimLeft(s, c) for a cutset of one byte.
unfoldable pub trim_right : ℕ → Bytes → Bytes
trim_right c [] = []
trim_right c (x ∷ s) = let rest = trim_right c s in if x == c && is_empty rest then [] else x ∷ rest

unfoldable pub trim_left : ℕ → Bytes → Bytes
trim_left c [] = []
trim_left c (x ∷ s) = let rest = trim_left c s in if x == c then rest else x ∷ s

-- The number that digits spell behind `n`.
abbrev pub value_from : ℕ → Bytes → ℕ
value_from n [] = n
value_from n (c ∷ s) = value_from (n * 10 + (c - b'0')) s

abbrev pub value : Bytes → ℕ
value s = value_from 0 s

unfoldable pub digits : ℕ → ℕ → Bytes → Bytes
digits zero n out = out
digits (suc fuel) n out =
    let more = digits fuel (n / 10) ((b'0' + n % 10) ∷ out) in if n == 0 then out else more

-- strconv.FormatUint(n, 10), which fmt's "%d" prints too.
unfoldable pub format_uint : ℕ → Bytes
format_uint n = if n == 0 then b'0' ∷ [] else digits n n []

-- fmt's "%0*d".
unfoldable pub pad_zeros : ℕ → ℕ → Bytes
pad_zeros width n = replicate (width - length (format_uint n)) b'0' ++ format_uint n

pub data NumError : Type 0 where
  syntax range : NumError

-- strconv.ParseInt(s, 10, 64): an optional sign, then digits; the result fits an int64.
unfoldable pub parse_magnitude : Bool → Bytes → Result NumError ℤ
parse_magnitude negative s =
    if is_empty s || (if all is_digit s then false else true)
    then err syntax
    else if negative
    then (if ltb half (value s) then err range else ok (neg (pos (value s))))
    else (if leb half (value s) then err range else ok (pos (value s)))

unfoldable pub parse_int : Bytes → Result NumError ℤ
unfolding parse_magnitude
parse_int [] = err syntax
parse_int (c ∷ s) =
    if c == b'-'
    then parse_magnitude true s
    else if c == b'+'
    then parse_magnitude false s
    else parse_magnitude false (c ∷ s)
