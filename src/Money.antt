-- ===== src/Money.antt =====
-- internal/money/money.go: a signed 64-bit count of stroops, its text forms and its checked sums.
-- int64 arithmetic is `wrap` of the sum over ℤ. An error is its sentinel; the texts of errors are
-- left out.
pub mod Arith
pub mod Parse
pub mod RoundTrip
pub mod Grouping
pub mod Fraction
pub mod Display
mod Tests
use stelfin.Prelude.{
  ℕ, ◌+◌, ◌-◌, ◌/◌, ◌%◌, ◌^◌, List, [], ◌∷◌, ◌++◌, Bool, true, false, ◌&&◌, ◌||◌, not, ltb, leb,
  ◌==◌, if◌then◌else◌, Result, ok, err, ◌>>=◌, ◌>>◌, refuse_if, all, length, replicate, take, drop,
}
use stelfin.Prelude.Int.{
  ℤ, pos, negsuc, ◌+ℤ◌, neg as negate, ltb_ℤ, leb_ℤ, eqb_ℤ, half, wrap, to_word, IsInt64,
}
use stelfin.Text.{
  Bytes, Cut, cut, is_empty, is_digit, trim_right, format_uint, pad_zeros, NumError, parse_int,
}

abbrev pub Stroops : Type 0
Stroops = ℤ

abbrev pub precision : ℕ
precision = 7

abbrev pub one : ℕ
one = 10_000_000

abbrev pub min_stroops : Stroops
min_stroops = negsuc (half - 1)

abbrev pub max_stroops : Stroops
max_stroops = pos (half - 1)

pub data Error : Type 0 where
  overflow syntax precision_lost : Error

-- The errors of ParseInt, as `Parse` passes them on.
abbrev pub from_num : Result NumError Stroops → Result Error Stroops
from_num (ok v) = ok v
from_num (err NumError.range) = err overflow
from_num (err NumError.syntax) = err syntax

abbrev pub all_digits : Bytes → Bool
all_digits = all is_digit

abbrev pub has_sign : Bytes → Bool
has_sign [] = false
has_sign (c ∷ s) = c == b'-'

abbrev pub body_of : Bytes → Bytes
body_of [] = []
body_of (c ∷ s) = if c == b'-' then s else c ∷ s

-- The two parts of the number, with the zeros that fill the fraction and the sign put back.
pub padded : Bool → Bytes → Bytes → Bytes
padded negative int_part frac_part =
    let digits = int_part ++ frac_part ++ replicate (precision - length frac_part) b'0' in
    if negative then b'-' ∷ digits else digits

pub parse_parts : Bool → Cut → Result Error Stroops
unfolding padded
parse_parts negative parts = do
  let int_part = parts.before
  let frac_part = parts.after
  refuse_if (is_empty int_part) syntax
  refuse_if (parts.found && is_empty frac_part) syntax
  refuse_if (not (all_digits int_part) || not (all_digits frac_part)) syntax
  refuse_if (ltb precision (length frac_part)) precision_lost
  from_num (parse_int (padded negative int_part frac_part))

unfoldable pub parse : Bytes → Result Error Stroops
unfolding parse_parts
parse s = do refuse_if (is_empty s) syntax; parse_parts (has_sign s) (cut b'.' (body_of s))

-- The magnitude as a uint64, and whether the amount is negative.
unfoldable pub abs : Stroops → ℕ × Bool
abs s =
    if ltb_ℤ s (pos 0)
    then ((to_word (wrap (negate (wrap (s +ℤ pos 1)))) + 1) % 2 ^ 64, true)
    else (to_word s, false)

abbrev sign_text : Bool → Bytes
sign_text negative = if negative then b'-' ∷ [] else []

unfoldable pub to_string : Stroops → Bytes
to_string s =
    let (u, negative) = abs s in
    sign_text negative ++ format_uint (u / one) ++ b'.' ∷ pad_zeros precision (u % one)

-- The loop of `group` over what is left of the digits. A remainder shorter than three would be a
-- slice out of range; there is none, since the lead takes what three does not divide.
pub group_loop : Bytes → Bytes → Bytes
group_loop (a ∷ b ∷ c ∷ rest) out =
    group_loop rest ((if is_empty out then out else out ++ b',' ∷ []) ++ a ∷ b ∷ c ∷ [])
group_loop _ out = out

pub group : ℕ → Bytes
unfolding group_loop
group n =
    let plain = format_uint n in
    let lead = length plain % 3 in
    if leb (length plain) 3 then plain else group_loop (drop lead plain) (take lead plain)

pub display_fraction : ℕ → Bytes
display_fraction frac =
    let digits = pad_zeros precision frac in
    let trimmed = trim_right b'0' digits in
    if ltb (length trimmed) 2 then take 2 digits else trimmed

unfoldable pub display : Stroops → Bytes
unfolding group display_fraction
display s =
    let (u, negative) = abs s in
    sign_text negative ++ group (u / one) ++ b'.' ∷ display_fraction (u % one)

unfoldable pub add : Stroops → Stroops → Result Error Stroops
add s t =
    let sum = wrap (s +ℤ t) in
    if (ltb_ℤ (pos 0) s && ltb_ℤ (pos 0) t && ltb_ℤ sum (pos 0))
      || (ltb_ℤ s (pos 0) && ltb_ℤ t (pos 0) && leb_ℤ (pos 0) sum)
    then err overflow
    else ok sum

unfoldable pub sub : Stroops → Stroops → Result Error Stroops
sub s t =
    if eqb_ℤ t min_stroops
    then (if leb_ℤ (pos 0) s then err overflow else ok (wrap (wrap (s +ℤ max_stroops) +ℤ pos 1)))
    else add s (wrap (negate t))

unfoldable pub neg : Stroops → Result Error Stroops
neg s = if eqb_ℤ s min_stroops then err overflow else ok (wrap (negate s))

unfoldable pub is_zero : Stroops → Bool
is_zero s = eqb_ℤ s (pos 0)

unfoldable pub sign : Stroops → ℤ
sign s = if ltb_ℤ s (pos 0) then negsuc 0 else if ltb_ℤ (pos 0) s then pos 1 else pos 0

pub sum_from : Stroops → List Stroops → Result Error Stroops
sum_from total [] = ok total
sum_from total (a ∷ amounts) = do next ← add total a; sum_from next amounts

unfoldable pub sum : List Stroops → Result Error Stroops
unfolding sum_from
sum amounts = sum_from (pos 0) amounts
