-- ===== src/Money/RoundTrip.antt =====
-- `String` and `Parse` against one another.

use stelfin.Prelude.{ℕ, ◌+◌, ◌/◌, ◌%◌, [], ◌∷◌, false, ◌≡◌, refl, ap, ◌∙◌, arith, ok, length}
use stelfin.Prelude.Int.{pos, negsuc, pos_part, neg_part, neg, ltb_ℤ, wrap, ◌+ℤ◌, IsInt64}
use stelfin.Text.{Bytes, value, format_uint, pad_zeros, is_empty}
use stelfin.Text.Decimal.{
  value-format_uint, format_uint-IsDigit, format_uint-ne-nil, value-pad_zeros, pad_zeros-IsDigit,
  length-pad_zeros,
}
use stelfin.Money.{Stroops, one, precision, abs, parse, to_string}
use stelfin.Money.Arith.{checked, checked_fits}
use stelfin.Money.Parse.{spelling, magnitude, signed, IsDecimal, parse-spelling}

-- `abs` gives the magnitude as an unsigned number and the sign, for the most negative amount too.
pub abs_lem : (s : Stroops) → IsInt64 s → abs s ≡ (pos_part s + neg_part s, ltb_ℤ s (pos 0))
unfolding abs wrap neg ◌+ℤ◌
abs_lem (pos n) h = ground arith
abs_lem (negsuc n) h = ground arith

pub signed_parts : (s : Stroops) → signed (ltb_ℤ s (pos 0)) (pos_part s + neg_part s) ≡ s
unfolding neg
signed_parts (pos n) = ground arith
signed_parts (negsuc n) = ground arith

fraction : ℕ → Bytes
fraction u = pad_zeros precision (u % one)

fraction-length : (u : ℕ) → length (fraction u) ≡ 7
unfolding fraction
fraction-length u = length-pad_zeros 6 (u % one) (omega arith)

to_string-IsDecimal : (u : ℕ) → IsDecimal (format_uint (u / one)) (fraction u)
unfolding fraction
to_string-IsDecimal u = (
  format_uint-ne-nil (u / one),
  format_uint-IsDigit (u / one),
  pad_zeros-IsDigit precision (u % one),
  omega (arith, fraction-length u),
)

nonempty : (s : Bytes) → length s ≡ 7 → is_empty s ≡ false
nonempty [] h = ground arith
nonempty (c ∷ s) h = refl

to_string-spelling :
    (s : Stroops)
    → to_string s ≡ spelling (abs s).1 (format_uint ((abs s).0 / one)) (fraction (abs s).0)
unfolding to_string fraction
to_string-spelling s =
    rw (nonempty (pad_zeros precision ((abs s).0 % one)) (fraction-length (abs s).0)) refl

fraction-value : (u : ℕ) → value (fraction u) ≡ u % one
unfolding fraction
fraction-value u = value-pad_zeros precision (u % one)

magnitude-split : (u : ℕ) → magnitude (format_uint (u / one)) (fraction u) ≡ u
magnitude-split u = rw (value-format_uint, fraction-length u, fraction-value u) (omega arith)

-- The canonical text of every representable amount parses back to that amount.
pub parse-to_string : (s : Stroops) → IsInt64 s → parse (to_string s) ≡ ok s
parse-to_string s h =
    ap parse (to_string-spelling s)
    ∙ parse-spelling (abs s).1 (format_uint ((abs s).0 / one)) (fraction (abs s).0)
        (to_string-IsDecimal (abs s).0)
    ∙ ap (λ u. checked (signed (abs s).1 u)) (magnitude-split (abs s).0)
    ∙ rw (abs_lem s h, signed_parts s) (checked_fits s h)
