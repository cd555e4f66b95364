-- ===== src/Money/Tests.antt =====
-- The amounts at concrete inputs.
use stelfin.Prelude.{
  ◌++◌, ◌∷◌, All, Bool, ◌-◌, ◌%◌, ◌≤◌, [], ◌∷◌, false, true, ok, err, ◌≡◌, refl, arith, length, ◌↔◌,
  All,
}
use stelfin.Prelude.Int.{ltb_ℤ, pos, negsuc, half, ◌+ℤ◌, ◌-ℤ◌, IsInt64, neg as negate}
use stelfin.Text.{IsDigit, Bytes, codes}
use stelfin.Money.{
  sign_text, overflow, syntax, precision_lost, abs, add, sum, parse, to_string, display,
  max_stroops, min_stroops,
}
use stelfin.Money.Arith.{checked, total, PrefixesFit, add-checked, sum_iff}
use stelfin.Money.Parse.{spelling, magnitude, signed, IsDecimal, parse-spelling, parse_sound}
use stelfin.Money.RoundTrip.{parse-to_string}
use stelfin.Money.Display.{parse-display}
use stelfin.Text.Grouped.{IsGrouped, without_commas}

add-checked_example : add max_stroops (pos 1) ≡ checked (max_stroops +ℤ pos 1)
add-checked_example = add-checked max_stroops (pos 1) (ground arith) (ground arith)

sum_iff_example : (sum (max_stroops ∷ negsuc 0 ∷ []) ≡ ok (pos (half - 2))) ↔ (
    (pos (half - 2) ≡ total (max_stroops ∷ negsuc 0 ∷ []))
    × PrefixesFit (pos 0) (max_stroops ∷ negsuc 0 ∷ []))
sum_iff_example =
    sum_iff (pos (half - 2)) (max_stroops ∷ negsuc 0 ∷ []) (ground arith, (ground arith, tt))

parse-spelling_example :
    parse (spelling true (codes "922337203685") (codes "4775809"))
    ≡ checked (signed true (magnitude (codes "922337203685") (codes "4775809")))
parse-spelling_example =
    parse-spelling true (codes "922337203685") (codes "4775809")
      ((λ h. cc), ground arith, ground arith, ground arith)

accepted : parse (codes "-0.50") ≡ ok (negsuc 4999999)
unfolding parse stelfin.Text.cut stelfin.Text.parse_int negate
accepted = refl

parse_sound_example :
    (negative : Bool) × (ip : Bytes) × (fp : Bytes) × (codes "-0.50" ≡ spelling negative ip fp)
    × IsDecimal ip fp
    × (negsuc 4999999 ≡ signed negative (magnitude ip fp))
    × IsInt64 (negsuc 4999999)
parse_sound_example = parse_sound (codes "-0.50") accepted

parse-to_string_example : parse (to_string min_stroops) ≡ ok min_stroops
parse-to_string_example = parse-to_string min_stroops (ground arith)

parse-display_example :
    (parse (without_commas (display (pos 123_456_789_000_000))) ≡ ok (pos 123_456_789_000_000))
    × (whole : Bytes) × (places : Bytes) × (display (pos 123_456_789_000_000)
        ≡ sign_text (ltb_ℤ (pos 123_456_789_000_000) (pos 0)) ++ whole ++ b'.' ∷ places)
    × IsGrouped whole
    × All IsDigit places
    × (2 ≤ length places)
    × (length places ≤ 7)
parse-display_example = parse-display (pos 123_456_789_000_000) (ground arith)

-- Amounts as they are shown, and texts that are refused.
shown : display (negsuc 12_345_678_949_999_999) ≡ codes "-1,234,567,895.00"
unfolding display abs stelfin.Text.format_uint stelfin.Prelude.Int.wrap negate ◌+ℤ◌
    stelfin.Text.digits stelfin.Text.trim_right stelfin.Text.pad_zeros
shown = refl

refused_precision : parse (codes "0.12345678") ≡ err precision_lost
unfolding parse stelfin.Text.cut
refused_precision = refl

refused_exponent : parse (codes "1e3") ≡ err syntax
unfolding parse stelfin.Text.cut
refused_exponent = refl

refused_range : parse (codes "922337203685.4775808") ≡ err overflow
unfolding parse stelfin.Text.cut stelfin.Text.parse_int
refused_range = refl
