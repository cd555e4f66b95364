-- ===== src/Money/Display.antt =====
-- `Display`: grouping and trimming lose nothing.
use stelfin.Prelude.{
  inl, inr, Bool-cases, ℕ, ◌/◌, ◌%◌, ◌≤◌, [], ◌∷◌, ◌++◌, Bool, true, false, ◌≡◌, refl, ap, ◌∙◌,
  arith, ok, All, length,
}
use stelfin.Prelude.Int.{pos, ltb_ℤ, IsInt64}
use stelfin.Text.{Bytes, IsDigit, format_uint, is_empty}
use stelfin.Text.Decimal.{value-format_uint, format_uint-IsDigit, format_uint-ne-nil}
use stelfin.Text.Grouped.{IsGrouped, without_commas, without_commas-append, without_commas-digits}
use stelfin.Money.{Stroops, one, abs, sign_text, parse, display, display_fraction, group}
use stelfin.Money.Arith.{checked, checked_fits}
use stelfin.Money.Parse.{spelling, magnitude, signed, IsDecimal, parse-spelling}
use stelfin.Money.RoundTrip.{abs_lem, signed_parts}
use stelfin.Money.Grouping.{group-format_uint, group-IsGrouped}
use stelfin.Money.Fraction.{
  kept, kept_bounds, display_fraction-length, display_fraction-IsDigit, display_fraction-value,
}

display_lem :
    (s : Stroops)
    → display s
      ≡ sign_text (abs s).1 ++ group ((abs s).0 / one) ++ b'.' ∷ display_fraction ((abs s).0 % one)
unfolding display
display_lem s = refl

abs_sign : (s : Stroops) → (abs s).1 ≡ ltb_ℤ s (pos 0)
unfolding abs
abs_sign s = elim (Bool-cases (ltb_ℤ s (pos 0))) [ inl e ↦ rw e refl | inr e ↦ rw e refl ]

display-IsDecimal : (u : ℕ) → IsDecimal (format_uint (u / one)) (display_fraction (u % one))
display-IsDecimal u = (
  format_uint-ne-nil (u / one),
  format_uint-IsDigit (u / one),
  display_fraction-IsDigit (u % one),
  omega (
    arith,
    display_fraction-length (u % one) (omega arith),
    (kept_bounds (u % one) (omega arith)).1,
  ),
)

display-magnitude : (u : ℕ) → magnitude (format_uint (u / one)) (display_fraction (u % one)) ≡ u
display-magnitude u =
    rw (value-format_uint, display_fraction-value (u % one) (omega arith)) (omega arith)

sign-commas : (negative : Bool) → without_commas (sign_text negative) ≡ sign_text negative
unfolding without_commas
sign-commas true = refl
sign-commas false = refl

point-commas : (s : Bytes) → All IsDigit s → without_commas (b'.' ∷ s) ≡ b'.' ∷ s
unfolding without_commas
point-commas s h = ap (λ t. b'.' ∷ t) (without_commas-digits s h)

nonempty : (s : Bytes) (n : ℕ) → 2 ≤ n → length s ≡ n → is_empty s ≡ false
nonempty [] n h e = ground arith
nonempty (c ∷ s) n h e = refl

display-spelling :
    (s : Stroops)
    → without_commas (display s)
      ≡ spelling (abs s).1 (format_uint ((abs s).0 / one)) (display_fraction ((abs s).0 % one))
unfolding display
display-spelling s =
    let f = (abs s).0 % one in
    let n = (abs s).1 in
    let g = group ((abs s).0 / one) in
    rw (
      nonempty (display_fraction f) (kept f) (kept_bounds f (omega arith)).0
          (display_fraction-length f (omega arith)),
      without_commas-append (sign_text n ++ g) (b'.' ∷ display_fraction f),
      without_commas-append (sign_text n) g,
      sign-commas n,
      group-format_uint ((abs s).0 / one),
      point-commas (display_fraction f) (display_fraction-IsDigit f),
    )

-- What `Display` shows a person of a representable amount is exact and always has its places: behind
-- a sign that a negative amount alone has stand up to three digits, a comma before each three that
-- follow, a point, and two to seven digits; and without its commas the text parses back to the
-- amount.
pub parse-display :
    (s : Stroops)
    → IsInt64 s
    → (parse (without_commas (display s)) ≡ ok s)
      × (whole : Bytes) × (places : Bytes) × (display s
          ≡ sign_text (ltb_ℤ s (pos 0)) ++ whole ++ b'.' ∷ places)
      × IsGrouped whole
      × All IsDigit places
      × (2 ≤ length places)
      × (length places ≤ 7)
parse-display s h =
    let u = (abs s).0 in
    let places = display_fraction (u % one) in
    let shown = display_fraction-length (u % one) (omega arith) in
    let bounds = kept_bounds (u % one) (omega arith) in
    (
      ap parse (display-spelling s)
          ∙ parse-spelling (abs s).1 (format_uint (u / one)) places (display-IsDecimal u)
          ∙ ap (λ n. checked (signed (abs s).1 n)) (display-magnitude u)
          ∙ rw (abs_lem s h, signed_parts s) (checked_fits s h),
      group (u / one),
      places,
      display_lem s ∙ ap (λ n. sign_text n ++ group (u / one) ++ b'.' ∷ places) (abs_sign s),
      group-IsGrouped (u / one),
      display_fraction-IsDigit (u % one),
      omega (arith, shown, bounds.0),
      omega (arith, shown, bounds.1),
    )
