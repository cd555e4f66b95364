-- ===== src/Connector/Amount/Canonical.antt =====
-- What is read out of a cell is an amount.
use native.Mathlib.Nat.{pow-suc}
use stelfin.Prelude.{
  ℕ, zero, suc, ◌+◌, ◌*◌, ◌^◌, ◌-◌, ◌≤◌, ◌<◌, [], ◌∷◌, Bool, true, false, ◌&&◌, ◌||◌, not, ◌≡◌, ◌≢◌,
  ◌⊎◌, inl, inr, refl, sym, ap, ◌∙◌, arith, ok, >>=-eq-ok, refuse_if-eq-ok, ok-injective, All,
  Bool-cases, length, subst, append-nil, ltb,
}
use stelfin.Prelude.Int.{pos}
use stelfin.Text.{Bytes, Cut, cut, IsDigit, is_empty, trim_left, trim_right, value, value_from}
use stelfin.Text.Decimal.{all-IsDigit, cut-after, rejoin, rejoin-cut}
use stelfin.Text.Grouped.{IsGrouped, without_commas}
use stelfin.Money.{parse}
use stelfin.Money.Arith.{checked}
use stelfin.Money.Parse.{spelling, magnitude, IsDecimal, parse-spelling}
use stelfin.Connector.Amount.{
  amount_unreadable, all_digits, contains, strip_grouping, canonical_whole, is_zero, finish,
  read_parts, max_decimal_places, normalize_tabular_amount, starts_with, ends_with, trim_prefix,
  or_zero,
}
use stelfin.Connector.Amount.Cell.{IsCanonical, strip_grouping-eq-ok, canonical_whole_lem}

trim_left-IsDigit : (c : ℕ) (s : Bytes) → All IsDigit s → All IsDigit (trim_left c s)
unfolding trim_left
trim_left-IsDigit c [] h = tt
trim_left-IsDigit c (x ∷ s) (h, hs) = ground (arith, trim_left-IsDigit c s hs)

or_zero-IsDigit : (s : Bytes) → All IsDigit s → All IsDigit (or_zero s) × (or_zero s ≢ [])
or_zero-IsDigit [] h = ((ground arith, tt), λ e. cc)
or_zero-IsDigit (c ∷ s) h = (h, λ e. cc)

canonical_whole-IsDigit :
    (s : Bytes) → All IsDigit s → All IsDigit (canonical_whole s) × (canonical_whole s ≢ [])
unfolding canonical_whole
canonical_whole-IsDigit s h =
    or_zero-IsDigit (trim_left b'0' (or_zero s))
      (trim_left-IsDigit b'0' (or_zero s) (or_zero-IsDigit s h).0)

-- Digits that come to nothing are zeros.
zeros-trimmed :
    (n : ℕ) (s : Bytes) → All IsDigit s → value_from n s ≡ 0 → (n ≡ 0) × (trim_left b'0' s ≡ [])
unfolding trim_left
zeros-trimmed n [] h e = (e, refl)
zeros-trimmed n (x ∷ s) (h, hs) e =
    let (rest, trimmed) = zeros-trimmed (n * 10 + (x - b'0')) s hs e in
    (omega (arith, rest), ground (arith, rest, trimmed, h))

is_zero_lem :
    (whole fraction : Bytes)
    → All IsDigit whole
    → All IsDigit fraction
    → value whole ≡ 0
    → value fraction ≡ 0
    → is_zero whole fraction ≡ true
unfolding is_zero trim_right
is_zero_lem whole fraction hw hf ew ef =
    rw ((zeros-trimmed 0 whole hw ew).1, (zeros-trimmed 0 fraction hf ef).1, is_zero) refl

pow_pos : (k : ℕ) → 0 < 10 ^ k
pow_pos zero = ground arith
pow_pos (suc k) = rw pow-suc (omega (arith, pow_pos k))

mul_pos : (a b : ℕ) → 0 < a → 0 < b → 0 < a * b
mul_pos zero b h k = absurd (omega arith)
mul_pos (suc a) b h k = omega arith

pos_or_zero : (n : ℕ) → (n ≡ 0) ⊎ (0 < n)
pos_or_zero zero = inl refl
pos_or_zero (suc n) = inr (omega arith)

true≢false : ◌≡◌ {A = Bool} true false → ⊥
true≢false e = cc

-- An amount that is not zero.
magnitude_pos :
    (whole fraction : Bytes)
    → All IsDigit whole
    → All IsDigit fraction
    → is_zero whole fraction ≡ false
    → 0 < magnitude whole fraction
magnitude_pos whole fraction hw hf h = elim (pos_or_zero (value whole)) [
  | inr w ↦ omega (arith, w)
  | inl zero_whole ↦ elim (pos_or_zero (value fraction)) [
    | inr f ↦ omega (
      arith,
      mul_pos (value fraction) (10 ^ (7 - length fraction)) f (pow_pos (7 - length fraction)),
    )
    | inl zero_fraction ↦
        absurd (true≢false (sym (is_zero_lem whole fraction hw hf zero_whole zero_fraction) ∙ h))
  ]
]

-- What a cell spells and what is read from it: the same fraction, and the same whole number, which
-- the cell may write with separators and leading zeros, and which what is read writes without.
abbrev pub IsAmount : Bytes → Bytes → Type 0
IsAmount cell out =
    (written : Bytes) × (whole : Bytes) × (fraction : Bytes) × (cell
      ≡ spelling false written fraction)
    × (All IsDigit written ⊎ IsGrouped written)
    × (out ≡ spelling false whole fraction)
    × (value whole ≡ value (without_commas written))
    × IsCanonical whole
    × IsDecimal whole fraction
    × (0 < magnitude whole fraction)
    × (parse out ≡ checked (pos (magnitude whole fraction)))

finish_lem :
    (whole fraction out : Bytes)
    → All IsDigit whole
    → whole ≢ []
    → All IsDigit fraction
    → length fraction ≤ 7
    → finish whole fraction ≡ ok out
    → (out ≡ spelling false whole fraction)
      × IsDecimal whole fraction
      × (0 < magnitude whole fraction)
      × (parse out ≡ checked (pos (magnitude whole fraction)))
unfolding finish
finish_lem whole fraction out hw ne hf short h =
    let (positive, done) = refuse_if-eq-ok (is_zero whole fraction) amount_unreadable _ h in
    let spelt : spelling false whole fraction ≡ out = ok-injective done in
    (
      sym spelt,
      (ne, hw, hf, short),
      magnitude_pos whole fraction hw hf positive,
      ap parse (sym spelt) ∙ parse-spelling false whole fraction (ne, hw, hf, short),
    )

-- The fraction's digits: checked where there is a point, and none where there is not.
fraction-IsDigit :
    (p : Cut)
    → ((p.found ≡ false) → p.after ≡ [])
    → (not (all_digits p.before) || (p.found && not (all_digits p.after))) ≡ false
    → All IsDigit p.after
fraction-IsDigit p absent h = elim (Bool-cases p.found) [
  | inr e ↦ rw (absent e) tt
  | inl e ↦ all-IsDigit p.after (ground arith)
]

-- A point has digits behind it, so the pieces say where there was one.
rejoin-spelling :
    (p : Cut)
    → ((p.found ≡ false) → p.after ≡ [])
    → (p.found && is_empty p.after) ≡ false
    → rejoin b'.' p ≡ spelling false p.before p.after
rejoin-spelling p absent h = elim (Bool-cases p.found) [
  | inl e ↦ rw (e, rw e at h) refl
  | inr e ↦ rw (e, absent e) (sym (append-nil p.before))
]

read_parts-IsAmount :
    (p : Cut) (out : Bytes)
    → ((p.found ≡ false) → p.after ≡ [])
    → read_parts p ≡ ok out
    → IsAmount (rejoin b'.' p) out
unfolding read_parts
read_parts-IsAmount p out absent h =
    let (_, h) = refuse_if-eq-ok (contains b',' p.after) amount_unreadable _ h in
    let (plain, stripped, h) = >>=-eq-ok (strip_grouping p.before) _ h in
    let (_, h) = refuse_if-eq-ok (is_empty plain && not p.found) amount_unreadable _ h in
    let (_, h) = refuse_if-eq-ok (contains b'.' p.after) amount_unreadable _ h in
    let (digits, h) =
      refuse_if-eq-ok (not (all_digits plain) || (p.found && not (all_digits p.after)))
        amount_unreadable _ h in
    let (pointed, h) = refuse_if-eq-ok (p.found && is_empty p.after) amount_unreadable _ h in
    let (short, h) =
      refuse_if-eq-ok (ltb max_decimal_places (length p.after)) amount_unreadable _ h in
    let (shape, stripping) = strip_grouping-eq-ok p.before plain stripped (ground arith) in
    let plain_digits = all-IsDigit plain (ground arith) in
    let (present_digits, present) = canonical_whole-IsDigit plain plain_digits in
    let (canonical, same) = canonical_whole_lem plain plain_digits in
    let (spelt, decimal, positive, parsed) =
      finish_lem (canonical_whole plain) p.after out present_digits present
        (fraction-IsDigit (record p { before = plain }) absent digits) (ground arith) h in
    (
      p.before,
      canonical_whole plain,
      p.after,
      rejoin-spelling p absent pointed,
      shape,
      spelt,
      same ∙ ap value stripping,
      canonical,
      decimal,
      positive,
      parsed,
    )

-- What is read out of a cell is a decimal of at most seven places that is not zero, whose whole part
-- is a single digit or does not start with a zero. The cell, less the spaces around it and an
-- apostrophe in front, spells the same number: the same digits behind the point, and in front of it
-- digits of the same value, in which commas may stand only where each has three digits behind it and
-- the first has one to three in front. And money's `Parse` reads exactly the amount spelt, or finds
-- it too large; it never refuses it as malformed.
pub normalize_tabular_amount-IsAmount :
    (trim_space : Bytes → Bytes) (raw out : Bytes)
    → normalize_tabular_amount trim_space raw ≡ ok out
    → IsAmount (trim_prefix b'\'' (trim_space raw)) out
unfolding normalize_tabular_amount
normalize_tabular_amount-IsAmount trim_space raw out h =
    let text = trim_prefix b'\'' (trim_space raw) in
    let (_, h) = refuse_if-eq-ok (is_empty (trim_space raw)) amount_unreadable _ h in
    let (_, h) = refuse_if-eq-ok (starts_with b'=' text) amount_unreadable _ h in
    let (_, h) =
      refuse_if-eq-ok (starts_with b'(' text && ends_with b')' text) amount_unreadable _ h in
    let (_, h) = refuse_if-eq-ok (starts_with b'-' text) amount_unreadable _ h in
    let (_, h) = refuse_if-eq-ok (starts_with b'+' text) amount_unreadable _ h in
    subst (λ cell. IsAmount cell out) (rejoin-cut b'.' text)
      (read_parts-IsAmount (cut b'.' text) out (cut-after b'.' text) h)
