-- ===== src/Money/Fraction.antt =====
-- The places that `Display` of internal/money/money.go shows.
use stelfin.Prelude.{
  ℕ, zero, suc, ◌+◌, ◌-◌, ◌*◌, ◌^◌, ◌≤◌, ◌<◌, [], ◌∷◌, ◌++◌, true, ◌&&◌, ◌≡◌, refl, sym, ap, ◌∙◌,
  arith, if◌then◌else◌, All, length, take, replicate, ltb, ◌==◌, length-take, inl, inr, Bool-cases,
}
use stelfin.Text.{Bytes, IsDigit, value, pad_zeros, is_empty, trim_right}
use stelfin.Text.Decimal.{value-pad_zeros, pad_zeros-IsDigit, length-pad_zeros, value_from-append}
use stelfin.Money.{one, display_fraction}
use stelfin.Money.Parse.{value-zeros}
use stelfin.Money.Grouping.{All-take}

-- Keeping at least what trimming keeps, only zeros are dropped.
empty_length : (s : Bytes) → is_empty s ≡ true → length s ≡ 0
empty_length [] h = refl
empty_length (c ∷ s) h = ground arith

take-zeros :
    (k m : ℕ) (s : Bytes)
    → length s ≡ k + m
    → length (trim_right b'0' s) ≤ k
    → take k s ++ replicate m b'0' ≡ s
unfolding trim_right
take-zeros zero zero [] e h = refl
take-zeros zero (suc m) [] e h = absurd (omega arith)
take-zeros zero zero (c ∷ s) e h = absurd (omega arith)
take-zeros zero (suc m) (c ∷ s) e h =
    ground (arith, take-zeros zero m s, empty_length (trim_right b'0' s))
take-zeros (suc k) m [] e h = absurd (omega arith)
take-zeros (suc k) m (c ∷ s) e h =
    ground (arith, take-zeros k m s, empty_length (trim_right b'0' s))

trim-take : (s : Bytes) → trim_right b'0' s ≡ take (length (trim_right b'0' s)) s
unfolding trim_right
trim-take [] = refl
trim-take (c ∷ s) = elim (Bool-cases ((c == b'0') && is_empty (trim_right b'0' s))) [
  | inl e ↦ rw e
  | inr e ↦ rw e (ap (λ t. c ∷ t) (trim-take s))
]

length-trim : (s : Bytes) → length (trim_right b'0' s) ≤ length s
unfolding trim_right
length-trim [] = omega arith
length-trim (c ∷ s) = ground (arith, length-trim s)

-- How many places are kept.
pub kept : ℕ → ℕ
kept f = let n = length (trim_right b'0' (pad_zeros 7 f)) in if ltb n 2 then 2 else n

display_fraction-take : (f : ℕ) → display_fraction f ≡ take (kept f) (pad_zeros 7 f)
unfolding display_fraction kept
display_fraction-take f = ground (arith, trim-take (pad_zeros 7 f))

pub kept_bounds :
    (f : ℕ)
    → f < one
    → (2 ≤ kept f) × (kept f ≤ 7) × (length (trim_right b'0' (pad_zeros 7 f)) ≤ kept f)
unfolding kept
kept_bounds f h = ground (arith, length-trim (pad_zeros 7 f), length-pad_zeros 6 f h)

pub display_fraction-length : (f : ℕ) → f < one → length (display_fraction f) ≡ kept f
display_fraction-length f h = rw (display_fraction-take f) (
    omega
      (arith, length-take (kept f) (pad_zeros 7 f), length-pad_zeros 6 f h, (kept_bounds f h).1))

pub display_fraction-IsDigit : (f : ℕ) → All IsDigit (display_fraction f)
display_fraction-IsDigit f =
    rw (display_fraction-take f) (All-take (kept f) (pad_zeros 7 f) (pad_zeros-IsDigit 7 f))

pub display_fraction-value :
    (f : ℕ) → f < one → value (display_fraction f) * 10 ^ (7 - length (display_fraction f)) ≡ f
display_fraction-value f h =
    let d = pad_zeros 7 f in
    let k = kept f in
    let zeros : Bytes = replicate (7 - k) b'0' in
    let bounds = kept_bounds f h in
    let back : take k d ++ zeros ≡ d =
      take-zeros k (7 - k) d (omega (arith, length-pad_zeros 6 f h, bounds.1)) bounds.2 in
    rw (display_fraction-length f h, display_fraction-take f)
      (sym (value-zeros (7 - k) (value (take k d)))
        ∙ sym (value_from-append 0 (take k d) zeros)
        ∙ ap value back
        ∙ value-pad_zeros 7 f)
