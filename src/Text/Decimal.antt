-- ===== src/Text/Decimal.antt =====
-- Printing and reading decimal numbers: what `format_uint`, `pad_zeros` and `cut` give.
use mathlib.Core.List.{cons-ne-nil}
use native.Mathlib.Nat.{pow-suc}
use stelfin.Prelude.{
  ℕ, zero, suc, ◌+◌, ◌-◌, ◌*◌, ◌/◌, ◌%◌, ◌^◌, ◌≤◌, ◌<◌, [], ◌∷◌, ◌++◌, true, false, ◌==◌, ◌≡◌, ◌≢◌,
  refl, ap, ◌∙◌, arith, all, All, All-append, All-replicate, length, length-append, replicate,
  length-replicate, Bool-cases, inl, inr, if◌then◌else◌,
}
use stelfin.Text.{
  Bytes, is_digit, IsDigit, Cut, cut, value, value_from, digits, format_uint, pad_zeros,
}

distribute : (n d p : ℕ) → (n * 10 + d) * p ≡ n * (p * 10) + d * p
distribute n d p = omega arith

pub value_from-append :
    (n : ℕ) (xs ys : Bytes) → value_from n (xs ++ ys) ≡ value_from (value_from n xs) ys
value_from-append n [] ys = refl
value_from-append n (x ∷ xs) ys = value_from-append (n * 10 + (x - b'0')) xs ys

-- Reading behind `n` shifts `n` by the digits read.
pub value_from-shift : (n : ℕ) (s : Bytes) → value_from n s ≡ n * 10 ^ length s + value s
value_from-shift n [] = ground arith
value_from-shift n (c ∷ s) =
    let d = c - b'0' in
    rw pow-suc (
      omega (
        arith,
        value_from-shift (n * 10 + d) s,
        value_from-shift (0 + d) s,
        distribute n d (10 ^ length s),
        distribute 0 d (10 ^ length s),
      ))

pub all-IsDigit : (s : Bytes) → all is_digit s ≡ true → All IsDigit s
all-IsDigit [] h = tt
all-IsDigit (c ∷ s) h = ground (arith, all-IsDigit s)

pub IsDigit-all : (s : Bytes) → All IsDigit s → all is_digit s ≡ true
IsDigit-all [] h = refl
IsDigit-all (c ∷ s) h = ground (arith, IsDigit-all s)

value-digits : (fuel n : ℕ) (out : Bytes) → n ≤ fuel → value (digits fuel n out) ≡ value_from n out
unfolding digits
value-digits zero n out h = ap (λ k. value_from k out) (omega arith)
value-digits (suc fuel) n out h = elim (Bool-cases (n == 0)) [
  | inl done ↦ rw done (ap (λ k. value_from k out) (ground arith))
  | inr more ↦ rw more (
      value-digits fuel (n / 10) ((b'0' + n % 10) ∷ out) (ground arith)
      ∙ ap (λ k. value_from k out) (omega arith))
]

digits-IsDigit : (fuel n : ℕ) (out : Bytes) → All IsDigit out → All IsDigit (digits fuel n out)
unfolding digits
digits-IsDigit zero n out h = h
digits-IsDigit (suc fuel) n out h =
    ground (arith, digits-IsDigit fuel (n / 10) ((b'0' + n % 10) ∷ out))

digits-ne-nil : (fuel n : ℕ) (out : Bytes) → out ≢ [] → digits fuel n out ≢ []
unfolding digits
digits-ne-nil zero n out h = h
digits-ne-nil (suc fuel) n out h =
    ground (arith, digits-ne-nil fuel (n / 10) ((b'0' + n % 10) ∷ out) (cons-ne-nil _ _))

length-digits :
    (fuel n k : ℕ) (out : Bytes) → n < 10 ^ k → length (digits fuel n out) ≤ k + length out
unfolding digits
length-digits zero n k out h = omega arith
length-digits (suc fuel) n zero out h = ground arith
length-digits (suc fuel) n (suc k) out h =
    ground
      (arith, length-digits fuel (n / 10) k ((b'0' + n % 10) ∷ out) (omega (arith, pow-suc 10 k)))

-- What `format_uint` prints spells the number back, in digits, and in as few as it has room for.
pub value-format_uint : (n : ℕ) → value (format_uint n) ≡ n
unfolding format_uint
value-format_uint n = ground (arith, value-digits n n [] (omega arith))

pub format_uint-IsDigit : (n : ℕ) → All IsDigit (format_uint n)
unfolding format_uint
format_uint-IsDigit n = ground (arith, digits-IsDigit n n [] tt)

pub format_uint-ne-nil : (n : ℕ) → format_uint n ≢ []
unfolding format_uint digits
format_uint-ne-nil zero = ground arith
format_uint-ne-nil (suc n) =
    ground (arith, digits-ne-nil n (suc n / 10) ((b'0' + suc n % 10) ∷ []) (cons-ne-nil _ _))

pub length-format_uint : (n k : ℕ) → n < 10 ^ suc k → length (format_uint n) ≤ suc k
unfolding format_uint
length-format_uint n k h = ground (arith, length-digits n n (suc k) [] h)

value-zeros : (n : ℕ) (s : Bytes) → value (replicate n b'0' ++ s) ≡ value s
value-zeros zero s = refl
value-zeros (suc n) s = value-zeros n s

pub value-pad_zeros : (width n : ℕ) → value (pad_zeros width n) ≡ n
unfolding pad_zeros
value-pad_zeros width n =
    value-zeros (width - length (format_uint n)) (format_uint n) ∙ value-format_uint n

pub pad_zeros-IsDigit : (width n : ℕ) → All IsDigit (pad_zeros width n)
unfolding pad_zeros
pad_zeros-IsDigit width n =
    All-append IsDigit (replicate (width - length (format_uint n)) b'0') (format_uint n)
      (All-replicate IsDigit _ b'0' (omega arith)) (format_uint-IsDigit n)

pub length-pad_zeros : (k n : ℕ) → n < 10 ^ suc k → length (pad_zeros (suc k) n) ≡ suc k
unfolding pad_zeros
length-pad_zeros k n h = omega (
  arith,
  length-append (replicate (suc k - length (format_uint n)) b'0') (format_uint n),
  length-replicate {A = ℕ} (suc k - length (format_uint n)) b'0',
  length-format_uint n k h,
)

-- A cut at a byte that the first part lacks.
pub cut-append :
    (sep : ℕ) (xs ys : Bytes)
    → All (λ c. c ≢ sep) xs
    → cut sep (xs ++ sep ∷ ys) ≡ record { before = xs; after = ys; found = true }
unfolding cut
cut-append sep [] ys h = ground arith
cut-append sep (x ∷ xs) ys (hx, hxs) = ground (arith, cut-append sep xs ys hxs)

pub cut-absent :
    (sep : ℕ) (xs : Bytes)
    → All (λ c. c ≢ sep) xs
    → cut sep xs ≡ record { before = xs; after = []; found = false }
unfolding cut
cut-absent sep [] h = refl
cut-absent sep (x ∷ xs) (hx, hxs) = ground (arith, cut-absent sep xs hxs)

-- Without regard to the bytes, the pieces of a cut spell the text.
abbrev pub rejoin : ℕ → Cut → Bytes
rejoin sep p = if p.found then p.before ++ sep ∷ p.after else p.before

pub rejoin-cut : (sep : ℕ) (s : Bytes) → rejoin sep (cut sep s) ≡ s
unfolding cut
rejoin-cut sep [] = refl
rejoin-cut sep (c ∷ s) = ground (arith, rejoin-cut sep s)

pub cut-after : (sep : ℕ) (s : Bytes) → (cut sep s).found ≡ false → (cut sep s).after ≡ []
unfolding cut
cut-after sep [] h = refl
cut-after sep (c ∷ s) h = ground (arith, cut-after sep s)
