-- ===== src/Money/Parse.antt =====
-- What `Parse` accepts, and the amount it reads.
use mathlib.Core.List.{cons-ne-nil}
use native.Mathlib.Nat.{pow-suc, add-suc, mul_assoc}
use stelfin.Prelude.{
  ℕ, zero, suc, ◌+◌, ◌-◌, ◌*◌, ◌^◌, ◌≤◌, [], ◌∷◌, ◌++◌, Bool, true, false, not, ◌≡◌, ◌≢◌, refl, sym,
  ap, ◌∙◌, subst, ==_iff, arith, ok, if◌then◌else◌, All, All-append, All-replicate, length,
  replicate, append_assoc, append-nil, Bool-cases, inl, inr, ◌==◌,
}
use stelfin.Prelude.Int.{ℤ, pos, neg, IsInt64}
use stelfin.Text.{Bytes, IsDigit, is_empty, Cut, cut, value, value_from, parse_int, parse_magnitude}
use stelfin.Text.Decimal.{
  IsDigit-all, all-IsDigit, cut-append, cut-absent, rejoin, rejoin-cut, cut-after,
  value_from-append, value_from-shift,
}
use stelfin.Money.{Stroops, parse, parse_parts, padded, sign_text, has_sign, body_of, from_num}
use stelfin.Money.Arith.{checked, checked-eq-ok}

-- A canonical decimal: a sign, digits, and a point with digits behind it if there are any.
abbrev pub spelling : Bool → Bytes → Bytes → Bytes
spelling negative ip fp = sign_text negative ++ ip ++ (if is_empty fp then [] else b'.' ∷ fp)

-- The stroops that it stands for, as an exact number.
abbrev pub magnitude : Bytes → Bytes → ℕ
magnitude ip fp = value ip * 10 ^ 7 + value fp * 10 ^ (7 - length fp)

abbrev pub signed : Bool → ℕ → ℤ
signed negative n = if negative then neg (pos n) else pos n

abbrev pub IsDecimal : Bytes → Bytes → Type 0
IsDecimal ip fp = (ip ≢ []) × All IsDigit ip × All IsDigit fp × (length fp ≤ 7)

-- `padded` spells the magnitude.
filled : Bytes → Bytes → Bytes
filled ip fp = ip ++ fp ++ replicate (7 - length fp) b'0'

scale : (n p : ℕ) → (n * 10 + 0) * p ≡ n * (p * 10)
scale n p = omega arith

pow-add : (k m : ℕ) → 10 ^ k * 10 ^ m ≡ 10 ^ (k + m)
pow-add k zero = ground arith
pow-add k (suc m) =
    rw (pow-suc, add-suc, pow-suc)
      (sym (mul_assoc (10 ^ k) (10 ^ m) 10) ∙ ap (λ (p : ℕ). p * 10) (pow-add k m))

pub value-zeros : (k n : ℕ) → value_from n (replicate k b'0') ≡ n * 10 ^ k
value-zeros zero n = omega arith
value-zeros (suc k) n = rw pow-suc (value-zeros k (n * 10 + 0) ∙ scale n (10 ^ k))

value-filled_eq :
    (ip fp : Bytes)
    → value (filled ip fp) ≡ (value ip * 10 ^ length fp + value fp) * 10 ^ (7 - length fp)
unfolding filled
value-filled_eq ip fp =
    let zeros : Bytes = replicate (7 - length fp) b'0' in
    value_from-append 0 (ip ++ fp) zeros
    ∙ value-zeros (7 - length fp) (value (ip ++ fp))
    ∙ ap (λ (n : ℕ). n * 10 ^ (7 - length fp))
        (value_from-append 0 ip fp ∙ value_from-shift (value ip) fp)

add_rest : (k : ℕ) → k ≤ 7 → k + (7 - k) ≡ 7
add_rest k h = omega arith

expand : (a b p q : ℕ) → (a * p + b) * q ≡ a * (p * q) + b * q
expand a b p q = omega arith

value-filled : (ip fp : Bytes) → length fp ≤ 7 → value (filled ip fp) ≡ magnitude ip fp
unfolding filled
value-filled ip fp h =
    let p = 10 ^ length fp in
    let q = 10 ^ (7 - length fp) in
    value-filled_eq ip fp
    ∙ expand (value ip) (value fp) p q
    ∙ ap (λ (r : ℕ). value ip * r + value fp * q)
        (pow-add (length fp) (7 - length fp) ∙ ap (λ (k : ℕ). 10 ^ k) (add_rest (length fp) h))

read_magnitude :
    (negative : Bool) (ds : Bytes)
    → ds ≢ []
    → All IsDigit ds
    → from_num (parse_magnitude negative ds) ≡ checked (signed negative (value ds))
unfolding parse_magnitude neg
read_magnitude true ds h hd = ground (arith, IsDigit-all ds hd)
read_magnitude false ds h hd = ground (arith, IsDigit-all ds hd)

filled-ne-nil : (ip fp : Bytes) → ip ≢ [] → filled ip fp ≢ []
unfolding filled
filled-ne-nil [] fp h = absurd (h refl)
filled-ne-nil (c ∷ ip) fp h = cons-ne-nil c _

filled-IsDigit : (ip fp : Bytes) → IsDecimal ip fp → All IsDigit (filled ip fp)
unfolding filled
filled-IsDigit ip fp (_, hi, hf, _) =
    All-append IsDigit (ip ++ fp) _ (All-append IsDigit ip fp hi hf)
      (All-replicate IsDigit (7 - length fp) b'0' (omega arith))

-- `ParseInt` on the digits with their sign.
parse_int-digits :
    (negative : Bool) (ds : Bytes)
    → ds ≢ []
    → All IsDigit ds
    → from_num (parse_int (if negative then b'-' ∷ ds else ds))
      ≡ checked (signed negative (value ds))
unfolding parse_int
parse_int-digits negative [] h hd = absurd (h refl)
parse_int-digits true (d ∷ ds) h hd = read_magnitude true (d ∷ ds) h hd
parse_int-digits false (d ∷ ds) h hd = ground (arith, read_magnitude false (d ∷ ds) h hd)

has_sign-spelling :
    (negative : Bool) (ip fp : Bytes)
    → IsDecimal ip fp
    → has_sign (spelling negative ip fp) ≡ negative
has_sign-spelling true ip fp h = refl
has_sign-spelling false [] fp h = absurd (h.0 refl)
has_sign-spelling false (c ∷ ip) fp h = ground arith

body_of-spelling :
    (negative : Bool) (ip fp : Bytes)
    → IsDecimal ip fp
    → body_of (spelling negative ip fp) ≡ ip ++ (if is_empty fp then [] else b'.' ∷ fp)
body_of-spelling true ip fp h = refl
body_of-spelling false [] fp h = absurd (h.0 refl)
body_of-spelling false (c ∷ ip) fp h = ground arith

not-empty :
    (negative : Bool) (ip fp : Bytes) → IsDecimal ip fp → is_empty (spelling negative ip fp) ≡ false
not-empty true ip fp h = refl
not-empty false [] fp h = absurd (h.0 refl)
not-empty false (c ∷ ip) fp h = refl

no_point : (s : Bytes) → All IsDigit s → All (λ c. c ≢ b'.') s
no_point [] h = tt
no_point (c ∷ s) (hc, hs) = (omega arith, no_point s hs)

cut-spelling :
    (ip fp : Bytes)
    → IsDecimal ip fp
    → cut b'.' (ip ++ (if is_empty fp then [] else b'.' ∷ fp))
      ≡ record { before = ip; after = fp; found = not (is_empty fp) }
cut-spelling ip [] (_, hi, _, _) = rw append-nil (cut-absent b'.' ip (no_point ip hi))
cut-spelling ip (c ∷ fp) (_, hi, _, _) = cut-append b'.' ip (c ∷ fp) (no_point ip hi)

is_empty-nil : (s : Bytes) → is_empty s ≡ true → s ≡ []
is_empty-nil [] h = refl
is_empty-nil (c ∷ s) h = cc

parse_parts-decimal :
    (negative : Bool) (ip fp : Bytes)
    → IsDecimal ip fp
    → parse_parts negative (record { before = ip; after = fp; found = not (is_empty fp) })
      ≡ from_num (parse_int (padded negative ip fp))
unfolding parse_parts
parse_parts-decimal negative ip [] (h, hi, hf, hl) = elim (Bool-cases (is_empty ip)) [
  | inl e ↦ absurd (h (is_empty-nil ip e))
  | inr e ↦ rw (e, IsDigit-all ip hi) refl
]
parse_parts-decimal negative ip (c ∷ fp) (h, hi, hf, hl) = elim (Bool-cases (is_empty ip)) [
  | inl e ↦ absurd (h (is_empty-nil ip e))
  | inr e ↦ rw (e, IsDigit-all ip hi, IsDigit-all (c ∷ fp) hf) (ground arith)
]

-- A canonical decimal with at most seven places parses to exactly the amount that it spells, and
-- to ErrOverflow where an int64 does not hold that amount.
pub parse-spelling :
    (negative : Bool) (ip fp : Bytes)
    → IsDecimal ip fp
    → parse (spelling negative ip fp) ≡ checked (signed negative (magnitude ip fp))
unfolding parse padded filled
parse-spelling negative ip fp h =
    rw
      (
        not-empty negative ip fp h,
        has_sign-spelling negative ip fp h,
        body_of-spelling negative ip fp h,
        cut-spelling ip fp h,
        parse_parts-decimal negative ip fp h,
      )
      (parse_int-digits negative (filled ip fp) (filled-ne-nil ip fp h.0) (filled-IsDigit ip fp h)
        ∙ ap (λ n. checked (signed negative n)) (value-filled ip fp h.3))

-- What the tests of `Parse` leave of a cut.
parse_parts_sound :
    (negative : Bool) (p : Cut) {v : Stroops}
    → parse_parts negative p ≡ ok v
    → IsDecimal p.before p.after × ((p.found ≡ true) → p.after ≢ [])
unfolding parse_parts
parse_parts_sound negative p h = (
  (
    λ e. ground arith,
    ground (arith, all-IsDigit p.before),
    ground (arith, all-IsDigit p.after),
    ground arith,
  ),
  λ f e. ground arith,
)

sign-body : (s : Bytes) → s ≡ sign_text (has_sign s) ++ body_of s
sign-body [] = refl
sign-body (c ∷ s) = elim (Bool-cases (c == b'-')) [
  | inl e ↦ rw e (ap (λ d. d ∷ s) ((==_iff c b'-').0 e))
  | inr e ↦ rw e
]

rejoin-fraction :
    (p : Cut)
    → ((p.found ≡ false) → p.after ≡ [])
    → ((p.found ≡ true) → p.after ≢ [])
    → rejoin b'.' p ≡ p.before ++ (if is_empty p.after then [] else b'.' ∷ p.after)
rejoin-fraction p absent present = elim (Bool-cases p.found) [
  | inl e ↦ rw (e, nonempty p.after (present e))
  | inr e ↦ rw (e, absent e) (sym (append-nil p.before))
]
  where
    nonempty : (t : Bytes) → t ≢ [] → is_empty t ≡ false
    nonempty [] h = absurd (h refl)
    nonempty (c ∷ t) h = refl

spelling-of-parts :
    (s : Bytes)
    → (((cut b'.' (body_of s)).found ≡ true) → (cut b'.' (body_of s)).after ≢ [])
    → s ≡ spelling (has_sign s) (cut b'.' (body_of s)).before (cut b'.' (body_of s)).after
spelling-of-parts s present =
    let p = cut b'.' (body_of s) in
    sign-body s
    ∙ ap (λ t. sign_text (has_sign s) ++ t)
        (sym (rejoin-cut b'.' (body_of s)) ∙ rejoin-fraction p (cut-after b'.' (body_of s)) present)
    ∙ sym (append_assoc (sign_text (has_sign s)) p.before _)

parse_eq_parts :
    (s : Bytes) {v : Stroops}
    → parse s ≡ ok v
    → parse_parts (has_sign s) (cut b'.' (body_of s)) ≡ ok v
unfolding parse
parse_eq_parts [] h = cc
parse_eq_parts (c ∷ s) h = h

-- Whatever `Parse` accepts is a canonical decimal with at most seven places, the amount returned is
-- exactly the one it spells, and an int64 holds it.
pub parse_sound :
    (s : Bytes) {v : Stroops}
    → parse s ≡ ok v
    → (negative : Bool) × (ip : Bytes) × (fp : Bytes) × (s ≡ spelling negative ip fp)
      × IsDecimal ip fp
      × (v ≡ signed negative (magnitude ip fp))
      × IsInt64 v
parse_sound s {v} h =
    let p = cut b'.' (body_of s) in
    let (decimal, present) = parse_parts_sound (has_sign s) p (parse_eq_parts s h) in
    let spelt = spelling-of-parts s present in
    let read = parse-spelling (has_sign s) p.before p.after decimal in
    let (exact, fits) =
      checked-eq-ok (signed (has_sign s) (magnitude p.before p.after)) v
        (sym read ∙ ap parse (sym spelt) ∙ h) in
    (has_sign s, p.before, p.after, spelt, decimal, exact, subst IsInt64 (sym exact) fits)
