-- ===== src/Money/Arith.antt =====
-- Add, Sub, Neg and Sum against exact integer arithmetic.
use stelfin.Prelude.{
  List, [], ◌∷◌, ◌-◌, ◌≡◌, ◌≢◌, ◌⊎◌, inl, inr, refl, sym, ◌∙◌, subst, ap, arith, Result, ok, err,
  if◌then◌else◌, All, ℕ_discrete, >>=-eq-ok, ◌↔◌,
}
use stelfin.Prelude.Int.{
  ℤ, pos, negsuc, ◌+ℤ◌, ◌-ℤ◌, neg as negate, is_int64, IsInt64, wrap, wrap-eq, half, int_laws,
  +ℤ_assoc,
}
use stelfin.Money.{Stroops, Error, overflow, min_stroops, add, sub, neg, sum, sum_from}

-- The exact result if an int64 holds it, and otherwise the overflow error.
abbrev pub checked : ℤ → Result Error Stroops
checked z = if is_int64 z then ok z else err overflow

-- For two representable amounts `Add` returns the exact sum if it is representable, and
-- ErrOverflow if it is not.
pub add-checked : (s t : Stroops) → IsInt64 s → IsInt64 t → add s t ≡ checked (s +ℤ t)
unfolding add ◌+ℤ◌ wrap
add-checked (pos m) (pos n) hs ht = ground arith
add-checked (pos m) (negsuc n) hs ht = ground arith
add-checked (negsuc m) (pos n) hs ht = ground arith
add-checked (negsuc m) (negsuc n) hs ht = ground arith

sub_min : (s : Stroops) → IsInt64 s → sub s min_stroops ≡ checked (s -ℤ min_stroops)
unfolding sub ◌+ℤ◌ ◌-ℤ◌ wrap
sub_min (pos m) hs = ground arith
sub_min (negsuc m) hs = ground arith

negate-IsInt64 : (t : Stroops) → IsInt64 t → t ≢ min_stroops → IsInt64 (negate t)
unfolding negate
negate-IsInt64 (pos n) ht h = ground arith
negate-IsInt64 (negsuc n) ht h = ground arith

sub_other : (s t : Stroops) → t ≢ min_stroops → sub s t ≡ add s (wrap (negate t))
unfolding sub
sub_other s (pos n) h = ground arith
sub_other s (negsuc n) h = ground arith

min-cases : (t : Stroops) → (t ≡ min_stroops) ⊎ (t ≢ min_stroops)
min-cases (pos n) = inr (ground arith)
min-cases (negsuc n) = elim (ℕ_discrete n (half - 1)) [
  | yes e ↦ inl (ap negsuc e)
  | no h ↦ inr (ground arith)
]

-- For two representable amounts `Sub` returns the exact difference if it is representable, and
-- ErrOverflow if it is not, also where the negation of the second is not representable.
pub sub-checked : (s t : Stroops) → IsInt64 s → IsInt64 t → sub s t ≡ checked (s -ℤ t)
sub-checked s t hs ht = elim (min-cases t) [
  | inl e ↦ rw e (sub_min s hs)
  | inr h ↦
      let ht' = negate-IsInt64 t ht h in
      rw (sub_other s t h, wrap-eq (negate t) ht', add-checked s (negate t) hs ht')
        (ap checked {x = s +ℤ negate t} {y = s -ℤ t} (omega int_laws))
]

-- For a representable amount `Neg` returns the exact negation if it is representable, and ErrOverflow if
-- it is not.
pub neg-checked : (s : Stroops) → IsInt64 s → neg s ≡ checked (negate s)
unfolding neg negate wrap
neg-checked (pos m) hs = ground arith
neg-checked (negsuc m) hs = ground arith

-- The exact sum, over ℤ.
abbrev pub total : List Stroops → ℤ
total [] = pos 0
total (a ∷ amounts) = a +ℤ total amounts

-- Every partial sum behind `z` is representable.
abbrev pub PrefixesFit : ℤ → List Stroops → Type 0
PrefixesFit z [] = Unit {0}
PrefixesFit z (a ∷ amounts) = IsInt64 (z +ℤ a) × PrefixesFit (z +ℤ a) amounts

pub checked-eq-ok : (z v : ℤ) → checked z ≡ ok v → (v ≡ z) × IsInt64 z
checked-eq-ok (pos n) v h = ground arith
checked-eq-ok (negsuc n) v h = ground arith

pub checked_fits : (z : ℤ) → IsInt64 z → checked z ≡ ok z
checked_fits (pos n) h = ground arith
checked_fits (negsuc n) h = ground arith

+ℤ_nil : (z v : ℤ) → z ≡ v → v ≡ z +ℤ pos 0
+ℤ_nil z v h = rw h (omega int_laws)

nil_+ℤ : (z : ℤ) → pos 0 +ℤ z ≡ z
nil_+ℤ z = omega int_laws

ok-injective : {a b : Stroops} → ◌≡◌ {A = Result Error Stroops} (ok a) (ok b) → a ≡ b
ok-injective h = cc

sum_from_sound :
    (z v : ℤ) (amounts : List Stroops)
    → IsInt64 z
    → All IsInt64 amounts
    → sum_from z amounts ≡ ok v
    → (v ≡ z +ℤ total amounts) × PrefixesFit z amounts
unfolding sum_from
sum_from_sound z v [] hz _ h = (+ℤ_nil z v (ok-injective h), tt)
sum_from_sound z v (a ∷ amounts) hz (ha, hs) h =
    let (next, added, rest) = >>=-eq-ok (add z a) (λ next. sum_from next amounts) h in
    let (e, fits) = checked-eq-ok (z +ℤ a) next (sym (add-checked z a hz ha) ∙ added) in
    let (exact, later) =
      sum_from_sound (z +ℤ a) v amounts fits hs (subst (λ n. sum_from n amounts ≡ ok v) e rest) in
    (exact ∙ +ℤ_assoc z a (total amounts), (fits, later))

sum_from_complete :
    (z : ℤ) (amounts : List Stroops)
    → IsInt64 z
    → All IsInt64 amounts
    → PrefixesFit z amounts
    → sum_from z amounts ≡ ok (z +ℤ total amounts)
unfolding sum_from
sum_from_complete z [] hz _ _ = ap ok (+ℤ_nil z z refl)
sum_from_complete z (a ∷ amounts) hz (ha, hs) (fits, rest) =
    rw (add-checked z a hz ha, checked_fits (z +ℤ a) fits)
      (sum_from_complete (z +ℤ a) amounts fits hs rest ∙ ap ok (+ℤ_assoc z a (total amounts)))

-- `Sum` of representable amounts returns a value exactly when every partial sum is representable,
-- and then the value is the exact sum.
pub sum_iff :
    (v : Stroops) (amounts : List Stroops)
    → All IsInt64 amounts
    → (sum amounts ≡ ok v) ↔ ((v ≡ total amounts) × PrefixesFit (pos 0) amounts)
unfolding sum
sum_iff v amounts hs = (
  λ h.
      let (exact, fits) = sum_from_sound (pos 0) v amounts (omega arith) hs h in
      (exact ∙ nil_+ℤ (total amounts), fits),
  λ (exact, fits).
      sum_from_complete (pos 0) amounts (omega arith) hs fits
      ∙ ap ok (nil_+ℤ (total amounts) ∙ sym exact),
)
