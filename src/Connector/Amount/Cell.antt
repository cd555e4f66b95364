-- ===== src/Connector/Amount/Cell.antt =====
-- What the pieces of a cell are, once its separators and its leading zeros are dropped.
use stelfin.Prelude.{
  ℕ, List, [], ◌∷◌, ◌++◌, ◌≤◌, ◌<◌, true, false, ◌==◌, ◌≡◌, ◌≢◌, ◌⊎◌, inl, inr, refl, sym, ap, ◌∙◌,
  arith, all, All, Bool-cases, ok, length, ==_iff, subst, ok-injective,
}
use stelfin.Text.{Bytes, IsDigit, is_empty, trim_left, value}
use stelfin.Text.Decimal.{all-IsDigit}
use stelfin.Text.Grouped.{IsGrouped, Threes, no_more, comma, without_commas, without_commas-digits}
use stelfin.Connector.Amount.{
  all_digits, contains, split, join, is_group, grouped, strip_grouping, canonical_whole, or_zero,
  grow,
}

-- Groups behind the first, and all groups, with their separators.
glue : List Bytes → Bytes
glue [] = []
glue (g ∷ gs) = b',' ∷ g ++ glue gs

unsplit : List Bytes → Bytes
unsplit [] = []
unsplit (g ∷ gs) = g ++ glue gs

glue_lem : (gs : List Bytes) → gs ≢ [] → glue gs ≡ b',' ∷ unsplit gs
unfolding glue unsplit
glue_lem [] ne = absurd (ne refl)
glue_lem (g ∷ gs) ne = refl

unsplit-grow : (c : ℕ) (gs : List Bytes) → unsplit (grow c gs) ≡ c ∷ unsplit gs
unfolding glue unsplit
unsplit-grow c [] = refl
unsplit-grow c (g ∷ gs) = refl

join-grow : (c : ℕ) (gs : List Bytes) → join (grow c gs) ≡ c ∷ join gs
unfolding join
join-grow c [] = refl
join-grow c (g ∷ gs) = refl

grow-ne-nil : (c : ℕ) (gs : List Bytes) → grow c gs ≢ []
grow-ne-nil c [] = λ e. cc
grow-ne-nil c (g ∷ gs) = λ e. cc

unsplit-split : (s : Bytes) → (split b',' s ≢ []) × (unsplit (split b',' s) ≡ s)
unfolding split unsplit glue
unsplit-split [] = (λ e. cc, refl)
unsplit-split (c ∷ s) =
    let (ne, same) = unsplit-split s in
    elim (Bool-cases (c == b',')) [
      | inl e ↦ rw e (
        λ f. cc,
        glue_lem (split b',' s) ne
            ∙ ap (λ t. b',' ∷ t) same
            ∙ ap (λ x. x ∷ s) (sym ((==_iff c b',').0 e)),
      )
      | inr e ↦
          rw e (grow-ne-nil c (split b',' s), unsplit-grow c (split b',' s) ∙ ap (λ t. c ∷ t) same)
    ]

join-split : (s : Bytes) → join (split b',' s) ≡ without_commas s
unfolding split join without_commas
join-split [] = refl
join-split (c ∷ s) = elim (Bool-cases (c == b',')) [
  | inl e ↦ rw e (join-split s)
  | inr e ↦ rw e (join-grow c (split b',' s) ∙ ap (λ t. c ∷ t) (join-split s))
]

group-Threes : (g s : Bytes) → is_group g ≡ true → Threes s → Threes (b',' ∷ g ++ s)
group-Threes [] s h rest = cc
group-Threes (a ∷ []) s h rest = absurd (ground arith)
group-Threes (a ∷ b ∷ []) s h rest = absurd (ground arith)
group-Threes (a ∷ b ∷ c ∷ []) s h rest = comma (all-IsDigit (a ∷ b ∷ c ∷ []) (ground arith)) rest
group-Threes (a ∷ b ∷ c ∷ d ∷ g) s h rest = absurd (ground arith)

length-nonempty : (s : Bytes) → is_empty s ≡ false → 1 ≤ length s
length-nonempty [] h = cc
length-nonempty (c ∷ s) h = omega arith

glue-Threes : (gs : List Bytes) → all is_group gs ≡ true → Threes (glue gs)
unfolding glue
glue-Threes [] h = no_more
glue-Threes (g ∷ gs) h = group-Threes g (glue gs) (ground arith) (glue-Threes gs (ground arith))

grouped-IsGrouped : (gs : List Bytes) → gs ≢ [] → grouped gs ≡ true → IsGrouped (unsplit gs)
unfolding grouped unsplit
grouped-IsGrouped [] ne h = absurd (ne refl)
grouped-IsGrouped (g ∷ gs) ne h = record {
  lead = g;
  groups = glue gs;
  parts = refl;
  nonempty = length-nonempty g (ground arith);
  short = ground arith;
  digits = all-IsDigit g (ground arith);
  threes = glue-Threes gs (ground arith);
}

-- A whole part is digits, or digits in groups; without the separators it is what is read on.
pub strip_grouping-eq-ok :
    (whole plain : Bytes)
    → strip_grouping whole ≡ ok plain
    → all_digits plain ≡ true
    → (All IsDigit whole ⊎ IsGrouped whole) × (plain ≡ without_commas whole)
unfolding strip_grouping
strip_grouping-eq-ok whole plain h digits = elim (Bool-cases (contains b',' whole)) [
  | inr e ↦
      let same : whole ≡ plain = ok-injective (rw e at h) in
      let whole_digits = all-IsDigit whole (rw same digits) in
      (inl whole_digits, sym same ∙ sym (without_commas-digits whole whole_digits))
  | inl e ↦ elim (Bool-cases (grouped (split b',' whole))) [
    | inr f ↦ absurd (cc (rw (e, f) at h))
    | inl f ↦
        let same : join (split b',' whole) ≡ plain = ok-injective (rw (e, f) at h) in
        let (ne, spelt) = unsplit-split whole in
        (
          inr (subst IsGrouped spelt (grouped-IsGrouped (split b',' whole) ne f)),
          sym same ∙ join-split whole,
        )
  ]
]

-- A single digit, or digits the first of which is not zero.
abbrev pub IsCanonical : Bytes → Type 0
IsCanonical [] = ⊥
IsCanonical (c ∷ s) = (s ≡ []) ⊎ (b'0' < c)

or_zero_lem : (s : Bytes) → value (or_zero s) ≡ value s
or_zero_lem [] = refl
or_zero_lem (c ∷ s) = refl

value-trim_left : (s : Bytes) → value (trim_left b'0' s) ≡ value s
unfolding trim_left
value-trim_left [] = refl
value-trim_left (c ∷ s) = elim (Bool-cases (c == b'0')) [
  | inl e ↦ rw ((==_iff c b'0').0 e) (value-trim_left s)
  | inr e ↦ rw e refl
]

trimmed-IsCanonical : (s : Bytes) → All IsDigit s → IsCanonical (or_zero (trim_left b'0' s))
unfolding trim_left
trimmed-IsCanonical [] h = inl refl
trimmed-IsCanonical (c ∷ s) (h, hs) = elim (Bool-cases (c == b'0')) [
  | inl e ↦ rw e (trimmed-IsCanonical s hs)
  | inr e ↦ rw e (inr (ground (arith, h)))
]

pub canonical_whole_lem :
    (s : Bytes)
    → All IsDigit s
    → IsCanonical (canonical_whole s) × (value (canonical_whole s) ≡ value s)
unfolding canonical_whole trim_left
canonical_whole_lem [] h = (inl refl, refl)
canonical_whole_lem (c ∷ s) h =
    (trimmed-IsCanonical (c ∷ s) h, or_zero_lem (trim_left b'0' (c ∷ s)) ∙ value-trim_left (c ∷ s))
