-- ===== src/Ledger/Validate.antt =====
-- What `validate` accepts.
pub mod Lines
use stelfin.Prelude.{
  ==_iff, Result-cases, ◌||◌, subst, ℕ, List, [], ◌∷◌, ◌++◌, Bool, true, false, ◌==◌, ◌≡◌, ◌≢◌, ◌↔◌,
  inl, inr, refl, sym, ap, ◌∙◌, arith, Result, ok, if◌then◌else◌, All, Bool-cases, >>=-eq-ok,
  append-nil, append_assoc,
}
use stelfin.Prelude.Int.{pos, negsuc, IsInt64}
use stelfin.Text.{is_empty}
use stelfin.Money.{Stroops}
use stelfin.Money
use stelfin.Money.Arith.{total, PrefixesFit, sum_iff}
use stelfin.Ledger.{
  Error, Posting, PostRequest, PerAsset, append_amount, collect, check_asset, check_assets,
  check_lines, validate, is_unset,
}
use stelfin.Ledger.Validate.Lines.{
  amounts_of, IsBalanced, NonZero, IsWord, check_lines_sound, check_lines_complete,
}

-- The tests on the fields of a request that come before its lines are read.
abbrev pub IsComplete : PostRequest → Type 0
IsComplete r =
    (r.org ≢ 0)
    × (r.idempotency_key ≢ [])
    × (r.kind ≢ [])
    × (is_unset r.occurred_at ≡ false)
    × (r.postings ≢ [])

is_empty_iff {ℓ} : {A : Type ℓ} (xs : List A) → (is_empty xs ≡ false) ↔ (xs ≢ [])
is_empty_iff [] = (λ h. cc, λ h. absurd (h refl))
is_empty_iff (x ∷ xs) = (λ h e. cc, λ h. refl)

abbrev Guards : PostRequest → Type 0
Guards r =
    ((r.org == 0) ≡ false)
    × (is_empty r.idempotency_key ≡ false)
    × (is_empty r.kind ≡ false)
    × (is_unset r.occurred_at ≡ false)
    × (is_empty r.postings ≡ false)
    × (check_lines r.postings ≡ ok tt)

validate-Guards : (r : PostRequest) → validate r ≡ ok tt → Guards r
unfolding validate
validate-Guards r h =
    (ground arith, ground arith, ground arith, ground arith, ground arith, ground arith)

Guards-validate : (r : PostRequest) → Guards r → validate r ≡ ok tt
unfolding validate
Guards-validate r (a, b, c, d, e, f) = rw (a, b, c, d, e) f

-- `validate` accepts a request whose amounts an int64 holds exactly when its fields are present, no line
-- is zero, and in every asset the lines sum to exactly zero with no partial sum outside int64.
pub validate_iff :
    (r : PostRequest)
    → All IsWord r.postings
    → (validate r ≡ ok tt) ↔ (IsComplete r × All NonZero r.postings × IsBalanced r.postings)
validate_iff r words = (
  λ h.
      let (a, b, c, d, e, f) = validate-Guards r h in
      let (nonzero, balanced) = check_lines_sound r.postings words f in
      (
        (
          λ z. ground arith,
          (is_empty_iff r.idempotency_key).0 b,
          (is_empty_iff r.kind).0 c,
          d,
          (is_empty_iff r.postings).0 e,
        ),
        nonzero,
        balanced,
      ),
  λ ((a, b, c, d, e), nonzero, balanced). Guards-validate r (
    ground arith,
    (is_empty_iff r.idempotency_key).1 b,
    (is_empty_iff r.kind).1 c,
    d,
    (is_empty_iff r.postings).1 e,
    check_lines_complete r.postings words nonzero balanced,
  ),
)
