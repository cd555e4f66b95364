-- ===== src/Ledger/Validate/Lines.antt =====
-- What `validate` accepts as lines: the two loops over them.
use stelfin.Prelude.{
  ==_iff, Result-cases, ◌||◌, subst, ℕ, List, [], ◌∷◌, ◌++◌, Bool, true, false, ◌==◌, ◌≡◌, ◌≢◌, ◌↔◌,
  inl, inr, refl, sym, ap, ◌∙◌, arith, Result, ok, if◌then◌else◌, All, Bool-cases, >>=-eq-ok,
  append-nil, append_assoc,
}
use stelfin.Prelude.Int.{pos, negsuc, IsInt64}
use stelfin.Money.{Stroops}
use stelfin.Money
use stelfin.Money.Arith.{total, PrefixesFit, sum_iff}
use stelfin.Ledger.{
  Error, Posting, PerAsset, append_amount, collect, check_asset, check_assets, check_lines,
}

-- The amounts posted in one asset, in order.
abbrev pub amounts_of : ℕ → List Posting → List Stroops
amounts_of asset [] = []
amounts_of asset (p ∷ ps) =
    let rest = amounts_of asset ps in if p.asset == asset then p.amount ∷ rest else rest

-- A balanced set of lines: in every asset the exact sum is zero, and no partial sum overflows.
abbrev pub IsBalanced : List Posting → Type 0
IsBalanced ps =
    (asset : ℕ) → (total (amounts_of asset ps) ≡ pos 0) × PrefixesFit (pos 0) (amounts_of asset ps)

abbrev pub held : ℕ → PerAsset → List Stroops
held asset [] = []
held asset ((a, amounts) ∷ rest) =
    let later = held asset rest in if a == asset then amounts else later

held-append_amount :
    (asset a : ℕ) (amount : Stroops) (m : PerAsset)
    → held a (append_amount asset amount m)
      ≡ (if asset == a then held a m ++ amount ∷ [] else held a m)
unfolding append_amount
held-append_amount asset a amount [] = ground arith
held-append_amount asset a amount ((b, amounts) ∷ rest) =
    ground (arith, held-append_amount asset a amount rest)

ok-injective : {m m' : PerAsset} → ◌≡◌ {A = Result Error PerAsset} (ok m) (ok m') → m ≡ m'
ok-injective h = cc

zero_refused :
    (p : Posting) (ps : List Posting) (m m' : PerAsset)
    → Money.is_zero p.amount ≡ true
    → collect m (p ∷ ps) ≢ ok m'
unfolding collect
zero_refused p ps m m' e h = ground arith

held-collect :
    (a : ℕ) (m m' : PerAsset) (ps : List Posting)
    → collect m ps ≡ ok m'
    → held a m' ≡ held a m ++ amounts_of a ps
unfolding collect
held-collect a m m' [] h = ap (held a) (ok-injective (sym h)) ∙ sym (append-nil (held a m))
held-collect a m m' (p ∷ ps) h = elim (Bool-cases (Money.is_zero p.amount)) [
  | inl e ↦ absurd (zero_refused p ps m m' e h)
  | inr e ↦
      held-collect a (append_amount p.asset p.amount m) m' ps (rw e at h)
      ∙ ground (
        arith,
        held-append_amount p.asset a p.amount m,
        append_assoc (held a m) (p.amount ∷ []) (amounts_of a ps),
      )
]

abbrev pub NonZero : Posting → Type 0
NonZero p = p.amount ≢ pos 0

abbrev pub IsWord : Posting → Type 0
IsWord p = IsInt64 p.amount

is_zero-cases : (z : Stroops) → (Money.is_zero z ≡ false) ↔ (z ≢ pos 0)
unfolding Money.is_zero
is_zero-cases (pos n) = (ground arith, ground arith)
is_zero-cases (negsuc n) = (ground arith, ground arith)

collect-NonZero : (m m' : PerAsset) (ps : List Posting) → collect m ps ≡ ok m' → All NonZero ps
unfolding collect
collect-NonZero m m' [] h = tt
collect-NonZero m m' (p ∷ ps) h = elim (Bool-cases (Money.is_zero p.amount)) [
  | inl e ↦ absurd (zero_refused p ps m m' e h)
  | inr e ↦ (
    (is_zero-cases p.amount).0 e,
    collect-NonZero (append_amount p.asset p.amount m) m' ps (rw e at h),
  )
]

collect_complete :
    (m : PerAsset) (ps : List Posting) → All NonZero ps → (m' : PerAsset) × (collect m ps ≡ ok m')
unfolding collect
collect_complete m [] h = (m, refl)
collect_complete m (p ∷ ps) (hp, hs) =
    rw ((is_zero-cases p.amount).1 hp) (collect_complete (append_amount p.asset p.amount m) ps hs)

amounts_of-IsInt64 : (a : ℕ) (ps : List Posting) → All IsWord ps → All IsInt64 (amounts_of a ps)
amounts_of-IsInt64 a [] h = tt
amounts_of-IsInt64 a (p ∷ ps) (hp, hs) = ground (arith, amounts_of-IsInt64 a ps hs)

-- One asset balances: the exact sum is zero, and no partial sum overflows.
abbrev pub Cancels : List Stroops → Type 0
Cancels amounts = (total amounts ≡ pos 0) × PrefixesFit (pos 0) amounts

check_asset-sum :
    (amounts : List Stroops) → (check_asset amounts ≡ ok tt) ↔ (Money.sum amounts ≡ ok (pos 0))
unfolding check_asset Money.is_zero
check_asset-sum amounts = elim (Result-cases (Money.sum amounts)) [
  | inl (pos n, e) ↦ rw e (λ h. ground arith, λ h. ground arith)
  | inl (negsuc n, e) ↦ rw e (λ h. ground arith, λ h. ground arith)
  | inr (x, e) ↦ rw e (λ h. ground arith, λ h. ground arith)
]

check_asset_iff :
    (amounts : List Stroops) → All IsInt64 amounts → (check_asset amounts ≡ ok tt) ↔ Cancels amounts
check_asset_iff amounts h = (
  λ c.
      let (e, fits) = (sum_iff (pos 0) amounts h).0 ((check_asset-sum amounts).0 c) in
      (sym e, fits),
  λ (e, fits). (check_asset-sum amounts).1 ((sum_iff (pos 0) amounts h).1 (sym e, fits)),
)

-- The assets of the map, each once.
abbrev has : ℕ → PerAsset → Bool
has a [] = false
has a ((b, amounts) ∷ rest) = b == a || has a rest

abbrev KeysApart : PerAsset → Type 0
KeysApart [] = Unit {0}
KeysApart ((a, amounts) ∷ rest) = (has a rest ≡ false) × KeysApart rest

has-append_amount :
    (a asset : ℕ) (amount : Stroops) (m : PerAsset)
    → a ≢ asset
    → has a (append_amount asset amount m) ≡ has a m
unfolding append_amount
has-append_amount a asset amount [] h = ground arith
has-append_amount a asset amount ((b, amounts) ∷ rest) h =
    ground (arith, has-append_amount a asset amount rest h)

append_amount-KeysApart :
    (asset : ℕ) (amount : Stroops) (m : PerAsset)
    → KeysApart m
    → KeysApart (append_amount asset amount m)
unfolding append_amount
append_amount-KeysApart asset amount [] h = (refl, tt)
append_amount-KeysApart asset amount ((b, amounts) ∷ rest) (h, hs) =
    ground
      (arith, append_amount-KeysApart asset amount rest hs, has-append_amount b asset amount rest)

collect-KeysApart :
    (m m' : PerAsset) (ps : List Posting) → KeysApart m → collect m ps ≡ ok m' → KeysApart m'
unfolding collect
collect-KeysApart m m' [] k h = subst KeysApart (ok-injective h) k
collect-KeysApart m m' (p ∷ ps) k h = elim (Bool-cases (Money.is_zero p.amount)) [
  | inl e ↦ absurd (zero_refused p ps m m' e h)
  | inr e ↦
      collect-KeysApart (append_amount p.asset p.amount m) m' ps
        (append_amount-KeysApart p.asset p.amount m k) (rw e at h)
]

check_asset_nil : check_asset [] ≡ ok tt
unfolding check_asset Money.sum Money.is_zero
check_asset_nil = refl

==_refl : (a : ℕ) → (a == a) ≡ true
==_refl a = ground arith

held_absent : (a : ℕ) (m : PerAsset) → has a m ≡ false → held a m ≡ []
held_absent a [] h = refl
held_absent a ((b, amounts) ∷ rest) h = ground (arith, held_absent a rest)

-- The second loop accepts exactly when the amounts held for every asset cancel.
check_assets_sound :
    (m : PerAsset) (a : ℕ) → check_assets m ≡ ok tt → check_asset (held a m) ≡ ok tt
unfolding check_assets
check_assets_sound [] a h = check_asset_nil
check_assets_sound ((b, amounts) ∷ rest) a h =
    let (u, first, later) = >>=-eq-ok (check_asset amounts) (λ _. check_assets rest) h in
    elim (Bool-cases (b == a)) [
      | inl e ↦ rw e first
      | inr e ↦ rw e (check_assets_sound rest a later)
    ]

check_assets_complete :
    (m : PerAsset)
    → KeysApart m
    → ((a : ℕ) → check_asset (held a m) ≡ ok tt)
    → check_assets m ≡ ok tt
unfolding check_assets
check_assets_complete [] k h = refl
check_assets_complete ((b, amounts) ∷ rest) (k, ks) h =
    let first : check_asset amounts ≡ ok tt = (rw (==_refl b) at (h b)) in
    rw first (check_assets_complete rest ks later)
  where
    later : (a : ℕ) → check_asset (held a rest) ≡ ok tt
    later a = elim (Bool-cases (b == a)) [
      | inl e ↦
          rw (held_absent a rest (subst (λ c. has c rest ≡ false) ((==_iff b a).0 e) k))
            check_asset_nil
      | inr e ↦ rw e at (h a)
    ]

pub check_lines_sound :
    (ps : List Posting) → All IsWord ps → check_lines ps ≡ ok tt → All NonZero ps × IsBalanced ps
unfolding check_lines
check_lines_sound ps words h =
    let (m, collected, checked) = >>=-eq-ok (collect [] ps) check_assets h in
    (
      collect-NonZero [] m ps collected,
      λ a. (check_asset_iff (amounts_of a ps) (amounts_of-IsInt64 a ps words)).0 (
          subst (λ t. check_asset t ≡ ok tt) (held-collect a [] m ps collected)
            (check_assets_sound m a checked)),
    )

pub check_lines_complete :
    (ps : List Posting) → All IsWord ps → All NonZero ps → IsBalanced ps → check_lines ps ≡ ok tt
unfolding check_lines
check_lines_complete ps words nonzero balanced =
    let (m, collected) = collect_complete [] ps nonzero in
    rw collected (
      check_assets_complete m (collect-KeysApart [] m ps tt collected) λ a.
        subst (λ t. check_asset t ≡ ok tt) (sym (held-collect a [] m ps collected))
          ((check_asset_iff (amounts_of a ps) (amounts_of-IsInt64 a ps words)).1 (balanced a)))
