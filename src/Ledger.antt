-- ===== src/Ledger.antt =====
-- ledger/ledger.go: what is posted, what `validate` refuses before the database sees it, and the
-- books that ledger/migrations keeps (Ledger/Books). An id is a natural number, as the database
-- numbers its rows; Go's map from asset to amounts is an association list in the order in which the
-- assets appear, and no theorem depends on that order.
pub mod Validate
pub mod Fingerprint
pub mod Books
pub mod Messages
pub mod Registry
mod Tests
use stelfin.Prelude.{
  ℕ, List, [], ◌∷◌, ◌++◌, Bool, true, false, ◌==◌, if◌then◌else◌, Result, ok, err, ◌>>=◌, ◌>>◌,
  refuse_if,
}
use stelfin.Prelude.Int.{ℤ}
use stelfin.Text.{Bytes, is_empty}
use stelfin.Money.{Stroops}
use stelfin.Money

pub data Error : Type 0 where
  org_required key_required kind_required occurred_at_required : Error
  no_postings zero_amount amount_overflow unbalanced : Error
  insufficient_funds cross_org idempotency_key_reused : Error
  -- any other refusal of the database, which `classify` passes on as it is
  database : Error

-- What a ledger account represents.
pub data AccountKind : Type 0 where
  member treasury external fee_expense sponsored_reserve trading : AccountKind

-- time.Time as the ledger uses it: the zero time, or an instant in nanoseconds since 1970.
pub data Time : Type 0 where
  unset : Time
  at_nano : ℤ → Time

abbrev pub is_unset : Time → Bool
is_unset unset = true
is_unset (at_nano n) = false

pub record Posting : Type 0 where
  pub account : ℕ
  pub asset : ℕ
  pub amount : Stroops

pub record PostRequest : Type 0 where
  pub org : ℕ
  pub idempotency_key : Bytes
  pub kind : Bytes
  pub external_ref : Bytes
  pub occurred_at : Time
  pub metadata : Bytes
  pub postings : List Posting

abbrev pub PerAsset : Type 0
PerAsset = List (ℕ × List Stroops)

-- `perAsset[asset] = append(perAsset[asset], amount)`
unfoldable pub append_amount : ℕ → Stroops → PerAsset → PerAsset
append_amount asset amount [] = (asset, amount ∷ []) ∷ []
append_amount asset amount ((a, amounts) ∷ rest) =
    let later = append_amount asset amount rest in
    if a == asset then (a, amounts ++ amount ∷ []) ∷ rest else (a, amounts) ∷ later

-- The first loop of `validate`.
unfoldable pub collect : PerAsset → List Posting → Result Error PerAsset
collect per_asset [] = ok per_asset
collect per_asset (p ∷ postings) =
    let more = collect (append_amount p.asset p.amount per_asset) postings in
    if Money.is_zero p.amount then err zero_amount else more

-- Whether the amounts of one asset sum to zero.
unfoldable pub check_asset : List Stroops → Result Error (Unit {0})
check_asset amounts = elim (Money.sum amounts) [
  | err e ↦ err amount_overflow
  | ok total ↦ if Money.is_zero total then ok tt else err unbalanced
]

-- The second loop.
unfoldable pub check_assets : PerAsset → Result Error (Unit {0})
check_assets [] = ok tt
check_assets ((a, amounts) ∷ rest) = do check_asset amounts; check_assets rest

unfoldable pub check_lines : List Posting → Result Error (Unit {0})
check_lines postings = do per_asset ← collect [] postings; check_assets per_asset

unfoldable pub validate : PostRequest → Result Error (Unit {0})
validate req = do
  refuse_if (req.org == 0) org_required
  refuse_if (is_empty req.idempotency_key) key_required
  refuse_if (is_empty req.kind) kind_required
  refuse_if (is_unset req.occurred_at) occurred_at_required
  refuse_if (is_empty req.postings) no_postings
  check_lines req.postings
