-- ===== src/Ledger/Books.antt =====
-- The books: the tables of ledger/migrations/00001_core.sql with their constraints and triggers,
-- and `Post`, `resolveReplay`, `Balance` of ledger/ledger.go on them. A transaction that fails is
-- rolled back, so `post` returns new books only with an id. The database is taken to answer; the
-- gaps that a rollback leaves in the numbering of rows are left out.
pub mod Entries
pub mod Inserting
pub mod Invariant
pub mod Replay
use stelfin.Prelude.{
  ℕ, zero, suc, ◌+◌, List, [], ◌∷◌, ◌++◌, Bool, true, false, ◌&&◌, ◌||◌, not, ltb, leb, ◌==◌,
  if◌then◌else◌, Result, ok, err, ◌>>=◌, ◌>>◌, refuse_if, Option, none, some, all, any, length,
}
use stelfin.Prelude.Int.{ℤ, pos, ◌+ℤ◌, is_int64, ltb_ℤ, eqb_ℤ}
use stelfin.Text.{Bytes, is_empty, bytes_eq, codes, is_digit}
use stelfin.Money.{Stroops}
use stelfin.Ledger.{Posting, PostRequest, Error, Time, AccountKind, validate}
use stelfin.Ledger
use stelfin.Ledger.Fingerprint.{fingerprint}

pub record Account : Type 0 where
  pub id : ℕ
  pub org : ℕ
  pub kind : AccountKind
  pub owner_ref : Bytes
  pub name : Bytes
  pub allows_negative : Bool

-- A row of assets; the native asset has no issuer.
pub record Asset : Type 0 where
  pub id : ℕ
  pub code : Bytes
  pub issuer : Bytes

-- A row of ledger_transactions.
pub record TxRow : Type 0 where
  pub id : ℕ
  pub org : ℕ
  pub idempotency_key : Bytes
  pub request_fingerprint : Bytes
  pub kind : Bytes
  pub external_ref : Bytes
  pub occurred_at : Time
  pub metadata : Bytes

-- A row of ledger_entries.
pub record Entry : Type 0 where
  pub transaction : ℕ
  pub account : ℕ
  pub asset : ℕ
  pub amount : Stroops

-- The tables. A balance with no row reads as zero.
pub record Books : Type 0 where
  pub orgs : List ℕ
  pub assets : List Asset
  pub accounts : List Account
  pub transactions : List TxRow
  pub entries : List Entry
  pub balances : ℕ → ℕ → Stroops
  pub next_id : ℕ
  pub next_account : ℕ
  pub next_asset : ℕ

abbrev pub mem : ℕ → List ℕ → Bool
mem a = any (λ b. b == a)

abbrev pub has_asset : ℕ → List Asset → Bool
has_asset a = any (λ x. x.id == a)

unfoldable pub find_account : ℕ → List Account → Option Account
find_account a [] = none
find_account a (x ∷ xs) = let rest = find_account a xs in if x.id == a then some x else rest

unfoldable pub find_key : ℕ → Bytes → List TxRow → Option TxRow
find_key org key [] = none
find_key org key (t ∷ ts) =
    let rest = find_key org key ts in
    if t.org == org && bytes_eq t.idempotency_key key then some t else rest

-- TxKind's constants, which CHECK (kind IN (...)) allows as 00016_opening_balances.sql leaves it.
abbrev kinds : List Bytes
kinds =
    codes "deposit"
    ∷ codes "send"
    ∷ codes "fee"
    ∷ codes "sponsor"
    ∷ codes "reserve_release"
    ∷ codes "withdrawal"
    ∷ codes "trade"
    ∷ codes "opening"
    ∷ []

abbrev is_hex : ℕ → Bool
is_hex c = is_digit c || (leb b'a' c && leb c b'f')

-- The checks of a row of ledger_transactions; an empty external_ref is stored as NULL.
unfoldable pub row_allowed : PostRequest → Bool
row_allowed r =
    any (bytes_eq r.kind) kinds
    && (is_empty r.external_ref || (length r.external_ref == 64 && all is_hex r.external_ref))

abbrev pub update : (ℕ → ℕ → Stroops) → ℕ → ℕ → Stroops → ℕ → ℕ → Stroops
update balances account asset v a s = if a == account && s == asset then v else balances a s

-- ledger_apply_to_balance on the account that the row names: bigint raises on overflow, and only
-- some kinds of account may go below zero.
unfoldable pub apply_to_balance : Books → Account → Entry → Result Error Books
apply_to_balance b account e =
    let balance = b.balances e.account e.asset +ℤ e.amount in
    do
      refuse_if (not (is_int64 balance)) Error.database
      refuse_if (ltb_ℤ balance (pos 0) && not account.allows_negative) Error.insufficient_funds
      ok (record b {
        entries = b.entries ++ e ∷ [];
        balances = update b.balances e.account e.asset balance;
      })

-- INSERT INTO ledger_entries, with the foreign keys and the check on the amount.
unfoldable pub insert_entry : Books → ℕ → Posting → Result Error Books
insert_entry b id p = elim (find_account p.account b.accounts) [
  | none ↦ err Error.database
  | some account ↦
      if eqb_ℤ p.amount (pos 0) || not (has_asset p.asset b.assets)
      then err Error.database
      else apply_to_balance b account
          (record { transaction = id; account = p.account; asset = p.asset; amount = p.amount })
]

unfoldable pub insert_entries : Books → ℕ → List Posting → Result Error Books
insert_entries b id [] = ok b
insert_entries b id (p ∷ ps) = do b' ← insert_entry b id p; insert_entries b' id ps

-- The lines of one transaction.
abbrev pub lines_of : ℕ → List Entry → List Entry
lines_of id [] = []
lines_of id (e ∷ es) = let rest = lines_of id es in if e.transaction == id then e ∷ rest else rest

-- SUM(e.amount) over the rows of one asset, which is numeric and does not overflow.
abbrev pub sum_asset : ℕ → List Entry → ℤ
sum_asset asset [] = pos 0
sum_asset asset (e ∷ es) =
    let rest = sum_asset asset es in if e.asset == asset then e.amount +ℤ rest else rest

-- ledger_assert_balanced and ledger_assert_single_org, which run at COMMIT.
unfoldable pub assert_balanced : List Entry → Bool
assert_balanced lines = all (λ e. eqb_ℤ (sum_asset e.asset lines) (pos 0)) lines

unfoldable pub belongs_to : ℕ → List Account → Entry → Bool
belongs_to org accounts e = elim (find_account e.account accounts) [
  | none ↦ true
  | some account ↦ account.org == org
]

unfoldable pub commit : Books → ℕ → ℕ → Result Error Books
commit b org id =
    let lines = lines_of id b.entries in
    do
      refuse_if (not (assert_balanced lines)) Error.unbalanced
      refuse_if (not (all (belongs_to org b.accounts) lines)) Error.cross_org
      ok b

unfoldable pub resolve_replay : TxRow → Bytes → Result Error ℕ
resolve_replay row want =
    if bytes_eq row.request_fingerprint want then ok row.id else err Error.idempotency_key_reused

abbrev stored_metadata : Bytes → Bytes
stored_metadata m = if is_empty m then codes "{}" else m

abbrev pub new_row : Books → PostRequest → Bytes → TxRow
new_row b r print = record {
  id = b.next_id;
  org = r.org;
  idempotency_key = r.idempotency_key;
  request_fingerprint = print;
  kind = r.kind;
  external_ref = r.external_ref;
  occurred_at = r.occurred_at;
  metadata = stored_metadata r.metadata;
}

-- The books with the new transaction row, before its lines.
abbrev pub with_row : Books → PostRequest → Bytes → Books
with_row b r print = record b {
  transactions = b.transactions ++ new_row b r print ∷ [];
  next_id = suc b.next_id;
}

unfoldable pub insert_transaction : Books → PostRequest → Bytes → Result Error (ℕ × Books)
insert_transaction b r print = do
  refuse_if (not (mem r.org b.orgs)) Error.database
  b' ← insert_entries (with_row b r print) b.next_id r.postings
  b'' ← commit b' r.org b.next_id
  ok (b.next_id, b'')

unfoldable pub post : (Bytes → Bytes) → Books → PostRequest → Result Error (ℕ × Books)
post hash b r = do
  validate r
  let print = fingerprint hash r
  refuse_if (not (row_allowed r)) Error.database
  elim (find_key r.org r.idempotency_key b.transactions) [
    | some row ↦ do id ← resolve_replay row print; ok (id, b)
    | none ↦ insert_transaction b r print
  ]

-- `Balance`: the account has to belong to the org.
unfoldable pub balance : Books → ℕ → ℕ → ℕ → Stroops
balance b org account asset = elim (find_account account b.accounts) [
  | none ↦ pos 0
  | some a ↦ if a.org == org then b.balances account asset else pos 0
]
