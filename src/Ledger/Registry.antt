-- ===== src/Ledger/Registry.antt =====
-- `EnsureAsset` and `EnsureAccount` of ledger/ledger.go, on the tables assets and ledger_accounts of
-- ledger/migrations/00001_core.sql. A row that the checks allow conflicts exactly with the rows that
-- the second SELECT matches. `lower` is the database's function on text.
pub mod Consistent
pub mod Accounts
pub mod Same
pub mod Answers
use stelfin.Prelude.{
  ℕ, suc, List, [], ◌∷◌, ◌++◌, Bool, true, false, ◌&&◌, ◌||◌, not, leb, ◌==◌, if◌then◌else◌, Result,
  ok, err, ◌>>=◌, ◌>>◌, refuse_if, Option, none, some, all, length,
}
use stelfin.Text.{Bytes, codes, bytes_eq, is_empty}
use stelfin.Ledger.{
  Error, AccountKind, member, treasury, external, fee_expense, sponsored_reserve, trading,
}
use stelfin.Ledger.Books.{Books, Account, Asset, mem}

-- The kind's string.
abbrev pub kind_name : AccountKind → Bytes
kind_name member = codes "member"
kind_name treasury = codes "treasury"
kind_name external = codes "external"
kind_name fee_expense = codes "fee_expense"
kind_name sponsored_reserve = codes "sponsored_reserve"
kind_name trading = codes "trading"

abbrev pub is_member : AccountKind → Bool
is_member member = true
is_member _ = false

abbrev pub is_treasury : AccountKind → Bool
is_treasury treasury = true
is_treasury _ = false

abbrev pub goes_negative : AccountKind → Bool
goes_negative external = true
goes_negative trading = true
goes_negative _ = false

-- issuer ~ '^G[A-Z2-7]{55}$', where an empty issuer is stored as NULL.
abbrev pub is_base32 : ℕ → Bool
is_base32 c = (leb b'A' c && leb c b'Z') || (leb b'2' c && leb c b'7')

unfoldable pub issuer_allowed : Bytes → Bool
issuer_allowed [] = true
issuer_allowed (c ∷ s) = c == b'G' && length s == 55 && all is_base32 s

unfoldable pub find_asset : Bytes → Bytes → List Asset → Option Asset
find_asset code issuer [] = none
find_asset code issuer (a ∷ rest) =
    let later = find_asset code issuer rest in
    if bytes_eq a.code code && bytes_eq a.issuer issuer then some a else later

abbrev new_asset : Books → Bytes → Bytes → Asset
new_asset b code issuer = record { id = b.next_asset; code = code; issuer = issuer }

unfoldable pub ensure_asset : Books → Bytes → Bytes → Books × Result Error ℕ
ensure_asset b code issuer =
    if is_empty code || not (issuer_allowed issuer)
    then (b, err Error.database)
    else elim (find_asset code issuer b.assets) [
      | some a ↦ (b, ok a.id)
      | none ↦ (
        record b {
          assets = b.assets ++ new_asset b code issuer ∷ [];
          next_asset = suc b.next_asset;
        },
        ok b.next_asset,
      )
    ]

module _ (lower : Bytes → Bytes) where
  -- The WHERE of the second SELECT.
  abbrev pub matches : ℕ → AccountKind → Bytes → Bytes → Account → Bool
  matches org kind owner_ref name a =
      a.org == org
      && bytes_eq (kind_name a.kind) (kind_name kind)
      && bytes_eq a.owner_ref owner_ref
      && (not (is_treasury a.kind) || bytes_eq (lower a.name) (lower name))

  unfoldable pub find_match : ℕ → AccountKind → Bytes → Bytes → List Account → Option Account
  find_match org kind owner_ref name [] = none
  find_match org kind owner_ref name (a ∷ rest) =
      let later = find_match org kind owner_ref name rest in
      if matches org kind owner_ref name a then some a else later

  abbrev new_account : Books → ℕ → AccountKind → Bytes → Bytes → Account
  new_account b org kind owner_ref name = record {
    id = b.next_account;
    org = org;
    kind = kind;
    owner_ref = owner_ref;
    name = name;
    allows_negative = goes_negative kind;
  }

  -- The checks of a row; an empty owner_ref is stored as NULL.
  abbrev account_allowed : AccountKind → Bytes → Bytes → Bool
  account_allowed kind owner_ref name =
      not (is_empty name)
      && (if is_member kind then not (is_empty owner_ref) else is_empty owner_ref)

  unfoldable pub ensure_account : Books → ℕ → AccountKind → Bytes → Bytes → Books × Result Error ℕ
  ensure_account b org kind owner_ref name =
      if org == 0
      then (b, err Error.org_required)
      else if not (account_allowed kind owner_ref name)
      then (b, err Error.database)
      else elim (find_match org kind owner_ref name b.accounts) [
        | some a ↦ (b, ok a.id)
        | none ↦ if not (mem org b.orgs) then (b, err Error.database) else (
          record b {
            accounts = b.accounts ++ new_account b org kind owner_ref name ∷ [];
            next_account = suc b.next_account;
          },
          ok b.next_account,
        )
      ]
