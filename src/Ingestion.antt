-- ===== src/Ingestion.antt =====
-- ingestion/ingestion.go: records of a chain applied to the books, with the cursor saved behind each.
-- What `Fetch` returned, the hash and the database's `lower` are arguments. Every statement here has
-- committed on its own, so an operation that fails keeps what it did before: it returns the state with
-- the error. The database is taken to answer, so a save of the cursor does not fail; of ReleaseAddress
-- (ledger/store/reclaim.go) the row of tracked_addresses is modelled.
pub mod Apply
pub mod Balanced
pub mod Consistent
pub mod Cursor
pub mod Preserve
mod Tests
use stelfin.Prelude.{
  ℕ, suc, ◌<◌, List, [], ◌∷◌, ◌++◌, Bool, true, false, ◌&&◌, ◌||◌, not, ltb, leb, ◌==◌,
  if◌then◌else◌, Result, ok, err, Option, none, some, length,
}
use stelfin.Prelude.Int.{ℤ, pos, ◌-ℤ◌, leb_ℤ, wrap, pos_part, neg as negate}
use stelfin.Text.{Bytes, codes, bytes_eq, is_empty, format_uint}
use stelfin.Money.{Stroops, sign}
use stelfin.Ledger.{Posting, PostRequest, Time, external}
use stelfin.Ledger
use stelfin.Ledger.Books.{Books, post, balance}
use stelfin.Ledger.Registry.{ensure_asset, ensure_account}

pub data Error : Type 0 where
  ledger : Ledger.Error → Error
  unreadable non_positive asset_incomplete : Error

-- TrackedAddress of ledger/store/account.go, a row of tracked_addresses; the role is only logged.
pub record TrackedAddress : Type 0 where
  pub address : Bytes
  pub org : ℕ
  pub account : ℕ

-- What is not readable is `none`; the reason is only logged.
pub record Movement : Type 0 where
  pub from : Bytes
  pub to : Bytes
  pub asset_type : Bytes
  pub asset_code : Bytes
  pub asset_issuer : Bytes
  pub amount : Stroops
  pub is_unreadable : Bool

pub record Record : Type 0 where
  pub cursor : Bytes
  pub id : Bytes
  pub tx_hash : Bytes
  pub occurred_at : Time
  pub movements : List Movement
  pub closed : Bytes

-- The database, and the ids that the ingester remembers.
pub record Ingester : Type 0 where
  pub books : Books
  pub tracked : List TrackedAddress
  pub cursors : List (Bytes × Bytes)
  pub external_of : List (ℕ × ℕ)

-- What changes the ingester and may fail.
abbrev pub Act : Type 0 → Type 0
Act A = Ingester → Ingester × Result Error A

abbrev pub return : {A : Type 0} → A → Act A
return a i = (i, ok a)

abbrev pub fail : {A : Type 0} → Error → Act A
fail e i = (i, err e)

abbrev pub continue :
    {A B : Type 0} → (A → Act B) → Ingester × Result Error A → Ingester × Result Error B
continue f (i, ok a) = f a i
continue f (i, err e) = (i, err e)

infixl 5 ◌>>=◌ ◌>>◌
abbrev pub ◌>>=◌ : {A B : Type 0} → Act A → (A → Act B) → Act B
◌>>=◌ m f i = continue f (m i)

abbrev pub ◌>>◌ : {A B : Type 0} → Act A → Act B → Act B
m >> k = m >>= λ _. k

abbrev pub map_ledger : {A : Type 0} → Result Ledger.Error A → Result Error A
map_ledger (ok a) = ok a
map_ledger (err e) = err (ledger e)

-- A call that returns the books, and one that returns new books only if it succeeds.
abbrev pub on_books : {A : Type 0} → (Books → Books × Result Ledger.Error A) → Act A
on_books f i = (record i { books = (f i.books).0 }, map_ledger (f i.books).1)

abbrev pub keep_posted :
    Ingester → Result Ledger.Error (ℕ × Books) → Ingester × Result Ledger.Error ℕ
keep_posted i (ok (id, books)) = (record i { books = books }, ok id)
keep_posted i (err e) = (i, err e)

unfoldable pub find_tracked : Bytes → List TrackedAddress → Option TrackedAddress
find_tracked address [] = none
find_tracked address (t ∷ ts) =
    let later = find_tracked address ts in if bytes_eq t.address address then some t else later

unfoldable pub lookup : ℕ → List (ℕ × ℕ) → Option ℕ
lookup org [] = none
lookup org ((o, id) ∷ rest) = let later = lookup org rest in if o == org then some id else later

unfoldable pub find_cursor : Bytes → List (Bytes × Bytes) → Option Bytes
find_cursor stream [] = none
find_cursor stream ((s, c) ∷ rest) =
    let later = find_cursor stream rest in if bytes_eq s stream then some c else later

unfoldable pub put_cursor : Bytes → Bytes → List (Bytes × Bytes) → List (Bytes × Bytes)
put_cursor stream c [] = (stream, c) ∷ []
put_cursor stream c ((s, d) ∷ rest) =
    let later = put_cursor stream c rest in
    if bytes_eq s stream then (s, c) ∷ rest else (s, d) ∷ later

unfoldable pub load_cursor : Bytes → Ingester → Bytes
load_cursor stream i = elim (find_cursor stream i.cursors) [ none ↦ [] | some c ↦ c ]

unfoldable pub save_cursor : Bytes → Bytes → Act (Unit {0})
save_cursor stream c i = (record i { cursors = put_cursor stream c i.cursors }, ok tt)
