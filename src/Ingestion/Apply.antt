-- ===== src/Ingestion/Apply.antt =====
-- applyMovement, open, applyClose, apply and Once of ingestion/ingestion.go, on the state of the
-- parent module.
use stelfin.Prelude.{
  ℕ, suc, List, [], ◌∷◌, ◌++◌, Bool, true, false, ◌&&◌, ◌||◌, ltb, ◌==◌, if◌then◌else◌, Result, ok,
  err, Option, none, some, length,
}
use stelfin.Prelude.Int.{pos, ◌-ℤ◌, leb_ℤ, wrap, pos_part, neg as negate}
use stelfin.Text.{Bytes, codes, bytes_eq, is_empty, format_uint}
use stelfin.Money.{Stroops, sign}
use stelfin.Ledger.{Posting, PostRequest, Time, external}
use stelfin.Ledger
use stelfin.Ledger.Books.{post, balance}
use stelfin.Ledger.Registry.{ensure_asset, ensure_account}
use stelfin.Ingestion.{
  Error, ledger, unreadable, non_positive, asset_incomplete, TrackedAddress, Movement, Record,
  Ingester, Act, return, fail, continue, ◌>>=◌, ◌>>◌, map_ledger, on_books, keep_posted,
  find_tracked, lookup, load_cursor, save_cursor,
}

-- One org's record of an operation: `entry`.
pub record OrgEntry : Type 0 where
  pub org : ℕ
  pub kind : Bytes
  pub postings : List Posting

abbrev pub line : ℕ → ℕ → Stroops → Posting
line account asset amount = record { account = account; asset = asset; amount = amount }

-- The negation of an int64.
abbrev pub minus : Stroops → Stroops
minus amount = wrap (negate amount)

abbrev pub remember : ℕ → ℕ → Ingester → Ingester
remember org id i = record i { external_of = (org, id) ∷ i.external_of }

abbrev pub withdrawal : ℕ → TrackedAddress → ℕ → Stroops → OrgEntry
withdrawal ext from asset amount = record {
  org = from.org;
  kind = codes "withdrawal";
  postings = line from.account asset (minus amount) ∷ line ext asset amount ∷ [];
}

abbrev pub deposit : ℕ → TrackedAddress → ℕ → Stroops → OrgEntry
deposit ext to asset amount = record {
  org = to.org;
  kind = codes "deposit";
  postings = line to.account asset amount ∷ line ext asset (minus amount) ∷ [];
}

abbrev pub send : TrackedAddress → TrackedAddress → ℕ → Stroops → OrgEntry
send from to asset amount = record {
  org = from.org;
  kind = codes "send";
  postings = line from.account asset (minus amount) ∷ line to.account asset amount ∷ [];
}

-- The movement's index is part of the key when there is more than one.
unfoldable pub key_of : Record → ℕ → Bytes
key_of r n = if ltb 1 (length r.movements) then r.id ++ b':' ∷ format_uint n else r.id

abbrev pub request_of : Record → Bytes → OrgEntry → PostRequest
request_of r key e = record {
  org = e.org;
  idempotency_key = key;
  kind = e.kind;
  external_ref = r.tx_hash;
  occurred_at = r.occurred_at;
  metadata = [];
  postings = e.postings;
}

-- The shortfall `short` of an account, from outside; it is positive here.
abbrev pub opening_request : Record → Bytes → TrackedAddress → ℕ → ℕ → Stroops → PostRequest
opening_request r key from ext asset short = record {
  org = from.org;
  idempotency_key = key ++ codes ":opening:" ++ format_uint (pos_part short);
  kind = codes "opening";
  external_ref = [];
  occurred_at = r.occurred_at;
  metadata = [];
  postings = line from.account asset short ∷ line ext asset (minus short) ∷ [];
}

module _ (hash lower : Bytes → Bytes) where
  unfoldable pub external_for : ℕ → Act ℕ
  external_for org i = elim (lookup org i.external_of) [
    | some id ↦ (i, ok id)
    | none ↦
        continue (λ id i'. (remember org id i', ok id))
          (on_books (λ b. ensure_account lower b org external [] (codes "external")) i)
  ]

  unfoldable pub resolve_asset : Bytes → Bytes → Bytes → Act ℕ
  resolve_asset asset_type code issuer =
      if bytes_eq asset_type (codes "native")
      then on_books (λ b. ensure_asset b (codes "XLM") [])
      else if is_empty code || is_empty issuer
      then fail asset_incomplete
      else on_books (λ b. ensure_asset b code issuer)

  unfoldable pub leaving : Option TrackedAddress → ℕ → Stroops → Act (List OrgEntry)
  leaving none asset amount = return []
  leaving (some from) asset amount = do
    ext ← external_for from.org
    return (withdrawal ext from asset amount ∷ [])

  unfoldable pub entering : Option TrackedAddress → ℕ → Stroops → Act (List OrgEntry)
  entering none asset amount = return []
  entering (some to) asset amount = do
    ext ← external_for to.org
    return (deposit ext to asset amount ∷ [])

  abbrev pub across :
      Option TrackedAddress → Option TrackedAddress → ℕ → Stroops → Act (List OrgEntry)
  across from to asset amount = do
    out ← leaving from asset amount
    into ← entering to asset amount
    return (out ++ into)

  unfoldable pub entries_for :
      Option TrackedAddress → Option TrackedAddress → ℕ → Stroops → Act (List OrgEntry)
  entries_for (some from) (some to) asset amount =
      if from.org == to.org
      then return (send from to asset amount ∷ [])
      else across (some from) (some to) asset amount
  entries_for from to asset amount = across from to asset amount

  -- `Post` on the ingester's database, its error seen as the ledger's.
  abbrev pub try_post : PostRequest → Ingester → Ingester × Result Ledger.Error ℕ
  try_post q i = keep_posted i (post hash i.books q)

  abbrev pub post_request : PostRequest → Act ℕ
  post_request q i = ((try_post q i).0, map_ledger (try_post q i).1)

  unfoldable pub open_balance : Record → Bytes → TrackedAddress → ℕ → Stroops → Act (Unit {0})
  open_balance r key from asset amount i =
      let short = wrap (amount -ℤ balance i.books from.org from.account asset) in
      if leb_ℤ short (pos 0)
      then (i, ok tt)
      else (do
        ext ← external_for from.org
        id ← post_request (opening_request r key from ext asset short)
        return tt)
          i

  unfoldable pub open_and_post : Record → Bytes → TrackedAddress → ℕ → Stroops → OrgEntry → Act ℕ
  open_and_post r key from asset amount e = do
    open_balance r key from asset amount
    post_request (request_of r key e)

  -- What `applyMovement` does when a first `Post` has failed.
  abbrev pub retry :
      Record
      → Bytes
      → Option TrackedAddress
      → ℕ
      → Stroops
      → OrgEntry
      → Ingester
      → Ledger.Error
      → Ingester × Result Error ℕ
  retry r key (some from) asset amount e i Ledger.Error.insufficient_funds =
      if e.org == from.org
      then open_and_post r key from asset amount e i
      else (i, err (ledger Ledger.Error.insufficient_funds))
  retry r key from asset amount e i error = (i, err (ledger error))

  unfoldable pub post_entry :
      Record → Bytes → Option TrackedAddress → ℕ → Stroops → OrgEntry → Act ℕ
  post_entry r key from asset amount e i = elim (post hash i.books (request_of r key e)) [
    | ok posted ↦ (record i { books = posted.1 }, ok posted.0)
    | err error ↦ retry r key from asset amount e i error
  ]

  unfoldable pub post_all :
      Record → Bytes → Option TrackedAddress → ℕ → Stroops → List OrgEntry → Act (Unit {0})
  post_all r key from asset amount [] = return tt
  post_all r key from asset amount (e ∷ es) = do
    id ← post_entry r key from asset amount e
    post_all r key from asset amount es

  abbrev pub untracked : Option TrackedAddress → Option TrackedAddress → Bool
  untracked none none = true
  untracked _ _ = false

  -- The rest of `applyMovement`, behind its guards.
  unfoldable pub post_movement :
      Record → ℕ → Movement → Option TrackedAddress → Option TrackedAddress → Act (Unit {0})
  post_movement r n m from to = do
    asset ← resolve_asset m.asset_type m.asset_code m.asset_issuer
    entries ← entries_for from to asset m.amount
    post_all r (key_of r n) from asset m.amount entries

  unfoldable pub apply_movement : Record → ℕ → Movement → Act (Unit {0})
  apply_movement r n m i =
      let from = find_tracked m.from i.tracked in
      let to = find_tracked m.to i.tracked in
      if untracked from to
      then (i, ok tt)
      else if m.is_unreadable
      then (i, err unreadable)
      else if leb_ℤ (sign m.amount) (pos 0)
      then (i, err non_positive)
      else post_movement r n m from to i

  unfoldable pub apply_movements : Record → ℕ → List Movement → Act (Unit {0})
  apply_movements r n [] = return tt
  apply_movements r n (m ∷ ms) = do apply_movement r n m; apply_movements r (suc n) ms

  -- DELETE FROM tracked_addresses WHERE org_id = $1 AND address = $2
  unfoldable pub release : ℕ → Bytes → List TrackedAddress → List TrackedAddress
  release org address [] = []
  release org address (t ∷ ts) =
      let rest = release org address ts in
      if t.org == org && bytes_eq t.address address then rest else t ∷ rest

  unfoldable pub apply_close : Bytes → Act (Unit {0})
  apply_close address i = elim (find_tracked address i.tracked) [
    | none ↦ (i, ok tt)
    | some t ↦ (record i { tracked = release t.org address i.tracked }, ok tt)
  ]

  unfoldable pub apply : Record → Act (Unit {0})
  apply r = do
    apply_movements r 0 r.movements
    if is_empty r.closed then return tt else apply_close r.closed

  -- The loop of `Once`: how many records were consumed, and the error it stopped at.
  unfoldable pub consume : Bytes → List Record → Ingester → Ingester × (ℕ × Option Error)
  consume stream [] i = (i, (0, none))
  consume stream (r ∷ rs) i =
      let (i', applied) = apply r i in
      elim applied [
        | err e ↦ (i', (0, some e))
        | ok _ ↦
            let rest = consume stream rs (save_cursor stream r.cursor i').0 in
            (rest.0, (suc rest.1.0, rest.1.1))
      ]

  -- `Once`, with what the source returns from a cursor.
  unfoldable pub once :
      Bytes → (Bytes → Result Error (List Record)) → Ingester → Ingester × (ℕ × Option Error)
  once stream fetch i = elim (fetch (load_cursor stream i)) [
    | err e ↦ (i, (0, some e))
    | ok records ↦ consume stream records i
  ]
