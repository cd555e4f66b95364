-- ===== src/Ingestion/Preserve.antt =====
-- What each step that applying a record is made of preserves, applying the record preserves.
use stelfin.Prelude.{
  ℕ, suc, List, [], ◌∷◌, ◌==◌, ◌||◌, if◌then◌else◌, ◌≡◌, inl, inr, Result, ok, err, Option, none,
  some, Bool-cases, Option-cases, Result-cases,
}
use stelfin.Prelude.Int.{pos, leb_ℤ, wrap, ◌-ℤ◌}
use stelfin.Text.{Bytes, is_empty, bytes_eq, codes}
use stelfin.Money.{Stroops, sign}
use stelfin.Ledger.{PostRequest, external}
use stelfin.Ledger
use stelfin.Ledger.Books.{Books, post, balance}
use stelfin.Ledger.Registry.{ensure_asset, ensure_account}
use stelfin.Ingestion.{
  Error, TrackedAddress, Movement, Record, Ingester, Act, return, continue, ◌>>=◌, on_books,
  find_tracked, lookup,
}
use stelfin.Ingestion.Apply.{
  OrgEntry, external_for, resolve_asset, leaving, entering, across, entries_for, try_post,
  post_request, open_balance, retry, post_entry, post_all, apply_movement, open_and_post,
  post_movement, apply_movements, apply_close, apply, key_of, request_of, opening_request,
  untracked, remember, release,
}

-- A property of the ingester that every such step preserves.
pub record Preserved (hash lower : Bytes → Bytes) (P : Ingester → Type 0) : Type 0 where
  pub account_ensured :
      (i : Ingester) (org : ℕ)
      → P i
      → P (record i { books = (ensure_account lower i.books org external [] (codes "external")).0 })
  pub asset_ensured :
      (i : Ingester) (code issuer : Bytes)
      → P i
      → P (record i { books = (ensure_asset i.books code issuer).0 })
  pub posted :
      (i : Ingester) (q : PostRequest) (id : ℕ) (b : Books)
      → P i
      → post hash i.books q ≡ ok (id, b)
      → P (record i { books = b })
  pub remembered : (i : Ingester) (org id : ℕ) → P i → P (remember org id i)
  pub released : (i : Ingester) (ts : List TrackedAddress) → P i → P (record i { tracked = ts })

module _ (hash lower : Bytes → Bytes) (P : Ingester → Type 0) (law : Preserved hash lower P) where
  -- What an action may do to the books.
  pub Keeps : {A : Type 0} → Act A → Type 0
  Keeps m = (i : Ingester) → P i → P (m i).0

  continue-Keeps :
      {A B : Type 0} (f : A → Act B)
      → ((a : A) → Keeps (f a))
      → (r : Ingester × Result Error A) → P r.0
      → P (continue f r).0
  unfolding Keeps
  continue-Keeps f kf (i', ok a) w = kf a i' w
  continue-Keeps f kf (i', err e) w = w

  >>=-Keeps :
      {A B : Type 0} (m : Act A) (f : A → Act B)
      → Keeps m
      → ((a : A) → Keeps (f a))
      → Keeps (m >>= f)
  unfolding Keeps
  >>=-Keeps m f km kf i v = continue-Keeps f kf (m i) (km i v)

  return-Keeps : {A : Type 0} (a : A) → Keeps (return a)
  unfolding Keeps
  return-Keeps a i v = v

  external_for-Keeps : (org : ℕ) → Keeps (external_for hash lower org)
  unfolding Keeps external_for
  external_for-Keeps org i v = elim (Option-cases (lookup org i.external_of)) [
    | inr (id, e) ↦ rw (e, external_for) v
    | inl e ↦
        rw (e, external_for)
          (continue-Keeps (λ id i'. (remember org id i', ok id))
            (λ id i w. law.remembered i org id w)
            (on_books (λ b. ensure_account lower b org external [] (codes "external")) i)
            (law.account_ensured i org v))
  ]

  resolve_asset-Keeps :
      (asset_type code issuer : Bytes) → Keeps (resolve_asset hash lower asset_type code issuer)
  unfolding Keeps resolve_asset
  resolve_asset-Keeps asset_type code issuer i v =
      elim (Bool-cases (bytes_eq asset_type (codes "native"))) [
        | inl e ↦ rw (e, resolve_asset) (law.asset_ensured i (codes "XLM") [] v)
        | inr e ↦ elim (Bool-cases (is_empty code || is_empty issuer)) [
          | inl k ↦ rw (e, k, resolve_asset) v
          | inr k ↦ rw (e, k, resolve_asset) (law.asset_ensured i code issuer v)
        ]
      ]

  leaving-Keeps :
      (t : Option TrackedAddress) (asset : ℕ) (amount : Stroops)
      → Keeps (leaving hash lower t asset amount)
  unfolding leaving
  leaving-Keeps none asset amount = return-Keeps []
  leaving-Keeps (some t) asset amount =
      >>=-Keeps (external_for hash lower t.org) _ (external_for-Keeps t.org) (λ ext. return-Keeps _)

  entering-Keeps :
      (t : Option TrackedAddress) (asset : ℕ) (amount : Stroops)
      → Keeps (entering hash lower t asset amount)
  unfolding entering
  entering-Keeps none asset amount = return-Keeps []
  entering-Keeps (some t) asset amount =
      >>=-Keeps (external_for hash lower t.org) _ (external_for-Keeps t.org) (λ ext. return-Keeps _)

  across-Keeps :
      (from to : Option TrackedAddress) (asset : ℕ) (amount : Stroops)
      → Keeps (across hash lower from to asset amount)
  across-Keeps from to asset amount =
      >>=-Keeps (leaving hash lower from asset amount) _ (leaving-Keeps from asset amount) (λ out.
        >>=-Keeps (entering hash lower to asset amount) _ (entering-Keeps to asset amount)
          (λ into. return-Keeps _))

  entries_for-Keeps :
      (from to : Option TrackedAddress) (asset : ℕ) (amount : Stroops)
      → Keeps (entries_for hash lower from to asset amount)
  unfolding entries_for
  entries_for-Keeps none to asset amount = across-Keeps none to asset amount
  entries_for-Keeps (some from) none asset amount = across-Keeps (some from) none asset amount
  entries_for-Keeps (some from) (some to) asset amount = elim (Bool-cases (from.org == to.org)) [
    | inl e ↦ rw (e, entries_for) (return-Keeps _)
    | inr e ↦ rw (e, entries_for) (across-Keeps (some from) (some to) asset amount)
  ]

  try_post_lem : (q : PostRequest) (i : Ingester) → P i → P (try_post hash lower q i).0
  try_post_lem q i v = elim (Result-cases (post hash i.books q)) [
    | inl ((id, books), e) ↦ rw e (law.posted i q id books v e)
    | inr (error, e) ↦ rw e v
  ]

  open_balance-Keeps :
      (r : Record) (key : Bytes) (from : TrackedAddress) (asset : ℕ) (amount : Stroops)
      → Keeps (open_balance hash lower r key from asset amount)
  unfolding Keeps open_balance
  open_balance-Keeps r key from asset amount i v =
      let short = wrap (amount -ℤ balance i.books from.org from.account asset) in
      elim (Bool-cases (leb_ℤ short (pos 0))) [
        | inl e ↦ rw (e, open_balance) v
        | inr e ↦
            rw (e, open_balance)
              (>>=-Keeps (external_for hash lower from.org)
                (λ ext.
                  post_request hash lower (opening_request r key from ext asset short) >>= λ id.
                  return tt)
                (external_for-Keeps from.org)
                (λ ext.
                  >>=-Keeps (post_request hash lower (opening_request r key from ext asset short))
                    (λ id. return tt) (try_post_lem (opening_request r key from ext asset short))
                    (λ id. return-Keeps tt))
                i v)
      ]

  post_request-Keeps : (q : PostRequest) → Keeps (post_request hash lower q)
  unfolding Keeps
  post_request-Keeps q i v = try_post_lem q i v

  open_and_post-Keeps :
      (r : Record) (key : Bytes) (from : TrackedAddress) (asset : ℕ) (amount : Stroops)
      (e : OrgEntry)
      → Keeps (open_and_post hash lower r key from asset amount e)
  unfolding open_and_post
  open_and_post-Keeps r key from asset amount e =
      >>=-Keeps (open_balance hash lower r key from asset amount)
        (λ _. post_request hash lower (request_of r key e))
        (open_balance-Keeps r key from asset amount) (λ _. post_request-Keeps (request_of r key e))

  retry_lem :
      (r : Record) (key : Bytes) (from : Option TrackedAddress) (asset : ℕ) (amount : Stroops)
      (e : OrgEntry) (error : Ledger.Error) (i : Ingester)
      → P i
      → P (retry hash lower r key from asset amount e i error).0
  unfolding Keeps
  retry_lem r key none asset amount e error i v = v
  retry_lem r key (some from) asset amount e Ledger.Error.insufficient_funds i v =
      elim (Bool-cases (e.org == from.org)) [
        | inl q ↦ rw q (open_and_post-Keeps r key from asset amount e i v)
        | inr q ↦ rw q v
      ]
  retry_lem r key (some from) asset amount e _ i v = v

  post_entry-Keeps :
      (r : Record) (key : Bytes) (from : Option TrackedAddress) (asset : ℕ) (amount : Stroops)
      (e : OrgEntry)
      → Keeps (post_entry hash lower r key from asset amount e)
  unfolding Keeps post_entry
  post_entry-Keeps r key from asset amount e i v =
      elim (Result-cases (post hash i.books (request_of r key e))) [
        | inl ((id, books), q) ↦ rw (q, post_entry) (law.posted i (request_of r key e) id books v q)
        | inr (error, q) ↦ rw (q, post_entry) (retry_lem r key from asset amount e error i v)
      ]

  post_all-Keeps :
      (r : Record) (key : Bytes) (from : Option TrackedAddress) (asset : ℕ) (amount : Stroops)
      (es : List OrgEntry)
      → Keeps (post_all hash lower r key from asset amount es)
  unfolding post_all
  post_all-Keeps r key from asset amount [] = return-Keeps tt
  post_all-Keeps r key from asset amount (e ∷ es) =
      >>=-Keeps (post_entry hash lower r key from asset amount e) _
        (post_entry-Keeps r key from asset amount e)
        (λ _. post_all-Keeps r key from asset amount es)

  post_movement-Keeps :
      (r : Record) (n : ℕ) (m : Movement) (from to : Option TrackedAddress)
      → Keeps (post_movement hash lower r n m from to)
  unfolding post_movement
  post_movement-Keeps r n m from to =
      >>=-Keeps (resolve_asset hash lower m.asset_type m.asset_code m.asset_issuer) _
        (resolve_asset-Keeps m.asset_type m.asset_code m.asset_issuer)
        (λ asset.
          >>=-Keeps (entries_for hash lower from to asset m.amount) _
            (entries_for-Keeps from to asset m.amount)
            (λ es. post_all-Keeps r (key_of r n) from asset m.amount es))

  apply_movement-Keeps :
      (r : Record) (n : ℕ) (m : Movement) → Keeps (apply_movement hash lower r n m)
  unfolding Keeps apply_movement post_movement
  apply_movement-Keeps r n m i v =
      let from = find_tracked m.from i.tracked in
      let to = find_tracked m.to i.tracked in
      elim (Bool-cases (untracked hash lower from to)) [
        | inl e ↦ rw (e, apply_movement) v
        | inr e ↦ elim (Bool-cases m.is_unreadable) [
          | inl k ↦ rw (e, k, apply_movement) v
          | inr k ↦ elim (Bool-cases (leb_ℤ (sign m.amount) (pos 0))) [
            | inl p ↦ rw (e, k, p, apply_movement) v
            | inr p ↦ rw (e, k, p, apply_movement) (post_movement-Keeps r n m from to i v)
          ]
        ]
      ]

  apply_movements-Keeps :
      (r : Record) (n : ℕ) (ms : List Movement) → Keeps (apply_movements hash lower r n ms)
  unfolding apply_movements
  apply_movements-Keeps r n [] = return-Keeps tt
  apply_movements-Keeps r n (m ∷ ms) =
      >>=-Keeps (apply_movement hash lower r n m) _ (apply_movement-Keeps r n m)
        (λ _. apply_movements-Keeps r (suc n) ms)

  apply_close-Keeps : (address : Bytes) → Keeps (apply_close hash lower address)
  unfolding Keeps apply_close
  apply_close-Keeps address i v = elim (Option-cases (find_tracked address i.tracked)) [
    | inl e ↦ rw (e, apply_close) v
    | inr (t, e) ↦
        rw (e, apply_close) (law.released i (release hash lower t.org address i.tracked) v)
  ]

  closing-Keeps :
      (closed : Bytes)
      → Keeps (if is_empty closed then return tt else apply_close hash lower closed)
  closing-Keeps [] = return-Keeps tt
  closing-Keeps (c ∷ closed) = apply_close-Keeps (c ∷ closed)

  pub apply-Keeps : (r : Record) → Keeps (apply hash lower r)
  unfolding apply
  apply-Keeps r =
      >>=-Keeps (apply_movements hash lower r 0 r.movements) _
        (apply_movements-Keeps r 0 r.movements) (λ _. closing-Keeps r.closed)

  pub apply-preserves : (r : Record) (i : Ingester) → P i → P (apply hash lower r i).0
  unfolding Keeps
  apply-preserves r i v = apply-Keeps r i v
