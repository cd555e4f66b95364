-- ===== src/Ingestion/Consistent.antt =====
-- Whatever a source returns, the books stay consistent.
use stelfin.Prelude.{List, [], ◌∷◌, inl, inr, Result, Result-cases}
use stelfin.Text.{Bytes, codes}
use stelfin.Ledger.{external}
use stelfin.Ledger.Books.Invariant.{IsConsistent, post-IsConsistent}
use stelfin.Ledger.Registry.Consistent.{ensure_asset-IsConsistent, ensure_account-IsConsistent}
use stelfin.Ingestion.{Error, Record, Ingester, load_cursor, save_cursor}
use stelfin.Ingestion.Apply.{apply, consume, once}
use stelfin.Ingestion.Preserve.{Preserved, apply-preserves}

module _ (hash lower : Bytes → Bytes) where
  books-Preserved : Preserved hash lower (λ i. IsConsistent i.books)
  books-Preserved = record {
    account_ensured =
        λ i org v. ensure_account-IsConsistent lower i.books org external [] (codes "external") v;
    asset_ensured = λ i code issuer v. ensure_asset-IsConsistent i.books code issuer v;
    posted = λ i q id b v e. post-IsConsistent hash i.books q v e;
    remembered = λ i org id v. v;
    released = λ i ts v. v;
  }

  consume-IsConsistent :
      (stream : Bytes) (rs : List Record) (i : Ingester)
      → IsConsistent i.books
      → IsConsistent (consume hash lower stream rs i).0.books
  unfolding consume save_cursor
  consume-IsConsistent stream [] i v = v
  consume-IsConsistent stream (r ∷ rs) i v =
      let applied = apply-preserves hash lower (λ i. IsConsistent i.books) books-Preserved r i v in
      elim (Result-cases (apply hash lower r i).1) [
        | inr (e, q) ↦ rw (q, consume) applied
        | inl (_, q) ↦
            rw (q, consume)
              (consume-IsConsistent stream rs
                (save_cursor stream r.cursor (apply hash lower r i).0).0 applied)
      ]

  -- A round of ingestion keeps consistent books consistent, whatever the source returns and wherever the
  -- round stops.
  pub once-IsConsistent :
      (stream : Bytes) (fetch : Bytes → Result Error (List Record)) (i : Ingester)
      → IsConsistent i.books
      → IsConsistent (once hash lower stream fetch i).0.books
  unfolding once
  once-IsConsistent stream fetch i v = elim (Result-cases (fetch (load_cursor stream i))) [
    | inr (e, q) ↦ rw (q, once) v
    | inl (rs, q) ↦ rw (q, once) (consume-IsConsistent stream rs i v)
  ]
