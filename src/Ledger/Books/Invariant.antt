-- ===== src/Ledger/Books/Invariant.antt =====
-- What `Post` keeps true of the books.
use stelfin.Prelude.{
  ℕ, suc, ◌<◌, List, [], ◌∷◌, ◌++◌, true, ◌≡◌, ◌≢◌, ◌⊎◌, inl, inr, sym, ap, ◌∙◌, subst, arith, ok,
  none, some, all, All, All-append, Option-cases, >>=-eq-ok, refuse_if-eq-ok, ok-injective, not,
  append-nil, ℕ_discrete,
}
use stelfin.Prelude.Int.{pos, int_laws}
use stelfin.Text.{Bytes}
use stelfin.Ledger.{Posting, PostRequest, Error, validate}
use stelfin.Ledger.Fingerprint.{fingerprint}
use stelfin.Ledger.Books.{
  TxRow, Entry, Books, find_key, row_allowed, lines_of, sum_asset, belongs_to, resolve_replay,
  new_row, post,
}
use stelfin.Ledger.Books.Entries.{
  entries_for, BalancesHold, sum_asset-append, lines_of-append, lines_of-own, lines_of-other,
  lines_of-fresh, assert_balanced_sound,
}
use stelfin.Ledger.Books.Inserting.{Posted, Known, insert_transaction-Posted}

-- Balances agree with the lines; the lines of each transaction cancel in every asset, and so do all
-- lines together; no transaction touches an account of another org; every line names an account that
-- exists; ids of new rows are unused.
pub record IsConsistent (b : Books) : Type 0 where
  pub holds : BalancesHold b
  pub fresh : All (λ e. e.transaction < b.next_id) b.entries
  pub rows : All (λ t. t.id < b.next_id) b.transactions
  pub balanced : (id s : ℕ) → sum_asset s (lines_of id b.entries) ≡ pos 0
  pub closed : (s : ℕ) → sum_asset s b.entries ≡ pos 0
  pub known : All (Known b.accounts) b.entries
  pub numbered : All (λ x. x.id < b.next_account) b.accounts
  pub single_org :
      All (λ t. all (belongs_to t.org b.accounts) (lines_of t.id b.entries) ≡ true) b.transactions

-- A successful `Post` found its key with the same fingerprint and changed nothing, or the key was
-- new and the transaction has been written under the next id.
pub post-cases :
    (hash : Bytes → Bytes) (b : Books) (r : PostRequest) {id : ℕ} {b' : Books}
    → post hash b r ≡ ok (id, b')
    → ((row : TxRow) × (find_key r.org r.idempotency_key b.transactions ≡ some row)
        × (resolve_replay row (fingerprint hash r) ≡ ok id)
        × (b' ≡ b))
      ⊎ ((find_key r.org r.idempotency_key b.transactions ≡ none)
          × (id ≡ b.next_id)
          × Posted b r (fingerprint hash r) b')
unfolding post
post-cases hash b r {id} {b'} h =
    let (_, _, h') = >>=-eq-ok (validate r) _ h in
    let (_, h'') = refuse_if-eq-ok (not (row_allowed r)) Error.database _ h' in
    elim (Option-cases (find_key r.org r.idempotency_key b.transactions)) [
      | inl e ↦
          let (next, posted) = insert_transaction-Posted b r (fingerprint hash r) (rw e at h'') in
          inr (e, next, posted)
      | inr (row, e) ↦
          let (x, found, done) =
            >>=-eq-ok (resolve_replay row (fingerprint hash r)) _ (rw e at h'') in
          let same = ok-injective done in
          inl (row, e, found ∙ ap ok (ap (λ t. t.0) same), sym (ap (λ t. t.1) same))
    ]

fresh-weaken :
    (n : ℕ) (es : List Entry)
    → All (λ e. e.transaction < n) es
    → All (λ e. e.transaction < suc n) es
fresh-weaken n [] h = tt
fresh-weaken n (e ∷ es) (he, hs) = (omega arith, fresh-weaken n es hs)

fresh-own : (n : ℕ) (ps : List Posting) → All (λ e. e.transaction < suc n) (entries_for n ps)
fresh-own n [] = tt
fresh-own n (p ∷ ps) = (omega arith, fresh-own n ps)

rows-weaken : (n : ℕ) (ts : List TxRow) → All (λ t. t.id < n) ts → All (λ t. t.id < suc n) ts
rows-weaken n [] h = tt
rows-weaken n (t ∷ ts) (ht, hs) = (omega arith, rows-weaken n ts hs)

module _ (b : Books) (r : PostRequest) (print : Bytes) (b' : Books) (v : IsConsistent b)
    (p : Posted b r print b') where
  entries-eq : b'.entries ≡ b.entries ++ entries_for b.next_id r.postings
  entries-eq = p.inserted.entries

  lines_of-new : lines_of b.next_id b'.entries ≡ entries_for b.next_id r.postings
  lines_of-new =
      ap (lines_of b.next_id) entries-eq
      ∙ lines_of-append b.next_id b.entries (entries_for b.next_id r.postings)
      ∙ rw (lines_of-fresh b.next_id b.entries v.fresh) (lines_of-own b.next_id r.postings)

  lines_of-old : (id : ℕ) → b.next_id ≢ id → lines_of id b'.entries ≡ lines_of id b.entries
  lines_of-old id h =
      ap (lines_of id) entries-eq
      ∙ lines_of-append id b.entries (entries_for b.next_id r.postings)
      ∙ rw (lines_of-other b.next_id id r.postings h) (append-nil (lines_of id b.entries))

  new-balanced : (s : ℕ) → sum_asset s (lines_of b.next_id b'.entries) ≡ pos 0
  new-balanced s = assert_balanced_sound s (lines_of b.next_id b'.entries) p.balanced

  posted-balanced : (id s : ℕ) → sum_asset s (lines_of id b'.entries) ≡ pos 0
  posted-balanced id s = elim (ℕ_discrete b.next_id id) [
    | yes e ↦ subst (λ k. sum_asset s (lines_of k b'.entries) ≡ pos 0) e (new-balanced s)
    | no h ↦ rw (lines_of-old id h) (v.balanced id s)
  ]

  posted-closed : (s : ℕ) → sum_asset s b'.entries ≡ pos 0
  posted-closed s =
      ap (sum_asset s) entries-eq
      ∙ sum_asset-append s b.entries (entries_for b.next_id r.postings)
      ∙ rw (v.closed s, ← lines_of-new, new-balanced s) (omega int_laws)

  single_org-old :
      (ts : List TxRow)
      → All (λ t. t.id < b.next_id) ts
      → All (λ t. all (belongs_to t.org b.accounts) (lines_of t.id b.entries) ≡ true) ts
      → All (λ t. all (belongs_to t.org b'.accounts) (lines_of t.id b'.entries) ≡ true) ts
  single_org-old [] _ _ = tt
  single_org-old (t ∷ ts) (old, olds) (h, hs) =
      (rw (p.inserted.accounts, lines_of-old t.id (omega arith)) h, single_org-old ts olds hs)

  posted-IsConsistent : IsConsistent b'
  posted-IsConsistent = record {
    holds = p.holds v.holds;
    fresh =
        rw (p.inserted.next_id, entries-eq)
          (All-append (λ e. e.transaction < suc b.next_id) b.entries
            (entries_for b.next_id r.postings) (fresh-weaken b.next_id b.entries v.fresh)
            (fresh-own b.next_id r.postings));
    rows =
        rw (p.inserted.next_id, p.inserted.transactions)
          (All-append (λ t. t.id < suc b.next_id) b.transactions (new_row b r print ∷ [])
            (rows-weaken b.next_id b.transactions v.rows) (omega arith, tt));
    balanced = posted-balanced;
    closed = posted-closed;
    known =
        rw (p.inserted.accounts, entries-eq)
          (All-append (Known b.accounts) b.entries (entries_for b.next_id r.postings) v.known
            p.known);
    numbered = rw (p.inserted.accounts, p.inserted.next_account) v.numbered;
    single_org = rw p.inserted.transactions (
        All-append (λ t. all (belongs_to t.org b'.accounts) (lines_of t.id b'.entries) ≡ true)
          b.transactions (new_row b r print ∷ [])
          (single_org-old b.transactions v.rows v.single_org) (p.single, tt));
  }

-- A `Post` that succeeds keeps consistent books consistent: the stored balances are the sums of the
-- lines and covered, each transaction and the whole books cancel in every asset, and no transaction
-- touches an account of another org.
pub post-IsConsistent :
    (hash : Bytes → Bytes) (b : Books) (r : PostRequest) {id : ℕ} {b' : Books}
    → IsConsistent b
    → post hash b r ≡ ok (id, b')
    → IsConsistent b'
post-IsConsistent hash b r {id} {b'} v h = elim (post-cases hash b r h) [
  | inl (row, _, _, same) ↦ subst IsConsistent (sym same) v
  | inr (_, _, posted) ↦ posted-IsConsistent b r (fingerprint hash r) b' v posted
]
