-- ===== src/Ledger/Books/Replay.antt =====
-- Posting a key again.
use stelfin.Prelude.{
  ℕ, List, [], ◌∷◌, ◌++◌, true, if◌then◌else◌, ◌≡◌, inl, inr, refl, sym, ap, ◌∙◌, arith, Result, ok,
  err, ◌>>=◌, none, some,
}
use stelfin.Text.{Bytes, bytes_eq}
use stelfin.Text.Equality.{bytes_eq_refl, bytes_eq_sound}
use stelfin.Ledger.{PostRequest, Error, validate}
use stelfin.Ledger.Fingerprint.{fingerprint, preimage}
use stelfin.Ledger.Fingerprint.Encoding.{SameContent, SameContent-preimage}
use stelfin.Ledger.Books.{TxRow, Books, find_key, row_allowed, resolve_replay, new_row, post}
use stelfin.Ledger.Books.Invariant.{post-cases}

-- A new row is found under its key where no row was before it.
find_key-snoc :
    (org : ℕ) (key : Bytes) (ts : List TxRow) (t : TxRow)
    → find_key org key ts ≡ none
    → t.org ≡ org
    → t.idempotency_key ≡ key
    → find_key org key (ts ++ t ∷ []) ≡ some t
unfolding find_key
find_key-snoc org key [] t h o k = rw (o, k) (ground (arith, bytes_eq_refl key))
find_key-snoc org key (x ∷ ts) t h o k = ground (arith, find_key-snoc org key ts t)

-- What a row found under a key answers to a request with that key.
answer : Books → TxRow → Bytes → Result Error (ℕ × Books)
answer b row print = do id ← resolve_replay row print; ok (id, b)

post-found :
    (hash : Bytes → Bytes) (b : Books) (r : PostRequest) (row : TxRow)
    → validate r ≡ ok tt
    → row_allowed r ≡ true
    → find_key r.org r.idempotency_key b.transactions ≡ some row
    → post hash b r ≡ answer b row (fingerprint hash r)
unfolding post answer
post-found hash b r row v a f = rw (v, a, f) refl

resolved_row :
    (row : TxRow) (want : Bytes) (k : ℕ)
    → resolve_replay row want ≡ ok k
    → (row.id ≡ k) × (row.request_fingerprint ≡ want)
unfolding resolve_replay
resolved_row row want k e =
    (ground arith, ground (arith, bytes_eq_sound row.request_fingerprint want))

answer-eq :
    (b : Books) (row : TxRow) (print want : Bytes) (id : ℕ)
    → row.id ≡ id
    → row.request_fingerprint ≡ print
    → answer b row want
      ≡ (if bytes_eq print want then ok (id, b) else err Error.idempotency_key_reused)
unfolding answer resolve_replay
answer-eq b row print want id e f = ground arith

-- The row that a successful `Post` leaves under its key.
pub post-row :
    (hash : Bytes → Bytes) (b : Books) (r : PostRequest) {id : ℕ} {b' : Books}
    → post hash b r ≡ ok (id, b')
    → (row : TxRow) × (find_key r.org r.idempotency_key b'.transactions ≡ some row)
      × (row.id ≡ id)
      × (row.request_fingerprint ≡ fingerprint hash r)
post-row hash b r {id} {b'} h = elim (post-cases hash b r h) [
  | inl (row, found, resolved, same) ↦
      let (same_id, same_print) = resolved_row row (fingerprint hash r) id resolved in
      (
        row,
        ap (λ t. find_key r.org r.idempotency_key t.transactions) same ∙ found,
        same_id,
        same_print,
      )
  | inr (absent, next, p) ↦ (
    new_row b r (fingerprint hash r),
    ap (find_key r.org r.idempotency_key) p.inserted.transactions
        ∙ find_key-snoc r.org r.idempotency_key b.transactions _ absent refl refl,
    sym next,
    refl,
  )
]

-- After a `Post` that succeeded, a valid request under the same org and key that the row's checks allow
-- is answered from the stored fingerprint: with an equal one it gets the first id back and the books
-- stay as they are, and with another it is refused.
pub post_again :
    (hash : Bytes → Bytes) (b : Books) (r q : PostRequest) {id : ℕ} {b' : Books}
    → post hash b r ≡ ok (id, b')
    → q.org ≡ r.org
    → q.idempotency_key ≡ r.idempotency_key
    → validate q ≡ ok tt
    → row_allowed q ≡ true
    → post hash b' q ≡ (
        if bytes_eq (fingerprint hash r) (fingerprint hash q)
        then ok (id, b')
        else err Error.idempotency_key_reused)
post_again hash b r q {id} {b'} h o k v a =
    let (row, found, same_id, print) = post-row hash b r h in
    post-found hash b' q row v a (rw (o, k) found)
    ∙ answer-eq b' row (fingerprint hash r) (fingerprint hash q) id same_id print

-- After a `Post` that succeeded, a valid request with the same key and content that the row's checks
-- allow gets the first id back and changes nothing, also when it lists its lines in another order.
pub post_reordered :
    (hash : Bytes → Bytes) (b : Books) (r q : PostRequest) {id : ℕ} {b' : Books}
    → post hash b r ≡ ok (id, b')
    → q.idempotency_key ≡ r.idempotency_key
    → SameContent r q
    → validate q ≡ ok tt
    → row_allowed q ≡ true
    → post hash b' q ≡ ok (id, b')
unfolding fingerprint
post_reordered hash b r q {id} {b'} h k same v a =
    post_again hash b r q h (sym same.0) k v a
    ∙ rw (SameContent-preimage r q same, bytes_eq_refl (hash (preimage q)))
