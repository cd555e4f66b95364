-- ===== src/Ledger/Fingerprint.antt =====
-- `PostRequest.fingerprint` of ledger/ledger.go: the bytes that are hashed. SHA-256 is the argument
-- `hash`. sort.Slice is an insertion sort: lines that the order does not tell apart are equal.
pub mod Order
pub mod Encoding
use stelfin.Prelude.{
  ℕ, zero, suc, ◌+◌, ◌*◌, ◌/◌, ◌%◌, ◌^◌, List, [], ◌∷◌, ◌++◌, Bool, not, ltb, ◌==◌, if◌then◌else◌,
  length,
}
use stelfin.Prelude.Int.{ℤ, pos, ltb_ℤ, eqb_ℤ, to_word}
use stelfin.Text.{Bytes}
use stelfin.Ledger.{Posting, PostRequest, Time, unset, at_nano}

unfoldable pub less : Posting → Posting → Bool
less a b =
    if not (a.account == b.account)
    then ltb a.account b.account
    else if not (a.asset == b.asset)
    then ltb a.asset b.asset
    else ltb_ℤ a.amount b.amount

unfoldable pub insert : Posting → List Posting → List Posting
insert p [] = p ∷ []
insert p (q ∷ qs) = let rest = insert p qs in if less q p then q ∷ rest else p ∷ q ∷ qs

unfoldable pub sort : List Posting → List Posting
unfolding insert
sort [] = []
sort (p ∷ ps) = insert p (sort ps)

-- The last `n` bytes of `v`, the highest first.
unfoldable pub big_endian : ℕ → ℕ → Bytes
big_endian zero v = []
big_endian (suc n) v = big_endian n (v / 256) ++ v % 256 ∷ []

unfoldable pub put_uint64 : ℕ → Bytes
unfolding big_endian
put_uint64 = big_endian 8

unfoldable pub write_int : ℤ → Bytes
write_int v = put_uint64 (to_word v)

unfoldable pub write_string : Bytes → Bytes
write_string s = put_uint64 (length s) ++ s

-- UnixNano of the zero time is not defined by the package time; `validate` refuses it first.
unfoldable pub unix_nano : Time → ℤ
unix_nano unset = pos 0
unix_nano (at_nano n) = n

unfoldable pub write_postings : List Posting → Bytes
write_postings [] = []
write_postings (p ∷ ps) =
    write_int (pos p.account)
    ++ (write_int (pos p.asset) ++ (write_int p.amount ++ write_postings ps))

-- What is written to the hash.
unfoldable pub preimage : PostRequest → Bytes
preimage r =
    let postings = sort r.postings in
    write_int (pos r.org)
    ++ (write_string r.kind
        ++ (write_string r.external_ref
            ++ (write_int (unix_nano r.occurred_at)
                ++ (write_int (pos (length postings)) ++ write_postings postings))))

unfoldable pub fingerprint : (Bytes → Bytes) → PostRequest → Bytes
fingerprint hash r = hash (preimage r)
