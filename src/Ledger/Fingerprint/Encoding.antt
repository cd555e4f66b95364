-- ===== src/Ledger/Fingerprint/Encoding.antt =====
-- What is hashed determines the content of the request.
use mathlib.Core.List.{Perm}
use mathlib.Core.List.Perm
use native.Mathlib.Nat.{pow-suc}
use stelfin.Prelude.{
  append-injective, ℕ, zero, suc, ◌/◌, ◌%◌, ◌^◌, ◌<◌, List, [], ◌∷◌, ◌++◌, ◌≡◌, ◌↔◌, refl, sym, ◌∙◌,
  subst, arith, length, length-append, All, append_assoc,
}
use stelfin.Prelude.Int.{ℤ, pos, negsuc, IsInt64, half, to_word}
use stelfin.Text.{Bytes}
use stelfin.Ledger.{Posting, PostRequest}
use stelfin.Ledger.Fingerprint.{
  insert, sort, big_endian, put_uint64, write_int, write_string, unix_nano, write_postings,
  preimage,
}
use stelfin.Ledger.Fingerprint.Order.{sort-perm, sort-Perm}

length-big_endian : (n v : ℕ) → length (big_endian n v) ≡ n
unfolding big_endian
length-big_endian zero v = refl
length-big_endian (suc n) v =
    omega
      (arith, length-append (big_endian n (v / 256)) (v % 256 ∷ []), length-big_endian n (v / 256))

single : {a b : ℕ} → ◌≡◌ {A = Bytes} (a ∷ []) (b ∷ []) → a ≡ b
single e = cc

big_endian-injective :
    (n v w : ℕ) → v < 256 ^ n → w < 256 ^ n → big_endian n v ≡ big_endian n w → v ≡ w
unfolding big_endian
big_endian-injective zero v w hv hw e = omega arith
big_endian-injective (suc n) v w hv hw e =
    let same-length = length-big_endian n (v / 256) ∙ sym (length-big_endian n (w / 256)) in
    let (high, low) =
      append-injective (big_endian n (v / 256)) (v % 256 ∷ []) (big_endian n (w / 256))
        (w % 256 ∷ []) same-length e in
    omega (
      arith,
      big_endian-injective n (v / 256) (w / 256) (omega (arith, pow-suc 256 n))
          (omega (arith, pow-suc 256 n)) high,
      single low,
    )

length-put_uint64 : (v : ℕ) → length (put_uint64 v) ≡ 8
unfolding put_uint64
length-put_uint64 v = length-big_endian 8 v

put_uint64-injective : (v w : ℕ) → v < 2 ^ 64 → w < 2 ^ 64 → put_uint64 v ≡ put_uint64 w → v ≡ w
unfolding put_uint64
put_uint64-injective v w hv hw e = big_endian-injective 8 v w (omega arith) (omega arith) e

to_word-injective : (a b : ℤ) → IsInt64 a → IsInt64 b → to_word a ≡ to_word b → a ≡ b
to_word-injective (pos m) (pos n) ha hb e = ground arith
to_word-injective (pos m) (negsuc n) ha hb e = ground arith
to_word-injective (negsuc m) (pos n) ha hb e = ground arith
to_word-injective (negsuc m) (negsuc n) ha hb e = ground arith

to_word-lt : (a : ℤ) → to_word a < 2 ^ 64
to_word-lt (pos n) = omega arith
to_word-lt (negsuc n) = omega arith

-- One written integer, with what follows it.
write_int-injective :
    (a b : ℤ) (xs ys : Bytes)
    → IsInt64 a
    → IsInt64 b
    → write_int a ++ xs ≡ write_int b ++ ys
    → (a ≡ b) × (xs ≡ ys)
unfolding write_int
write_int-injective a b xs ys ha hb e =
    let same = length-put_uint64 (to_word a) ∙ sym (length-put_uint64 (to_word b)) in
    let (first, rest) =
      append-injective (put_uint64 (to_word a)) xs (put_uint64 (to_word b)) ys same e in
    (
      to_word-injective a b ha hb
          (put_uint64-injective (to_word a) (to_word b) (to_word-lt a) (to_word-lt b) first),
      rest,
    )

write_string-injective :
    (s t xs ys : Bytes)
    → length s < 2 ^ 64
    → length t < 2 ^ 64
    → write_string s ++ xs ≡ write_string t ++ ys
    → (s ≡ t) × (xs ≡ ys)
unfolding write_string
write_string-injective s t xs ys hs ht e =
    let ls = put_uint64 (length s) in
    let lt = put_uint64 (length t) in
    let same = length-put_uint64 (length s) ∙ sym (length-put_uint64 (length t)) in
    let (first, rest) =
      append-injective ls (s ++ xs) lt (t ++ ys) same
        (sym (append_assoc ls s xs) ∙ e ∙ append_assoc lt t ys) in
    append-injective s xs t ys (put_uint64-injective (length s) (length t) hs ht first) rest

-- The ids and the amount of a line fit their Go types.
abbrev pub InRange : Posting → Type 0
InRange p = (p.account < half) × (p.asset < half) × IsInt64 p.amount

write_postings-injective :
    (ps qs : List Posting)
    → All InRange ps
    → All InRange qs
    → length ps ≡ length qs
    → write_postings ps ≡ write_postings qs
    → ps ≡ qs
unfolding write_postings
write_postings-injective [] [] _ _ l e = refl
write_postings-injective [] (q ∷ qs) _ _ l e = absurd (omega arith)
write_postings-injective (p ∷ ps) [] _ _ l e = absurd (omega arith)
write_postings-injective (p ∷ ps) (q ∷ qs) (hp, hps) (hq, hqs) l e =
    let (account, e₁) =
      write_int-injective (pos p.account) (pos q.account) _ _ (omega arith) (omega arith) e in
    let (asset, e₂) =
      write_int-injective (pos p.asset) (pos q.asset) _ _ (omega arith) (omega arith) e₁ in
    let (amount, e₃) = write_int-injective p.amount q.amount _ _ hp.2 hq.2 e₂ in
    let rest = write_postings-injective ps qs hps hqs (omega arith) e₃ in ground arith

length-insert : (p : Posting) (ps : List Posting) → length (insert p ps) ≡ suc (length ps)
unfolding insert
length-insert p [] = refl
length-insert p (q ∷ qs) = ground (arith, length-insert p qs)

length-sort : (ps : List Posting) → length (sort ps) ≡ length ps
unfolding sort
length-sort [] = refl
length-sort (p ∷ ps) = omega (arith, length-insert p (sort ps), length-sort ps)

insert-All :
    (p : Posting) (ps : List Posting) → InRange p → All InRange ps → All InRange (insert p ps)
unfolding insert
insert-All p [] hp hs = (hp, tt)
insert-All p (q ∷ qs) hp (hq, hs) = ground (arith, insert-All p qs hp hs)

sort-All : (ps : List Posting) → All InRange ps → All InRange (sort ps)
unfolding sort
sort-All [] h = tt
sort-All (p ∷ ps) (hp, hs) = insert-All p (sort ps) hp (sort-All ps hs)

-- Every field of a request fits its Go type.
abbrev pub Fits : PostRequest → Type 0
Fits r =
    (r.org < half)
    × (length r.kind < half)
    × (length r.external_ref < half)
    × IsInt64 (unix_nano r.occurred_at)
    × (length r.postings < half)
    × All InRange r.postings

-- The content that the fingerprint stands for.
abbrev pub SameContent : PostRequest → PostRequest → Type 0
SameContent r q =
    (r.org ≡ q.org)
    × (r.kind ≡ q.kind)
    × (r.external_ref ≡ q.external_ref)
    × (unix_nano r.occurred_at ≡ unix_nano q.occurred_at)
    × Perm r.postings q.postings

preimage-SameContent :
    (r q : PostRequest) → Fits r → Fits q → preimage r ≡ preimage q → SameContent r q
unfolding preimage
preimage-SameContent r q (ro, rk, rx, rt, rl, rp) (qo, qk, qx, qt, ql, qp) e =
    let (org, e₁) = write_int-injective (pos r.org) (pos q.org) _ _ (omega arith) (omega arith) e in
    let (kind, e₂) = write_string-injective r.kind q.kind _ _ (omega arith) (omega arith) e₁ in
    let (ref, e₃) =
      write_string-injective r.external_ref q.external_ref _ _ (omega arith) (omega arith) e₂ in
    let (at, e₄) =
      write_int-injective (unix_nano r.occurred_at) (unix_nano q.occurred_at) _ _ rt qt e₃ in
    let (count, e₅) =
      write_int-injective (pos (length (sort r.postings))) (pos (length (sort q.postings))) _ _
        (omega (arith, length-sort r.postings)) (omega (arith, length-sort q.postings)) e₄ in
    let sorted =
      write_postings-injective (sort r.postings) (sort q.postings) (sort-All r.postings rp)
        (sort-All q.postings qp) (ground arith) e₅ in
    (
      ground arith,
      kind,
      ref,
      at,
      Perm.trans (Perm.symm (sort-Perm r.postings))
          (subst (λ ps. Perm ps q.postings) (sym sorted) (sort-Perm q.postings)),
    )

pub SameContent-preimage : (r q : PostRequest) → SameContent r q → preimage r ≡ preimage q
unfolding preimage
SameContent-preimage r q (org, kind, ref, at, lines) =
    rw (org, kind, ref, at, sort-perm r.postings q.postings lines)

-- Two requests whose fields fit their Go types are hashed from the same bytes exactly when they agree in
-- org, kind, external reference and time, and their lines are the same in some order.
pub preimage_iff :
    (r q : PostRequest) → Fits r → Fits q → (preimage r ≡ preimage q) ↔ SameContent r q
preimage_iff r q hr hq = (preimage-SameContent r q hr hq, SameContent-preimage r q)
