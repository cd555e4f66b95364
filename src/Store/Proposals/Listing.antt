-- ===== src/Store/Proposals/Listing.antt =====
-- ORDER BY ps.created_at, ps.signer, of the query of Signatures in ledger/store/proposal.go: the
-- database may sort in any way, and an insertion sort stands for it. A key is of capital letters and
-- digits, which the collations of the database order as their codes.
use mathlib.Core.List.{Perm}
use mathlib.Core.List.Perm
use stelfin.Prelude.{
  List, [], ◌∷◌, Bool, true, false, ◌&&◌, ◌||◌, ltb, ◌==◌, if◌then◌else◌, ◌≡◌, ◌≤◌, inl, inr, arith,
  Bool-cases, Pairwise, All,
}
use stelfin.Text.{Bytes}
use stelfin.Store.Proposals.Schema.{ProposalSignature}

unfoldable pub ltb_text : Bytes → Bytes → Bool
ltb_text s [] = false
ltb_text [] (d ∷ t) = true
ltb_text (c ∷ s) (d ∷ t) = let rest = ltb_text s t in ltb c d || (c == d && rest)

-- Whether a row stands before another.
unfoldable pub is_before : ProposalSignature → ProposalSignature → Bool
unfolding ltb_text
is_before a b =
    ltb a.created_at b.created_at || (a.created_at == b.created_at && ltb_text a.signer b.signer)

unfoldable pub place : ProposalSignature → List ProposalSignature → List ProposalSignature
place a [] = a ∷ []
place a (b ∷ bs) = let rest = place a bs in if is_before b a then b ∷ rest else a ∷ b ∷ bs

unfoldable pub order_by : List ProposalSignature → List ProposalSignature
unfolding place
order_by [] = []
order_by (a ∷ ss) = place a (order_by ss)

pub place-Perm : (a : ProposalSignature) (ss : List ProposalSignature) → Perm (place a ss) (a ∷ ss)
unfolding place
place-Perm a [] = Perm.refl (a ∷ [])
place-Perm a (b ∷ bs) = elim (Bool-cases (is_before b a)) [
  | inl e ↦ rw e (Perm.trans (Perm.cons b (place-Perm a bs)) (Perm.swap a b bs))
  | inr e ↦ rw e (Perm.refl (a ∷ b ∷ bs))
]

pub order_by-Perm : (ss : List ProposalSignature) → Perm (order_by ss) ss
unfolding order_by
order_by-Perm [] = Perm.refl []
order_by-Perm (a ∷ ss) = Perm.trans (place-Perm a (order_by ss)) (Perm.cons a (order_by-Perm ss))

-- No later than.
abbrev pub NoLater : ProposalSignature → ProposalSignature → Type 0
NoLater a b = a.created_at ≤ b.created_at

before-NoLater : (a b : ProposalSignature) → is_before a b ≡ true → NoLater a b
unfolding is_before
before-NoLater a b h = ground arith

not_before-NoLater : (a b : ProposalSignature) → is_before a b ≡ false → NoLater b a
unfolding is_before
not_before-NoLater a b h = ground arith

place-All :
    (a b : ProposalSignature) (ss : List ProposalSignature)
    → NoLater b a
    → All (NoLater b) ss
    → All (NoLater b) (place a ss)
unfolding place
place-All a b [] h hs = (h, tt)
place-All a b (s ∷ ss) h (x, xs) = elim (Bool-cases (is_before s a)) [
  | inl e ↦ rw e (x, place-All a b ss h xs)
  | inr e ↦ rw e (h, (x, xs))
]

All-NoLater :
    (a b : ProposalSignature) (ss : List ProposalSignature)
    → NoLater a b
    → All (NoLater b) ss
    → All (NoLater a) ss
All-NoLater a b [] h hs = tt
All-NoLater a b (s ∷ ss) h (x, xs) = (omega (arith, h, x), All-NoLater a b ss h xs)

place-Pairwise :
    (a : ProposalSignature) (ss : List ProposalSignature)
    → Pairwise NoLater ss
    → Pairwise NoLater (place a ss)
unfolding place
place-Pairwise a [] h = (tt, tt)
place-Pairwise a (b ∷ bs) (x, xs) = elim (Bool-cases (is_before b a)) [
  | inl e ↦ rw e (place-All a b bs (before-NoLater b a e) x, place-Pairwise a bs xs)
  | inr e ↦
      let first = not_before-NoLater b a e in rw e ((first, All-NoLater a b bs first x), (x, xs))
]

pub order_by-Pairwise : (ss : List ProposalSignature) → Pairwise NoLater (order_by ss)
unfolding order_by
order_by-Pairwise [] = tt
order_by-Pairwise (a ∷ ss) = place-Pairwise a (order_by ss) (order_by-Pairwise ss)
