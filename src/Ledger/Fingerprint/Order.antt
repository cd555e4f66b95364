-- ===== src/Ledger/Fingerprint/Order.antt =====
-- The fingerprint does not depend on the order of a request's lines.
use mathlib.Core.List.{Perm, Permᴰ}
use mathlib.Core.List.Perm
use mathlib.Core.Path.{ap₂}
use native.Mathlib.Nat.{ℕ_set}
use mathlib.Core.Logic.{∥∥₁_elim}
use stelfin.Prelude.{List, [], ◌∷◌, true, false, ◌≡◌, inl, inr, refl, ap, ◌∙◌, arith, Bool-cases}
use stelfin.Ledger.{Posting}
use stelfin.Ledger.Fingerprint.{less, insert, sort}

-- Neither less: the lines are equal.
less-connex : (a b : Posting) → less a b ≡ false → less b a ≡ false → a ≡ b
unfolding less
less-connex a b h k = ground arith

less-asymm : (a b : Posting) → less a b ≡ true → less b a ≡ false
unfolding less
less-asymm a b h = ground arith

less_trans : (a b c : Posting) → less a b ≡ true → less b c ≡ true → less a c ≡ true
unfolding less
less_trans a b c h k = ground arith

insert-insert :
    (a b : Posting) (ps : List Posting) → insert a (insert b ps) ≡ insert b (insert a ps)
unfolding insert
insert-insert a b [] = ground (arith, less-connex a b, less-asymm a b, less-asymm b a)
insert-insert a b (p ∷ ps) = ground (
  arith,
  insert-insert a b ps,
  less-connex a b,
  less-asymm a b,
  less-asymm b a,
  less_trans p a b,
  less_trans p b a,
  less-connex a p,
  less-connex b p,
)

Posting-set : IsSet (List Posting)
Posting-set = hlevel ℕ_set

sort-Permᴰ : {ps qs : List Posting} → Permᴰ ps qs → sort ps ≡ sort qs
unfolding sort
sort-Permᴰ Permᴰ.nil = refl
sort-Permᴰ (Permᴰ.cons e h) = ap₂ insert e (sort-Permᴰ h)
sort-Permᴰ (Permᴰ.swap {a} {b} {a' = c} {b' = d} {l} e f) =
    insert-insert a b (sort l) ∙ ap₂ insert f (ap (λ x. insert x (sort l)) e)
sort-Permᴰ (Permᴰ.trans h k) = sort-Permᴰ h ∙ sort-Permᴰ k

pub sort-perm : (ps qs : List Posting) → Perm ps qs → sort ps ≡ sort qs
sort-perm ps qs h = ∥∥₁_elim h (Posting-set (sort ps) (sort qs)) sort-Permᴰ

insert-Perm : (p : Posting) (ps : List Posting) → Perm (insert p ps) (p ∷ ps)
unfolding insert
insert-Perm p [] = Perm.refl (p ∷ [])
insert-Perm p (q ∷ qs) = elim (Bool-cases (less q p)) [
  | inl e ↦ rw e (Perm.trans (Perm.cons q (insert-Perm p qs)) (Perm.swap p q qs))
  | inr e ↦ rw e (Perm.refl (p ∷ q ∷ qs))
]

pub sort-Perm : (ps : List Posting) → Perm (sort ps) ps
unfolding sort
sort-Perm [] = Perm.refl []
sort-Perm (p ∷ ps) = Perm.trans (insert-Perm p (sort ps)) (Perm.cons p (sort-Perm ps))
