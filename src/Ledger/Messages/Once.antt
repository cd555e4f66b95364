-- ===== src/Ledger/Messages/Once.antt =====
-- However often a delivery is retried, and whatever is claimed in between, it is won once.
use stelfin.Prelude.{
  ℕ, suc, List, [], ◌∷◌, Bool, true, false, ◌&&◌, if◌then◌else◌, ◌≡◌, ◌≢◌, inl, inr, refl, ap,
  arith, Result, ok, err, any, Bool-cases,
}
use stelfin.Text.{Bytes, bytes_eq}
use stelfin.Text.Equality.{bytes_eq_refl, bytes_eq_sound}
use stelfin.Ledger.Messages.{Error, claim_message}

abbrev pub is_won : Result Error Bool → Bool
is_won (ok b) = b
is_won (err e) = false

-- How many claims of `id` are won when ids are claimed in some order.
pub wins : Bytes → List Bytes → List Bytes → ℕ
wins id processed [] = 0
wins id processed (c ∷ claims) =
    let rest = wins id (claim_message processed c).0 claims in
    if bytes_eq c id && is_won (claim_message processed c).1 then suc rest else rest

abbrev pub Claimed : Bytes → List Bytes → Type 0
Claimed id processed = any (bytes_eq id) processed ≡ true

Claimed-stays :
    (id c : Bytes) (processed : List Bytes)
    → Claimed id processed
    → Claimed id (claim_message processed c).0
unfolding claim_message
Claimed-stays id c processed h = ground arith

claim_message-Claimed :
    (id c : Bytes) (processed : List Bytes)
    → Claimed id processed
    → c ≡ id
    → is_won (claim_message processed c).1 ≡ false
unfolding claim_message
claim_message-Claimed id [] processed h e = refl
claim_message-Claimed id (x ∷ c) processed h e = rw (e, h) refl

bytes_eq_sym : (a b : Bytes) → bytes_eq a b ≡ bytes_eq b a
bytes_eq_sym [] [] = refl
bytes_eq_sym [] (y ∷ b) = refl
bytes_eq_sym (x ∷ a) [] = refl
bytes_eq_sym (x ∷ a) (y ∷ b) = ground (arith, bytes_eq_sym a b)

Claimed-lost :
    (id : Bytes) (processed claims : List Bytes)
    → Claimed id processed
    → wins id processed claims ≡ 0
unfolding wins
Claimed-lost id processed [] h = refl
Claimed-lost id processed (c ∷ claims) h = elim (Bool-cases (bytes_eq c id)) [
  | inr e ↦
      rw e (Claimed-lost id (claim_message processed c).0 claims (Claimed-stays id c processed h))
  | inl e ↦
      let lost = claim_message-Claimed id c processed h (bytes_eq_sound c id e) in
      rw (e, lost)
        (Claimed-lost id (claim_message processed c).0 claims (Claimed-stays id c processed h))
]

fresh_unclaimed :
    (id c : Bytes) (processed : List Bytes)
    → any (bytes_eq id) processed ≡ false
    → bytes_eq c id ≡ false
    → any (bytes_eq id) (claim_message processed c).0 ≡ false
unfolding claim_message
fresh_unclaimed id c processed h e = ground (arith, bytes_eq_sym id c)

first_claim :
    (id : Bytes) (processed : List Bytes)
    → id ≢ []
    → any (bytes_eq id) processed ≡ false
    → (is_won (claim_message processed id).1 ≡ true) × Claimed id (claim_message processed id).0
unfolding claim_message
first_claim [] processed ne h = absurd (ne refl)
first_claim (x ∷ id) processed ne h = rw h (refl, rw (bytes_eq_refl (x ∷ id)) refl)

-- A delivery that nobody has claimed is won exactly once by the claims of it, however many there are
-- and whatever else is claimed in between.
pub won_once :
    (id : Bytes) (processed claims : List Bytes)
    → id ≢ []
    → any (bytes_eq id) processed ≡ false
    → any (bytes_eq id) claims ≡ true
    → wins id processed claims ≡ 1
unfolding wins
won_once id processed [] ne h k = cc
won_once id processed (c ∷ claims) ne h k = elim (Bool-cases (bytes_eq c id)) [
  | inr e ↦ rw e (
      won_once id (claim_message processed c).0 claims ne (fresh_unclaimed id c processed h e)
        (ground (arith, bytes_eq_sym id c)))
  | inl e ↦
      let same = bytes_eq_sound c id e in
      let (won, claimed) = first_claim id processed ne h in
      rw (same, bytes_eq_refl id, won)
        (ap suc (Claimed-lost id (claim_message processed id).0 claims claimed))
]
