-- ===== src/Store/Proposals/History.antt =====
-- What is read off the events and the signatures of a proposal.
use stelfin.Prelude.{
  ℕ, List, [], ◌∷◌, ◌++◌, Bool, true, false, ◌==◌, if◌then◌else◌, ◌≡◌, inl, inr, refl, Bool-cases,
}
use stelfin.Text.{Bytes}
use stelfin.Store.Proposals.{
  EventKind, ProposalEvent, ProposalSignature, SignatureRow, history_of, signatures_of,
  event_signed,
}

abbrev pub kinds_of : List ProposalEvent → List EventKind
kinds_of [] = []
kinds_of (e ∷ es) = e.kind ∷ kinds_of es

abbrev pub is_signing : EventKind → Bool
is_signing event_signed = true
is_signing _ = false

-- Who has signed, by the events and by the signatures.
abbrev pub approvals : List ProposalEvent → List Bytes
approvals [] = []
approvals (e ∷ es) = let rest = approvals es in if is_signing e.kind then e.detail ∷ rest else rest

abbrev pub signers : List ProposalSignature → List Bytes
signers [] = []
signers (s ∷ ss) = s.signer ∷ signers ss

pub history_of-append :
    (id : ℕ) (xs ys : List ProposalEvent)
    → history_of id (xs ++ ys) ≡ history_of id xs ++ history_of id ys
unfolding history_of
history_of-append id [] ys = refl
history_of-append id (x ∷ xs) ys = elim (Bool-cases (x.proposal == id)) [
  | inl e ↦ rw (e, history_of-append id xs ys) refl
  | inr e ↦ rw (e, history_of-append id xs ys) refl
]

pub signatures_of-append :
    (id : ℕ) (xs ys : List SignatureRow)
    → signatures_of id (xs ++ ys) ≡ signatures_of id xs ++ signatures_of id ys
unfolding signatures_of
signatures_of-append id [] ys = refl
signatures_of-append id (x ∷ xs) ys = elim (Bool-cases (x.proposal == id)) [
  | inl e ↦ rw (e, signatures_of-append id xs ys) refl
  | inr e ↦ rw (e, signatures_of-append id xs ys) refl
]

pub kinds_of-append :
    (xs ys : List ProposalEvent) → kinds_of (xs ++ ys) ≡ kinds_of xs ++ kinds_of ys
kinds_of-append [] ys = refl
kinds_of-append (x ∷ xs) ys = rw (kinds_of-append xs ys) refl

pub approvals-append :
    (xs ys : List ProposalEvent) → approvals (xs ++ ys) ≡ approvals xs ++ approvals ys
approvals-append [] ys = refl
approvals-append (x ∷ xs) ys = elim (Bool-cases (is_signing x.kind)) [
  | inl e ↦ rw (e, approvals-append xs ys) refl
  | inr e ↦ rw (e, approvals-append xs ys) refl
]

pub signers-append :
    (xs ys : List ProposalSignature) → signers (xs ++ ys) ≡ signers xs ++ signers ys
signers-append [] ys = refl
signers-append (x ∷ xs) ys = rw (signers-append xs ys) refl
