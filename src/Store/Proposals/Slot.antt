-- ===== src/Store/Proposals/Slot.antt =====
-- The one open proposal of a treasury, for who reads it and for who wants its place.
use stelfin.Prelude.{
  ℕ, List, [], ◌∷◌, Bool, true, false, ◌&&◌, ◌≡◌, inl, inr, refl, arith, Option, none, some, ok,
  err, map, Bool-cases, Option-cases, All, any, ==_refl, some-injective,
}
use stelfin.Text.{bytes_eq}
use stelfin.Store.Proposals.{
  Error, Proposal, ProposalEvent, SignatureRow, CreateProposalParams, Tables, clashes, expire_row,
  expire, is_signable, open_proposal, create_proposal, new_proposal, row_allowed, is_stale,
}
use stelfin.Store.Proposals.Lifecycle.{IsConsistent, IsRow}
use stelfin.Store.Proposals.Opening.{same_slot, cleared, with_proposal}

abbrev is_some {ℓ} : {A : Type ℓ} → Option A → Bool
is_some none = false
is_some (some a) = true

clashes_signable :
    (p : CreateProposalParams) (now : ℕ) (q : Proposal)
    → bytes_eq q.hash p.hash ≡ false
    → (q.treasury ≡ p.treasury → q.org ≡ p.org)
    → clashes p (expire_row (same_slot p) now q) ≡ is_signable p.org p.treasury now q
clashes_signable p now q fresh owned = elim (Bool-cases (is_stale now q && same_slot p q)) [
  | inl e ↦ rw (e, fresh) (ground arith)
  | inr e ↦ rw (e, fresh) (ground arith)
]

-- What clears the slot leaves in it just what OpenProposal reports.
any-open :
    (events : List ProposalEvent) (sigs : List SignatureRow) (next now : ℕ)
    (treasury_org : ℕ → Option ℕ) (p : CreateProposalParams) (ps : List Proposal)
    → All (IsRow events sigs next treasury_org) ps
    → treasury_org p.treasury ≡ some p.org
    → any (λ q. bytes_eq q.hash p.hash) ps ≡ false
    → any (clashes p) (map (expire_row (same_slot p) now) ps)
      ≡ is_some (open_proposal ps p.org p.treasury now)
unfolding open_proposal
any-open events sigs next now treasury_org p [] rows h fresh = refl
any-open events sigs next now treasury_org p (q ∷ ps) (row, rows) h fresh =
    elim (Bool-cases (bytes_eq q.hash p.hash)) [
      | inl e ↦ absurd (cc (rw e at fresh))
      | inr e ↦
          let rest = any-open events sigs next now treasury_org p ps rows h (rw e at fresh) in
          let head =
            clashes_signable p now q e (λ same. some-injective (cc (rw same at row.owned))) in
          elim (Bool-cases (is_signable p.org p.treasury now q)) [
            | inl s ↦ rw (head, s) refl
            | inr s ↦ rw (head, s) rest
          ]
    ]

-- CreateProposal opens a proposal just when OpenProposal reports none for the treasury, and otherwise
-- answers ErrProposalAlreadyOpen: one whose window has passed never keeps a new one out. This is for
-- an envelope that was not proposed before, whose row the table's checks allow, and a treasury and
-- a member of the org.
pub create_proposal_answers :
    (t : Tables) (p : CreateProposalParams) (now : ℕ)
    → IsConsistent t
    → row_allowed now p ≡ true
    → t.treasury_org p.treasury ≡ some p.org
    → t.member_org p.created_by ≡ some p.org
    → any (λ q. bytes_eq q.hash p.hash) t.proposals ≡ false
    → create_proposal t p now ≡ (elim (open_proposal t.proposals p.org p.treasury now) [
      | none ↦ ok (new_proposal t.next_id now p, with_proposal t p now (cleared t p now))
      | some q ↦ err Error.proposal_already_open
    ])
unfolding create_proposal expire
create_proposal_answers t p now c allowed owned member fresh =
    let slot =
      any-open t.events t.signatures t.next_id now t.treasury_org p t.proposals c.rows owned
        fresh in
    elim (Option-cases (open_proposal t.proposals p.org p.treasury now)) [
      | inl e ↦ rw (allowed, slot, owned, member, e, ==_refl p.org) refl
      | inr (q, e) ↦ rw (allowed, slot, e) refl
    ]
