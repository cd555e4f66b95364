-- ===== src/Store/Proposals/Final.antt =====
-- A proposal that is closed stays as it is.
use stelfin.Prelude.{
  ℕ, List, [], ◌∷◌, Bool, true, false, ◌&&◌, ◌==◌, ◌≡◌, inl, inr, refl, arith, some, ok, err, map,
  Bool-cases, ==_apart, ==_iff,
}
use stelfin.Text.{Bytes}
use stelfin.Store.Proposals.{
  Status, Error, Proposal, ProposalSignature, Tables, is_open, close_row, update_row, expire_row,
  expire, expire_proposals, find_proposal, proposal, add_signature, resolve_proposal,
}
use stelfin.Store.Proposals.Lifecycle.{IsConsistent, IsRow}
use stelfin.Store.Proposals.Opening.{create_proposal-eq-ok, same_slot}
use stelfin.Store.Proposals.Approving.{add_signature-eq-ok, proposal-eq-ok, proposal-found}
use stelfin.Store.Proposals.Closing.{
  resolve_proposal-eq-ok, All-find_proposal, find_proposal_sound, found_only,
}
use stelfin.Store.Proposals.Reach.{
  Step, Reach, Reach-kept, opened, approved, resolved, swept, here, next,
}

-- A change that keeps the keys of every row, and the row that is looked for.
find_proposal-map :
    (f : Proposal → Proposal) (org id : ℕ) (ps : List Proposal) {p : Proposal}
    → ((q : Proposal) → ((f q).id ≡ q.id) × ((f q).org ≡ q.org))
    → f p ≡ p
    → find_proposal org id ps ≡ some p
    → find_proposal org id (map f ps) ≡ some p
unfolding find_proposal
find_proposal-map f org id [] keys same h = cc
find_proposal-map f org id (q ∷ ps) keys same h = elim (Bool-cases (q.id == id && q.org == org)) [
  | inl e ↦ rw ((keys q).0, (keys q).1, e) (cc (rw e at h))
  | inr e ↦ rw ((keys q).0, (keys q).1, e) (find_proposal-map f org id ps keys same (rw e at h))
]

expire_row_closed :
    (chosen : Proposal → Bool) (now : ℕ) (p : Proposal)
    → is_open p.status ≡ false
    → expire_row chosen now p ≡ p
expire_row_closed chosen now p h = rw h refl

Step-closed :
    {t u : Tables} (org id : ℕ) (p : Proposal)
    → IsConsistent t
    → find_proposal org id t.proposals ≡ some p
    → is_open p.status ≡ false
    → Step t u
    → find_proposal org id u.proposals ≡ some p
unfolding expire_proposals expire find_proposal
Step-closed {t} org id p c found closed (opened params now q h) =
    let (free, owned, allowed, row, made) = create_proposal-eq-ok t params now h in
    let (same_id, same_org) = find_proposal_sound org id t.proposals found in
    let numbered =
      (All-find_proposal (IsRow t.events t.signatures t.next_id t.treasury_org) org id t.proposals
        c.rows found).numbered in
    rw (made, ==_apart t.next_id id (λ x. omega arith))
      (find_proposal-map (expire_row (same_slot params) now) org id t.proposals
        (λ r. (ground arith, ground arith)) (expire_row_closed (same_slot params) now p closed)
        found)
Step-closed {t} org id p c found closed (approved org' id' sig now h) =
    let (q, found', was_open, in_time, result) = add_signature-eq-ok t org' id' sig now h in
    elim result [ inl same ↦ rw same found | inr (first, made) ↦ rw made found ]
Step-closed {t} org id p c found closed (resolved org' id' s submitted detail actor now h) =
    let (q, found', was_open, closing, made) =
      resolve_proposal-eq-ok t org' id' s submitted detail actor now h in
    let only =
      All-find_proposal (λ r. r.id ≡ id' → r ≡ q) org id t.proposals
        (found_only org' id' t.proposals c.apart found') found in
    let other : (p.id == id') ≡ false = elim (Bool-cases (p.id == id')) [
      | inl e ↦ absurd (cc (rw (only ((==_iff p.id id').0 e), was_open) at closed))
      | inr e ↦ e
    ] in
    rw made (
      find_proposal-map (update_row id' (close_row s submitted now)) org id t.proposals
        (λ r. (ground arith, ground arith)) (rw other refl) found)
Step-closed {t} org id p c found closed (swept now) =
    find_proposal-map (expire_row (λ q. true) now) org id t.proposals
      (λ r. (ground arith, ground arith)) (expire_row_closed (λ q. true) now p closed) found

Reach-closed :
    {t u : Tables} (org id : ℕ) (p : Proposal)
    → IsConsistent t
    → find_proposal org id t.proposals ≡ some p
    → is_open p.status ≡ false
    → Reach t u
    → find_proposal org id u.proposals ≡ some p
Reach-closed org id p c found closed here = found
Reach-closed org id p c found closed (next r s) =
    Step-closed org id p (Reach-kept c r) (Reach-closed org id p c found closed r) closed s

-- Once a proposal is closed, no sequence of calls changes anything of it: later on it reads the same,
-- and approving it or closing it again is answered with ErrProposalClosed.
pub closed_stays :
    (t u : Tables) (org id : ℕ) (p : Proposal) (s : Status) (submitted detail : Bytes)
    (actor now : ℕ) (sig : ProposalSignature)
    → IsConsistent t
    → proposal t org id ≡ ok p
    → is_open p.status ≡ false
    → Reach t u
    → is_open s ≡ false
    → (proposal u org id ≡ ok p)
      × (add_signature u org id sig now ≡ err Error.proposal_closed)
      × (resolve_proposal u org id s submitted detail actor now ≡ err Error.proposal_closed)
unfolding add_signature resolve_proposal
closed_stays t u org id p s submitted detail actor now sig c read closed r closing =
    let found = Reach-closed org id p c (proposal-eq-ok t org id read) closed r in
    let reading = proposal-found u org id found in
    (reading, rw (reading, closed) refl, rw (closing, found, closed) refl)
