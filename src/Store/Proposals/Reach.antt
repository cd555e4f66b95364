-- ===== src/Store/Proposals/Reach.antt =====
-- The tables under any sequence of calls.
use mathlib.Core.List.{Perm}
use mathlib.Core.List.Perm
use stelfin.Prelude.{Pairwise, map, refl, ◌∷◌, ℕ, List, true, sym, [], ◌≡◌, Option, some, ok}
use stelfin.Text.{Bytes}
use stelfin.Store.Proposals.{
  Status, Proposal, ProposalSignature, CreateProposalParams, Tables, create_proposal, add_signature,
  resolve_proposal, expire_proposals, find_proposal, proposal_history, signatures, signatures_of,
}
use stelfin.Store.Proposals.Listing.{NoLater, order_by-Perm, order_by-Pairwise}
use stelfin.Store.Proposals.Lifecycle.{IsRow, IsConsistent, Lifecycle}
use stelfin.Store.Proposals.History.{kinds_of, approvals, signers}
use stelfin.Store.Proposals.Window.{expire-IsConsistent}
use stelfin.Store.Proposals.Opening.{create_proposal-IsConsistent}
use stelfin.Store.Proposals.Approving.{add_signature-IsConsistent}
use stelfin.Store.Proposals.Closing.{
  resolve_proposal-IsConsistent, All-find_proposal, find_proposal_sound,
}

-- A call by anybody at any time, in the order in which the database commits them; one that fails
-- leaves the tables, and is no step.
pub data Step (t : Tables) : Tables → Type 0 where
  opened :
      {u : Tables} (p : CreateProposalParams) (now : ℕ) (q : Proposal)
      → create_proposal t p now ≡ ok (q, u)
      → Step t u
  approved :
      {u : Tables} (org id : ℕ) (sig : ProposalSignature) (now : ℕ)
      → add_signature t org id sig now ≡ ok u
      → Step t u
  resolved :
      {u : Tables} (org id : ℕ) (s : Status) (submitted detail : Bytes) (actor now : ℕ)
      → resolve_proposal t org id s submitted detail actor now ≡ ok u
      → Step t u
  swept : (now : ℕ) → Step t (expire_proposals now t).1

pub data Reach (t : Tables) : Tables → Type 0 where
  here : Reach t t
  next : {u v : Tables} → Reach t u → Step u v → Reach t v

-- No proposals yet.
abbrev pub initial : (ℕ → Option ℕ) → (ℕ → Option ℕ) → List ℕ → ℕ → Tables
initial treasury_org member_org identities next_id = record {
  proposals = [];
  signatures = [];
  events = [];
  next_id = next_id;
  treasury_org = treasury_org;
  member_org = member_org;
  identities = identities;
}

Step-IsConsistent : {t u : Tables} → IsConsistent t → Step t u → IsConsistent u
unfolding expire_proposals
Step-IsConsistent {t} c (opened p now q h) = create_proposal-IsConsistent t p now c h
Step-IsConsistent {t} c (approved org id sig now h) =
    add_signature-IsConsistent t org id sig now c h
Step-IsConsistent {t} c (resolved org id s submitted detail actor now h) =
    resolve_proposal-IsConsistent t org id s submitted detail actor now c h
Step-IsConsistent {t} c (swept now) = expire-IsConsistent (λ p. true) now t c

pub Reach-kept : {t u : Tables} → IsConsistent t → Reach t u → IsConsistent u
Reach-kept c here = c
Reach-kept c (next r s) = Step-IsConsistent (Reach-kept c r) s

-- Whatever calls are made on tables without proposals, and in whatever order, the tables stay
-- consistent: ids and envelopes are unique, no treasury has two open proposals, a proposal has a time
-- of resolution just when it is closed, no key signs one proposal twice, and each row agrees with its
-- history.
pub Reach-IsConsistent :
    (treasury_org member_org : ℕ → Option ℕ) (identities : List ℕ) (next_id : ℕ) (t : Tables)
    → Reach (initial treasury_org member_org identities next_id) t
    → IsConsistent t
Reach-IsConsistent treasury_org member_org identities next_id t r =
    Reach-kept (record { rows = tt; apart = tt; once_each = tt; logged = tt; signed = tt }) r

signers_lem : (ss : List ProposalSignature) → signers ss ≡ map (λ s. s.signer) ss
signers_lem [] = refl
signers_lem (s ∷ ss) = rw (signers_lem ss) refl

signers-Perm : {xs ys : List ProposalSignature} → Perm xs ys → Perm (signers xs) (signers ys)
signers-Perm {xs} {ys} h = rw (signers_lem xs, signers_lem ys) (Perm.map (λ s. s.signer) h)

-- In tables that any calls have led to, at whatever times, the history of a proposal is a run of the
-- lifecycle that ends in the status of the proposal; the signers on record are those whose approval
-- the history logs, each as often; and they are listed by the time of their approval. So no approval
-- is logged after the proposal was closed, and nothing follows the one event that closes it.
pub Reach-Lifecycle :
    (treasury_org member_org : ℕ → Option ℕ) (identities : List ℕ) (next_id : ℕ) (t : Tables)
    (org id : ℕ) (p : Proposal)
    → Reach (initial treasury_org member_org identities next_id) t
    → find_proposal org id t.proposals ≡ some p
    → Lifecycle (kinds_of (proposal_history t org id)) p.status
      × Perm (signers (signatures t org id)) (approvals (proposal_history t org id))
      × Pairwise NoLater (signatures t org id)
Reach-Lifecycle treasury_org member_org identities next_id t org id p r found =
    let c = Reach-IsConsistent treasury_org member_org identities next_id t r in
    let row =
      All-find_proposal (IsRow t.events t.signatures t.next_id t.treasury_org) org id t.proposals
        c.rows found in
    let (same_id, same_org) = find_proposal_sound org id t.proposals found in
    let rows = signatures_of p.id t.signatures in
    rw (proposal_history, signatures, found, sym same_id)
      (row.lifecycle, rw row.audited (signers-Perm (order_by-Perm rows)), order_by-Pairwise rows)
