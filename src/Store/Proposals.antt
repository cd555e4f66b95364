-- ===== src/Store/Proposals.antt =====
-- ledger/store/proposal.go on the tables of ledger/migrations/00006_treasury.sql: envelopes that wait
-- for enough signatures. An operation is one transaction, so one that fails leaves the tables as they
-- are; `now` is the time at which it runs, by the service's clock and by the database's.
pub mod Schema
pub mod Listing
pub mod Window
pub mod History
pub mod Lifecycle
pub mod Opening
pub mod Closing
pub mod Approving
pub mod Reach
pub mod Final
pub mod Slot
use stelfin.Prelude.{
  ℕ, suc, ◌+◌, List, [], ◌∷◌, ◌++◌, Bool, true, false, ◌&&◌, ◌||◌, not, ltb, leb, ◌==◌,
  if◌then◌else◌, Result, ok, err, ◌>>=◌, ◌>>◌, refuse_if, Option, none, some, all, any, length, map,
}
use stelfin.Prelude.Int.{ℤ, pos, ltb_ℤ}
use stelfin.Text.{Bytes, is_empty, bytes_eq, codes, is_digit}
use stelfin.Money.{Stroops}
pub use Schema.{
  Status, EventKind, Error, Proposal, CreateProposalParams, ProposalSignature, SignatureRow,
  ProposalEvent, Tables, is_open, event_of, is_org, is_hash, is_known, stored_amount, log,
  close_row, proposal_open, proposal_executed, proposal_failed, proposal_cancelled,
  proposal_expired, event_created, event_signed, event_submitted, event_executed, event_failed,
  event_cancelled, event_expired, event_superseded, no_proposal, proposal_already_open,
  proposal_closed, resolving_to_open, database,
}
unfoldable pub use Schema.{row_allowed, signature_allowed}
use Listing.{order_by}

-- status = 'open' AND expires_at <= now()
abbrev pub is_stale : ℕ → Proposal → Bool
is_stale now p = is_open p.status && leb p.expires_at now

-- expireSQL and expireEventsSQL with a further predicate between the two.
abbrev pub expire_row : (Proposal → Bool) → ℕ → Proposal → Proposal
expire_row chosen now p =
    if is_stale now p && chosen p then close_row proposal_expired [] now p else p

unfoldable pub expired_events : (Proposal → Bool) → ℕ → List Proposal → List ProposalEvent
expired_events chosen now [] = []
expired_events chosen now (p ∷ ps) =
    let rest = expired_events chosen now ps in
    if is_stale now p && chosen p
    then log p.id event_expired 0 (codes "the signing window closed") now ∷ rest
    else rest

unfoldable pub expire : (Proposal → Bool) → ℕ → Tables → Tables
expire chosen now t = record t {
  proposals = map (expire_row chosen now) t.proposals;
  events = t.events ++ expired_events chosen now t.proposals;
}

-- ExpireProposals: the number of rows it reports is the number of events it wrote.
unfoldable pub expire_proposals : ℕ → Tables → ℕ × Tables
expire_proposals now t =
    (length (expired_events (λ p. true) now t.proposals), expire (λ p. true) now t)

abbrev pub new_proposal : ℕ → ℕ → CreateProposalParams → Proposal
new_proposal id now p = record {
  id = id;
  org = p.org;
  treasury = p.treasury;
  kind = p.kind;
  xdr = p.xdr;
  hash = p.hash;
  source_seq = p.source_seq;
  description = p.description;
  digest = p.digest;
  amount = stored_amount p.amount;
  status = proposal_open;
  created_by = p.created_by;
  created_at = now;
  expires_at = p.expires_at;
  resolved_at = none;
  submitted_tx = [];
}

-- The two unique indexes, against a new open row.
abbrev pub clashes : CreateProposalParams → Proposal → Bool
clashes p q = bytes_eq q.hash p.hash || (is_open q.status && q.treasury == p.treasury)

-- CreateProposal
unfoldable pub create_proposal :
    Tables → CreateProposalParams → ℕ → Result Error (Proposal × Tables)
create_proposal t p now =
    let cleared = expire (λ q. q.treasury == p.treasury && q.org == p.org) now t in
    let made = new_proposal t.next_id now p in
    do
      refuse_if (not (row_allowed now p)) Error.database
      refuse_if (any (clashes p) cleared.proposals) Error.proposal_already_open
      refuse_if (not (is_org p.org (t.treasury_org p.treasury))) Error.database
      refuse_if (not (is_org p.org (t.member_org p.created_by))) Error.database
      ok (
        made,
        record cleared {
          proposals = made ∷ cleared.proposals;
          events = cleared.events ++ log t.next_id event_created 0 p.kind now ∷ [];
          next_id = suc t.next_id;
        },
      )

-- WHERE id = $1 AND org_id = $2
unfoldable pub find_proposal : ℕ → ℕ → List Proposal → Option Proposal
find_proposal org id [] = none
find_proposal org id (p ∷ ps) =
    let rest = find_proposal org id ps in if p.id == id && p.org == org then some p else rest

-- Proposal
unfoldable pub proposal : Tables → ℕ → ℕ → Result Error Proposal
proposal t org id = elim (find_proposal org id t.proposals) [
  | none ↦ err Error.no_proposal
  | some p ↦ ok p
]

abbrev pub is_signable : ℕ → ℕ → ℕ → Proposal → Bool
is_signable org treasury now p =
    p.treasury == treasury && p.org == org && is_open p.status && ltb now p.expires_at

-- OpenProposal
unfoldable pub open_proposal : List Proposal → ℕ → ℕ → ℕ → Option Proposal
open_proposal [] org treasury now = none
open_proposal (p ∷ ps) org treasury now =
    let rest = open_proposal ps org treasury now in
    if is_signable org treasury now p then some p else rest

abbrev pub is_signed_by : ℕ → Bytes → SignatureRow → Bool
is_signed_by id signer s = s.proposal == id && bytes_eq s.sig.signer signer

-- A new row of proposal_signatures, and the event that goes with it.
abbrev pub signed : Tables → ℕ → ProposalSignature → ℕ → Tables
signed t id sig now = record t {
  signatures = t.signatures ++ record { proposal = id; sig = record sig { created_at = now } } ∷ [];
  events = t.events ++ log id event_signed sig.added_by sig.signer now ∷ [];
}

-- The INSERT of AddSignature, with ON CONFLICT DO NOTHING.
unfoldable pub insert_signature : Tables → ℕ → ProposalSignature → ℕ → Result Error Tables
insert_signature t id sig now =
    if not (signature_allowed sig)
    then err Error.database
    else if any (is_signed_by id sig.signer) t.signatures
    then ok t
    else if not (is_known t.identities sig.added_by)
    then err Error.database
    else ok (signed t id sig now)

-- AddSignature
unfoldable pub add_signature : Tables → ℕ → ℕ → ProposalSignature → ℕ → Result Error Tables
add_signature t org id sig now = do
  p ← proposal t org id
  refuse_if (not (is_open p.status)) Error.proposal_closed
  refuse_if (not (ltb now p.expires_at)) Error.proposal_closed
  insert_signature t id sig now

-- UPDATE proposals ... WHERE id = $1
abbrev pub update_row : ℕ → (Proposal → Proposal) → Proposal → Proposal
update_row id f p = if p.id == id then f p else p

-- ResolveProposal
unfoldable pub resolve_proposal :
    Tables → ℕ → ℕ → Status → Bytes → Bytes → ℕ → ℕ → Result Error Tables
resolve_proposal t org id status submitted detail actor now = do
  refuse_if (is_open status) Error.resolving_to_open
  elim (find_proposal org id t.proposals) [
    | none ↦ err Error.proposal_closed
    | some p ↦ do
      refuse_if (not (is_open p.status)) Error.proposal_closed
      refuse_if (not (is_empty submitted || is_hash submitted)) Error.database
      refuse_if (not (is_known t.identities actor)) Error.database
      ok (record t {
        proposals = map (update_row id (close_row status submitted now)) t.proposals;
        events = t.events ++ log id (event_of status) actor detail now ∷ [];
      })
  ]

-- The rows of the query of Signatures that are of one proposal, before they are ordered.
unfoldable pub signatures_of : ℕ → List SignatureRow → List ProposalSignature
signatures_of id [] = []
signatures_of id (s ∷ ss) =
    let rest = signatures_of id ss in if s.proposal == id then s.sig ∷ rest else rest

-- ProposalHistory
unfoldable pub history_of : ℕ → List ProposalEvent → List ProposalEvent
history_of id [] = []
history_of id (e ∷ es) = let rest = history_of id es in if e.proposal == id then e ∷ rest else rest

-- Signatures
abbrev pub signatures : Tables → ℕ → ℕ → List ProposalSignature
signatures t org id = elim (find_proposal org id t.proposals) [
  | none ↦ []
  | some p ↦ order_by (signatures_of id t.signatures)
]

abbrev pub proposal_history : Tables → ℕ → ℕ → List ProposalEvent
proposal_history t org id = elim (find_proposal org id t.proposals) [
  | none ↦ []
  | some p ↦ history_of id t.events
]
