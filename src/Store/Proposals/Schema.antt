-- ===== src/Store/Proposals/Schema.antt =====
-- The tables of ledger/migrations/00006_treasury.sql that hold proposals, with the checks on their rows.
use stelfin.Prelude.{
  ℕ, List, [], ◌∷◌, Bool, true, false, ◌&&◌, ◌||◌, not, ltb, leb, ◌==◌, if◌then◌else◌, Option, none,
  some, all, any, length,
}
use stelfin.Prelude.Int.{ℤ, pos, ltb_ℤ, eqb_ℤ}
use stelfin.Text.{Bytes, is_empty, bytes_eq, codes, is_digit}
use stelfin.Money.{Stroops}

pub data Status : Type 0 where
  proposal_open proposal_executed proposal_failed proposal_cancelled proposal_expired : Status

pub data EventKind : Type 0 where
  event_created event_signed event_submitted event_executed : EventKind
  event_failed event_cancelled event_expired event_superseded : EventKind

-- `database` is whatever the tables themselves refuse.
pub data Error : Type 0 where
  no_proposal proposal_already_open proposal_closed : Error
  resolving_to_open database : Error

pub record Proposal : Type 0 where
  pub id : ℕ
  pub org : ℕ
  pub treasury : ℕ
  pub kind : Bytes
  pub xdr : Bytes
  pub hash : Bytes
  pub source_seq : ℤ
  pub description : Bytes
  pub digest : Bytes
  pub amount : Option Stroops
  pub status : Status
  pub created_by : ℕ
  pub created_at : ℕ
  pub expires_at : ℕ
  pub resolved_at : Option ℕ
  pub submitted_tx : Bytes

pub record CreateProposalParams : Type 0 where
  pub org : ℕ
  pub treasury : ℕ
  pub kind : Bytes
  pub xdr : Bytes
  pub hash : Bytes
  pub source_seq : ℤ
  pub description : Bytes
  pub digest : Bytes
  pub amount : Stroops
  pub created_by : ℕ
  pub expires_at : ℕ

-- `added_by` is 0 where nobody is named, which the table keeps as NULL.
pub record ProposalSignature : Type 0 where
  pub signer : Bytes
  pub signature : Bytes
  pub weight : ℤ
  pub added_by : ℕ
  pub created_at : ℕ

pub record SignatureRow : Type 0 where
  pub proposal : ℕ
  pub sig : ProposalSignature

pub record ProposalEvent : Type 0 where
  pub proposal : ℕ
  pub kind : EventKind
  pub actor : ℕ
  pub detail : Bytes
  pub created_at : ℕ

-- The tables, with what their foreign keys refer to: the org of a treasury and of a member, and the
-- identities. Proposals stand newest first, signatures and events in the order they arrived in.
pub record Tables : Type 0 where
  pub proposals : List Proposal
  pub signatures : List SignatureRow
  pub events : List ProposalEvent
  pub next_id : ℕ
  pub treasury_org : ℕ → Option ℕ
  pub member_org : ℕ → Option ℕ
  pub identities : List ℕ

abbrev pub is_open : Status → Bool
is_open proposal_open = true
is_open _ = false

-- A closed status is the kind of the event that records it.
abbrev pub event_of : Status → EventKind
event_of proposal_open = event_created
event_of proposal_executed = event_executed
event_of proposal_failed = event_failed
event_of proposal_cancelled = event_cancelled
event_of proposal_expired = event_expired

abbrev pub is_org : ℕ → Option ℕ → Bool
is_org org none = false
is_org org (some o) = o == org

abbrev is_lower_hex : ℕ → Bool
is_lower_hex c = is_digit c || (leb b'a' c && leb c b'f')

-- ^[0-9a-f]{64}$
abbrev pub is_hash : Bytes → Bool
is_hash h = length h == 64 && all is_lower_hex h

-- The kinds that 00014_restore_proposals.sql leaves.
abbrev kinds : List Bytes
kinds =
    codes "payment"
    ∷ codes "payroll"
    ∷ codes "trustline"
    ∷ codes "dex"
    ∷ codes "signers"
    ∷ codes "invoke"
    ∷ codes "restore"
    ∷ []

-- The checks on a row of proposals. An amount of zero is stored as NULL.
unfoldable pub row_allowed : ℕ → CreateProposalParams → Bool
row_allowed now p =
    any (bytes_eq p.kind) kinds
    && not (is_empty p.xdr)
    && is_hash p.hash
    && not (ltb_ℤ p.source_seq (pos 0))
    && not (is_empty p.description)
    && length p.digest == 32
    && ltb now p.expires_at
    && not (ltb_ℤ p.amount (pos 0))

abbrev is_base32 : ℕ → Bool
is_base32 c = (leb b'A' c && leb c b'Z') || (leb b'2' c && leb c b'7')

-- ^G[A-Z2-7]{55}$
abbrev is_address : Bytes → Bool
is_address [] = false
is_address (c ∷ s) = c == b'G' && length s == 55 && all is_base32 s

-- The checks on a row of proposal_signatures.
unfoldable pub signature_allowed : ProposalSignature → Bool
signature_allowed s =
    is_address s.signer
    && length s.signature == 64
    && not (ltb_ℤ s.weight (pos 0))
    && not (ltb_ℤ (pos 255) s.weight)

-- added_by and actor, where they are not NULL.
abbrev pub is_known : List ℕ → ℕ → Bool
is_known identities who = who == 0 || any (λ i. i == who) identities

abbrev pub stored_amount : Stroops → Option Stroops
stored_amount a = if eqb_ℤ a (pos 0) then none else some a

abbrev pub log : ℕ → EventKind → ℕ → Bytes → ℕ → ProposalEvent
log id kind actor detail now = record {
  proposal = id;
  kind = kind;
  actor = actor;
  detail = detail;
  created_at = now;
}

abbrev pub close_row : Status → Bytes → ℕ → Proposal → Proposal
close_row status submitted now p = record p {
  status = status;
  resolved_at = some now;
  submitted_tx = if is_empty submitted then p.submitted_tx else submitted;
}
