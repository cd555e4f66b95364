-- ===== src/Store/Proposals/Lifecycle.antt =====
-- What the history of a proposal can be, and the tables that agree with it.
use stelfin.Prelude.{
  ℕ, ◌≤◌, ◌<◌, List, [], ◌∷◌, ◌++◌, Bool, true, false, ◌≡◌, ◌≢◌, refl, arith, Option, none, some,
  append-nil, All, Pairwise, subst,
}
use stelfin.Text.{Bytes}
use stelfin.Store.Proposals.{
  Status, EventKind, Proposal, ProposalEvent, ProposalSignature, SignatureRow, Tables, is_open,
  event_of, close_row, history_of, signatures_of, proposal_open, event_created, event_signed,
}
use stelfin.Store.Proposals.History.{
  kinds_of, is_signing, approvals, signers, history_of-append, signatures_of-append,
  kinds_of-append, approvals-append, signers-append,
}

-- A run of the lifecycle: it starts with the creation, collects approvals while the proposal is open,
-- and ends with the first event that closes it, whose kind is the status from then on.
pub data Lifecycle : List EventKind → Status → Type 0 where
  created : Lifecycle (event_created ∷ []) proposal_open
  signed :
      {es : List EventKind}
      → Lifecycle es proposal_open
      → Lifecycle (es ++ event_signed ∷ []) proposal_open
  closed :
      {es : List EventKind} (s : Status)
      → is_open s ≡ false
      → Lifecycle es proposal_open
      → Lifecycle (es ++ event_of s ∷ []) s

abbrev pub is_none {ℓ} : {A : Type ℓ} → Option A → Bool
is_none none = true
is_none (some a) = false

-- A row of proposals beside the other tables.
pub record IsRow (events : List ProposalEvent) (signatures : List SignatureRow) (next_id : ℕ)
    (treasury_org : ℕ → Option ℕ) (p : Proposal) : Type 0 where
  pub numbered : p.id < next_id
  pub resolved : is_open p.status ≡ is_none p.resolved_at
  pub lifecycle : Lifecycle (kinds_of (history_of p.id events)) p.status
  pub audited : approvals (history_of p.id events) ≡ signers (signatures_of p.id signatures)
  pub owned : treasury_org p.treasury ≡ some p.org

-- Two rows: their envelopes differ, and no treasury has two that are open.
pub record Apart (p q : Proposal) : Type 0 where
  pub ids : p.id ≢ q.id
  pub hashes : p.hash ≢ q.hash
  pub one_open : is_open p.status ≡ true → is_open q.status ≡ true → p.treasury ≢ q.treasury

pub record OnceEach (a b : SignatureRow) : Type 0 where
  pub once : a.proposal ≡ b.proposal → a.sig.signer ≢ b.sig.signer

pub record IsConsistent (t : Tables) : Type 0 where
  pub rows : All (IsRow t.events t.signatures t.next_id t.treasury_org) t.proposals
  pub apart : Pairwise Apart t.proposals
  pub once_each : Pairwise OnceEach t.signatures
  pub logged : All (λ e. e.proposal < t.next_id) t.events
  pub signed : All (λ s. s.proposal < t.next_id) t.signatures

pub is_open_sound : (s : Status) → is_open s ≡ true → s ≡ proposal_open
is_open_sound s h = ground arith

closing_unsigned : (s : Status) → is_signing (event_of s) ≡ false
closing_unsigned s = ground arith

module _ (events : List ProposalEvent) (signatures : List SignatureRow) (next_id : ℕ)
    (treasury_org : ℕ → Option ℕ) (p : Proposal)
    (row : IsRow events signatures next_id treasury_org p) where
  -- What is written about other proposals leaves a row as it is.
  pub IsRow-stays :
      (more : List ProposalEvent) (sigs : List SignatureRow) (next : ℕ)
      → history_of p.id more ≡ []
      → signatures_of p.id sigs ≡ []
      → next_id ≤ next
      → IsRow (events ++ more) (signatures ++ sigs) next treasury_org p
  IsRow-stays more sigs next none_logged none_signed grown = record {
    numbered = ground (arith, row.numbered);
    resolved = row.resolved;
    lifecycle = rw (history_of-append p.id events more, none_logged, append-nil) row.lifecycle;
    audited =
        rw
          (
            history_of-append p.id events more,
            none_logged,
            append-nil,
            signatures_of-append p.id signatures sigs,
            none_signed,
          )
          (rw (append-nil) row.audited);
    owned = row.owned;
  }

  pub IsRow-unsigned :
      (more : List ProposalEvent)
      → history_of p.id more ≡ []
      → IsRow (events ++ more) signatures next_id treasury_org p
  unfolding signatures_of
  IsRow-unsigned more none_logged =
      subst (λ sigs. IsRow (events ++ more) sigs next_id treasury_org p) (append-nil signatures)
        (IsRow-stays more [] next_id none_logged refl (omega arith))

  opened : is_open p.status ≡ true → Lifecycle (kinds_of (history_of p.id events)) proposal_open
  opened was_open =
      subst (Lifecycle (kinds_of (history_of p.id events))) (is_open_sound p.status was_open)
        row.lifecycle

  -- A closing event closes an open row.
  pub IsRow-closes :
      (more : List ProposalEvent) (e : ProposalEvent) (s : Status) (submitted : Bytes) (now : ℕ)
      → e.kind ≡ event_of s
      → history_of p.id more ≡ e ∷ []
      → is_open p.status ≡ true
      → is_open s ≡ false
      → IsRow (events ++ more) signatures next_id treasury_org (close_row s submitted now p)
  IsRow-closes more e s submitted now closing is_logged was_open is_closed = record {
    numbered = row.numbered;
    resolved = is_closed;
    lifecycle =
        rw
          (
            history_of-append p.id events more,
            is_logged,
            kinds_of-append (history_of p.id events) (e ∷ []),
            closing,
          )
          (closed s is_closed (opened was_open));
    audited =
        rw
          (
            history_of-append p.id events more,
            is_logged,
            approvals-append (history_of p.id events) (e ∷ []),
            closing,
            closing_unsigned s,
            append-nil,
          )
          row.audited;
    owned = row.owned;
  }

  -- An approval is one more signer on both sides.
  pub IsRow-signs :
      (more : List ProposalEvent) (sigs : List SignatureRow) (sig : ProposalSignature)
      (e : ProposalEvent)
      → e.kind ≡ event_signed
      → e.detail ≡ sig.signer
      → history_of p.id more ≡ e ∷ []
      → signatures_of p.id sigs ≡ sig ∷ []
      → is_open p.status ≡ true
      → IsRow (events ++ more) (signatures ++ sigs) next_id treasury_org p
  IsRow-signs more sigs sig e signing named is_logged is_signed was_open = record {
    numbered = row.numbered;
    resolved = row.resolved;
    lifecycle =
        rw
          (
            history_of-append p.id events more,
            is_logged,
            kinds_of-append (history_of p.id events) (e ∷ []),
            signing,
            is_open_sound p.status was_open,
          )
          (signed (opened was_open));
    audited =
        rw
          (
            history_of-append p.id events more,
            is_logged,
            approvals-append (history_of p.id events) (e ∷ []),
            signing,
            named,
            signatures_of-append p.id signatures sigs,
            is_signed,
            signers-append (signatures_of p.id signatures),
            row.audited,
          )
          refl;
    owned = row.owned;
  }

-- A change of rows that keeps what the indexes look at, and opens nothing.
pub record Narrows (f : Proposal → Proposal) : Type 0 where
  pub ids : (p : Proposal) → (f p).id ≡ p.id
  pub hashes : (p : Proposal) → (f p).hash ≡ p.hash
  pub treasuries : (p : Proposal) → (f p).treasury ≡ p.treasury
  pub opens : (p : Proposal) → is_open (f p).status ≡ true → is_open p.status ≡ true

pub Apart-under :
    (f : Proposal → Proposal) → Narrows f → (p q : Proposal) → Apart p q → Apart (f p) (f q)
Apart-under f n p q a = record {
  ids = rw (n.ids p, n.ids q) a.ids;
  hashes = rw (n.hashes p, n.hashes q) a.hashes;
  one_open =
      λ po qo. rw (n.treasuries p, n.treasuries q) (a.one_open (n.opens p po) (n.opens q qo));
}
