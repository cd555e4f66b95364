-- ===== src/Store/Proposals/Opening.antt =====
-- A new proposal: what `CreateProposal` does to the tables, and when it succeeds.
use stelfin.Prelude.{
  ℕ, suc, ◌≤◌, ◌<◌, List, [], ◌∷◌, ◌++◌, Bool, true, false, ◌&&◌, ◌==◌, ◌≡◌, inl, inr, refl, sym,
  ap, arith, Option, none, some, append-nil, Bool-cases, All, All-weaken, All-append, ==_refl,
  ==_apart, ==_iff, ok, refuse_if-eq-ok, ok-injective, any, not, subst,
}
use stelfin.Text.Equality.{bytes_eq_refl}
use stelfin.Store.Proposals.{
  Error, Proposal, ProposalEvent, SignatureRow, CreateProposalParams, Tables, is_org, log,
  history_of, signatures_of, create_proposal, new_proposal, row_allowed, clashes, expire,
  event_created,
}
use stelfin.Store.Proposals.Lifecycle.{IsRow, Apart, IsConsistent, IsRow-stays, created}
use stelfin.Store.Proposals.History.{history_of-append}
use stelfin.Store.Proposals.Window.{expire-IsConsistent}
use stelfin.Store.Proposals.Closing.{logged_elsewhere}

abbrev pub same_slot : CreateProposalParams → Proposal → Bool
same_slot p q = q.treasury == p.treasury && q.org == p.org

abbrev pub cleared : Tables → CreateProposalParams → ℕ → Tables
cleared t p now = expire (same_slot p) now t

abbrev pub with_proposal : Tables → CreateProposalParams → ℕ → Tables → Tables
with_proposal t p now c = record c {
  proposals = new_proposal t.next_id now p ∷ c.proposals;
  events = c.events ++ log t.next_id event_created 0 p.kind now ∷ [];
  next_id = suc t.next_id;
}

pub is_org_sound : (org : ℕ) (o : Option ℕ) → is_org org o ≡ true → o ≡ some org
is_org_sound org none h = cc
is_org_sound org (some a) h = ap some ((==_iff a org).0 h)

-- What a creation that succeeds has done.
pub create_proposal-eq-ok :
    (t : Tables) (p : CreateProposalParams) (now : ℕ) {q : Proposal} {u : Tables}
    → create_proposal t p now ≡ ok (q, u)
    → (any (clashes p) (cleared t p now).proposals ≡ false)
      × (t.treasury_org p.treasury ≡ some p.org)
      × (row_allowed now p ≡ true)
      × (q ≡ new_proposal t.next_id now p)
      × (u ≡ with_proposal t p now (cleared t p now))
unfolding create_proposal
create_proposal-eq-ok t p now h =
    let (allowed, a) = refuse_if-eq-ok (not (row_allowed now p)) Error.database _ h in
    let (free, b) = refuse_if-eq-ok (any (clashes p) (cleared t p now).proposals) _ _ a in
    let (owned, c) =
      refuse_if-eq-ok (not (is_org p.org (t.treasury_org p.treasury))) Error.database _ b in
    let (member, d) =
      refuse_if-eq-ok (not (is_org p.org (t.member_org p.created_by))) Error.database _ c in
    let made = ok-injective d in
    (
      free,
      is_org_sound p.org (t.treasury_org p.treasury) (ground arith),
      ground arith,
      sym (ap (λ x. x.0) made),
      sym (ap (λ x. x.1) made),
    )

new_row-Apart :
    (events : List ProposalEvent) (sigs : List SignatureRow) (next now : ℕ)
    (treasury_org : ℕ → Option ℕ) (p : CreateProposalParams) (ps : List Proposal)
    → All (IsRow events sigs next treasury_org) ps
    → any (clashes p) ps ≡ false
    → All (Apart (new_proposal next now p)) ps
new_row-Apart events sigs next now treasury_org p [] rows h = tt
new_row-Apart events sigs next now treasury_org p (q ∷ ps) (row, rows) h =
    elim (Bool-cases (clashes p q)) [
      | inl e ↦ absurd (cc (rw e at h))
      | inr e ↦ (
        record {
          ids = λ same. omega (arith, row.numbered);
          hashes = λ same. absurd (cc (rw (sym same, bytes_eq_refl p.hash) at e));
          one_open = λ po qo same. ground arith;
        },
        new_row-Apart events sigs next now treasury_org p ps rows (rw e at h),
      )
    ]

nothing_logged :
    (id next : ℕ) (events : List ProposalEvent)
    → All (λ e. e.proposal < next) events
    → next ≤ id
    → history_of id events ≡ []
unfolding history_of
nothing_logged id next [] h le = refl
nothing_logged id next (e ∷ events) (he, h) le =
    rw (==_apart e.proposal id (λ x. omega arith)) (nothing_logged id next events h le)

nothing_signed :
    (id next : ℕ) (sigs : List SignatureRow)
    → All (λ s. s.proposal < next) sigs
    → next ≤ id
    → signatures_of id sigs ≡ []
unfolding signatures_of
nothing_signed id next [] h le = refl
nothing_signed id next (s ∷ sigs) (hs, h) le =
    rw (==_apart s.proposal id (λ x. omega arith)) (nothing_signed id next sigs h le)

-- The tables with a new row, when those without it are consistent and nothing clashes.
with_proposal-IsConsistent :
    (t : Tables) (p : CreateProposalParams) (now : ℕ)
    → IsConsistent t
    → any (clashes p) t.proposals ≡ false
    → t.treasury_org p.treasury ≡ some p.org
    → IsConsistent (with_proposal t p now t)
unfolding history_of signatures_of
with_proposal-IsConsistent t p now c free owned =
    let e = log t.next_id event_created 0 p.kind now in
    let alone : history_of t.next_id (t.events ++ e ∷ []) ≡ e ∷ [] =
      rw
        (
          history_of-append t.next_id t.events (e ∷ []),
          nothing_logged t.next_id t.next_id t.events c.logged (omega arith),
          ==_refl t.next_id,
        )
        refl in
    record {
      rows = (
        record {
          numbered = omega arith;
          resolved = refl;
          lifecycle = rw alone created;
          audited =
              rw (alone, nothing_signed t.next_id t.next_id t.signatures c.signed (omega arith))
                refl;
          owned = owned;
        },
        All-weaken t.proposals
            (λ q row.
              subst (λ s. IsRow (t.events ++ e ∷ []) s (suc t.next_id) t.treasury_org q)
                (append-nil t.signatures)
                (IsRow-stays t.events t.signatures t.next_id t.treasury_org q row (e ∷ []) []
                  (suc t.next_id)
                  (logged_elsewhere q t.next_id e refl (λ x. omega (arith, row.numbered))) refl
                  (omega arith)))
            c.rows,
      );
      apart = (
        new_row-Apart t.events t.signatures t.next_id now t.treasury_org p t.proposals c.rows free,
        c.apart,
      );
      once_each = c.once_each;
      logged =
          All-append (λ l. l.proposal < suc t.next_id) t.events (e ∷ [])
            (All-weaken t.events (λ l h. omega arith) c.logged) (omega arith, tt);
      signed = All-weaken t.signatures (λ s h. omega arith) c.signed;
    }

-- Opening a proposal keeps the tables consistent.
pub create_proposal-IsConsistent :
    (t : Tables) (p : CreateProposalParams) (now : ℕ) {q : Proposal} {u : Tables}
    → IsConsistent t
    → create_proposal t p now ≡ ok (q, u)
    → IsConsistent u
unfolding expire
create_proposal-IsConsistent t p now c h =
    let (free, owned, allowed, row, made) = create_proposal-eq-ok t p now h in
    subst IsConsistent (sym made) (
      with_proposal-IsConsistent (cleared t p now) p now (expire-IsConsistent (same_slot p) now t c)
        free owned)
