-- ===== src/Store/Proposals/Closing.antt =====
-- Approving and closing keep the tables consistent.
use stelfin.Prelude.{
  ℕ, ◌<◌, List, [], ◌∷◌, ◌++◌, true, false, ◌&&◌, ◌||◌, ◌==◌, ◌≡◌, ◌≢◌, inl, inr, refl, sym, arith,
  Option, some, map, Bool-cases, All, All-weaken, All-both, All-map, All-append, Pairwise,
  Pairwise-map, ==_refl, ==_apart, ==_iff, ok, Option-cases, refuse_if-eq-ok, ok-injective, not,
  subst, some-injective,
}
use stelfin.Text.{Bytes, is_empty}
use stelfin.Store.Proposals.{
  Error, is_hash, is_known, Status, Proposal, ProposalEvent, SignatureRow, Tables, is_open, log,
  event_of, close_row, update_row, find_proposal, history_of, resolve_proposal,
}
use stelfin.Store.Proposals.Lifecycle.{
  IsRow, Apart, IsConsistent, IsRow-unsigned, IsRow-closes, Narrows, Apart-under,
}

pub find_proposal_sound :
    (org id : ℕ) (ps : List Proposal) {p : Proposal}
    → find_proposal org id ps ≡ some p
    → (p.id ≡ id) × (p.org ≡ org)
unfolding find_proposal
find_proposal_sound org id [] h = cc
find_proposal_sound org id (q ∷ ps) h = elim (Bool-cases (q.id == id && q.org == org)) [
  | inl e ↦ ground arith
  | inr e ↦ find_proposal_sound org id ps (rw e at h)
]

pub All-find_proposal {κ} :
    (P : Proposal → Type κ) (org id : ℕ) (ps : List Proposal) {p : Proposal}
    → All P ps
    → find_proposal org id ps ≡ some p
    → P p
unfolding find_proposal
All-find_proposal P org id [] a h = cc
All-find_proposal P org id (q ∷ ps) {p} (aq, a) h = elim (Bool-cases (q.id == id && q.org == org)) [
  | inl e ↦ let same : q ≡ p = some-injective (rw e at h) in subst P same aq
  | inr e ↦ All-find_proposal P org id ps a (rw e at h)
]

-- No other row has the id.
pub found_only :
    (org id : ℕ) (ps : List Proposal) {p : Proposal}
    → Pairwise Apart ps
    → find_proposal org id ps ≡ some p
    → All (λ q. q.id ≡ id → q ≡ p) ps
unfolding find_proposal
found_only org id [] a h = tt
found_only org id (q ∷ ps) {p} (aq, a) h = elim (Bool-cases (q.id == id && q.org == org)) [
  | inl e ↦
      let first : q.id ≡ id = ground arith in
      (λ same. some-injective (rw e at h), All-weaken ps (λ r x same. absurd (x.ids (cc))) aq)
  | inr e ↦
      let rest = rw e at h in
      let (same_id, same_org) = find_proposal_sound org id ps rest in
      (
        λ same. absurd ((All-find_proposal (Apart q) org id ps aq rest).ids (cc)),
        found_only org id ps a rest,
      )
]

-- The new row of the log, for its proposal and for any other.
pub logged_here :
    (p : Proposal) (id : ℕ) (e : ProposalEvent)
    → e.proposal ≡ id
    → p.id ≡ id
    → history_of p.id (e ∷ []) ≡ e ∷ []
unfolding history_of
logged_here p id e le lp = rw (le, lp, ==_refl id) refl

pub logged_elsewhere :
    (p : Proposal) (id : ℕ) (e : ProposalEvent)
    → e.proposal ≡ id
    → p.id ≢ id
    → history_of p.id (e ∷ []) ≡ []
unfolding history_of
logged_elsewhere p id e le lp = rw (le, ==_apart id p.id (λ x. lp (sym x))) refl

-- A row after another of the same tables was closed, or the row that was closed.
IsRow-resolve :
    (events : List ProposalEvent) (sigs : List SignatureRow) (next : ℕ)
    (treasury_org : ℕ → Option ℕ) (id : ℕ) (p q : Proposal) (s : Status) (submitted detail : Bytes)
    (actor now : ℕ)
    → is_open p.status ≡ true
    → is_open s ≡ false
    → IsRow events sigs next treasury_org q
    → (q.id ≡ id → q ≡ p)
    → IsRow
        (events ++ log id (event_of s) actor detail now ∷ [])
        sigs
        next
        treasury_org
        (update_row id (close_row s submitted now) q)
IsRow-resolve events sigs next treasury_org id p q s submitted detail actor now was_open closing row
      only =
    let e = log id (event_of s) actor detail now in
    elim (Bool-cases (q.id == id)) [
      | inl same ↦
          let same_id = (==_iff q.id id).0 same in
          rw same (
            IsRow-closes events sigs next treasury_org q row (e ∷ []) e s submitted now refl
              (logged_here q id e refl same_id) (rw (only same_id) was_open) closing)
      | inr other ↦ rw other (
          IsRow-unsigned events sigs next treasury_org q row (e ∷ [])
            (logged_elsewhere q id e refl (ground arith)))
    ]

update_row-Narrows :
    (id : ℕ) (s : Status) (submitted : Bytes) (now : ℕ)
    → is_open s ≡ false
    → Narrows (update_row id (close_row s submitted now))
update_row-Narrows id s submitted now closing = record {
  ids = λ p. ground arith;
  hashes = λ p. ground arith;
  treasuries = λ p. ground arith;
  opens = λ p h. ground arith;
}

-- What a resolution that succeeds has done.
pub resolve_proposal-eq-ok :
    (t : Tables) (org id : ℕ) (s : Status) (submitted detail : Bytes) (actor now : ℕ) {u : Tables}
    → resolve_proposal t org id s submitted detail actor now ≡ ok u
    → (p : Proposal) × (find_proposal org id t.proposals ≡ some p)
      × (is_open p.status ≡ true)
      × (is_open s ≡ false)
      × (u ≡ record t {
        proposals = map (update_row id (close_row s submitted now)) t.proposals;
        events = t.events ++ log id (event_of s) actor detail now ∷ [];
      })
unfolding resolve_proposal
resolve_proposal-eq-ok t org id s submitted detail actor now h =
    let (closing, found) = refuse_if-eq-ok (is_open s) _ _ h in
    elim (Option-cases (find_proposal org id t.proposals)) [
      | inl e ↦ absurd (cc (rw e at found))
      | inr (p, e) ↦
          let (was_open, a) = refuse_if-eq-ok (not (is_open p.status)) _ _ (rw e at found) in
          let (hash_ok, b) =
            refuse_if-eq-ok (not (is_empty submitted || is_hash submitted)) Error.database _ a in
          let (actor_ok, c) =
            refuse_if-eq-ok (not (is_known t.identities actor)) Error.database _ b in
          (p, e, ground arith, closing, sym (ok-injective c))
    ]

-- Closing a proposal keeps the tables consistent.
pub resolve_proposal-IsConsistent :
    (t : Tables) (org id : ℕ) (s : Status) (submitted detail : Bytes) (actor now : ℕ) {u : Tables}
    → IsConsistent t
    → resolve_proposal t org id s submitted detail actor now ≡ ok u
    → IsConsistent u
resolve_proposal-IsConsistent t org id s submitted detail actor now c h =
    let (p, found, was_open, closing, made) =
      resolve_proposal-eq-ok t org id s submitted detail actor now h in
    let e = log id (event_of s) actor detail now in
    let (same_id, same_org) = find_proposal_sound org id t.proposals found in
    let row =
      All-find_proposal (IsRow t.events t.signatures t.next_id t.treasury_org) org id t.proposals
        c.rows found in
    subst IsConsistent (sym made) (record {
      rows =
          All-map (IsRow (t.events ++ e ∷ []) t.signatures t.next_id t.treasury_org)
            (update_row id (close_row s submitted now)) t.proposals
            (All-both t.proposals
              (λ q r only.
                IsRow-resolve t.events t.signatures t.next_id t.treasury_org id p q s submitted
                  detail actor now was_open closing r only)
              c.rows (found_only org id t.proposals c.apart found));
      apart =
          let f = update_row id (close_row s submitted now) in
          Pairwise-map Apart f t.proposals
            (Apart-under f (update_row-Narrows id s submitted now closing)) c.apart;
      once_each = c.once_each;
      logged =
          All-append (λ l. l.proposal < t.next_id) t.events (e ∷ []) c.logged
            (rw (sym same_id) row.numbered, tt);
      signed = c.signed;
    })
