-- ===== src/Store/Proposals/Approving.antt =====
-- Approving keeps the tables consistent.
use stelfin.Prelude.{
  ℕ, ◌<◌, List, [], ◌∷◌, ◌++◌, true, false, ◌==◌, ◌≡◌, ◌≢◌, ◌⊎◌, inl, inr, refl, sym, ap, arith,
  some, Bool-cases, All, All-both, All-append, Pairwise-snoc, ltb, ==_refl, ==_apart, ==_iff, ok,
  refuse_if-eq-ok, ok-injective, >>=-eq-ok, any, not, subst, Option-cases,
}
use stelfin.Text.Equality.{bytes_eq_refl}
use stelfin.Store.Proposals.{
  Error, is_known, Proposal, ProposalEvent, ProposalSignature, SignatureRow, Tables, is_open, log,
  find_proposal, signatures_of, proposal, add_signature, insert_signature, signed, is_signed_by,
  event_signed, signature_allowed,
}
use stelfin.Store.Proposals.Lifecycle.{IsRow, OnceEach, IsConsistent, IsRow-signs, IsRow-stays}
use stelfin.Store.Proposals.Closing.{
  find_proposal_sound, All-find_proposal, found_only, logged_here, logged_elsewhere,
}

pub proposal-eq-ok :
    (t : Tables) (org id : ℕ) {p : Proposal}
    → proposal t org id ≡ ok p
    → find_proposal org id t.proposals ≡ some p
unfolding proposal
proposal-eq-ok t org id h = elim (Option-cases (find_proposal org id t.proposals)) [
  | inl e ↦ absurd (cc (rw (proposal, e) at h))
  | inr (q, e) ↦ rw e (ap some (ok-injective (rw (proposal, e) at h)))
]

pub proposal-found :
    (t : Tables) (org id : ℕ) {p : Proposal}
    → find_proposal org id t.proposals ≡ some p
    → proposal t org id ≡ ok p
unfolding proposal
proposal-found t org id found = rw (proposal, found) refl

insert_signature-eq-ok :
    (t : Tables) (id : ℕ) (sig : ProposalSignature) (now : ℕ) {u : Tables}
    → insert_signature t id sig now ≡ ok u
    → (u ≡ t)
      ⊎ ((any (is_signed_by id sig.signer) t.signatures ≡ false) × (u ≡ signed t id sig now))
unfolding insert_signature
insert_signature-eq-ok t id sig now h = elim (Bool-cases (signature_allowed sig)) [
  | inr e ↦ absurd (cc (rw e at h))
  | inl e ↦ elim (Bool-cases (any (is_signed_by id sig.signer) t.signatures)) [
    | inl again ↦ inl (sym (ok-injective (rw (e, again) at h)))
    | inr first ↦ elim (Bool-cases (is_known t.identities sig.added_by)) [
      | inl known ↦ inr (first, sym (ok-injective (rw (e, first, known) at h)))
      | inr k ↦ absurd (cc (rw (e, first, k) at h))
    ]
  ]
]

-- What an approval that succeeds has done.
pub add_signature-eq-ok :
    (t : Tables) (org id : ℕ) (sig : ProposalSignature) (now : ℕ) {u : Tables}
    → add_signature t org id sig now ≡ ok u
    → (p : Proposal) × (find_proposal org id t.proposals ≡ some p)
      × (is_open p.status ≡ true)
      × (now < p.expires_at)
      × ((u ≡ t)
          ⊎ ((any (is_signed_by id sig.signer) t.signatures ≡ false) × (u ≡ signed t id sig now)))
unfolding add_signature
add_signature-eq-ok t org id sig now h =
    let (p, read, a) = >>=-eq-ok (proposal t org id) _ h in
    let (was_open, b) = refuse_if-eq-ok (not (is_open p.status)) _ _ a in
    let (in_time, c) = refuse_if-eq-ok (not (ltb now p.expires_at)) Error.proposal_closed _ b in
    (
      p,
      proposal-eq-ok t org id read,
      ground arith,
      ground arith,
      insert_signature-eq-ok t id sig now c,
    )

unsigned_apart :
    (id : ℕ) (sig : ProposalSignature) (now : ℕ) (sigs : List SignatureRow)
    → any (is_signed_by id sig.signer) sigs ≡ false
    → All (λ s. OnceEach s (record { proposal = id; sig = record sig { created_at = now } })) sigs
unsigned_apart id sig now [] h = tt
unsigned_apart id sig now (s ∷ sigs) h = elim (Bool-cases (is_signed_by id sig.signer s)) [
  | inl e ↦ absurd (cc (rw e at h))
  | inr e ↦ (
    record {
      once = λ same_id same_key.
          absurd (cc (rw (same_id, same_key, ==_refl id, bytes_eq_refl sig.signer) at e));
    },
    unsigned_apart id sig now sigs (rw e at h),
  )
]

module _ (t : Tables) (id : ℕ) (sig : ProposalSignature) (now : ℕ) where
  abbrev sig_row : SignatureRow
  sig_row = record { proposal = id; sig = record sig { created_at = now } }

  abbrev new_event : ProposalEvent
  new_event = log id event_signed sig.added_by sig.signer now

  -- A row after an approval of it or of another.
  IsRow-approve :
      (p q : Proposal)
      → is_open p.status ≡ true
      → IsRow t.events t.signatures t.next_id t.treasury_org q
      → (q.id ≡ id → q ≡ p)
      → IsRow (t.events ++ new_event ∷ []) (t.signatures ++ sig_row ∷ []) t.next_id t.treasury_org q
  unfolding signatures_of
  IsRow-approve p q was_open row only = elim (Bool-cases (q.id == id)) [
    | inl same ↦
        let same_id = (==_iff q.id id).0 same in
        IsRow-signs t.events t.signatures t.next_id t.treasury_org q row (new_event ∷ [])
          (sig_row ∷ []) sig_row.sig new_event refl refl (logged_here q id new_event refl same_id)
          (rw (same_id, ==_refl id) refl) (rw (only same_id) was_open)
    | inr other ↦
        let apart : q.id ≢ id = ground arith in
        IsRow-stays t.events t.signatures t.next_id t.treasury_org q row (new_event ∷ [])
          (sig_row ∷ []) t.next_id (logged_elsewhere q id new_event refl apart)
          (rw (==_apart id q.id (λ x. apart (sym x))) refl) (omega arith)
  ]

  signed-IsConsistent :
      (p : Proposal) (org : ℕ)
      → IsConsistent t
      → find_proposal org id t.proposals ≡ some p
      → is_open p.status ≡ true
      → any (is_signed_by id sig.signer) t.signatures ≡ false
      → IsConsistent (signed t id sig now)
  signed-IsConsistent p org c found was_open first =
      let (same_id, same_org) = find_proposal_sound org id t.proposals found in
      let row =
        All-find_proposal (IsRow t.events t.signatures t.next_id t.treasury_org) org id t.proposals
          c.rows found in
      let known : id < t.next_id = rw (sym same_id) row.numbered in
      record {
        rows =
            All-both t.proposals (λ q r only. IsRow-approve p q was_open r only) c.rows
              (found_only org id t.proposals c.apart found);
        apart = c.apart;
        once_each =
            Pairwise-snoc OnceEach t.signatures sig_row
              (unsigned_apart id sig now t.signatures first) c.once_each;
        logged =
            All-append (λ l. l.proposal < t.next_id) t.events (new_event ∷ []) c.logged (known, tt);
        signed =
            All-append (λ s. s.proposal < t.next_id) t.signatures (sig_row ∷ []) c.signed
              (known, tt);
      }

-- An approval keeps the tables consistent.
pub add_signature-IsConsistent :
    (t : Tables) (org id : ℕ) (sig : ProposalSignature) (now : ℕ) {u : Tables}
    → IsConsistent t
    → add_signature t org id sig now ≡ ok u
    → IsConsistent u
add_signature-IsConsistent t org id sig now c h =
    let (p, found, was_open, in_time, result) = add_signature-eq-ok t org id sig now h in
    elim result [
      | inl same ↦ subst IsConsistent (sym same) c
      | inr (first, made) ↦
          subst IsConsistent (sym made)
            (signed-IsConsistent t id sig now p org c found was_open first)
    ]
