-- ===== src/Store/Proposals/Window.antt =====
-- Windows that have passed: `expireSQL` and what it leaves.
use stelfin.Prelude.{
  ℕ, ◌<◌, List, [], ◌∷◌, ◌++◌, Bool, ◌&&◌, if◌then◌else◌, ◌≡◌, ◌≢◌, inl, inr, refl, arith, Option,
  Bool-cases, All, All-weaken, All-both, All-map, All-append, Pairwise, Pairwise-map, ==_refl,
  ==_apart,
}
use stelfin.Text.{codes}
use stelfin.Store.Proposals.{
  Proposal, ProposalEvent, SignatureRow, Tables, is_stale, log, expire_row, expired_events, expire,
  history_of, proposal_expired, event_expired,
}
use stelfin.Store.Proposals.Lifecycle.{
  IsRow, Apart, IsConsistent, IsRow-unsigned, IsRow-closes, Narrows, Apart-under,
}

module _ (chosen : Proposal → Bool) (now : ℕ) where
  abbrev lapsed : Proposal → Bool
  lapsed p = is_stale now p && chosen p

  abbrev note : ℕ → ProposalEvent
  note id = log id event_expired 0 (codes "the signing window closed") now

  nothing_expired :
      (id : ℕ) (ps : List Proposal)
      → All (λ q. id ≢ q.id) ps
      → history_of id (expired_events chosen now ps) ≡ []
  unfolding expired_events history_of
  nothing_expired id [] h = refl
  nothing_expired id (p ∷ ps) (hp, h) = elim (Bool-cases (lapsed p)) [
    | inl e ↦ rw e (ground (arith, nothing_expired id ps h))
    | inr e ↦ rw e (nothing_expired id ps h)
  ]

  -- What is written about a row.
  abbrev pub Logs : List ProposalEvent → Proposal → Type 0
  Logs es p = history_of p.id es ≡ (if lapsed p then note p.id ∷ [] else [])

  Logs-behind :
      (x p : Proposal) (es : List ProposalEvent)
      → x.id ≢ p.id
      → Logs es p
      → Logs (if lapsed x then note x.id ∷ es else es) p
  unfolding history_of
  Logs-behind x p es ne h = elim (Bool-cases (lapsed x)) [
    | inl e ↦ rw (e, ==_apart x.id p.id ne) h
    | inr e ↦ rw e h
  ]

  pub expired_events-Logs :
      (ps : List Proposal) → Pairwise Apart ps → All (Logs (expired_events chosen now ps)) ps
  unfolding expired_events history_of
  expired_events-Logs [] h = tt
  expired_events-Logs (p ∷ ps) (hp, h) = (
    elim (Bool-cases (lapsed p)) [
      | inl e ↦ rw (e, ==_refl p.id, nothing_expired p.id ps (All-weaken ps (λ q a. a.ids) hp)) refl
      | inr e ↦ rw e (nothing_expired p.id ps (All-weaken ps (λ q a. a.ids) hp))
    ],
    All-both ps (λ q a l. Logs-behind p q (expired_events chosen now ps) a.ids l) hp
        (expired_events-Logs ps h),
  )

  expire_row-Narrows : Narrows (expire_row chosen now)
  expire_row-Narrows = record {
    ids = λ p. ground arith;
    hashes = λ p. ground arith;
    treasuries = λ p. ground arith;
    opens = λ p h. ground arith;
  }

  expired_events-numbered :
      (events : List ProposalEvent) (sigs : List SignatureRow) (next : ℕ)
      (treasury_org : ℕ → Option ℕ) (ps : List Proposal)
      → All (IsRow events sigs next treasury_org) ps
      → All (λ e. e.proposal < next) (expired_events chosen now ps)
  unfolding expired_events
  expired_events-numbered events sigs next treasury_org [] h = tt
  expired_events-numbered events sigs next treasury_org (p ∷ ps) (hp, h) =
      let rest = expired_events-numbered events sigs next treasury_org ps h in
      elim (Bool-cases (lapsed p)) [ inl e ↦ rw e (hp.numbered, rest) | inr e ↦ rw e rest ]

  -- A row after its window has been looked at.
  IsRow-expire :
      (events more : List ProposalEvent) (sigs : List SignatureRow) (next : ℕ)
      (treasury_org : ℕ → Option ℕ) (p : Proposal)
      → IsRow events sigs next treasury_org p
      → Logs more p
      → IsRow (events ++ more) sigs next treasury_org (expire_row chosen now p)
  IsRow-expire events more sigs next treasury_org p row l = elim (Bool-cases (lapsed p)) [
    | inl e ↦ rw e (
        IsRow-closes events sigs next treasury_org p row more (note p.id) proposal_expired [] now
          refl (rw e at l) (ground arith) refl)
    | inr e ↦ rw e (IsRow-unsigned events sigs next treasury_org p row more (rw e at l))
  ]

  -- Expiry keeps the tables consistent.
  pub expire-IsConsistent : (t : Tables) → IsConsistent t → IsConsistent (expire chosen now t)
  unfolding expire
  expire-IsConsistent t c =
      let more = expired_events chosen now t.proposals in
      record {
        rows =
            All-map (IsRow (t.events ++ more) t.signatures t.next_id t.treasury_org)
              (expire_row chosen now) t.proposals
              (All-both t.proposals
                (λ p row l.
                  IsRow-expire t.events more t.signatures t.next_id t.treasury_org p row l)
                c.rows (expired_events-Logs t.proposals c.apart));
        apart =
            Pairwise-map Apart (expire_row chosen now) t.proposals
              (Apart-under (expire_row chosen now) expire_row-Narrows) c.apart;
        once_each = c.once_each;
        logged =
            All-append (λ e. e.proposal < t.next_id) t.events more c.logged
              (expired_events-numbered t.events t.signatures t.next_id t.treasury_org t.proposals
                c.rows);
        signed = c.signed;
      }
