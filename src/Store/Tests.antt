-- ===== src/Store/Tests.antt =====
-- One treasury: a payment that is proposed, approved and executed, and another behind it.
use mathlib.Core.List.{Perm}
use stelfin.Prelude.{
  Pairwise, ℕ, [], ◌∷◌, true, ◌≡◌, refl, Option, none, some, ok, err, replicate, ◌++◌,
}
use stelfin.Prelude.Int.{pos}
use stelfin.Text.{codes}
use stelfin.Store.Proposals.{
  Error, Proposal, CreateProposalParams, ProposalSignature, Tables, create_proposal, add_signature,
  resolve_proposal, new_proposal, signed, proposal, proposal_history, signatures, find_proposal,
  close_row, open_proposal, row_allowed, proposal_executed, proposal_failed, proposal_open,
  expire_proposals, log, event_executed,
}
use stelfin.Store.Proposals.Listing.{NoLater}
use stelfin.Store.Proposals.Lifecycle.{IsConsistent, Lifecycle}
use stelfin.Store.Proposals.History.{kinds_of, approvals, signers}
use stelfin.Store.Proposals.Opening.{with_proposal, cleared}
use stelfin.Store.Proposals.Reach.{
  Reach, initial, here, next, opened, approved, resolved, swept, Reach-IsConsistent,
  Reach-Lifecycle,
}
use stelfin.Store.Proposals.Final.{closed_stays}
use stelfin.Store.Proposals.Slot.{create_proposal_answers}

-- Everything belongs to org 1.
abbrev orgs : ℕ → Option ℕ
orgs id = some 1

abbrev before : Tables
before = initial orgs orgs (7 ∷ []) 1

abbrev payment : ℕ → ℕ → CreateProposalParams
payment byte expires = record {
  org = 1;
  treasury = 5;
  kind = codes "payment";
  xdr = codes "AAAA";
  hash = replicate 64 byte;
  source_seq = pos 9;
  description = codes "10 XLM to Ada";
  digest = replicate 32 0;
  amount = pos 100_000_000;
  created_by = 3;
  expires_at = expires;
}

abbrev proposed : Tables
proposed = with_proposal before (payment b'a' 100) 10 (cleared before (payment b'a' 100) 10)

proposed-create :
    create_proposal before (payment b'a' 100) 10
    ≡ ok (new_proposal 1 10 (payment b'a' 100), proposed)
unfolding create_proposal row_allowed stelfin.Store.Proposals.expire
proposed-create = refl

abbrev ada : ProposalSignature
ada = record {
  signer = b'G' ∷ replicate 55 b'A';
  signature = replicate 64 1;
  weight = pos 1;
  added_by = 7;
  created_at = 0;
}

abbrev approval : Tables
approval = signed proposed 1 ada 20

approval-add : add_signature proposed 1 1 ada 20 ≡ ok approval
unfolding add_signature proposal find_proposal stelfin.Store.Proposals.insert_signature
    stelfin.Store.Proposals.signature_allowed stelfin.Store.Proposals.expire
approval-add = refl

approval-again : add_signature approval 1 1 ada 30 ≡ ok approval
unfolding add_signature proposal find_proposal stelfin.Store.Proposals.insert_signature
    stelfin.Store.Proposals.signature_allowed stelfin.Store.Proposals.expire
approval-again = refl

abbrev executed : Tables
executed = record approval {
  proposals =
      close_row proposal_executed (replicate 64 b'b') 40 (new_proposal 1 10 (payment b'a' 100))
      ∷ [];
  events = approval.events ++ log 1 event_executed 7 (codes "landed") 40 ∷ [];
}

executed-resolve :
    resolve_proposal approval 1 1 proposal_executed (replicate 64 b'b') (codes "landed") 7 40
    ≡ ok executed
unfolding resolve_proposal find_proposal stelfin.Store.Proposals.expire
executed-resolve = refl

run : Reach before executed
run =
    next
      (next
        (next here
          (opened (payment b'a' 100) 10 (new_proposal 1 10 (payment b'a' 100)) proposed-create))
        (approved 1 1 ada 20 approval-add))
      (resolved 1 1 proposal_executed (replicate 64 b'b') (codes "landed") 7 40 executed-resolve)

Reach-IsConsistent_example : IsConsistent executed
Reach-IsConsistent_example = Reach-IsConsistent orgs orgs (7 ∷ []) 1 executed run

abbrev row : Proposal
row = close_row proposal_executed (replicate 64 b'b') 40 (new_proposal 1 10 (payment b'a' 100))

row-find : find_proposal 1 1 executed.proposals ≡ some row
unfolding find_proposal
row-find = refl

Reach-Lifecycle_example :
    Lifecycle (kinds_of (proposal_history executed 1 1)) row.status
    × Perm (signers (signatures executed 1 1)) (approvals (proposal_history executed 1 1))
    × Pairwise NoLater (signatures executed 1 1)
Reach-Lifecycle_example = Reach-Lifecycle orgs orgs (7 ∷ []) 1 executed 1 1 row run row-find

row-proposal : proposal executed 1 1 ≡ ok row
unfolding proposal find_proposal
row-proposal = refl

closed_stays_example :
    (proposal (expire_proposals 200 executed).1 1 1 ≡ ok row)
    × (add_signature (expire_proposals 200 executed).1 1 1 ada 60 ≡ err Error.proposal_closed)
    × (resolve_proposal (expire_proposals 200 executed).1 1 1 proposal_failed [] [] 0 60
        ≡ err Error.proposal_closed)
closed_stays_example =
    closed_stays executed (expire_proposals 200 executed).1 1 1 row proposal_failed [] [] 0 60 ada
      Reach-IsConsistent_example row-proposal refl (next here (swept 200)) refl

-- The first proposal lapses with nobody closing it; the next one goes through at that time.
proposed-IsConsistent : IsConsistent proposed
proposed-IsConsistent = Reach-IsConsistent orgs orgs (7 ∷ []) 1 proposed (
    next here (opened (payment b'a' 100) 10 (new_proposal 1 10 (payment b'a' 100)) proposed-create))

second_allowed : row_allowed 100 (payment b'c' 200) ≡ true
unfolding row_allowed
second_allowed = refl

create_proposal_answers_example :
    create_proposal proposed (payment b'c' 200) 100
    ≡ (elim (open_proposal proposed.proposals 1 5 100) [
      | none ↦ ok (
        new_proposal 2 100 (payment b'c' 200),
        with_proposal proposed (payment b'c' 200) 100 (cleared proposed (payment b'c' 200) 100),
      )
      | some q ↦ err Error.proposal_already_open
    ])
unfolding stelfin.Store.Proposals.expire
create_proposal_answers_example =
    create_proposal_answers proposed (payment b'c' 200) 100 proposed-IsConsistent second_allowed
      refl refl refl
