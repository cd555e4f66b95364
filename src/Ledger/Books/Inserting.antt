-- ===== src/Ledger/Books/Inserting.antt =====
-- Inserting the lines of a transaction, and committing it.
use stelfin.Prelude.{
  ℕ, List, [], ◌∷◌, ◌++◌, true, ◌||◌, not, if◌then◌else◌, ◌≡◌, inl, inr, refl, sym, ap, ◌∙◌, subst,
  arith, ok, err, none, some, all, All, Option-cases, >>=-eq-ok, refuse_if-eq-ok, ok-injective,
  append_assoc, append-nil,
}
use stelfin.Prelude.Int.{pos, eqb_ℤ}
use stelfin.Ledger.{Posting, PostRequest, Error}
use stelfin.Ledger.Books.{
  Account, Entry, Books, mem, has_asset, find_account, apply_to_balance, insert_entry,
  insert_entries, lines_of, assert_balanced, belongs_to, commit, with_row, insert_transaction,
}
use stelfin.Ledger.Books.Entries.{
  entry, entries_for, Inserted, BalancesHold, apply_to_balance-eq-ok, applied-Inserted,
  applied-BalancesHold,
}

-- The account that a line names exists.
abbrev pub Known : List Account → Entry → Type 0
Known accounts e = (x : Account) × (find_account e.account accounts ≡ some x)

-- Lines inserted into books whose balances hold, and what holds of the result.
abbrev pub Keeps : Books → List Entry → Books → Type 0
Keeps b es b' = Inserted b es b' × (BalancesHold b → BalancesHold b') × All (Known b.accounts) es

insert_entry-Keeps :
    (b : Books) (id : ℕ) (p : Posting) {b' : Books}
    → insert_entry b id p ≡ ok b'
    → Keeps b (entry id p ∷ []) b'
unfolding insert_entry
insert_entry-Keeps b id p {b'} h = elim (Option-cases (find_account p.account b.accounts)) [
  | inl e ↦ absurd (unknown e)
  | inr (x, e) ↦ known x e (rw (e, insert_entry) at h)
]
  where
    unknown : find_account p.account b.accounts ≡ none → ⊥
    unknown e = ground arith

    known :
        (x : Account)
        → find_account p.account b.accounts ≡ some x
        → (if eqb_ℤ p.amount (pos 0) || not (has_asset p.asset b.assets)
            then err Error.database
            else apply_to_balance b x (entry id p))
          ≡ ok b'
        → Keeps b (entry id p ∷ []) b'
    known x e k =
        let done : apply_to_balance b x (entry id p) ≡ ok b' = ground arith in
        let (same, fits, covered) = apply_to_balance-eq-ok b x (entry id p) done in
        (
          subst (Inserted b (entry id p ∷ [])) (sym same) (applied-Inserted b (entry id p)),
          λ v.
              subst BalancesHold (sym same)
                (applied-BalancesHold b x (entry id p) e fits covered v),
          ((x, e), tt),
        )

Inserted-nil : (b : Books) → Inserted b [] b
Inserted-nil b = record {
  orgs = refl;
  assets = refl;
  next_account = refl;
  accounts = refl;
  transactions = refl;
  next_id = refl;
  entries = sym (append-nil b.entries);
}

Inserted-trans :
    {b b' b'' : Books} {e : Entry} {es : List Entry}
    → Inserted b (e ∷ []) b'
    → Inserted b' es b''
    → Inserted b (e ∷ es) b''
Inserted-trans {b} {b'} {b''} {e} {es} h k = record {
  orgs = k.orgs ∙ h.orgs;
  assets = k.assets ∙ h.assets;
  next_account = k.next_account ∙ h.next_account;
  accounts = k.accounts ∙ h.accounts;
  transactions = k.transactions ∙ h.transactions;
  next_id = k.next_id ∙ h.next_id;
  entries = k.entries ∙ ap (λ t. t ++ es) h.entries ∙ append_assoc b.entries (e ∷ []) es;
}

pub insert_entries-Keeps :
    (b : Books) (id : ℕ) (ps : List Posting) {b' : Books}
    → insert_entries b id ps ≡ ok b'
    → Keeps b (entries_for id ps) b'
unfolding insert_entries
insert_entries-Keeps b id [] h =
    let same = ok-injective h in
    (subst (Inserted b []) same (Inserted-nil b), subst BalancesHold same, tt)
insert_entries-Keeps b id (p ∷ ps) h =
    let (b₁, first, rest) = >>=-eq-ok (insert_entry b id p) (λ b₁. insert_entries b₁ id ps) h in
    let (one, keep, (x, _)) = insert_entry-Keeps b id p first in
    let (more, keep', xs) = insert_entries-Keeps b₁ id ps rest in
    (
      Inserted-trans one more,
      λ v. keep' (keep v),
      (x, subst (λ accounts. All (Known accounts) (entries_for id ps)) one.accounts xs),
    )

pub commit-eq-ok :
    (b : Books) (org id : ℕ) {b' : Books}
    → commit b org id ≡ ok b'
    → (b' ≡ b)
      × (assert_balanced (lines_of id b.entries) ≡ true)
      × (all (belongs_to org b.accounts) (lines_of id b.entries) ≡ true)
unfolding commit
commit-eq-ok b org id h =
    let lines = lines_of id b.entries in
    let (balanced, h') = refuse_if-eq-ok (not (assert_balanced lines)) Error.unbalanced _ h in
    let (single, h'') =
      refuse_if-eq-ok (not (all (belongs_to org b.accounts) lines)) Error.cross_org _ h' in
    (sym (ok-injective h''), ground arith, ground arith)

-- What a new transaction leaves: its row, its lines, and both checks of the commit.
pub record Posted (b : Books) (r : PostRequest) (print : List ℕ) (b' : Books) : Type 0 where
  pub inserted : Inserted (with_row b r print) (entries_for b.next_id r.postings) b'
  pub holds : BalancesHold b → BalancesHold b'
  pub known : All (Known b.accounts) (entries_for b.next_id r.postings)
  pub balanced : assert_balanced (lines_of b.next_id b'.entries) ≡ true
  pub single : all (belongs_to r.org b'.accounts) (lines_of b.next_id b'.entries) ≡ true

with_row-BalancesHold :
    (b : Books) (r : PostRequest) (print : List ℕ)
    → BalancesHold b
    → BalancesHold (with_row b r print)
with_row-BalancesHold b r print v = record {
  derived = v.derived;
  in_range = v.in_range;
  covered = v.covered;
}

pub insert_transaction-Posted :
    (b : Books) (r : PostRequest) (print : List ℕ) {id : ℕ} {b' : Books}
    → insert_transaction b r print ≡ ok (id, b')
    → (id ≡ b.next_id) × Posted b r print b'
unfolding insert_transaction
insert_transaction-Posted b r print {id} {b'} h =
    let (_, h') = refuse_if-eq-ok (not (mem r.org b.orgs)) Error.database _ h in
    let (b₁, lines, h'') =
      >>=-eq-ok (insert_entries (with_row b r print) b.next_id r.postings) _ h' in
    let (b₂, committed, done) = >>=-eq-ok (commit b₁ r.org b.next_id) _ h'' in
    let (same, balanced, single) = commit-eq-ok b₁ r.org b.next_id committed in
    let (inserted, keep, known) =
      insert_entries-Keeps (with_row b r print) b.next_id r.postings lines in
    let result = ok-injective done in
    (
      sym (ap (λ t. t.0) result),
      subst (Posted b r print) (sym same ∙ ap (λ t. t.1) result) (record {
        inserted = inserted;
        holds = λ v. keep (with_row-BalancesHold b r print v);
        known = known;
        balanced = balanced;
        single = single;
      }),
    )
