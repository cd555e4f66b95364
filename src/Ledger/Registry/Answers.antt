-- ===== src/Ledger/Registry/Answers.antt =====
-- What EnsureAccount of ledger/ledger.go answers, on each of its branches.
use stelfin.Prelude.{
  ℕ, suc, [], ◌∷◌, ◌++◌, Bool, true, false, ◌==◌, ◌≡◌, ◌≢◌, ◌⊎◌, ◌↔◌, inl, inr, refl, sym, ◌∙◌,
  arith, Result, ok, err, All, Bool-cases, Option-cases, ==_iff,
}
use stelfin.Text.{Bytes}
use stelfin.Ledger.{
  Error, AccountKind, member, treasury, external, fee_expense, sponsored_reserve, trading,
}
use stelfin.Ledger.Books.{Books, Account, mem}
use stelfin.Ledger.Registry.{
  goes_negative, find_match, ensure_account, account_allowed, new_account,
}
use stelfin.Ledger.Registry.Accounts.{
  IsThe, HasOwner, Among, allowed_iff, find_match-Among, find_match-none,
}

-- The row that is added.
pub record IsNew (b : Books) (org : ℕ) (kind : AccountKind) (owner_ref name : Bytes) (a : Account)
    : Type 0 where
  pub numbered : a.id ≡ b.next_account
  pub of_org : a.org ≡ org
  pub of_kind : a.kind ≡ kind
  pub of_owner : a.owner_ref ≡ owner_ref
  pub named : a.name ≡ name
  pub overdrawn : (a.allows_negative ≡ true) ↔ ((kind ≡ external) ⊎ (kind ≡ trading))

-- The books and the answer that a call on `b` leaves.
pub data Answer (lower : Bytes → Bytes) (b : Books) (org : ℕ) (kind : AccountKind)
    (owner_ref name : Bytes) : Books → Result Error ℕ → Type 0 where
  without_org : org ≡ 0 → Answer lower b org kind owner_ref name b (err Error.org_required)
  malformed :
      org ≢ 0
      → (((name ≢ []) × HasOwner kind owner_ref) → ⊥)
      → Answer lower b org kind owner_ref name b (err Error.database)
  found :
      org ≢ 0
      → name ≢ []
      → HasOwner kind owner_ref
      → (a : Account) → Among lower org kind owner_ref name a b.accounts
      → Answer lower b org kind owner_ref name b (ok a.id)
  unknown_org :
      org ≢ 0
      → name ≢ []
      → HasOwner kind owner_ref
      → All (λ a. IsThe lower org kind owner_ref name a → ⊥) b.accounts
      → mem org b.orgs ≡ false
      → Answer lower b org kind owner_ref name b (err Error.database)
  made :
      org ≢ 0
      → name ≢ []
      → HasOwner kind owner_ref
      → All (λ a. IsThe lower org kind owner_ref name a → ⊥) b.accounts
      → mem org b.orgs ≡ true
      → (a : Account) → IsNew b org kind owner_ref name a
      → Answer lower b org kind owner_ref name
          (record b { accounts = b.accounts ++ a ∷ []; next_account = suc b.next_account })
          (ok a.id)

goes_negative_iff :
    (kind : AccountKind) → (goes_negative kind ≡ true) ↔ ((kind ≡ external) ⊎ (kind ≡ trading))
goes_negative_iff member = (λ h. cc, λ h. ground arith)
goes_negative_iff treasury = (λ h. cc, λ h. ground arith)
goes_negative_iff external = (λ h. inl refl, λ h. refl)
goes_negative_iff fee_expense = (λ h. cc, λ h. ground arith)
goes_negative_iff sponsored_reserve = (λ h. cc, λ h. ground arith)
goes_negative_iff trading = (λ h. inr refl, λ h. refl)

new_account-IsNew :
    (lower : Bytes → Bytes) (b : Books) (org : ℕ) (kind : AccountKind) (owner_ref name : Bytes)
    → IsNew b org kind owner_ref name (new_account lower b org kind owner_ref name)
new_account-IsNew lower b org kind owner_ref name = record {
  numbered = refl;
  of_org = refl;
  of_kind = refl;
  of_owner = refl;
  named = refl;
  overdrawn = goes_negative_iff kind;
}

true≢false : ◌≡◌ {A = Bool} true false → ⊥
true≢false e = cc

apart : (a b : ℕ) → (a == b) ≡ false → a ≢ b
apart a b h e = true≢false (sym ((==_iff a b).1 e) ∙ h)

-- Whatever EnsureAccount is asked for, an org is required; a text for the name, and an owner for a
-- member's account and for no other; and a known org where the account is not there yet. It answers
-- with an account of that org, kind and owner, and for a treasury of that name but for its case, which
-- it adds only when there is none: with the next id, the name given, and leave to go below zero just
-- when it is external or a trading account. All else stays as it is, and everything does on an error.
pub ensure_account_answers :
    (lower : Bytes → Bytes) (b : Books) (org : ℕ) (kind : AccountKind) (owner_ref name : Bytes)
    → Answer lower b org kind owner_ref name
        (ensure_account lower b org kind owner_ref name).0
        (ensure_account lower b org kind owner_ref name).1
unfolding ensure_account
ensure_account_answers lower b org kind owner_ref name = elim (Bool-cases (org == 0)) [
  | inl e ↦ rw (e, ensure_account) (without_org ((==_iff org 0).0 e))
  | inr e ↦
      let some_org = apart org 0 e in
      elim (Bool-cases (account_allowed lower kind owner_ref name)) [
        | inr k ↦
            rw (e, k, ensure_account)
              (malformed some_org
                (λ v. true≢false (sym ((allowed_iff lower kind owner_ref name).1 v) ∙ k)))
        | inl k ↦
            let (named, owned) = (allowed_iff lower kind owner_ref name).0 k in
            elim (Option-cases (find_match lower org kind owner_ref name b.accounts)) [
              | inr (a, f) ↦
                  rw (e, k, f, ensure_account)
                    (found some_org named owned a
                      (find_match-Among lower org kind owner_ref name b.accounts f))
              | inl f ↦
                  let absent = find_match-none lower org kind owner_ref name b.accounts f in
                  elim (Bool-cases (mem org b.orgs)) [
                    | inr m ↦
                        rw (e, k, f, m, ensure_account) (unknown_org some_org named owned absent m)
                    | inl m ↦
                        rw (e, k, f, m, ensure_account)
                          (made some_org named owned absent m
                            (new_account lower b org kind owner_ref name)
                            (new_account-IsNew lower b org kind owner_ref name))
                  ]
            ]
      ]
]
