-- ===== src/Ledger/Registry/Same.antt =====
-- An account stays the one that EnsureAccount of ledger/ledger.go answers with.
use stelfin.Prelude.{
  ℕ, List, [], ◌∷◌, ◌++◌, true, false, ◌==◌, ◌||◌, not, ◌≡◌, inl, inr, refl, sym, ap, ◌∙◌, subst,
  arith, ok, none, some, Bool-cases, Option-cases, append-nil, append_assoc, ok-injective,
}
use stelfin.Text.{Bytes, is_empty}
use stelfin.Text.Equality.{bytes_eq_refl}
use stelfin.Ledger.{AccountKind, PostRequest}
use stelfin.Ledger.Books.{Books, Account, mem, post}
use stelfin.Ledger.Books.Invariant.{post-cases}
use stelfin.Ledger.Registry.{
  matches, find_match, ensure_account, ensure_asset, find_asset, issuer_allowed, account_allowed,
  new_account, kind_name,
}

-- A call by anybody. A `Post` that fails leaves the books, and is no step.
pub data Step (hash lower : Bytes → Bytes) (b : Books) : Books → Type 0 where
  posted :
      {b' : Books} (r : PostRequest) (id : ℕ) → post hash b r ≡ ok (id, b') → Step hash lower b b'
  asset_ensured : (code issuer : Bytes) → Step hash lower b (ensure_asset b code issuer).0
  account_ensured :
      (org : ℕ) (kind : AccountKind) (owner_ref name : Bytes)
      → Step hash lower b (ensure_account lower b org kind owner_ref name).0

pub data Reach (hash lower : Bytes → Bytes) (b : Books) : Books → Type 0 where
  here : Reach hash lower b b
  next : {u v : Books} → Reach hash lower b u → Step hash lower u v → Reach hash lower b v

-- Accounts are only ever added, behind those that are there.
abbrev Extends : Books → Books → Type 0
Extends b b' = (more : List Account) × (b'.accounts ≡ b.accounts ++ more)

same-Extends : (b b' : Books) → b'.accounts ≡ b.accounts → Extends b b'
same-Extends b b' e = ([], e ∙ sym (append-nil b.accounts))

ensure_asset-Extends : (b : Books) (code issuer : Bytes) → Extends b (ensure_asset b code issuer).0
unfolding ensure_asset
ensure_asset-Extends b code issuer =
    elim (Bool-cases (is_empty code || not (issuer_allowed issuer))) [
      | inl e ↦ rw (e, ensure_asset) (same-Extends b b refl)
      | inr e ↦ elim (Option-cases (find_asset code issuer b.assets)) [
        | inr (a, f) ↦ rw (e, f, ensure_asset) (same-Extends b b refl)
        | inl f ↦ rw (e, f, ensure_asset) ([], sym (append-nil b.accounts))
      ]
    ]

ensure_account-Extends :
    (lower : Bytes → Bytes) (b : Books) (org : ℕ) (kind : AccountKind) (owner_ref name : Bytes)
    → Extends b (ensure_account lower b org kind owner_ref name).0
unfolding ensure_account
ensure_account-Extends lower b org kind owner_ref name = elim (Bool-cases (org == 0)) [
  | inl e ↦ rw (e, ensure_account) (same-Extends b b refl)
  | inr e ↦ elim (Bool-cases (account_allowed lower kind owner_ref name)) [
    | inr k ↦ rw (e, k, ensure_account) (same-Extends b b refl)
    | inl k ↦ elim (Option-cases (find_match lower org kind owner_ref name b.accounts)) [
      | inr (a, f) ↦ rw (e, k, f, ensure_account) (same-Extends b b refl)
      | inl f ↦ elim (Bool-cases (mem org b.orgs)) [
        | inr m ↦ rw (e, k, f, m, ensure_account) (same-Extends b b refl)
        | inl m ↦
            rw (e, k, f, m, ensure_account) (new_account lower b org kind owner_ref name ∷ [], refl)
      ]
    ]
  ]
]

Step-Extends : {hash lower : Bytes → Bytes} {b u : Books} → Step hash lower b u → Extends b u
Step-Extends {hash} {lower} {b} {u} (posted r id h) = elim (post-cases hash b r h) [
  | inl (row, _, _, same) ↦ same-Extends b u (ap (λ x. x.accounts) same)
  | inr (_, _, p) ↦ same-Extends b u p.inserted.accounts
]
Step-Extends {hash} {lower} {b} (asset_ensured code issuer) = ensure_asset-Extends b code issuer
Step-Extends {hash} {lower} {b} (account_ensured org kind owner_ref name) =
    ensure_account-Extends lower b org kind owner_ref name

Reach-Extends : {hash lower : Bytes → Bytes} {b u : Books} → Reach hash lower b u → Extends b u
Reach-Extends {hash} {lower} {b} here = same-Extends b b refl
Reach-Extends {hash} {lower} {b} (next r s) =
    let (xs, e) = Reach-Extends r in
    let (ys, f) = Step-Extends s in
    (xs ++ ys, f ∙ ap (λ l. l ++ ys) e ∙ append_assoc b.accounts xs ys)

module _ (lower : Bytes → Bytes) (org : ℕ) (kind : AccountKind) (owner_ref name : Bytes) where
  find_match-append :
      (xs ys : List Account) {a : Account}
      → find_match lower org kind owner_ref name xs ≡ some a
      → find_match lower org kind owner_ref name (xs ++ ys) ≡ some a
  unfolding find_match
  find_match-append [] ys h = cc
  find_match-append (x ∷ xs) ys h = elim (Bool-cases (matches lower org kind owner_ref name x)) [
    | inl e ↦ rw e (rw e at h)
    | inr e ↦ rw e (find_match-append xs ys (rw e at h))
  ]

  matches-new_account :
      (b : Books)
      → matches lower org kind owner_ref name (new_account lower b org kind owner_ref name) ≡ true
  matches-new_account b =
      ground
        (arith, bytes_eq_refl (kind_name kind), bytes_eq_refl owner_ref, bytes_eq_refl (lower name))

  find_match-snoc :
      (b : Books) (xs : List Account)
      → find_match lower org kind owner_ref name xs ≡ none
      → find_match lower org kind owner_ref name
          (xs ++ new_account lower b org kind owner_ref name ∷ [])
        ≡ some (new_account lower b org kind owner_ref name)
  unfolding find_match
  find_match-snoc b [] h = rw (matches-new_account b) refl
  find_match-snoc b (x ∷ xs) h = elim (Bool-cases (matches lower org kind owner_ref name x)) [
    | inl e ↦ absurd (cc (rw e at h))
    | inr e ↦ rw e (find_match-snoc b xs (rw e at h))
  ]

  -- What an answer with an id says of the books that it leaves.
  ensure_account-eq-ok :
      (b : Books) {u : Books} {id : ℕ}
      → ensure_account lower b org kind owner_ref name ≡ (u, ok id)
      → ((org == 0) ≡ false)
        × (account_allowed lower kind owner_ref name ≡ true)
        × (a : Account) × (find_match lower org kind owner_ref name u.accounts ≡ some a)
        × (a.id ≡ id)
  unfolding ensure_account
  ensure_account-eq-ok b {u} {id} h = elim (Bool-cases (org == 0)) [
    | inl e ↦ absurd (cc (ap (λ x. x.1) (rw (e, ensure_account) at h)))
    | inr e ↦ elim (Bool-cases (account_allowed lower kind owner_ref name)) [
      | inr k ↦ absurd (cc (ap (λ x. x.1) (rw (e, k, ensure_account) at h)))
      | inl k ↦ elim (Option-cases (find_match lower org kind owner_ref name b.accounts)) [
        | inr (a, f) ↦
            let result = rw (e, k, f, ensure_account) at h in
            (
              e,
              k,
              a,
              subst (λ x. find_match lower org kind owner_ref name x.accounts ≡ some a)
                  (ap (λ x. x.0) result) f,
              ok-injective (ap (λ x. x.1) result),
            )
        | inl f ↦ elim (Bool-cases (mem org b.orgs)) [
          | inr m ↦ absurd (cc (ap (λ x. x.1) (rw (e, k, f, m, ensure_account) at h)))
          | inl m ↦
              let result = rw (e, k, f, m, ensure_account) at h in
              let a = new_account lower b org kind owner_ref name in
              (
                e,
                k,
                a,
                subst (λ x. find_match lower org kind owner_ref name x.accounts ≡ some a)
                    (ap (λ x. x.0) result) (find_match-snoc b b.accounts f),
                ok-injective (ap (λ x. x.1) result),
              )
        ]
      ]
    ]
  ]

  -- Who was answered with an account once is answered with the same one ever after, whatever has been
  -- posted or registered by anybody since; and being asked again changes nothing.
  pub ensure_account_again :
      (hash : Bytes → Bytes) (b u v : Books) (id : ℕ)
      → ensure_account lower b org kind owner_ref name ≡ (u, ok id)
      → Reach hash lower u v
      → ensure_account lower v org kind owner_ref name ≡ (v, ok id)
  unfolding ensure_account
  ensure_account_again hash b u v id h r =
      let (some_org, allowed, a, found, same) = ensure_account-eq-ok b h in
      let (more, e) = Reach-Extends r in
      let still : find_match lower org kind owner_ref name v.accounts ≡ some a =
        subst (λ l. find_match lower org kind owner_ref name l ≡ some a) (sym e)
          (find_match-append u.accounts more found) in
      rw (some_org, allowed, still, same) refl
