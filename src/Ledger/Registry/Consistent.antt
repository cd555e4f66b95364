-- ===== src/Ledger/Registry/Consistent.antt =====
-- Registering an asset or an account keeps the books consistent.
use stelfin.Prelude.{
  ℕ, suc, ◌<◌, List, [], ◌∷◌, ◌++◌, true, ◌==◌, ◌||◌, not, ◌≡◌, ◌⊎◌, inl, inr, refl, sym, ◌∙◌,
  subst, arith, some, all, All, All-append, Bool-cases, Option-cases,
}
use stelfin.Prelude.Int.{pos}
use stelfin.Text.{Bytes, is_empty}
use stelfin.Ledger.{AccountKind}
use stelfin.Ledger.Books.{Books, Account, Entry, TxRow, mem, find_account, belongs_to, lines_of}
use stelfin.Ledger.Books.Entries.{sum_account}
use stelfin.Ledger.Books.Inserting.{Known}
use stelfin.Ledger.Books.Invariant.{IsConsistent}
use stelfin.Ledger.Registry.{
  ensure_asset, ensure_account, find_asset, find_match, account_allowed, new_account,
  issuer_allowed,
}

-- Registering an asset keeps consistent books consistent, also where it is refused.
pub ensure_asset-IsConsistent :
    (b : Books) (code issuer : Bytes) → IsConsistent b → IsConsistent (ensure_asset b code issuer).0
unfolding ensure_asset
ensure_asset-IsConsistent b code issuer v =
    elim (Bool-cases (is_empty code || not (issuer_allowed issuer))) [
      | inl e ↦ rw (e, ensure_asset) v
      | inr e ↦ elim (Option-cases (find_asset code issuer b.assets)) [
        | inr (a, f) ↦ rw (e, f, ensure_asset) v
        | inl f ↦
            rw (e, f, ensure_asset)
              (record {
                holds = record {
                  derived = v.holds.derived;
                  in_range = v.holds.in_range;
                  covered = v.holds.covered;
                };
                fresh = v.fresh;
                rows = v.rows;
                balanced = v.balanced;
                closed = v.closed;
                known = v.known;
                numbered = v.numbered;
                single_org = v.single_org;
              })
      ]
    ]

-- What is found stays found when a row is appended.
find_account-snoc :
    (a : ℕ) (xs : List Account) (y x : Account)
    → find_account a xs ≡ some x
    → find_account a (xs ++ y ∷ []) ≡ some x
unfolding find_account
find_account-snoc a [] y x h = cc
find_account-snoc a (z ∷ xs) y x h = ground (arith, find_account-snoc a xs y x)

find_account-last :
    (a : ℕ) (xs : List Account) (y x : Account)
    → find_account a (xs ++ y ∷ []) ≡ some x
    → (find_account a xs ≡ some x) ⊎ ((a ≡ y.id) × (x ≡ y))
unfolding find_account
find_account-last a [] y x h = ground arith
find_account-last a (z ∷ xs) y x h = ground (arith, find_account-last a xs y x)

find_account-id :
    (a : ℕ) (xs : List Account) (bound : ℕ) (x : Account)
    → All (λ x. x.id < bound) xs
    → find_account a xs ≡ some x
    → a < bound
unfolding find_account
find_account-id a [] bound x v h = cc
find_account-id a (z ∷ xs) bound x (w, v) h = ground (arith, find_account-id a xs bound x v)

-- No line is on an account that is not there.
sum_account-unused :
    (a s : ℕ) (xs : List Account) (es : List Entry)
    → All (λ x. x.id < a) xs
    → All (Known xs) es
    → sum_account a s es ≡ pos 0
sum_account-unused a s xs [] v k = refl
sum_account-unused a s xs (e ∷ es) v ((y, f), k) =
    ground (arith, sum_account-unused a s xs es v k, find_account-id e.account xs a y v f)

Known-snoc :
    (xs : List Account) (y : Account) (es : List Entry)
    → All (Known xs) es
    → All (Known (xs ++ y ∷ [])) es
Known-snoc xs y [] h = tt
Known-snoc xs y (e ∷ es) ((x, f), h) =
    ((x, find_account-snoc e.account xs y x f), Known-snoc xs y es h)

numbered-weaken : (n : ℕ) (xs : List Account) → All (λ x. x.id < n) xs → All (λ x. x.id < suc n) xs
numbered-weaken n [] h = tt
numbered-weaken n (x ∷ xs) (h, hs) = (omega arith, numbered-weaken n xs hs)

belongs-snoc :
    (org : ℕ) (xs : List Account) (y : Account) (id : ℕ) (es : List Entry)
    → All (Known xs) es
    → all (belongs_to org xs) (lines_of id es) ≡ true
    → all (belongs_to org (xs ++ y ∷ [])) (lines_of id es) ≡ true
unfolding belongs_to
belongs-snoc org xs y id [] k h = refl
belongs-snoc org xs y id (e ∷ es) ((x, f), k) h =
    ground (arith, f, h, find_account-snoc e.account xs y x f, belongs-snoc org xs y id es k)

belongs-all :
    (xs : List Account) (y : Account) (es : List Entry) (ts : List TxRow)
    → All (Known xs) es
    → All (λ t. all (belongs_to t.org xs) (lines_of t.id es) ≡ true) ts
    → All (λ t. all (belongs_to t.org (xs ++ y ∷ [])) (lines_of t.id es) ≡ true) ts
belongs-all xs y es [] k h = tt
belongs-all xs y es (t ∷ ts) k (h, hs) =
    (belongs-snoc t.org xs y t.id es k h, belongs-all xs y es ts k hs)

with_account-IsConsistent :
    (b : Books) (y : Account)
    → IsConsistent b
    → y.id ≡ b.next_account
    → IsConsistent (record b { accounts = b.accounts ++ y ∷ []; next_account = suc b.next_account })
with_account-IsConsistent b y v same = record {
  holds = record {
    derived = v.holds.derived;
    in_range = v.holds.in_range;
    covered = λ a s x f n. elim (find_account-last a b.accounts y x f) [
      | inl old ↦ v.holds.covered a s x old n
      | inr (e, _) ↦
          rw
            (
              v.holds.derived a s,
              sum_account-unused a s b.accounts b.entries
                  (subst (λ n. All (λ x. x.id < n) b.accounts) (sym (e ∙ same)) v.numbered) v.known,
            )
            (omega arith)
    ];
  };
  fresh = v.fresh;
  rows = v.rows;
  balanced = v.balanced;
  closed = v.closed;
  known = Known-snoc b.accounts y b.entries v.known;
  numbered =
      All-append (λ x. x.id < suc b.next_account) b.accounts (y ∷ [])
        (numbered-weaken b.next_account b.accounts v.numbered) (omega (arith, same), tt);
  single_org = belongs-all b.accounts y b.entries b.transactions v.known v.single_org;
}

-- Registering an account keeps consistent books consistent, also where it is refused.
pub ensure_account-IsConsistent :
    (lower : Bytes → Bytes) (b : Books) (org : ℕ) (kind : AccountKind) (owner_ref name : Bytes)
    → IsConsistent b
    → IsConsistent (ensure_account lower b org kind owner_ref name).0
unfolding ensure_account
ensure_account-IsConsistent lower b org kind owner_ref name v = elim (Bool-cases (org == 0)) [
  | inl e ↦ rw (e, ensure_account) v
  | inr e ↦ elim (Bool-cases (account_allowed lower kind owner_ref name)) [
    | inr k ↦ rw (e, k, ensure_account) v
    | inl k ↦ elim (Option-cases (find_match lower org kind owner_ref name b.accounts)) [
      | inr (a, f) ↦ rw (e, k, f, ensure_account) v
      | inl f ↦ elim (Bool-cases (mem org b.orgs)) [
        | inr m ↦ rw (e, k, f, m, ensure_account) v
        | inl m ↦
            rw (e, k, f, m, ensure_account)
              (with_account-IsConsistent b (new_account lower b org kind owner_ref name) v refl)
      ]
    ]
  ]
]
