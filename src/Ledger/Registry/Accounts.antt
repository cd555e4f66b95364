-- ===== src/Ledger/Registry/Accounts.antt =====
-- Which account EnsureAccount of ledger/ledger.go finds, and which rows the checks allow.
use stelfin.Prelude.{
  ℕ, List, [], ◌∷◌, Bool, true, false, ◌&&◌, ◌||◌, not, if◌then◌else◌, ◌≡◌, ◌≢◌, ◌↔◌, inl, inr,
  refl, sym, ap, ◌∙◌, arith, none, some, All, Bool-cases, ==_iff, some-injective, subst,
}
use stelfin.Text.{Bytes, is_empty, bytes_eq}
use stelfin.Text.Equality.{bytes_eq_sound, bytes_eq_iff}
use stelfin.Ledger.{
  AccountKind, member, treasury, external, fee_expense, sponsored_reserve, trading,
}
use stelfin.Ledger.Books.{Account}
use stelfin.Ledger.Registry.{
  kind_name, is_member, is_treasury, matches, find_match, account_allowed,
}

kind_name-injective : (k l : AccountKind) → bytes_eq (kind_name k) (kind_name l) ≡ true → k ≡ l
kind_name-injective member l h = ground arith
kind_name-injective treasury l h = ground arith
kind_name-injective external l h = ground arith
kind_name-injective fee_expense l h = ground arith
kind_name-injective sponsored_reserve l h = ground arith
kind_name-injective trading l h = ground arith

-- An account of the org, the kind and the owner; a treasury also of the name, but for its case.
abbrev pub SameName : (Bytes → Bytes) → AccountKind → Bytes → Bytes → Type 0
SameName lower treasury name name' = lower name ≡ lower name'
SameName lower _ name name' = Unit {0}

pub record IsThe (lower : Bytes → Bytes) (org : ℕ) (kind : AccountKind) (owner_ref name : Bytes)
    (a : Account) : Type 0 where
  pub same_org : a.org ≡ org
  pub same_kind : a.kind ≡ kind
  pub same_owner : a.owner_ref ≡ owner_ref
  pub same_name : SameName lower kind a.name name

-- The test on the names, for an account of the kind.
names_iff :
    (lower : Bytes → Bytes) (kind : AccountKind) (n name : Bytes)
    → ((not (is_treasury kind) || bytes_eq (lower n) (lower name)) ≡ true)
      ↔ SameName lower kind n name
names_iff lower treasury n name = bytes_eq_iff (lower n) (lower name)
names_iff lower member n name = (λ _. tt, λ _. refl)
names_iff lower external n name = (λ _. tt, λ _. refl)
names_iff lower fee_expense n name = (λ _. tt, λ _. refl)
names_iff lower sponsored_reserve n name = (λ _. tt, λ _. refl)
names_iff lower trading n name = (λ _. tt, λ _. refl)

both : (a b : Bool) → (a && b) ≡ true → (a ≡ true) × (b ≡ true)
both true b h = (refl, h)
both false b h = cc

matches-IsThe :
    (lower : Bytes → Bytes) (org : ℕ) (kind : AccountKind) (owner_ref name : Bytes) (a : Account)
    → matches lower org kind owner_ref name a ≡ true
    → IsThe lower org kind owner_ref name a
matches-IsThe lower org kind owner_ref name a h =
    let (front, names) = both _ _ h in
    let (front, owner) = both _ _ front in
    let (same_org, same_kind) = both _ _ front in
    let k : a.kind ≡ kind = kind_name-injective a.kind kind same_kind in
    record {
      same_org = (==_iff a.org org).0 same_org;
      same_kind = k;
      same_owner = bytes_eq_sound a.owner_ref owner_ref owner;
      same_name =
          subst (λ x. SameName lower x a.name name) k
            ((names_iff lower a.kind a.name name).0 names);
    }

IsThe-matches :
    (lower : Bytes → Bytes) (org : ℕ) (kind : AccountKind) (owner_ref name : Bytes) (a : Account)
    → IsThe lower org kind owner_ref name a
    → matches lower org kind owner_ref name a ≡ true
IsThe-matches lower org kind owner_ref name a v =
    let named =
      subst (λ x. (not (is_treasury x) || bytes_eq (lower a.name) (lower name)) ≡ true)
        (sym v.same_kind) ((names_iff lower kind a.name name).1 v.same_name) in
    rw
      (
        (==_iff a.org org).1 v.same_org,
        (bytes_eq_iff a.owner_ref owner_ref).1 v.same_owner,
        (bytes_eq_iff (kind_name a.kind) (kind_name kind)).1 (ap kind_name v.same_kind),
      )
      named

-- A member's account has an owner and no other has.
abbrev pub HasOwner : AccountKind → Bytes → Type 0
HasOwner member owner_ref = owner_ref ≢ []
HasOwner _ owner_ref = owner_ref ≡ []

empty_iff : (s : Bytes) → (is_empty s ≡ true) ↔ (s ≡ [])
empty_iff [] = (λ _. refl, λ _. refl)
empty_iff (c ∷ s) = (λ h. cc, λ h. cc)

nonempty_iff : (s : Bytes) → (not (is_empty s) ≡ true) ↔ (s ≢ [])
nonempty_iff [] = (λ h. cc, λ h. absurd (h refl))
nonempty_iff (c ∷ s) = (λ h e. cc, λ h. refl)

owner_iff :
    (kind : AccountKind) (owner_ref : Bytes)
    → ((if is_member kind then not (is_empty owner_ref) else is_empty owner_ref) ≡ true)
      ↔ HasOwner kind owner_ref
owner_iff member owner_ref = nonempty_iff owner_ref
owner_iff treasury owner_ref = empty_iff owner_ref
owner_iff external owner_ref = empty_iff owner_ref
owner_iff fee_expense owner_ref = empty_iff owner_ref
owner_iff sponsored_reserve owner_ref = empty_iff owner_ref
owner_iff trading owner_ref = empty_iff owner_ref

pub allowed_iff :
    (lower : Bytes → Bytes) (kind : AccountKind) (owner_ref name : Bytes)
    → (account_allowed lower kind owner_ref name ≡ true) ↔ ((name ≢ []) × HasOwner kind owner_ref)
allowed_iff lower kind owner_ref name = (
  λ h. let (a, b) = both _ _ h in ((nonempty_iff name).0 a, (owner_iff kind owner_ref).0 b),
  λ (a, b). rw ((nonempty_iff name).1 a, (owner_iff kind owner_ref).1 b) refl,
)

-- The first of the accounts that it is, with others before it.
pub data Among (lower : Bytes → Bytes) (org : ℕ) (kind : AccountKind) (owner_ref name : Bytes)
    (a : Account) : List Account → Type 0 where
  first :
      {rest : List Account}
      → IsThe lower org kind owner_ref name a
      → Among lower org kind owner_ref name a (a ∷ rest)
  later :
      {x : Account} {rest : List Account}
      → Among lower org kind owner_ref name a rest
      → Among lower org kind owner_ref name a (x ∷ rest)

pub find_match-Among :
    (lower : Bytes → Bytes) (org : ℕ) (kind : AccountKind) (owner_ref name : Bytes)
    (xs : List Account) {a : Account}
    → find_match lower org kind owner_ref name xs ≡ some a
    → Among lower org kind owner_ref name a xs
unfolding find_match
find_match-Among lower org kind owner_ref name [] h = cc
find_match-Among lower org kind owner_ref name (x ∷ xs) {a} h =
    elim (Bool-cases (matches lower org kind owner_ref name x)) [
      | inl e ↦
          subst (λ y. Among lower org kind owner_ref name y (x ∷ xs)) (some-injective (rw e at h))
            (first (matches-IsThe lower org kind owner_ref name x e))
      | inr e ↦ later (find_match-Among lower org kind owner_ref name xs (rw e at h))
    ]

true≢false : ◌≡◌ {A = Bool} true false → ⊥
true≢false e = cc

pub find_match-none :
    (lower : Bytes → Bytes) (org : ℕ) (kind : AccountKind) (owner_ref name : Bytes)
    (xs : List Account)
    → find_match lower org kind owner_ref name xs ≡ none
    → All (λ a. IsThe lower org kind owner_ref name a → ⊥) xs
unfolding find_match
find_match-none lower org kind owner_ref name [] h = tt
find_match-none lower org kind owner_ref name (x ∷ xs) h =
    elim (Bool-cases (matches lower org kind owner_ref name x)) [
      | inl e ↦ absurd (cc (rw e at h))
      | inr e ↦ (
        λ v. true≢false (sym (IsThe-matches lower org kind owner_ref name x v) ∙ e),
        find_match-none lower org kind owner_ref name xs (rw e at h),
      )
    ]
