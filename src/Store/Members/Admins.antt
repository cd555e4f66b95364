-- ===== src/Store/Members/Admins.antt =====
-- Who is an admin, under any sequence of changes to roles and bindings.
use stelfin.Prelude.{
  ℕ, List, [], ◌∷◌, ◌++◌, Bool, true, false, ◌||◌, not, ltb, ◌==◌, ok, any, ◌≡◌, ◌↔◌, ◌≤◌, inl, inr,
  refl, sym, arith, Bool-cases, All, refuse_if-eq-ok, ok-injective, subst, ap, ◌∙◌, ==_iff,
  ==_apart, ltb→lt, ltb→ge,
}
use stelfin.Text.{Bytes, is_empty, bytes_eq, codes}
use stelfin.Text.Equality.{bytes_eq_sound}
use stelfin.Chat.{Role, rank, role_string, role_admin, at_least, role_none, is_valid}
use stelfin.Store.Members.{Error, Binding, Directory, has_org, has_member}
use stelfin.Store.Members.Roles.{
  parse_role, best, granted, conferred, confers, effective_role, bind_role, grant_role, revoke_role,
  is_admin, set_role, is_none, same_binding, replace_roles, holds,
}

-- No binding confers admin.
abbrev pub IsBound : Binding → Type 0
IsBound b = bytes_eq b.role (codes "admin") ≡ false

-- A change of roles or of bindings.
pub data Step (d : Directory) : Directory → Type 0 where
  role_granted :
      {u : Directory} (org id : ℕ) (role : Role) (by : ℕ)
      → grant_role d org id role by ≡ ok u
      → Step d u
  role_revoked : (org id : ℕ) (role : Role) → Step d (revoke_role d org id role)
  role_bound :
      {u : Directory} (org : ℕ) (channel platform_role : Bytes) (role : Role)
      → bind_role d org channel platform_role role ≡ ok u
      → Step d u
  role_set :
      {u : Directory} (org id : ℕ) (role : Role) (by : ℕ)
      → set_role d org id role by ≡ ok u
      → Step d u

pub data Reach (d : Directory) : Directory → Type 0 where
  here : Reach d d
  next : {u v : Directory} → Reach d u → Step u v → Reach d v

below_admin :
    (role : Role)
    → at_least role role_admin ≡ false
    → bytes_eq (role_string role) (codes "admin") ≡ false
below_admin role h = ground arith

bind_role-IsBound :
    (d : Directory) (org : ℕ) (channel platform_role : Bytes) (role : Role) {u : Directory}
    → All IsBound d.bindings
    → bind_role d org channel platform_role role ≡ ok u
    → All IsBound u.bindings
unfolding bind_role
bind_role-IsBound d org channel platform_role role bound h =
    let (valid, a) = refuse_if-eq-ok (not (is_valid channel)) Error.unknown_channel _ h in
    let (named, b) = refuse_if-eq-ok (is_empty platform_role) Error.platform_role_required _ a in
    let (below, c) = refuse_if-eq-ok (at_least role role_admin) Error.confers_admin _ b in
    let (given, e) = refuse_if-eq-ok (is_none role) Error.empty_role _ c in
    let (known, made) = refuse_if-eq-ok (not (has_org org d.orgs)) Error.database _ e in
    let row : Binding = record {
      org = org;
      channel = channel;
      channel_role = platform_role;
      role = role_string role;
    } in
    elim (Bool-cases (any (same_binding row) d.bindings)) [
      | inl old ↦ subst (λ u. All IsBound u.bindings) (ok-injective (rw old at made)) bound
      | inr new ↦
          subst (λ u. All IsBound u.bindings) (ok-injective (rw new at made))
            (below_admin role below, bound)
    ]

grant_role-bindings :
    (d : Directory) (org id : ℕ) (role : Role) (by : ℕ) {u : Directory}
    → grant_role d org id role by ≡ ok u
    → u.bindings ≡ d.bindings
unfolding grant_role
grant_role-bindings d org id role by h =
    let (given, a) = refuse_if-eq-ok (is_none role) Error.empty_role _ h in
    let (known, made) = refuse_if-eq-ok (not (has_member org id d.members)) Error.database _ a in
    elim (Bool-cases (any (holds org id (role_string role)) d.roles)) [
      | inl old ↦ sym (ap (λ u. u.bindings) (ok-injective (rw old at made)))
      | inr new ↦ sym (ap (λ u. u.bindings) (ok-injective (rw new at made)))
    ]

set_role-bindings :
    (d : Directory) (org id : ℕ) (role : Role) (by : ℕ) {u : Directory}
    → set_role d org id role by ≡ ok u
    → u.bindings ≡ d.bindings
unfolding set_role
set_role-bindings d org id role by h =
    let (known, a) = refuse_if-eq-ok (not (has_org org d.orgs)) Error.database _ h in
    let (present, b) =
      refuse_if-eq-ok (not (has_member org id d.members)) Error.member_not_found _ a in
    let left = any (is_admin org) (replace_roles d.roles org id role by) in
    let (kept, made) = refuse_if-eq-ok (not left) Error.last_admin _ b in
    sym (ap (λ u. u.bindings) (ok-injective made))

Step-IsBound : {d u : Directory} → All IsBound d.bindings → Step d u → All IsBound u.bindings
unfolding revoke_role
Step-IsBound {d} bound (role_granted org id role by h) =
    rw (grant_role-bindings d org id role by h) bound
Step-IsBound {d} bound (role_revoked org id role) = bound
Step-IsBound {d} bound (role_bound org channel platform_role role h) =
    bind_role-IsBound d org channel platform_role role bound h
Step-IsBound {d} bound (role_set org id role by h) = rw (set_role-bindings d org id role by h) bound

Reach-IsBound : {d u : Directory} → All IsBound d.bindings → Reach d u → All IsBound u.bindings
Reach-IsBound bound here = bound
Reach-IsBound bound (next r s) = Step-IsBound (Reach-IsBound bound r) s

abbrev pub names_admin : Bytes → Bool
names_admin name = bytes_eq name (codes "admin")

parse_role-admin : (name : Bytes) → (rank (parse_role name) == 4) ≡ names_admin name
parse_role-admin name = elim (Bool-cases (bytes_eq name (codes "observer"))) [
  | inl e ↦ rw (bytes_eq_sound name (codes "observer") e) refl
  | inr a ↦ elim (Bool-cases (bytes_eq name (codes "proposer"))) [
    | inl e ↦ rw (bytes_eq_sound name (codes "proposer") e) refl
    | inr b ↦ elim (Bool-cases (bytes_eq name (codes "approver"))) [
      | inl e ↦ rw (bytes_eq_sound name (codes "approver") e) refl
      | inr c ↦ elim (Bool-cases (names_admin name)) [
        | inl e ↦ rw (a, b, c, e) refl
        | inr e ↦ rw (a, b, c, e) refl
      ]
    ]
  ]
]

rank_bound : (r : Role) → rank r ≤ 4
rank_bound r = ground arith

rank_top : (r : Role) → rank r ≡ 4 → r ≡ role_admin
rank_top r h = ground arith

best-admin :
    (names : List Bytes) (r : Role)
    → (rank (best names r) == 4) ≡ (any names_admin names || rank r == 4)
best-admin [] r = refl
best-admin (name ∷ names) r = elim (Bool-cases (ltb (rank r) (rank (parse_role name)))) [
  | inl e ↦
      let bound = rank_bound (parse_role name) in
      let below = ltb→lt (rank r) (rank (parse_role name)) e in
      rw
        (
          e,
          best-admin names (parse_role name),
          parse_role-admin name,
          ==_apart (rank r) 4 (λ x. omega arith),
        )
        (ground arith)
  | inr e ↦
      let above = ltb→ge (rank r) (rank (parse_role name)) e in
      elim (Bool-cases (names_admin name)) [
        | inr n ↦ rw (e, n) (best-admin names r)
        | inl n ↦
            let top = (==_iff (rank (parse_role name)) 4).0 (parse_role-admin name ∙ n) in
            let bound = rank_bound r in
            let same : rank r ≡ 4 = omega arith in
            rw (e, n, best-admin names r, same) (ground arith)
      ]
]

conferred-IsBound :
    (org : ℕ) (channel : Bytes) (platform_roles : List Bytes) (bs : List Binding)
    → All IsBound bs
    → any names_admin (conferred org channel platform_roles bs) ≡ false
unfolding conferred
conferred-IsBound org channel platform_roles [] h = refl
conferred-IsBound org channel platform_roles (b ∷ bs) (hb, h) =
    elim (Bool-cases (confers org channel platform_roles b)) [
      | inl e ↦ rw (e, hb) (conferred-IsBound org channel platform_roles bs h)
      | inr e ↦ rw e (conferred-IsBound org channel platform_roles bs h)
    ]

any-append : (p : Bytes → Bool) (xs ys : List Bytes) → any p (xs ++ ys) ≡ (any p xs || any p ys)
any-append p [] ys = refl
any-append p (x ∷ xs) ys = ground (arith, any-append p xs ys)

-- However roles are granted, revoked, replaced and bound, starting without bindings, somebody's
-- effective role is admin just when admin was granted to them by name: no role of a platform, whatever
-- it is called and whoever reports it, makes an admin.
pub effective_role-granted :
    (d u : Directory) (org id : ℕ) (channel : Bytes) (platform_roles : List Bytes)
    → d.bindings ≡ []
    → Reach d u
    → (effective_role u org id channel platform_roles ≡ role_admin)
      ↔ (any names_admin (granted org id u.roles) ≡ true)
unfolding effective_role
effective_role-granted d u org id channel platform_roles none_yet r =
    let bound = Reach-IsBound (rw none_yet tt) r in
    let names = granted org id u.roles in
    let others = conferred org channel platform_roles u.bindings in
    let highest = best (names ++ others) role_none in
    let none_conferred = conferred-IsBound org channel platform_roles u.bindings bound in
    let split = any-append names_admin names others in
    let top : (rank highest == 4) ≡ any names_admin names =
      best-admin (names ++ others) role_none ∙ (rw (split, none_conferred) (ground arith)) in
    (
      λ is_top. sym (rw is_top at top),
      λ named. rank_top highest ((==_iff (rank highest) 4).0 (top ∙ named)),
    )
