-- ===== src/Store/Members/Roles.antt =====
-- The roles of ledger/store/member.go: granted to a member, or conferred by a role of the platform.
use stelfin.Prelude.{
  ℕ, List, [], ◌∷◌, ◌++◌, Bool, ◌&&◌, not, ltb, ◌==◌, if◌then◌else◌, Result, ok, ◌>>◌, refuse_if,
  any,
}
use stelfin.Text.{Bytes, is_empty, bytes_eq, codes}
use stelfin.Chat.{
  Role, rank, role_string, is_valid, role_none, role_observer, role_proposer, role_approver,
  role_admin, at_least,
}
use stelfin.Store.Members.{Error, RoleRow, Binding, Directory, has_org, has_member}

abbrev pub is_none : Role → Bool
is_none r = rank r == 0

abbrev pub holds : ℕ → ℕ → Bytes → RoleRow → Bool
holds org id name r = r.org == org && r.member == id && bytes_eq r.role name

-- GrantRole
unfoldable pub grant_role : Directory → ℕ → ℕ → Role → ℕ → Result Error Directory
grant_role d org id role by = do
  refuse_if (is_none role) Error.empty_role
  refuse_if (not (has_member org id d.members)) Error.database
  ok (
      if any (holds org id (role_string role)) d.roles then d else record d {
        roles =
            record { org = org; member = id; role = role_string role; granted_by = by } ∷ d.roles;
      })

abbrev pub drop_if {ℓ} : {A : Type ℓ} → (A → Bool) → List A → List A
drop_if p [] = []
drop_if p (x ∷ xs) = let rest = drop_if p xs in if p x then rest else x ∷ rest

-- RevokeRole
unfoldable pub revoke_role : Directory → ℕ → ℕ → Role → Directory
revoke_role d org id role = record d { roles = drop_if (holds org id (role_string role)) d.roles }

-- parseRole
abbrev pub parse_role : Bytes → Role
parse_role name =
    if bytes_eq name (codes "observer")
    then role_observer
    else if bytes_eq name (codes "proposer")
    then role_proposer
    else if bytes_eq name (codes "approver")
    then role_approver
    else if bytes_eq name (codes "admin")
    then role_admin
    else role_none

-- The loop over the rows of a query for roles: the highest of them.
abbrev pub best : List Bytes → Role → Role
best [] r = r
best (name ∷ names) r =
    best names (if ltb (rank r) (rank (parse_role name)) then parse_role name else r)

unfoldable pub granted : ℕ → ℕ → List RoleRow → List Bytes
granted org id [] = []
granted org id (r ∷ rs) =
    let rest = granted org id rs in if r.org == org && r.member == id then r.role ∷ rest else rest

abbrev pub confers : ℕ → Bytes → List Bytes → Binding → Bool
confers org channel platform_roles b =
    b.org == org && bytes_eq b.channel channel && any (bytes_eq b.channel_role) platform_roles

unfoldable pub conferred : ℕ → Bytes → List Bytes → List Binding → List Bytes
conferred org channel platform_roles [] = []
conferred org channel platform_roles (b ∷ bs) =
    let rest = conferred org channel platform_roles bs in
    if confers org channel platform_roles b then b.role ∷ rest else rest

-- EffectiveRole. UNION drops rows that are equal, which the highest does not depend on.
unfoldable pub effective_role : Directory → ℕ → ℕ → Bytes → List Bytes → Role
effective_role d org id channel platform_roles =
    best (granted org id d.roles ++ conferred org channel platform_roles d.bindings) role_none

abbrev pub same_binding : Binding → Binding → Bool
same_binding a b =
    a.org == b.org
    && bytes_eq a.channel b.channel
    && bytes_eq a.channel_role b.channel_role
    && bytes_eq a.role b.role

-- BindRole
unfoldable pub bind_role : Directory → ℕ → Bytes → Bytes → Role → Result Error Directory
bind_role d org channel platform_role role = do
  refuse_if (not (is_valid channel)) Error.unknown_channel
  refuse_if (is_empty platform_role) Error.platform_role_required
  refuse_if (at_least role role_admin) Error.confers_admin
  refuse_if (is_none role) Error.empty_role
  refuse_if (not (has_org org d.orgs)) Error.database
  let b : Binding = record {
    org = org;
    channel = channel;
    channel_role = platform_role;
    role = role_string role;
  }
  ok (if any (same_binding b) d.bindings then d else record d { bindings = b ∷ d.bindings })

abbrev pub is_admin : ℕ → RoleRow → Bool
is_admin org r = r.org == org && bytes_eq r.role (codes "admin")

abbrev pub is_of : ℕ → ℕ → RoleRow → Bool
is_of org id r = r.org == org && r.member == id

-- The rows that SetRole leaves: none of the member's but the one that is given.
unfoldable pub replace_roles : List RoleRow → ℕ → ℕ → Role → ℕ → List RoleRow
replace_roles rs org id role by =
    let kept = drop_if (is_of org id) rs in
    if is_none role
    then kept
    else record { org = org; member = id; role = role_string role; granted_by = by } ∷ kept

-- SetRole
unfoldable pub set_role : Directory → ℕ → ℕ → Role → ℕ → Result Error Directory
set_role d org id role by = do
  refuse_if (not (has_org org d.orgs)) Error.database
  refuse_if (not (has_member org id d.members)) Error.member_not_found
  refuse_if (not (any (is_admin org) (replace_roles d.roles org id role by))) Error.last_admin
  ok (record d { roles = replace_roles d.roles org id role by })

-- The role that Members lists for a member.
unfoldable pub member_role : Directory → ℕ → ℕ → Role
member_role d org id = best (granted org id d.roles) role_none
