-- ===== src/Store/Members/Replaced.antt =====
-- What SetRole leaves behind.
use stelfin.Prelude.{
  ℕ, List, [], ◌∷◌, Bool, true, false, ◌&&◌, ◌||◌, not, ◌==◌, if◌then◌else◌, ok, err, any, ◌≡◌, ◌≢◌,
  inl, inr, refl, sym, arith, Bool-cases, ==_refl, ==_apart,
}
use stelfin.Chat.{
  Role, role_string, role_admin, at_least, role_none, role_observer, role_proposer, role_approver,
}
use stelfin.Store.Members.{Error, RoleRow, Directory, has_org, has_member}
use stelfin.Store.Members.Roles.{
  parse_role, best, granted, drop_if, is_of, is_admin, is_none, replace_roles, set_role,
  member_role,
}

pub parse_role-role_string : (r : Role) → parse_role (role_string r) ≡ r
parse_role-role_string role_none = refl
parse_role-role_string role_observer = refl
parse_role-role_string role_proposer = refl
parse_role-role_string role_approver = refl
parse_role-role_string role_admin = refl

-- An admin of the org who is not the member.
abbrev pub is_other_admin : ℕ → ℕ → RoleRow → Bool
is_other_admin org id r = is_admin org r && not (r.member == id)

any-drop_if :
    (org id : ℕ) (rs : List RoleRow)
    → any (is_admin org) (drop_if (is_of org id) rs) ≡ any (is_other_admin org id) rs
any-drop_if org id [] = refl
any-drop_if org id (r ∷ rs) = ground (arith, any-drop_if org id rs)

granted-drop_if : (org id : ℕ) (rs : List RoleRow) → granted org id (drop_if (is_of org id) rs) ≡ []
unfolding granted
granted-drop_if org id [] = refl
granted-drop_if org id (r ∷ rs) = elim (Bool-cases (is_of org id r)) [
  | inl e ↦ rw e (granted-drop_if org id rs)
  | inr e ↦ rw (e, e) (granted-drop_if org id rs)
]

granted-other :
    (org id other : ℕ) (rs : List RoleRow)
    → other ≢ id
    → granted org other (drop_if (is_of org id) rs) ≡ granted org other rs
unfolding granted
granted-other org id other [] ne = refl
granted-other org id other (r ∷ rs) ne = elim (Bool-cases (is_of org id r)) [
  | inl e ↦
      let apart : is_of org other r ≡ false = ground arith in
      rw (e, apart) (granted-other org id other rs ne)
  | inr e ↦ rw e (ground (arith, granted-other org id other rs ne))
]

admins_left :
    (rs : List RoleRow) (org id : ℕ) (role : Role) (by : ℕ)
    → any (is_admin org) (replace_roles rs org id role by)
      ≡ (at_least role role_admin || any (is_other_admin org id) rs)
unfolding replace_roles
admins_left rs org id role_none by = any-drop_if org id rs
admins_left rs org id role_observer by = rw (==_refl org) (any-drop_if org id rs)
admins_left rs org id role_proposer by = rw (==_refl org) (any-drop_if org id rs)
admins_left rs org id role_approver by = rw (==_refl org) (any-drop_if org id rs)
admins_left rs org id role_admin by = rw (==_refl org) refl

role_left :
    (rs : List RoleRow) (org id : ℕ) (role : Role) (by : ℕ)
    → best (granted org id (replace_roles rs org id role by)) role_none ≡ role
unfolding replace_roles granted
role_left rs org id role_none by = rw (granted-drop_if org id rs) refl
role_left rs org id role_observer by = rw (==_refl org, ==_refl id, granted-drop_if org id rs) refl
role_left rs org id role_proposer by = rw (==_refl org, ==_refl id, granted-drop_if org id rs) refl
role_left rs org id role_approver by = rw (==_refl org, ==_refl id, granted-drop_if org id rs) refl
role_left rs org id role_admin by = rw (==_refl org, ==_refl id, granted-drop_if org id rs) refl

others_left :
    (rs : List RoleRow) (org id other : ℕ) (role : Role) (by : ℕ)
    → other ≢ id
    → granted org other (replace_roles rs org id role by) ≡ granted org other rs
unfolding replace_roles granted
others_left rs org id other role by ne = elim (Bool-cases (is_none role)) [
  | inl e ↦ rw e (granted-other org id other rs ne)
  | inr e ↦
      rw (e, ==_apart id other (λ x. ne (sym x)), ==_refl org) (granted-other org id other rs ne)
]

-- For a member of an org, SetRole is refused with ErrLastAdmin just when the new role is not admin and
-- nobody else of the org is one. Otherwise the member holds the new role and no other, as Members
-- lists it, and what every other member was granted stays.
pub set_role_answers :
    (d : Directory) (org id other : ℕ) (role : Role) (by : ℕ)
    → has_org org d.orgs ≡ true
    → has_member org id d.members ≡ true
    → other ≢ id
    → (set_role d org id role by ≡ (
        if at_least role role_admin || any (is_other_admin org id) d.roles
        then ok (record d { roles = replace_roles d.roles org id role by })
        else err Error.last_admin))
      × (member_role (record d { roles = replace_roles d.roles org id role by }) org id ≡ role)
      × (granted org other (replace_roles d.roles org id role by) ≡ granted org other d.roles)
unfolding set_role member_role
set_role_answers d org id other role by known here ne = (
  elim (Bool-cases (at_least role role_admin || any (is_other_admin org id) d.roles)) [
    | inl e ↦ rw (known, here, admins_left d.roles org id role by, e) refl
    | inr e ↦ rw (known, here, admins_left d.roles org id role by, e) refl
  ],
  role_left d.roles org id role by,
  others_left d.roles org id other role by ne,
)
