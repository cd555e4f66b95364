-- ===== src/Store/Members/Tests.antt =====
-- An org of two members, with one admin.
use stelfin.Prelude.{[], ◌∷◌, true, ◌||◌, if◌then◌else◌, ◌≡◌, ◌↔◌, refl, arith, ok, err, any}
use stelfin.Text.{codes}
use stelfin.Chat.{role_admin, role_observer, role_proposer, at_least}
use stelfin.Store.Members.{
  Error, Binding, Directory, new_member, Member, ensure_member, create_member,
}
use stelfin.Store.Members.Roles.{
  granted, set_role, bind_role, effective_role, member_role, replace_roles, revoke_role,
}
use stelfin.Store.Members.Steady
use stelfin.Store.Members.Seen.{ensure_member-again}
use stelfin.Store.Members.Replaced.{set_role_answers, is_other_admin}
use stelfin.Store.Members.Admins.{
  here, next, role_bound, role_revoked, names_admin, effective_role-granted,
}

abbrev dao : Directory
dao = record {
  orgs = 1 ∷ [];
  members = new_member 2 1 (codes "grace") ∷ new_member 1 1 (codes "ada") ∷ [];
  identities = [];
  roles = record { org = 1; member = 1; role = codes "admin"; granted_by = 0 } ∷ [];
  bindings = [];
  next_member = 3;
  next_identity = 1;
}

-- The only admin does not become an observer.
set_role_answers_example :
    (set_role dao 1 1 role_observer 1 ≡ (
      if at_least role_observer role_admin || any (is_other_admin 1 1) dao.roles
      then ok (record dao { roles = replace_roles dao.roles 1 1 role_observer 1 })
      else err Error.last_admin))
    × (member_role (record dao { roles = replace_roles dao.roles 1 1 role_observer 1 }) 1 1
        ≡ role_observer)
    × (granted 1 2 (replace_roles dao.roles 1 1 role_observer 1) ≡ granted 1 2 dao.roles)
set_role_answers_example = set_role_answers dao 1 1 2 role_observer 1 refl refl (λ e. omega arith)

only_admin : set_role dao 1 1 role_observer 1 ≡ err Error.last_admin
unfolding set_role replace_roles
only_admin = refl

abbrev crew : Binding
crew = record {
  org = 1;
  channel = codes "discord";
  channel_role = codes "admin";
  role = codes "proposer";
}

abbrev with_crew : Directory
with_crew = record dao { bindings = crew ∷ [] }

with_crew-bind : bind_role dao 1 (codes "discord") (codes "admin") role_proposer ≡ ok with_crew
unfolding bind_role
with_crew-bind = refl

effective_role-granted_example :
    (effective_role
        (revoke_role with_crew 1 1 role_observer)
        1
        2
        (codes "discord")
        (codes "admin" ∷ [])
      ≡ role_admin)
    ↔ (any names_admin (granted 1 2 (revoke_role with_crew 1 1 role_observer).roles) ≡ true)
effective_role-granted_example =
    effective_role-granted dao (revoke_role with_crew 1 1 role_observer) 1 2 (codes "discord")
      (codes "admin" ∷ []) refl
      (next
        (next here (role_bound 1 (codes "discord") (codes "admin") role_proposer with_crew-bind))
        (role_revoked 1 1 role_observer))

abbrev seen : Directory
seen = create_member dao 1 (codes "telegram") (codes "77") (codes "eve")

seen-ensure :
    ensure_member dao 1 (codes "telegram") (codes "77") (codes "eve")
    ≡ ok (new_member 3 1 (codes "eve"), seen)
unfolding ensure_member stelfin.Store.Members.member_by_identity stelfin.Store.Members.find_identity
    create_member stelfin.Store.Members.find_member
seen-ensure = refl

-- Somebody else is seen in between.
abbrev joined : Directory
joined = create_member seen 1 (codes "telegram") (codes "78") (codes "mia")

joined-ensure :
    ensure_member seen 1 (codes "telegram") (codes "78") (codes "mia")
    ≡ ok (new_member 4 1 (codes "mia"), joined)
unfolding ensure_member stelfin.Store.Members.member_by_identity stelfin.Store.Members.find_identity
    create_member stelfin.Store.Members.find_member
joined-ensure = refl

ensure_member-again_example :
    (m : Member) × (w : Directory) × (ensure_member
        (revoke_role joined 1 1 role_observer)
        1
        (codes "telegram")
        (codes "77")
        (codes "eve2")
      ≡ ok (m, w))
    × (m.id ≡ 3)
    × (m.org ≡ 1)
    × (w.members ≡ (revoke_role joined 1 1 role_observer).members)
ensure_member-again_example =
    ensure_member-again (λ s. true) dao seen (revoke_role joined 1 1 role_observer) 1
      (codes "telegram") (codes "77") (codes "eve") (codes "eve2") (new_member 3 1 (codes "eve"))
      (ground arith) seen-ensure
      (Steady.next
        (Steady.next Steady.here (
          Steady.seen 1 (codes "telegram") (codes "78") (codes "mia") (new_member 4 1 (codes "mia"))
            joined-ensure))
        (Steady.administered (role_revoked 1 1 role_observer)))
