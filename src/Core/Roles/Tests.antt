-- ===== src/Core/Roles/Tests.antt =====
-- The only admin of an org tries to step down, and makes another member an admin.
use stelfin.Prelude.{ℕ, List, [], ◌∷◌, ◌≡◌, refl, ok}
use stelfin.Text.{codes}
use stelfin.Chat.{role_admin}
use stelfin.Store.Members.{Directory, new_member}
use stelfin.Core.Roles.{Request, Reply, grant, revoke, last_admin, is_now}
use stelfin.Core.Roles.Kept.{HasAdmin, granting, revoking, run_lines, run_lines-HasAdmin}

abbrev dao : Directory
dao = record {
  orgs = 1 ∷ [];
  members = new_member 12 1 (codes "grace") ∷ new_member 1 1 (codes "ada") ∷ [];
  identities = [];
  roles = record { org = 1; member = 1; role = codes "admin"; granted_by = 0 } ∷ [];
  bindings = [];
  next_member = 13;
  next_identity = 1;
}

abbrev says : List ℕ → Request
says args = record {
  org = 1;
  channel = codes "telegram";
  member = 1;
  option_user = [];
  option_member = [];
  option_role = [];
  args = args;
}

steps_down : (revoke dao (says (codes "#1"))).1 ≡ ok last_admin
unfolding revoke stelfin.Core.Roles.change_role stelfin.Text.parse_int
    stelfin.Store.Members.Roles.set_role stelfin.Store.Members.Roles.replace_roles
steps_down = refl

shares : (grant dao (says (codes "12 Admin"))).1 ≡ ok (is_now 12 role_admin)
unfolding grant stelfin.Core.Roles.role_named stelfin.Core.Roles.change_role stelfin.Text.parse_int
    stelfin.Store.Members.Roles.set_role stelfin.Store.Members.Roles.replace_roles
    stelfin.Core.Roles.tell stelfin.Store.Members.member stelfin.Store.Members.find_member
shares = refl

run_lines-HasAdmin_example :
    HasAdmin 1
      (run_lines (granting (says (codes "12 Admin")) ∷ revoking (says (codes "1")) ∷ []) dao)
run_lines-HasAdmin_example =
    run_lines-HasAdmin 1 (granting (says (codes "12 Admin")) ∷ revoking (says (codes "1")) ∷ []) dao
      (refl, (refl, tt)) refl
