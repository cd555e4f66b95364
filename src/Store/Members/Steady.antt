-- ===== src/Store/Members/Steady.antt =====
-- A chat account keeps its member while others come and change.
use stelfin.Prelude.{
  ℕ, Bool, not, ok, any, ◌≡◌, inl, inr, refl, Bool-cases, ok-injective, refuse_if-eq-ok, subst,
}
use stelfin.Text.{Bytes, is_empty}
use stelfin.Chat.{is_valid, role_string, at_least, role_admin}
use stelfin.Store.Members.{
  Error, Member, Binding, Directory, has_org, has_member, ensure_member, set_member_address,
  link_identity,
}
use stelfin.Store.Members.Roles.{
  grant_role, set_role, bind_role, revoke_role, is_none, holds, same_binding, is_admin,
  replace_roles,
}
use stelfin.Store.Members.Admins
use stelfin.Store.Members.Speaks.{
  Speaks, Untouched, Untouched-Speaks, addressed-Speaks, linked-Speaks, seen-Speaks,
}

-- A call by anybody, other than the claim of a link code, which moves an account.
pub data Step (is_address : Bytes → Bool) (d : Directory) : Directory → Type 0 where
  seen :
      {u : Directory} (org : ℕ) (channel user handle : Bytes) (m : Member)
      → ensure_member d org channel user handle ≡ ok (m, u)
      → Step is_address d u
  addressed :
      {u : Directory} (org id : ℕ) (address source : Bytes) (now : ℕ)
      → set_member_address is_address d org id address source now ≡ ok u
      → Step is_address d u
  linked :
      {u : Directory} (org id : ℕ) (channel user handle : Bytes) (by : ℕ)
      → link_identity d org id channel user handle by ≡ ok u
      → Step is_address d u
  administered : {u : Directory} → Admins.Step d u → Step is_address d u

pub data Reach (is_address : Bytes → Bool) (d : Directory) : Directory → Type 0 where
  here : Reach is_address d d
  next : {u v : Directory} → Reach is_address d u → Step is_address u v → Reach is_address d v

role_step-Untouched : (d : Directory) {u : Directory} → Admins.Step d u → Untouched d u
unfolding grant_role set_role bind_role revoke_role
role_step-Untouched d (Admins.role_granted org id role by h) =
    let (_, a) = refuse_if-eq-ok (is_none role) Error.empty_role _ h in
    let (_, made) = refuse_if-eq-ok (not (has_member org id d.members)) Error.database _ a in
    elim (Bool-cases (any (holds org id (role_string role)) d.roles)) [
      | inl old ↦ subst (Untouched d) (ok-injective (rw old at made)) (refl, refl, refl)
      | inr new ↦ subst (Untouched d) (ok-injective (rw new at made)) (refl, refl, refl)
    ]
role_step-Untouched d (Admins.role_revoked org id role) = (refl, refl, refl)
role_step-Untouched d (Admins.role_bound org channel platform_role role h) =
    let (_, a) = refuse_if-eq-ok (not (is_valid channel)) Error.unknown_channel _ h in
    let (_, b) = refuse_if-eq-ok (is_empty platform_role) Error.platform_role_required _ a in
    let (_, c) = refuse_if-eq-ok (at_least role role_admin) Error.confers_admin _ b in
    let (_, e) = refuse_if-eq-ok (is_none role) Error.empty_role _ c in
    let (_, made) = refuse_if-eq-ok (not (has_org org d.orgs)) Error.database _ e in
    let row : Binding = record {
      org = org;
      channel = channel;
      channel_role = platform_role;
      role = role_string role;
    } in
    elim (Bool-cases (any (same_binding row) d.bindings)) [
      | inl old ↦ subst (Untouched d) (ok-injective (rw old at made)) (refl, refl, refl)
      | inr new ↦ subst (Untouched d) (ok-injective (rw new at made)) (refl, refl, refl)
    ]
role_step-Untouched d (Admins.role_set org id role by h) =
    let (_, a) = refuse_if-eq-ok (not (has_org org d.orgs)) Error.database _ h in
    let (_, b) = refuse_if-eq-ok (not (has_member org id d.members)) Error.member_not_found _ a in
    let left = any (is_admin org) (replace_roles d.roles org id role by) in
    let (_, made) = refuse_if-eq-ok (not left) Error.last_admin _ b in
    subst (Untouched d) (ok-injective made) (refl, refl, refl)

Step-Speaks :
    (org : ℕ) (channel user : Bytes) (id : ℕ) {is_address : Bytes → Bool} {d u : Directory}
    → Speaks org channel user id d
    → Step is_address d u
    → Speaks org channel user id u
Step-Speaks org channel user id {is_address} {d} s (seen org' channel' user' handle m h) =
    seen-Speaks org channel user id d org' channel' user' handle h s
Step-Speaks org channel user id {is_address} {d} s (addressed org' id' address source now h) =
    addressed-Speaks is_address org channel user id d org' id' address source now h s
Step-Speaks org channel user id {is_address} {d} s (linked org' id' channel' user' handle by h) =
    linked-Speaks org channel user id d org' id' channel' user' handle by h s
Step-Speaks org channel user id {is_address} {d} {u} s (administered a) =
    Untouched-Speaks org channel user id d u (role_step-Untouched d a) s

pub Reach-Speaks :
    (org : ℕ) (channel user : Bytes) (id : ℕ) {is_address : Bytes → Bool} {d u : Directory}
    → Speaks org channel user id d
    → Reach is_address d u
    → Speaks org channel user id u
Reach-Speaks org channel user id s here = s
Reach-Speaks org channel user id s (next r t) =
    Step-Speaks org channel user id (Reach-Speaks org channel user id s r) t
