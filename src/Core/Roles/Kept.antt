-- ===== src/Core/Roles/Kept.antt =====
-- What /grant and /revoke leave in place.
use stelfin.Prelude.{
  ℕ, List, [], ◌∷◌, true, ◌&&◌, ◌||◌, not, if◌then◌else◌, ok, any, ◌≡◌, inl, inr, sym, ap, arith,
  Bool-cases, Option-cases, Result-cases, ok-injective, refuse_if-eq-ok, subst, ◌∙◌, All,
}
use stelfin.Text.{Bytes, is_empty, format_uint}
use stelfin.Chat.{Role, is_valid, role_none}
use stelfin.Chat.Split.{trim_space}
use stelfin.Store.Members.{
  Directory, Member, RoleRow, ensure_member, member_by_identity, create_member, keep_handle,
  has_org, has_member, member,
}
use stelfin.Store.Members
use stelfin.Store.Members.Roles.{set_role, is_admin, replace_roles}
use stelfin.Core.Roles.{
  Request, number_of, change_role, tell, grant, grant_to, revoke, role_named, role_arguments,
}

-- The org has an admin.
abbrev pub HasAdmin : ℕ → Directory → Type 0
HasAdmin org d = any (is_admin org) d.roles ≡ true

set_role-HasAdmin :
    (d : Directory) (org id : ℕ) (role : Role) (by : ℕ) {u : Directory}
    → set_role d org id role by ≡ ok u
    → HasAdmin org u
unfolding set_role
set_role-HasAdmin d org id role by h =
    let (known, a) = refuse_if-eq-ok (not (has_org org d.orgs)) Members.database _ h in
    let (present, b) =
      refuse_if-eq-ok (not (has_member org id d.members)) Members.member_not_found _ a in
    let left = any (is_admin org) (replace_roles d.roles org id role by) in
    let (kept, made) = refuse_if-eq-ok (not left) Members.last_admin _ b in
    subst (HasAdmin org) (ok-injective made) (ground arith)

change_role-HasAdmin :
    (d : Directory) (r : Request) (who : Bytes) (role : Role)
    → HasAdmin r.org d
    → HasAdmin r.org (change_role d r who role).0
unfolding change_role tell
change_role-HasAdmin d r who role h = elim (Option-cases (number_of who)) [
  | inl e ↦ rw (change_role, e) h
  | inr (id, e) ↦ elim (Result-cases (set_role d r.org id role r.member)) [
    | inr (x, f) ↦ rw (change_role, e, f) h
    | inl (u, f) ↦
        let kept = set_role-HasAdmin d r.org id role r.member f in
        elim (Result-cases (member u r.org id)) [
          | inr (x, g) ↦ rw (change_role, e, f, tell, g) kept
          | inl (m, g) ↦ rw (change_role, e, f, tell, g) kept
        ]
  ]
]

ensure_member-roles :
    (d : Directory) (org : ℕ) (channel user handle : Bytes) {m : Member} {u : Directory}
    → ensure_member d org channel user handle ≡ ok (m, u)
    → u.roles ≡ d.roles
unfolding ensure_member create_member
ensure_member-roles d org channel user handle h =
    let (valid, a) = refuse_if-eq-ok (not (is_valid channel)) Members.unknown_channel _ h in
    let (named, b) = refuse_if-eq-ok (is_empty user) Members.user_id_required _ a in
    elim (Option-cases (member_by_identity d org channel user)) [
      | inr (n, e) ↦
          let kept : (keep_handle d org channel user handle n).roles ≡ d.roles = ground arith in
          sym (ap (λ x. x.1.roles) (ok-injective (rw e at b))) ∙ kept
      | inl e ↦
          let (known, c) =
            refuse_if-eq-ok (not (has_org org d.orgs)) Members.database _ (rw e at b) in
          let made = create_member d org channel user handle in
          elim (Option-cases (member_by_identity made org channel user)) [
            | inl f ↦ absurd (cc (rw f at c))
            | inr (n, f) ↦ sym (ap (λ x. x.1.roles) (ok-injective (rw f at c)))
          ]
    ]

grant_to-HasAdmin :
    (d : Directory) (r : Request) (who name : Bytes)
    → HasAdmin r.org d
    → HasAdmin r.org (grant_to d r who name).0
grant_to-HasAdmin d r who name h = elim (Bool-cases (is_empty who || is_empty name)) [
  | inl e ↦ rw e h
  | inr e ↦ elim (Option-cases (role_named name)) [
    | inl f ↦ rw (e, f) h
    | inr (role, f) ↦ rw (e, f) (change_role-HasAdmin d r who role h)
  ]
]

grant-HasAdmin : (d : Directory) (r : Request) → HasAdmin r.org d → HasAdmin r.org (grant d r).0
unfolding grant
grant-HasAdmin d r h =
    let words = role_arguments r in
    elim (Bool-cases (is_empty (trim_space r.option_user))) [
      | inl e ↦ rw (grant, e) (grant_to-HasAdmin d r words.0 words.1 h)
      | inr e ↦
          elim (Result-cases (ensure_member d r.org r.channel (trim_space r.option_user) [])) [
            | inr (x, f) ↦ rw (grant, e, f) h
            | inl ((m, u), f) ↦
                let same = ensure_member-roles d r.org r.channel (trim_space r.option_user) [] f in
                rw (grant, e, f)
                  (grant_to-HasAdmin u r (format_uint m.id)
                    (if is_empty words.1 then words.0 else words.1) (rw same h))
          ]
    ]

revoke-HasAdmin : (d : Directory) (r : Request) → HasAdmin r.org d → HasAdmin r.org (revoke d r).0
unfolding revoke
revoke-HasAdmin d r h =
    let who = (role_arguments r).0 in
    let picked = trim_space r.option_user in
    elim (Bool-cases (not (is_empty picked) && is_empty who)) [
      | inr e ↦ elim (Bool-cases (is_empty who)) [
        | inl f ↦ rw (revoke, e, f) h
        | inr f ↦ rw (revoke, e, f) (change_role-HasAdmin d r who role_none h)
      ]
      | inl e ↦ elim (Option-cases (member_by_identity d r.org r.channel picked)) [
        | inl f ↦ rw (revoke, e, f) h
        | inr (m, f) ↦ rw (revoke, e, f) (change_role-HasAdmin d r (format_uint m.id) role_none h)
      ]
    ]

-- A line that an admin types.
pub data Line : Type 0 where
  granting revoking : Request → Line

abbrev pub TypedIn : ℕ → Line → Type 0
TypedIn org (granting r) = r.org ≡ org
TypedIn org (revoking r) = r.org ≡ org

unfoldable pub run_lines : List Line → Directory → Directory
run_lines [] d = d
run_lines (granting r ∷ lines) d = run_lines lines (grant d r).0
run_lines (revoking r ∷ lines) d = run_lines lines (revoke d r).0

-- A workspace that has an admin keeps one through any run of /grant and /revoke in it, whatever their
-- arguments are and whether they succeed or not.
pub run_lines-HasAdmin :
    (org : ℕ) (lines : List Line) (d : Directory)
    → All (TypedIn org) lines
    → HasAdmin org d
    → HasAdmin org (run_lines lines d)
unfolding run_lines
run_lines-HasAdmin org [] d same h = h
run_lines-HasAdmin org (granting r ∷ lines) d (e, same) h =
    run_lines-HasAdmin org lines (grant d r).0 same
      (subst (λ o. HasAdmin o (grant d r).0) e (grant-HasAdmin d r (rw e h)))
run_lines-HasAdmin org (revoking r ∷ lines) d (e, same) h =
    run_lines-HasAdmin org lines (revoke d r).0 same
      (subst (λ o. HasAdmin o (revoke d r).0) e (revoke-HasAdmin d r (rw e h)))
