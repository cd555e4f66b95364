-- ===== src/Store/Members.antt =====
-- ledger/store/member.go on the tables of ledger/migrations/00002_members.sql: who is a member of an
-- org, which chat accounts speak for them, and what each may ask for. An operation is one transaction.
pub mod Roles
pub mod Replaced
pub mod Seen
pub mod Speaks
pub mod Steady
pub mod Admins
mod Tests
use stelfin.Prelude.{
  ℕ, suc, List, [], ◌∷◌, ◌++◌, Bool, true, false, ◌&&◌, ◌||◌, not, ◌==◌, if◌then◌else◌, Result, ok,
  err, ◌>>=◌, ◌>>◌, refuse_if, Option, none, some, any, map,
}
use stelfin.Text.{Bytes, is_empty, bytes_eq, codes}
use stelfin.Chat.{is_valid}

pub data Error : Type 0 where
  member_not_found address_taken last_admin : Error
  unknown_channel user_id_required unknown_source empty_role : Error
  platform_role_required confers_admin already_speaks database : Error

-- An address that is not proved is empty.
pub record Member : Type 0 where
  pub id : ℕ
  pub org : ℕ
  pub display_name : Bytes
  pub address : Bytes
  pub address_source : Bytes
  pub verified_at : ℕ
  pub status : Bytes

-- A row of user_identities; `linked_by` is 0 where it is NULL.
pub record Identity : Type 0 where
  pub id : ℕ
  pub member : ℕ
  pub org : ℕ
  pub channel : Bytes
  pub channel_user_id : Bytes
  pub handle : Bytes
  pub linked_by : ℕ

-- A row of member_roles.
pub record RoleRow : Type 0 where
  pub org : ℕ
  pub member : ℕ
  pub role : Bytes
  pub granted_by : ℕ

-- A row of role_bindings.
pub record Binding : Type 0 where
  pub org : ℕ
  pub channel : Bytes
  pub channel_role : Bytes
  pub role : Bytes

pub record Directory : Type 0 where
  pub orgs : List ℕ
  pub members : List Member
  pub identities : List Identity
  pub roles : List RoleRow
  pub bindings : List Binding
  pub next_member : ℕ
  pub next_identity : ℕ

abbrev pub has_org : ℕ → List ℕ → Bool
has_org org orgs = any (λ o. o == org) orgs

-- WHERE org_id = $1 AND id = $2
unfoldable pub find_member : ℕ → ℕ → List Member → Option Member
find_member org id [] = none
find_member org id (m ∷ ms) =
    let rest = find_member org id ms in if m.id == id && m.org == org then some m else rest

abbrev pub has_member : ℕ → ℕ → List Member → Bool
has_member org id members = any (λ m. m.id == id && m.org == org) members

-- Store.Member
unfoldable pub member : Directory → ℕ → ℕ → Result Error Member
member d org id = elim (find_member org id d.members) [
  | none ↦ err Error.member_not_found
  | some m ↦ ok m
]

abbrev pub is_account : ℕ → Bytes → Bytes → Identity → Bool
is_account org channel user i =
    i.org == org && bytes_eq i.channel channel && bytes_eq i.channel_user_id user

unfoldable pub find_identity : ℕ → Bytes → Bytes → List Identity → Option Identity
find_identity org channel user [] = none
find_identity org channel user (i ∷ is) =
    let rest = find_identity org channel user is in
    if is_account org channel user i then some i else rest

-- MemberByIdentity
unfoldable pub member_by_identity : Directory → ℕ → Bytes → Bytes → Option Member
member_by_identity d org channel user = elim (find_identity org channel user d.identities) [
  | none ↦ none
  | some i ↦ find_member org i.member d.members
]

-- UPDATE user_identities SET handle = $1
abbrev pub set_handle : ℕ → Bytes → Bytes → Bytes → Identity → Identity
set_handle org channel user handle i =
    if is_account org channel user i then record i { handle = handle } else i

abbrev pub keep_handle : Directory → ℕ → Bytes → Bytes → Bytes → Member → Directory
keep_handle d org channel user handle m =
    if not (bytes_eq m.display_name handle) && not (is_empty handle)
    then record d { identities = map (set_handle org channel user handle) d.identities }
    else d

abbrev pub new_member : ℕ → ℕ → Bytes → Member
new_member id org name = record {
  id = id;
  org = org;
  display_name = name;
  address = [];
  address_source = [];
  verified_at = 0;
  status = codes "active";
}

-- The two INSERTs of EnsureMember.
unfoldable pub create_member : Directory → ℕ → Bytes → Bytes → Bytes → Directory
create_member d org channel user handle =
    let i : Identity = record {
      id = d.next_identity;
      member = d.next_member;
      org = org;
      channel = channel;
      channel_user_id = user;
      handle = handle;
      linked_by = 0;
    } in
    record d {
      members = new_member d.next_member org handle ∷ d.members;
      identities =
          if any (is_account org channel user) d.identities then d.identities else i ∷ d.identities;
      next_member = suc d.next_member;
      next_identity = suc d.next_identity;
    }

-- EnsureMember, which reads the member back after it has inserted one.
unfoldable pub ensure_member :
    Directory → ℕ → Bytes → Bytes → Bytes → Result Error (Member × Directory)
ensure_member d org channel user handle = do
  refuse_if (not (is_valid channel)) Error.unknown_channel
  refuse_if (is_empty user) Error.user_id_required
  elim (member_by_identity d org channel user) [
    | some m ↦ ok (m, keep_handle d org channel user handle m)
    | none ↦ do
      refuse_if (not (has_org org d.orgs)) Error.database
      let u = create_member d org channel user handle
      elim (member_by_identity u org channel user) [
        | some m ↦ ok (m, u)
        | none ↦ err Error.member_not_found
      ]
  ]

-- The unique index on the address of a member of an org.
abbrev pub takes : ℕ → ℕ → Bytes → Member → Bool
takes org id address m = m.org == org && not (m.id == id) && bytes_eq m.address address

abbrev pub is_source : Bytes → Bool
is_source s = bytes_eq s (codes "linked") || bytes_eq s (codes "provisioned")

abbrev pub with_address : ℕ → ℕ → Bytes → Bytes → ℕ → Member → Member
with_address org id address source now m =
    if m.id == id && m.org == org
    then record m { address = address; address_source = source; verified_at = now }
    else m

-- The UPDATE of members; `is_address` is the check on the column.
unfoldable pub bind_address :
    (Bytes → Bool) → Directory → ℕ → ℕ → Bytes → Bytes → ℕ → Result Error Directory
bind_address is_address d org id address source now =
    if not (has_member org id d.members)
    then err Error.member_not_found
    else if not (is_address address)
    then err Error.database
    else if any (takes org id address) d.members
    then err Error.address_taken
    else ok (record d { members = map (with_address org id address source now) d.members })

-- SetMemberAddress
unfoldable pub set_member_address :
    (Bytes → Bool) → Directory → ℕ → ℕ → Bytes → Bytes → ℕ → Result Error Directory
set_member_address is_address d org id address source now = do
  refuse_if (not (is_source source)) Error.unknown_source
  bind_address is_address d org id address source now

unfoldable pub first_identity : ℕ → ℕ → List Identity → ℕ
first_identity org member [] = 0
first_identity org member (i ∷ is) =
    let rest = first_identity org member is in
    if i.org == org && i.member == member then i.id else rest

-- LinkIdentity
unfoldable pub link_identity :
    Directory → ℕ → ℕ → Bytes → Bytes → Bytes → ℕ → Result Error Directory
link_identity d org id channel user handle by = do
  refuse_if (not (is_valid channel)) Error.unknown_channel
  refuse_if (is_empty user) Error.database
  refuse_if (any (is_account org channel user) d.identities) Error.already_speaks
  refuse_if (not (has_member org id d.members)) Error.database
  ok (record d {
    identities =
        record {
          id = d.next_identity;
          member = id;
          org = org;
          channel = channel;
          channel_user_id = user;
          handle = handle;
          linked_by = if by == 0 then 0 else first_identity org by d.identities;
        }
        ∷ d.identities;
    next_identity = suc d.next_identity;
  })
