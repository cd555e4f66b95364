-- ===== src/Core/Roles.antt =====
-- core/roles.go: /grant and /revoke, on the tables of Store/Members. A text is the list of its code
-- points, and an option that was not given is empty. The reply is what the member is told.
pub mod Kept
mod Tests
use stelfin.Prelude.{
  ℕ, zero, suc, ◌+◌, List, [], ◌∷◌, Bool, true, false, ◌&&◌, ◌||◌, not, leb, ◌==◌, if◌then◌else◌,
  Result, ok, err, Option, none, some,
}
use stelfin.Prelude.Int.{ℤ, pos, negsuc}
use stelfin.Text.{Bytes, is_empty, bytes_eq, codes, parse_int, format_uint}
use stelfin.Chat.{
  Role, role_none, role_observer, role_proposer, role_approver, role_admin, role_string,
}
use stelfin.Chat.Split.{trim_space, fields}
use stelfin.Store.Members.{Directory, Member, member, ensure_member, member_by_identity}
use stelfin.Store.Members
use stelfin.Store.Members.Roles.{set_role, is_none}

pub record Request : Type 0 where
  pub org : ℕ
  pub channel : Bytes
  pub member : ℕ
  pub option_user : Bytes
  pub option_member : Bytes
  pub option_role : Bytes
  pub args : Bytes

pub data Reply : Type 0 where
  try_grant try_revoke unknown_role nothing_to_take unreadable_number no_member last_admin : Reply
  has_no_role : ℕ → Reply
  is_now : ℕ → Role → Reply

abbrev pub first_of : List Bytes → Bytes
first_of [] = []
first_of (w ∷ ws) = w

abbrev pub second_of : List Bytes → Bytes
second_of [] = []
second_of (v ∷ ws) = first_of ws

-- roleArguments
abbrev pub role_arguments : Request → Bytes × Bytes
role_arguments r =
    let who = trim_space r.option_member in
    let role = trim_space r.option_role in
    if not (is_empty who) || not (is_empty role)
    then (who, role)
    else (first_of (fields r.args), second_of (fields r.args))

-- strings.EqualFold against lower-case letters: two other characters fold to one of them.
abbrev pub fold : ℕ → ℕ
fold c =
    if leb b'A' c && leb c b'Z'
    then c + 32
    else if c == 0x17f
    then b's'
    else if c == 0x212a
    then b'k'
    else c

abbrev pub equal_fold : Bytes → Bytes → Bool
equal_fold [] [] = true
equal_fold (c ∷ s) (d ∷ t) = fold c == d && equal_fold s t
equal_fold _ _ = false

-- roleNamed
unfoldable pub role_named : Bytes → Option Role
role_named name =
    if equal_fold name (role_string role_observer)
    then some role_observer
    else if equal_fold name (role_string role_proposer)
    then some role_proposer
    else if equal_fold name (role_string role_approver)
    then some role_approver
    else if equal_fold name (role_string role_admin)
    then some role_admin
    else none

-- strings.TrimPrefix(who, "#")
abbrev pub trim_hash : Bytes → Bytes
trim_hash [] = []
trim_hash (c ∷ s) = if c == b'#' then s else c ∷ s

-- The number of a member, which is positive.
abbrev pub number_of : Bytes → Option ℕ
number_of who = elim (parse_int (trim_hash who)) [
  | err e ↦ none
  | ok (negsuc n) ↦ none
  | ok (pos zero) ↦ none
  | ok (pos (suc n)) ↦ some (suc n)
]

abbrev pub Answer : Type 0
Answer = Directory × Result Members.Error Reply

-- What setRole says when the change went through.
unfoldable pub tell : Directory → ℕ → ℕ → Role → Answer
tell u org id role = elim (member u org id) [
  | err e ↦ (u, err e)
  | ok m ↦ (u, ok (if is_none role then has_no_role id else is_now id role))
]

abbrev pub refusal : Members.Error → Result Members.Error Reply
refusal Members.member_not_found = ok no_member
refusal Members.last_admin = ok last_admin
refusal e = err e

-- setRole
unfoldable pub change_role : Directory → Request → Bytes → Role → Answer
change_role d r who role = elim (number_of who) [
  | none ↦ (d, ok unreadable_number)
  | some id ↦ elim (set_role d r.org id role r.member) [
    | err e ↦ (d, refusal e)
    | ok u ↦ tell u r.org id role
  ]
]

abbrev pub grant_to : Directory → Request → Bytes → Bytes → Answer
grant_to d r who name =
    if is_empty who || is_empty name then (d, ok try_grant) else elim (role_named name) [
      | none ↦ (d, ok unknown_role)
      | some role ↦ change_role d r who role
    ]

-- grant. Somebody picked from the platform's list is a member from then on, seen before or not.
unfoldable pub grant : Directory → Request → Answer
grant d r =
    let words = role_arguments r in
    let picked = trim_space r.option_user in
    if is_empty picked
    then grant_to d r words.0 words.1
    else elim (ensure_member d r.org r.channel picked []) [
      | err e ↦ (d, err e)
      | ok found ↦
          grant_to found.1 r (format_uint found.0.id)
            (if is_empty words.1 then words.0 else words.1)
    ]

-- revoke
unfoldable pub revoke : Directory → Request → Answer
revoke d r =
    let who = (role_arguments r).0 in
    let picked = trim_space r.option_user in
    if not (is_empty picked) && is_empty who
    then elim (member_by_identity d r.org r.channel picked) [
      | none ↦ (d, ok nothing_to_take)
      | some m ↦ change_role d r (format_uint m.id) role_none
    ]
    else if is_empty who
    then (d, ok try_revoke)
    else change_role d r who role_none
