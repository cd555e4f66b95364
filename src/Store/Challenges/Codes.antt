-- ===== src/Store/Challenges/Codes.antt =====
-- The link codes of ledger/store/challenge.go.
use stelfin.Prelude.{
  ℕ, suc, ◌+◌, List, [], ◌∷◌, Bool, ◌&&◌, ◌||◌, not, ltb, ◌==◌, if◌then◌else◌, Result, ok, err,
  ◌>>=◌, ◌>>◌, refuse_if, Option, none, some, any, map,
}
use stelfin.Text.{Bytes, is_empty, bytes_eq}
use stelfin.Store.Members.{Member, Identity, Directory, has_member, find_member, find_identity}
use stelfin.Chat.{is_valid}
use stelfin.Store.Members.Roles.{drop_if}
use stelfin.Store.Challenges.{Error, Linking, Checks, CodeRow, is_unset, has_identity}

abbrev pub live_code_of : ℕ → CodeRow → Bool
live_code_of member r = r.member == member && is_unset r.consumed_at

-- IssueLinkCode, with the code that newLinkCode has drawn.
unfoldable pub issue_link_code :
    Checks → Linking → Bytes → ℕ → ℕ → ℕ → ℕ → ℕ → Result Error (Bytes × Linking)
issue_link_code k t code org member by ttl now =
    let rows = drop_if (live_code_of member) t.codes in
    let row : CodeRow = record {
      code = code;
      org = org;
      member = member;
      issued_by = by;
      expires_at = now + ttl;
      consumed_at = none;
      consumed_by = 0;
    } in
    do
      refuse_if (not (k.is_code code && ltb now (now + ttl))) Error.database
      refuse_if (any (λ r. bytes_eq r.code code) rows) Error.database
      refuse_if (not (has_member org member t.directory.members)) Error.database
      refuse_if (not (has_identity by t.directory.identities)) Error.database
      ok (code, record t { codes = row ∷ rows })

abbrev pub is_live_code : ℕ → Bytes → ℕ → CodeRow → Bool
is_live_code org code now r =
    bytes_eq r.code code && r.org == org && is_unset r.consumed_at && ltb now r.expires_at

unfoldable pub find_code : (CodeRow → Bool) → List CodeRow → Option CodeRow
find_code p [] = none
find_code p (r ∷ rs) = let rest = find_code p rs in if p r then some r else rest

abbrev pub attach : ℕ → Bytes → ℕ → ℕ → Identity → Identity
attach target handle by id i =
    if i.id == id then record i { member = target; handle = handle; linked_by = by } else i

-- deleteEmptyMember
abbrev pub is_husk : ℕ → ℕ → Directory → Member → Bool
is_husk org id d m =
    m.id == id
    && m.org == org
    && is_empty m.address
    && not (any (λ i. i.member == id) d.identities)
    && not (any (λ r. r.member == id) d.roles)

-- A row that another table refers to cannot be deleted; a code of the member goes with it.
unfoldable pub delete_empty_member : Checks → Linking → ℕ → ℕ → Result Error Linking
delete_empty_member k t org id =
    if not (any (is_husk org id t.directory) t.directory.members)
    then ok t
    else if k.is_referenced id
    then err Error.database
    else ok (record t {
      directory = record t.directory {
        members = drop_if (is_husk org id t.directory) t.directory.members;
      };
      codes = drop_if (λ r. r.member == id) t.codes;
    })

abbrev pub new_identity : Linking → ℕ → Bytes → Bytes → Bytes → CodeRow → Directory
new_identity t org channel user handle c = record t.directory {
  identities =
      record {
        id = t.directory.next_identity;
        member = c.member;
        org = org;
        channel = channel;
        channel_user_id = user;
        handle = handle;
        linked_by = c.issued_by;
      }
      ∷ t.directory.identities;
  next_identity = suc t.directory.next_identity;
}

abbrev pub moved : Linking → Bytes → CodeRow → Identity → Linking
moved t handle c i = record t {
  directory = record t.directory {
    identities = map (attach c.member handle c.issued_by i.id) t.directory.identities;
  };
}

-- The address of the member whom the account speaks for, empty where it is NULL.
unfoldable pub wallet_of : Linking → ℕ → ℕ → Bytes
wallet_of t org id = elim (find_member org id t.directory.members) [
  | none ↦ []
  | some m ↦ m.address
]

-- The cases of ClaimLinkCode on what the account speaks for at present.
unfoldable pub point_at :
    Checks → Linking → ℕ → Bytes → Bytes → Bytes → CodeRow → Result Error Linking
point_at k t org channel user handle c =
    elim (find_identity org channel user t.directory.identities) [
      | none ↦
          if is_empty user || not (is_valid channel)
          then err Error.database
          else ok (record t { directory = new_identity t org channel user handle c })
      | some i ↦
          if i.member == c.member
          then ok t
          else if not (is_empty (wallet_of t org i.member))
          then err Error.linked_wallet
          else delete_empty_member k (moved t handle c i) org i.member
    ]

abbrev pub identity_of : ℕ → Bytes → Bytes → List Identity → ℕ
identity_of org channel user is = elim (find_identity org channel user is) [
  | none ↦ 0
  | some i ↦ i.id
]

abbrev pub spend : (CodeRow → Bool) → ℕ → CodeRow → CodeRow
spend p now r = if p r then record r { consumed_at = some now } else r

abbrev pub record_claim : Bytes → ℕ → CodeRow → CodeRow
record_claim code id r = if bytes_eq r.code code then record r { consumed_by = id } else r

-- ClaimLinkCode
unfoldable pub claim_link_code :
    Checks → Linking → ℕ → Bytes → Bytes → Bytes → Bytes → ℕ → Result Error (ℕ × Linking)
claim_link_code k t org code channel user handle now =
    let p = is_live_code org code now in
    elim (find_code p t.codes) [
      | none ↦ err Error.no_link_code
      | some c ↦ do
        u ← point_at k (record t { codes = map (spend p now) t.codes }) org channel user handle c
        let id = identity_of org channel user u.directory.identities
        ok (c.member, record u { codes = map (record_claim code id) u.codes })
    ]
