-- ===== src/Store/Challenges.antt =====
-- ledger/store/challenge.go on the tables of ledger/migrations/00005_identity.sql: challenges that wait
-- for a signature, and codes that attach another chat account to a member. The checks on what a
-- column holds are arguments, and so is the random code. An operation is one transaction.
pub mod Codes
pub mod Rows
pub mod Spent
pub mod Proved
pub mod Wallets
mod Tests
use stelfin.Prelude.{
  ℕ, suc, ◌+◌, List, [], ◌∷◌, Bool, true, false, ◌&&◌, ◌||◌, not, ltb, ◌==◌, if◌then◌else◌, Result,
  ok, err, ◌>>=◌, ◌>>◌, refuse_if, Option, none, some, any, map,
}
use stelfin.Text.{Bytes, is_empty, bytes_eq}
use stelfin.Store.Members.{
  Member, Identity, RoleRow, Directory, has_org, has_member, find_member, find_identity, is_account,
  bind_address, is_source,
}
use stelfin.Chat.{is_valid}
use stelfin.Store.Members
use stelfin.Store.Members.Roles.{drop_if}

-- An error of the tables of members passes through.
pub data Error : Type 0 where
  no_challenge no_link_code linked_wallet unknown_source database : Error
  members : Members.Error → Error

pub record Challenge : Type 0 where
  pub hash : Bytes
  pub org : ℕ
  pub identity : ℕ
  pub purpose : Bytes
  pub address : Bytes
  pub xdr : Bytes
  pub expires_at : ℕ

-- A row of auth_challenges.
pub record ChallengeRow : Type 0 where
  pub challenge : Challenge
  pub consumed_at : Option ℕ

-- A row of identity_link_codes; `consumed_by` is 0 where it is NULL.
pub record CodeRow : Type 0 where
  pub code : Bytes
  pub org : ℕ
  pub member : ℕ
  pub issued_by : ℕ
  pub expires_at : ℕ
  pub consumed_at : Option ℕ
  pub consumed_by : ℕ

pub record Linking : Type 0 where
  pub directory : Directory
  pub challenges : List ChallengeRow
  pub codes : List CodeRow

-- What the columns allow, and which members the tables outside refer to.
pub record Checks : Type 0 where
  pub is_address : Bytes → Bool
  pub is_challenge : Challenge → Bool
  pub is_code : Bytes → Bool
  pub is_referenced : ℕ → Bool

abbrev pub is_unset {ℓ} : {A : Type ℓ} → Option A → Bool
is_unset none = true
is_unset (some a) = false

abbrev pub has_identity : ℕ → List Identity → Bool
has_identity id = any (λ i. i.id == id)

abbrev pub supersedes : Challenge → ChallengeRow → Bool
supersedes c r =
    r.challenge.identity == c.identity
    && bytes_eq r.challenge.purpose c.purpose
    && is_unset r.consumed_at

-- SaveChallenge
unfoldable pub save_challenge : Checks → Linking → Challenge → ℕ → Result Error Linking
save_challenge k t c now =
    let rows = drop_if (supersedes c) t.challenges in
    do
      refuse_if (not (k.is_challenge c && ltb now c.expires_at)) Error.database
      refuse_if (any (λ r. bytes_eq r.challenge.hash c.hash) rows) Error.database
      refuse_if (not (has_org c.org t.directory.orgs)) Error.database
      refuse_if (not (has_identity c.identity t.directory.identities)) Error.database
      ok (record t { challenges = record { challenge = c; consumed_at = none } ∷ rows })

-- WHERE hash = $1 AND org_id = $2 AND consumed_at IS NULL AND expires_at > now()
abbrev pub is_live : ℕ → Bytes → ℕ → ChallengeRow → Bool
is_live org hash now r =
    bytes_eq r.challenge.hash hash
    && r.challenge.org == org
    && is_unset r.consumed_at
    && ltb now r.challenge.expires_at

unfoldable pub find_challenge : (ChallengeRow → Bool) → List ChallengeRow → Option ChallengeRow
find_challenge p [] = none
find_challenge p (r ∷ rs) = let rest = find_challenge p rs in if p r then some r else rest

-- LiveChallenge
unfoldable pub live_challenge : Linking → ℕ → Bytes → ℕ → Result Error Challenge
live_challenge t org hash now = elim (find_challenge (is_live org hash now) t.challenges) [
  | none ↦ err Error.no_challenge
  | some r ↦ ok r.challenge
]

-- The same, for the address that the challenge was made for.
abbrev pub is_claimable : ℕ → Bytes → Bytes → ℕ → ChallengeRow → Bool
is_claimable org hash address now r = is_live org hash now r && bytes_eq r.challenge.address address

abbrev pub consume_row : (ChallengeRow → Bool) → ℕ → ChallengeRow → ChallengeRow
consume_row p now r = if p r then record r { consumed_at = some now } else r

-- SELECT member_id FROM user_identities WHERE id = $1 AND org_id = $2
unfoldable pub member_of : ℕ → ℕ → List Identity → Option ℕ
member_of org id [] = none
member_of org id (i ∷ is) =
    let rest = member_of org id is in if i.id == id && i.org == org then some i.member else rest

abbrev pub lift_error {ℓ} : {A : Type ℓ} → Result Members.Error A → Result Error A
lift_error (ok a) = ok a
lift_error (err e) = err (Error.members e)

-- What ConsumeChallenge does once it has claimed a row.
unfoldable pub bind_claimed :
    Checks → Linking → ℕ → ChallengeRow → Bytes → Bytes → ℕ → Result Error (ℕ × Directory)
bind_claimed k t org r address source now =
    elim (member_of org r.challenge.identity t.directory.identities) [
      | none ↦ err Error.database
      | some id ↦ do
        d ← lift_error (bind_address k.is_address t.directory org id address source now)
        ok (id, d)
    ]

-- ConsumeChallenge
unfoldable pub consume_challenge :
    Checks → Linking → ℕ → Bytes → Bytes → Bytes → ℕ → Result Error (ℕ × Linking)
consume_challenge k t org hash address source now =
    let p = is_claimable org hash address now in
    do
      refuse_if (not (is_source source)) Error.unknown_source
      elim (find_challenge p t.challenges) [
        | none ↦ err Error.no_challenge
        | some r ↦ do
          bound ← bind_claimed k t org r address source now
          ok (
            bound.0,
            record t { directory = bound.1; challenges = map (consume_row p now) t.challenges },
          )
      ]
