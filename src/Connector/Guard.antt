-- ===== src/Connector/Guard.antt =====
-- connector/guard.go: the one gate every connector call goes through. Where the grants come from (the
-- chain), the hash of a surface and the shared limiter of a deployment are arguments; the limiter
-- that the guard has of itself is `local_limiter`, over connector/rate.go. A connector is what it
-- can do: its descriptor, and a reader, a proposer, both or neither.
pub mod Authorise
pub mod Kinds
pub mod Surface
use stelfin.Prelude.{
  ℕ, zero, suc, ◌+◌, List, [], ◌∷◌, ◌++◌, Bool, true, false, ◌&&◌, ◌||◌, not, ltb, leb, ◌==◌,
  if◌then◌else◌, Option, none, some, Result, ok, err, ◌>>=◌, ◌>>◌, refuse_if, length, any,
}
use stelfin.Prelude.Int.{ℤ, pos, leb_ℤ, ltb_ℤ}
use stelfin.Text.{Bytes, codes, bytes_eq, is_empty, format_uint}
use stelfin.Connector.Rate.{RateLimiter, RateKey, allow}

pub data Error : Type 0 where
  not_granted surface_changed capability_not_granted rate_exceeded : Error
  not_a_reader not_a_proposer : Error
  malformed_descriptor : Error
  -- what reading the grants failed with
  grants_failed : Error

-- A Kind is a string; the two that there are, and any other.
pub data Kind : Type 0 where
  reader proposer : Kind
  other : Bytes → Kind

abbrev pub kind_text : Kind → Bytes
kind_text reader = codes "reader"
kind_text proposer = codes "proposer"
kind_text (other s) = s

pub record Descriptor : Type 0 where
  pub id : Bytes
  pub kind : Kind
  pub capabilities : List Bytes

pub record Grant : Type 0 where
  pub capabilities : List Bytes
  pub surface_digest : Bytes
  pub per_hour : ℤ

pub record Request : Type 0 where
  pub selector : Bytes
  pub limit : ℤ

abbrev pub max_rows : ℕ
max_rows = 500

unfoldable pub bound : Request → Request
bound r =
    if leb_ℤ r.limit (pos 0) || ltb_ℤ (pos max_rows) r.limit
    then record r { limit = pos max_rows }
    else r

unfoldable pub check_descriptor : Descriptor → Result Error (Unit {0})
check_descriptor d = elim d.kind [
  | other s ↦ err malformed_descriptor
  | _ ↦ refuse_if (is_empty d.id) malformed_descriptor
]

unfoldable pub covers : List Bytes → Bytes → Bool
covers granted capability =
    if is_empty capability then false else any (λ g. bytes_eq g capability) granted

-- `a` before `b`, or the same, in the order of Go's strings.
unfoldable pub string_le : Bytes → Bytes → Bool
string_le [] b = true
string_le (x ∷ a) [] = false
string_le (x ∷ a) (y ∷ b) = let rest = string_le a b in ltb x y || (x == y && rest)

unfoldable pub insert : Bytes → List Bytes → List Bytes
insert s [] = s ∷ []
insert s (t ∷ ts) = let rest = insert s ts in if string_le s t then s ∷ t ∷ ts else t ∷ rest

-- sort.Strings
unfoldable pub sort : List Bytes → List Bytes
unfolding insert
sort [] = []
sort (s ∷ ss) = insert s (sort ss)

-- fmt's "%d:%s"
unfoldable pub write : Bytes → Bytes
write s = format_uint (length s) ++ b':' ∷ s

unfoldable pub write_all : List Bytes → Bytes
unfolding write
write_all [] = []
write_all (s ∷ ss) = write s ++ write_all ss

-- What `SurfaceDigest` hashes.
unfoldable pub surface : Descriptor → Bytes
surface d =
    write (codes "stelfin-connector-surface-1")
    ++ (write d.id
        ++ (write (kind_text d.kind)
            ++ ((format_uint (length d.capabilities) ++ b':' ∷ [])
                ++ write_all (sort d.capabilities))))

-- A limiter: what it keeps, and whether one more call is within the allowance. It may fail.
pub record Limiter : Type 1 where
  pub State : Type 0
  pub allow_call : State → ℕ → Bytes → ℤ → ℕ → State × Option Bool

abbrev pub local_limiter : Limiter
local_limiter = record {
  State = RateLimiter;
  allow_call = λ r org connector per_hour now.
      let (r', allowed) = allow r (record { org = org; connector = connector }) per_hour now in
      (r', some allowed);
}

-- A connector with what it does for a request, for each of the two interfaces it implements.
pub record Connector (Observation Draft : Type 0) : Type 0 where
  pub describe : Descriptor
  pub read : Option (Request → Observation)
  pub propose : Option (Request → Draft)

module _ (digest : Bytes → Bytes) (grant_for : ℕ → Bytes → Option Grant) (l : Limiter) where
  abbrev spend : l.State × Option Bool → l.State × Result Error (Unit {0})
  spend (s, none) = (s, err rate_exceeded)
  spend (s, some false) = (s, err rate_exceeded)
  spend (s, some true) = (s, ok tt)

  abbrev permitted : Descriptor → Bytes → Grant → Result Error (Unit {0})
  permitted d capability grant = do
    refuse_if (is_empty grant.surface_digest) not_granted
    refuse_if (not (bytes_eq (digest (surface d)) grant.surface_digest)) surface_changed
    refuse_if (not (covers grant.capabilities capability)) capability_not_granted

  -- The limiter is asked last, so it changes only for a call that everything else permits.
  unfoldable pub authorise :
      l.State → ℕ → Descriptor → Bytes → ℕ → l.State × Result Error (Unit {0})
  authorise s org d capability now = elim (check_descriptor d) [
    | err e ↦ (s, err e)
    | ok _ ↦ elim (grant_for org d.id) [
      | none ↦ (s, err grants_failed)
      | some grant ↦ elim (permitted d capability grant) [
        | err e ↦ (s, err e)
        | ok _ ↦ spend (l.allow_call s org d.id grant.per_hour now)
      ]
    ]
  ]

  abbrev then_call :
      {A : Type 0}
      → (Request → A)
      → Request
      → l.State × Result Error (Unit {0})
      → l.State × Result Error A
  then_call f request (s, ok _) = (s, ok (f (bound request)))
  then_call f request (s, err e) = (s, err e)

  -- `Read` and `Propose`.
  unfoldable pub read :
      {Observation Draft : Type 0}
      → l.State
      → ℕ
      → Connector Observation Draft
      → Bytes
      → Request
      → ℕ
      → l.State × Result Error Observation
  read s org c capability request now = elim c.read [
    | none ↦ (s, err not_a_reader)
    | some f ↦ then_call f request (authorise s org c.describe capability now)
  ]

  unfoldable pub propose :
      {Observation Draft : Type 0}
      → l.State
      → ℕ
      → Connector Observation Draft
      → Bytes
      → Request
      → ℕ
      → l.State × Result Error Draft
  propose s org c capability request now = elim c.propose [
    | none ↦ (s, err not_a_proposer)
    | some f ↦ then_call f request (authorise s org c.describe capability now)
  ]
