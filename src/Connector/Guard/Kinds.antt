-- ===== src/Connector/Guard/Kinds.antt =====
-- CheckKind of connector/connector.go: a connector reads or proposes, and says which.
use stelfin.Prelude.{
  Bool, true, false, ◌&&◌, not, if◌then◌else◌, ◌≡◌, ◌↔◌, ◌⊎◌, inl, inr, refl, arith, Option, none,
  some, Result, ok, err,
}
use stelfin.Connector.Guard.{Kind, reader, proposer, other, Connector}

pub data KindError : Type 0 where
  both_kinds neither_kind : KindError

abbrev is_reader : Kind → Bool
is_reader reader = true
is_reader _ = false

abbrev is_proposer : Kind → Bool
is_proposer proposer = true
is_proposer _ = false

-- Whether the connector implements an interface.
abbrev pub implements : {A : Type 0} → Option A → Bool
implements none = false
implements (some f) = true

unfoldable check : Bool → Bool → Kind → Result KindError (Unit {0})
check reads proposes kind =
    if reads && proposes
    then err both_kinds
    else if not reads && not proposes
    then err neither_kind
    else if reads && not (is_reader kind)
    then err both_kinds
    else if proposes && not (is_proposer kind)
    then err both_kinds
    else ok tt

unfoldable pub check_kind :
    {Observation Draft : Type 0} → Connector Observation Draft → Result KindError (Unit {0})
unfolding check
check_kind c = check (implements c.read) (implements c.propose) c.describe.kind

-- What a connector says it is, whether it reads, and whether it proposes.
abbrev pub Agrees : Kind → Bool → Bool → Type 0
Agrees kind reads proposes =
    ((kind ≡ reader) × (reads ≡ true) × (proposes ≡ false))
    ⊎ ((kind ≡ proposer) × (reads ≡ false) × (proposes ≡ true))

check_iff :
    (kind : Kind) (reads proposes : Bool)
    → (check reads proposes kind ≡ ok tt) ↔ Agrees kind reads proposes
unfolding check
check_iff reader true true = (λ h. cc, λ h. ground arith)
check_iff reader true false = (λ h. inl (refl, refl, refl), λ h. refl)
check_iff reader false true = (λ h. cc, λ h. ground arith)
check_iff reader false false = (λ h. cc, λ h. ground arith)
check_iff proposer true true = (λ h. cc, λ h. ground arith)
check_iff proposer true false = (λ h. cc, λ h. ground arith)
check_iff proposer false true = (λ h. inr (refl, refl, refl), λ h. refl)
check_iff proposer false false = (λ h. cc, λ h. ground arith)
check_iff (other s) true true = (λ h. cc, λ h. ground arith)
check_iff (other s) true false = (λ h. cc, λ h. ground arith)
check_iff (other s) false true = (λ h. cc, λ h. ground arith)
check_iff (other s) false false = (λ h. cc, λ h. ground arith)

-- A connector passes registration exactly when it calls itself what it is: a reader that reads and
-- does not propose, or a proposer that proposes and does not read.
pub check_kind_iff :
    {Observation Draft : Type 0} (c : Connector Observation Draft)
    → (check_kind c ≡ ok tt) ↔ Agrees c.describe.kind (implements c.read) (implements c.propose)
unfolding check_kind
check_kind_iff c = check_iff c.describe.kind (implements c.read) (implements c.propose)
