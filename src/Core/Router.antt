-- ===== src/Core/Router.antt =====
-- core/router.go: one inbound message, from the platform's webhook to the command that it names. The
-- commands, the handling of free text, setup and connect are arguments, and so is whether a reply
-- gets through; what is observed of them is that they were started, with what role.
pub mod Gate
mod Tests
use stelfin.Prelude.{
  ℕ, List, [], ◌∷◌, ◌++◌, Bool, true, false, ◌&&◌, ◌||◌, not, if◌then◌else◌, Result, ok, err,
  Option, none, some,
}
use stelfin.Text.{Bytes, is_empty, bytes_eq, codes}
use stelfin.Chat.{Role, at_least, is_valid}
use stelfin.Ledger.Messages.{claim_message}
use stelfin.Ledger.Messages
use stelfin.Store.Members.{Directory, Member, ensure_member}
use stelfin.Store.Members
use stelfin.Store.Members.Roles.{effective_role}

-- chat.Inbound with what the router reads of its actor and its conversation.
pub record Inbound : Type 0 where
  pub dedupe_id : Bytes
  pub channel : Bytes
  pub user_id : Bytes
  pub handle : Bytes
  pub roles : List Bytes
  pub conversation_channel : Bytes
  pub space_id : Bytes
  pub is_dm : Bool
  pub command : Bytes

pub record Org : Type 0 where
  pub id : ℕ
  pub is_active : Bool

-- The tables that the router reads and writes.
pub record State : Type 0 where
  pub spaces : Bytes → Bytes → Option Org
  pub directory : Directory
  pub processed : List Bytes

pub data Reply : Type 0 where
  suspended unknown_command read_only command_failed introduction not_set_up : Reply
  needs_role : Role → Reply

pub data Failure : Type 0 where
  no_dedupe_id reply_failed api_read_only handler_failed : Failure
  of_messages : Messages.Error → Failure
  of_members : Members.Error → Failure

pub data Action : Type 0 where
  replied : Reply → Action
  ran : Bytes → Role → Action
  sent : Role → Action
  set_up connected : Action

-- What one delivery leads to: what was done, and the error that Handle returns.
pub record Outcome : Type 0 where
  pub state : State
  pub actions : List Action
  pub failed : Option Failure

pub record Command : Type 0 where
  pub name : Bytes
  pub min_role : Role
  pub run : State → Inbound → Member → State × Option Failure

pub record Service : Type 0 where
  pub commands : List Command
  pub handle_send : State → Inbound → Member → State × Option Failure
  pub run_setup : State → Inbound → State × Option Failure
  pub connect_here : State → Inbound → State × Option Failure
  pub delivers : Reply → Bool

unfoldable pub find_command : Bytes → List Command → Option Command
find_command name [] = none
find_command name (c ∷ cs) =
    let rest = find_command name cs in if bytes_eq c.name name then some c else rest

-- OrgForSpace
abbrev pub org_for_space : State → Bytes → Bytes → Option Org
org_for_space t channel space =
    if not (is_valid channel) || is_empty space then none else t.spaces channel space

abbrev pub stop : State → Option Failure → Outcome
stop t failed = record { state = t; actions = []; failed = failed }

-- request.reply
abbrev pub reply : Service → State → Reply → Outcome
reply s t r = record {
  state = t;
  actions = replied r ∷ [];
  failed = if s.delivers r then none else some reply_failed;
}

abbrev pub did : Action → State × Option Failure → Outcome
did a result = record { state = result.0; actions = a ∷ []; failed = result.1 }

-- The replies to a command that failed; the error of one that is not the deployment's is kept.
abbrev pub answer_failure : Service → Action → State → Failure → Outcome
answer_failure s a t api_read_only = record {
  state = t;
  actions = a ∷ replied read_only ∷ [];
  failed = if s.delivers read_only then none else some reply_failed;
}
answer_failure s a t e = record {
  state = t;
  actions = a ∷ replied command_failed ∷ [];
  failed = some e;
}

unfoldable pub run_command : Service → State → Inbound → Member → Role → Command → Outcome
run_command s t m member role c =
    if not (at_least role c.min_role)
    then reply s t (needs_role c.min_role)
    else elim (c.run t m member).1 [
      | none ↦ did (ran c.name role) (c.run t m member)
      | some e ↦ answer_failure s (ran c.name role) (c.run t m member).0 e
    ]

-- /start means /help.
abbrev pub command_named : Bytes → Bytes
command_named name = if bytes_eq name (codes "start") then codes "help" else name

-- Handle, once the member and the role are known.
unfoldable pub dispatch : Service → State → Org → Inbound → Member → Role → Outcome
dispatch s t org m member role =
    if not org.is_active
    then reply s t suspended
    else if is_empty m.command
    then did (sent role) (s.handle_send t m member)
    else elim (find_command (command_named m.command) s.commands) [
      | none ↦ reply s t unknown_command
      | some c ↦ run_command s t m member role c
    ]

-- claimDelivery
abbrev pub claim_delivery : State → Inbound → State × Result Messages.Error Bool
claim_delivery t m =
    let claimed = claim_message t.processed m.dedupe_id in
    (record t { processed = claimed.0 }, claimed.1)

-- Handle behind the claim, in a space that an org has.
unfoldable pub handle_claimed : Service → State → Org → Inbound → Outcome
handle_claimed s t org m = elim (ensure_member t.directory org.id m.channel m.user_id m.handle) [
  | err e ↦ stop t (some (of_members e))
  | ok found ↦
      dispatch s (record t { directory = found.1 }) org m found.0
        (effective_role found.1 org.id found.0.id m.channel m.roles)
]

abbrev pub has_command : Bytes → List Command → Bool
has_command name cs = elim (find_command name cs) [ none ↦ false | some c ↦ true ]

-- What handleUnregistered answers at all.
abbrev pub is_addressed : Service → Inbound → Bool
is_addressed s m =
    bytes_eq m.command (codes "setup")
    || bytes_eq m.command (codes "connect")
    || m.is_dm
    || bytes_eq m.command (codes "start")
    || (not (is_empty m.command) && has_command m.command s.commands)

unfoldable pub answer_unregistered : Service → State → Inbound → Outcome
answer_unregistered s t m =
    if bytes_eq m.command (codes "connect")
    then did connected (s.connect_here t m)
    else if bytes_eq m.command (codes "setup")
    then did set_up (s.run_setup t m)
    else if m.is_dm
    then reply s t introduction
    else reply s t not_set_up

-- What follows a claim: nothing for a delivery that somebody else has claimed.
abbrev pub after_claim : State × Result Messages.Error Bool → (State → Outcome) → Outcome
after_claim claim rest = elim claim.1 [
  | err e ↦ stop claim.0 (some (of_messages e))
  | ok won ↦ if won then rest claim.0 else stop claim.0 none
]

-- handleUnregistered
unfoldable pub handle_unregistered : Service → State → Inbound → Outcome
handle_unregistered s t m =
    if is_addressed s m
    then after_claim (claim_delivery t m) (λ u. answer_unregistered s u m)
    else stop t none

-- Handle
unfoldable pub handle : Service → State → Inbound → Outcome
handle s t m =
    if is_empty m.dedupe_id
    then stop t (some no_dedupe_id)
    else elim (org_for_space t m.conversation_channel m.space_id) [
      | none ↦ handle_unregistered s t m
      | some org ↦ after_claim (claim_delivery t m) (λ u. handle_claimed s u org m)
    ]
