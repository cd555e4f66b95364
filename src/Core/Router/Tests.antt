-- ===== src/Core/Router/Tests.antt =====
-- A space with one member, who asks for help and for what only an admin may do.
use stelfin.Prelude.{[], ◌∷◌, true, false, ◌≡◌, refl, Option, none, some, All}
use stelfin.Text.{Bytes, codes}
use stelfin.Chat.{role_none, role_proposer}
use stelfin.Store.Members.{Member, Directory}
use stelfin.Core.Router.{
  Inbound, Org, State, Service, Command, Failure, Outcome, Action, Reply, ran, replied, needs_role,
  handle, stop,
}
use stelfin.Core.Router.Gate.{Fresh, Permitted, handle-Permitted, handle-again}

abbrev does_nothing : State → Inbound → Member → State × Option Failure
does_nothing t m member = (t, none)

abbrev service : Service
service = record {
  commands =
      record { name = codes "help"; min_role = role_none; run = does_nothing }
      ∷ record { name = codes "send"; min_role = role_proposer; run = does_nothing }
      ∷ [];
  handle_send = does_nothing;
  run_setup = λ t m. (t, none);
  connect_here = λ t m. (t, none);
  delivers = λ r. true;
}

abbrev tables : State
tables = record {
  spaces = λ channel space. some (record { id = 1; is_active = true });
  directory = record {
    orgs = 1 ∷ [];
    members = [];
    identities = [];
    roles = [];
    bindings = [];
    next_member = 1;
    next_identity = 1;
  };
  processed = [];
}

abbrev asks : Bytes → Inbound
asks command = record {
  dedupe_id = codes "d1";
  channel = codes "telegram";
  user_id = codes "77";
  handle = codes "ada";
  roles = [];
  conversation_channel = codes "telegram";
  space_id = codes "-100";
  is_dm = false;
  command = command;
}

start_helps :
    (handle service tables (asks (codes "start"))).actions ≡ ran (codes "help") role_none ∷ []
unfolding handle stelfin.Ledger.Messages.claim_message stelfin.Core.Router.handle_claimed
    stelfin.Store.Members.ensure_member stelfin.Store.Members.member_by_identity
    stelfin.Store.Members.find_identity stelfin.Store.Members.create_member
    stelfin.Store.Members.find_member stelfin.Core.Router.dispatch stelfin.Core.Router.find_command
    stelfin.Core.Router.run_command stelfin.Store.Members.Roles.effective_role
    stelfin.Store.Members.Roles.granted stelfin.Store.Members.Roles.conferred
start_helps = refl

send_refused :
    (handle service tables (asks (codes "send"))).actions ≡ replied (needs_role role_proposer) ∷ []
unfolding handle stelfin.Ledger.Messages.claim_message stelfin.Core.Router.handle_claimed
    stelfin.Store.Members.ensure_member stelfin.Store.Members.member_by_identity
    stelfin.Store.Members.find_identity stelfin.Store.Members.create_member
    stelfin.Store.Members.find_member stelfin.Core.Router.dispatch stelfin.Core.Router.find_command
    stelfin.Core.Router.run_command stelfin.Store.Members.Roles.effective_role
    stelfin.Store.Members.Roles.granted stelfin.Store.Members.Roles.conferred
send_refused = refl

handle-Permitted_example :
    All
      (λ a. Fresh tables (asks (codes "start")) × Permitted service tables (asks (codes "start")) a)
      (handle service tables (asks (codes "start"))).actions
handle-Permitted_example = handle-Permitted service tables (asks (codes "start"))

abbrev later : State
later = record tables { processed = codes "d1" ∷ [] }

handle-again_example : handle service later (asks (codes "start")) ≡ stop later none
handle-again_example = handle-again service later (asks (codes "start")) (λ e. cc) refl
