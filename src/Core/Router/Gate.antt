-- ===== src/Core/Router/Gate.antt =====
-- What a message may set off.
use stelfin.Prelude.{
  [], ◌∷◌, true, false, ok, none, some, ◌≡◌, ◌≢◌, inl, inr, refl, arith, Bool-cases, Option-cases,
  Result-cases, All, All-weaken, any, subst,
}
use stelfin.Text.Equality.{is_empty_sound}
use stelfin.Text.{Bytes, is_empty, bytes_eq}
use stelfin.Chat.{Role, at_least}
use stelfin.Ledger.Messages.{claim_message}
use stelfin.Store.Members.{Directory, Member, ensure_member}
use stelfin.Store.Members.Roles.{effective_role}
use stelfin.Core.Router.{
  Inbound, Org, State, Service, Command, Action, Outcome, Failure, replied, ran, sent, set_up,
  connected, handle, handle_claimed, handle_unregistered, answer_unregistered, dispatch,
  run_command, find_command, command_named, org_for_space, stop, claim_delivery, after_claim,
  answer_failure, api_read_only, is_addressed, no_dedupe_id, reply_failed, handler_failed,
  of_messages, of_members,
}

-- The delivery was not claimed before.
abbrev pub Fresh : State → Inbound → Type 0
Fresh t m = any (bytes_eq m.dedupe_id) t.processed ≡ false

-- The role is the effective one of whoever sent the message, in the org that has the space.
pub record Spoke (t : State) (m : Inbound) (role : Role) : Type 0 where
  pub org : Org
  pub member : Member
  pub directory : Directory
  pub registered : org_for_space t m.conversation_channel m.space_id ≡ some org
  pub active : org.is_active ≡ true
  pub known : ensure_member t.directory org.id m.channel m.user_id m.handle ≡ ok (member, directory)
  pub effective : role ≡ effective_role directory org.id member.id m.channel m.roles

-- The command is the one that the message names, and the role is enough for it.
pub record Entitled (s : Service) (m : Inbound) (name : Bytes) (role : Role) : Type 0 where
  pub command : Command
  pub named : find_command (command_named m.command) s.commands ≡ some command
  pub same : command.name ≡ name
  pub enough : at_least role command.min_role ≡ true

abbrev pub Permitted : Service → State → Inbound → Action → Type 0
Permitted s t m (replied r) = Unit
Permitted s t m (ran name role) = Spoke t m role × Entitled s m name role
Permitted s t m (sent role) = Spoke t m role × (m.command ≡ [])
Permitted s t m set_up = org_for_space t m.conversation_channel m.space_id ≡ none
Permitted s t m connected = org_for_space t m.conversation_channel m.space_id ≡ none

answer_failure-Permitted :
    (s : Service) (t u : State) (m : Inbound) (a : Action) (e : Failure)
    → Permitted s t m a
    → All (Permitted s t m) (answer_failure s a u e).actions
answer_failure-Permitted s t u m a no_dedupe_id h = (h, (tt, tt))
answer_failure-Permitted s t u m a reply_failed h = (h, (tt, tt))
answer_failure-Permitted s t u m a api_read_only h = (h, (tt, tt))
answer_failure-Permitted s t u m a handler_failed h = (h, (tt, tt))
answer_failure-Permitted s t u m a (of_messages e) h = (h, (tt, tt))
answer_failure-Permitted s t u m a (of_members e) h = (h, (tt, tt))

run_command-Permitted :
    (s : Service) (t u : State) (m : Inbound) (member : Member) (role : Role) (c : Command)
    → Spoke t m role
    → find_command (command_named m.command) s.commands ≡ some c
    → All (Permitted s t m) (run_command s u m member role c).actions
unfolding run_command
run_command-Permitted s t u m member role c spoke named =
    elim (Bool-cases (at_least role c.min_role)) [
      | inr e ↦ rw e (tt, tt)
      | inl e ↦
          let entitled : Entitled s m c.name role = record {
            command = c;
            named = named;
            same = refl;
            enough = e;
          } in
          elim (Option-cases (c.run u m member).1) [
            | inl f ↦ rw (e, f) ((spoke, entitled), tt)
            | inr (failure, f) ↦
                rw (e, f)
                  (answer_failure-Permitted s t (c.run u m member).0 m (ran c.name role) failure
                    (spoke, entitled))
          ]
    ]

dispatch-Permitted :
    (s : Service) (t u : State) (m : Inbound) (org : Org) (member : Member) (role : Role)
    → (org.is_active ≡ true → Spoke t m role)
    → All (Permitted s t m) (dispatch s u org m member role).actions
unfolding dispatch
dispatch-Permitted s t u m org member role active = elim (Bool-cases org.is_active) [
  | inr off ↦ rw (dispatch, off) (tt, tt)
  | inl on ↦ elim (Bool-cases (is_empty m.command)) [
    | inl free ↦ rw (dispatch, on, free) ((active on, is_empty_sound m.command free), tt)
    | inr named ↦ elim (Option-cases (find_command (command_named m.command) s.commands)) [
      | inl g ↦ rw (dispatch, on, named, g) (tt, tt)
      | inr (c, g) ↦
          rw (dispatch, on, named, g) (run_command-Permitted s t u m member role c (active on) g)
    ]
  ]
]

handle_claimed-Permitted :
    (s : Service) (t u : State) (m : Inbound) (org : Org)
    → u.directory ≡ t.directory
    → org_for_space t m.conversation_channel m.space_id ≡ some org
    → All (Permitted s t m) (handle_claimed s u org m).actions
unfolding handle_claimed
handle_claimed-Permitted s t u m org same registered =
    elim (Result-cases (ensure_member u.directory org.id m.channel m.user_id m.handle)) [
      | inr (e, f) ↦ rw (handle_claimed, f) tt
      | inl ((member, d), f) ↦
          let role = effective_role d org.id member.id m.channel m.roles in
          let known : ensure_member t.directory org.id m.channel m.user_id m.handle
              ≡ ok (member, d) =
            subst (λ x. ensure_member x org.id m.channel m.user_id m.handle ≡ ok (member, d)) same
              f in
          rw (handle_claimed, f)
            (dispatch-Permitted s t (record u { directory = d }) m org member role
              (λ on. record {
                org = org;
                member = member;
                directory = d;
                registered = registered;
                active = on;
                known = known;
                effective = refl;
              }))
    ]

answer_unregistered-Permitted :
    (s : Service) (t u : State) (m : Inbound)
    → org_for_space t m.conversation_channel m.space_id ≡ none
    → All (Permitted s t m) (answer_unregistered s u m).actions
unfolding answer_unregistered
answer_unregistered-Permitted s t u m h = ground arith

-- A claim passes on a fresh delivery, with the tables otherwise as they were, and nothing else.
after_claim-Fresh :
    (t : State) (m : Inbound) (rest : State → Outcome) (P : Action → Type 0)
    → ((u : State) → u.directory ≡ t.directory → All P (rest u).actions)
    → All (λ a. Fresh t m × P a) (after_claim (claim_delivery t m) rest).actions
unfolding claim_message
after_claim-Fresh t m rest P h = elim (Bool-cases (is_empty m.dedupe_id)) [
  | inl e ↦ rw e tt
  | inr e ↦ elim (Bool-cases (any (bytes_eq m.dedupe_id) t.processed)) [
    | inl f ↦ rw (e, f) tt
    | inr f ↦
        rw (e, f)
          (All-weaken (rest (record t { processed = m.dedupe_id ∷ t.processed })).actions
            (λ a p. (refl, p)) (h (record t { processed = m.dedupe_id ∷ t.processed }) refl))
  ]
]

-- Whatever a message sets off, its delivery was not claimed before. A command runs only if the space
-- has an org that is active, the message names the command, and the effective role of its sender in
-- that org is at least the command's; free text is handled for an active org only, and setup and
-- connect run only in a space without one.
pub handle-Permitted :
    (s : Service) (t : State) (m : Inbound)
    → All (λ a. Fresh t m × Permitted s t m a) (handle s t m).actions
unfolding handle handle_unregistered
handle-Permitted s t m = elim (Bool-cases (is_empty m.dedupe_id)) [
  | inl e ↦ rw (handle, e) tt
  | inr e ↦ elim (Option-cases (org_for_space t m.conversation_channel m.space_id)) [
    | inr (org, f) ↦
        rw (handle, e, f)
          (after_claim-Fresh t m (λ u. handle_claimed s u org m) (Permitted s t m)
            (λ u same. handle_claimed-Permitted s t u m org same f))
    | inl f ↦ elim (Bool-cases (is_addressed s m)) [
      | inr g ↦ rw (handle, e, f, handle_unregistered, g) tt
      | inl g ↦
          rw (handle, e, f, handle_unregistered, g)
            (after_claim-Fresh t m (λ u. answer_unregistered s u m) (Permitted s t m)
              (λ u same. answer_unregistered-Permitted s t u m f))
    ]
  ]
]

after_claim-again :
    (t : State) (m : Inbound) (rest : State → Outcome)
    → is_empty m.dedupe_id ≡ false
    → any (bytes_eq m.dedupe_id) t.processed ≡ true
    → after_claim (claim_delivery t m) rest ≡ stop t none
unfolding claim_message
after_claim-again t m rest e claimed = rw (e, claimed) refl

-- A delivery that was claimed before is passed over in silence: no reply, no error, and the tables
-- stay as they are.
pub handle-again :
    (s : Service) (t : State) (m : Inbound)
    → m.dedupe_id ≢ []
    → any (bytes_eq m.dedupe_id) t.processed ≡ true
    → handle s t m ≡ stop t none
unfolding handle handle_unregistered
handle-again s t m named claimed = elim (Bool-cases (is_empty m.dedupe_id)) [
  | inl e ↦ absurd (named (is_empty_sound m.dedupe_id e))
  | inr e ↦ elim (Option-cases (org_for_space t m.conversation_channel m.space_id)) [
    | inr (org, f) ↦
        rw (handle, e, f) (after_claim-again t m (λ u. handle_claimed s u org m) e claimed)
    | inl f ↦ elim (Bool-cases (is_addressed s m)) [
      | inr g ↦ rw (handle, e, f, handle_unregistered, g) refl
      | inl g ↦
          rw (handle, e, f, handle_unregistered, g)
            (after_claim-again t m (λ u. answer_unregistered s u m) e claimed)
    ]
  ]
]
