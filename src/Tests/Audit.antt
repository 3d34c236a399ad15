-- ===== src/Tests/Audit.antt =====
-- A causal chain at concrete inputs.
use digital_colleagues.Base.{
  ◌≡◌, refl, none, some, [], ◌∷◌, nat_eq, string_eq, option_eq, list_eq, ok,
}
use digital_colleagues.Core.Common.Json.{empty}
use digital_colleagues.Core.Runtime.{
  InputEvent, WakeCycle, accepted, completed, construct_event, construct_wake,
  validate_causal_record, validate_policy_binding,
}
use digital_colleagues.Core.Runtime.Agenda
use digital_colleagues.Core.Runtime.Agenda.{
  AgendaItem, Decision, construct_agenda, construct_decision, propose_effect,
}
use digital_colleagues.Core.Runtime.Chain.{validate_event_wake_agenda_chain}
use digital_colleagues.Core.Effects.Attempt
use digital_colleagues.Core.Effects.Attempt.{
  EffectAttempt, ActionResult, construct_attempt, construct_result,
}
use digital_colleagues.Core.Audit.{AuditChain, validate_causal_audit_chain}
use digital_colleagues.Core.Audit.Trace.{IsConstructed, IsTraced, IsUniform, audit_chain-IsTraced}
use digital_colleagues.Tests.Samples.{running, at, office, boss}
use digital_colleagues.Tests.Effects.{
  zeros, same_digest, raw_proposal, proposal, proposal_constructed, approval, approval_constructed,
}

abbrev pub event : InputEvent
event = record {
  namespace = office;
  event_id = "event";
  event_type = "message";
  state = accepted;
  safe_projection = record { as_entries = empty };
  payload_digest = zeros;
  actor = boss;
  correlation_id = "c-1";
  causation_id = none;
  occurred_at = at 1;
  revision = 1;
  schema_version = 1;
  policy_id = none;
  policy_revision = none;
}

event_constructed : construct_event event ≡ ok event
unfolding construct_event validate_causal_record validate_policy_binding running
event_constructed = refl

abbrev pub wake : WakeCycle
wake = record {
  namespace = office;
  wake_cycle_id = "wake";
  state = completed;
  trigger_event_ids = "event" ∷ [];
  agenda_item_ids = "item" ∷ [];
  actor = boss;
  correlation_id = "c-1";
  causation_id = some "event";
  occurred_at = at 2;
  revision = 1;
  schema_version = 1;
  fencing_token = 1;
  checkpoint_generation = 1;
  trigger_timer_occurrence_ids = [];
  policy_id = none;
  policy_revision = none;
}

wake_constructed : construct_wake wake ≡ ok wake
unfolding construct_wake validate_causal_record validate_policy_binding running
wake_constructed = refl

abbrev pub raw_item : AgendaItem
raw_item = record {
  namespace = office;
  agenda_item_id = "item";
  wake_cycle_id = "wake";
  source_event_id = some "event";
  work_id = none;
  title = "Answer";
  state = Agenda.completed;
  priority = 5;
  due_at = none;
  actor = boss;
  correlation_id = "c-1";
  causation_id = "wake";
  occurred_at = at 3;
  revision = 1;
  schema_version = 1;
  generation = 1;
  handled_generation = 0;
  cause_ids = [];
  source_timer_occurrence_id = none;
  policy_id = none;
  policy_revision = none;
}

abbrev pub agenda : AgendaItem
agenda = record raw_item { cause_ids = "event" ∷ [] }

agenda_constructed : construct_agenda raw_item ≡ ok agenda
unfolding construct_agenda validate_causal_record validate_policy_binding running
agenda_constructed = refl

abbrev pub decided : Decision
decided = record {
  namespace = office;
  decision_id = "decision";
  wake_cycle_id = "wake";
  agenda_item_id = "item";
  kind = propose_effect;
  rationale = "An answer is due";
  proposed_effect_id = some "proposal";
  actor = boss;
  correlation_id = "c-1";
  causation_id = "item";
  occurred_at = at 4;
  revision = 1;
  schema_version = 1;
  policy_id = none;
  policy_revision = none;
}

decided_constructed : construct_decision decided ≡ ok decided
unfolding construct_decision validate_causal_record validate_policy_binding running
decided_constructed = refl

abbrev attempt : EffectAttempt
attempt = record {
  namespace = office;
  effect_attempt_id = "attempt";
  proposal_id = "proposal";
  proposal_revision = 1;
  approval_decision_id = "approval";
  attempt_number = 1;
  state = Attempt.started;
  actor = boss;
  correlation_id = "c-1";
  causation_id = "approval";
  occurred_at = at 40;
  revision = 1;
  schema_version = 1;
}

attempt_constructed : construct_attempt attempt ≡ ok attempt
unfolding construct_attempt validate_causal_record running
attempt_constructed = refl

abbrev outcome : ActionResult
outcome = record {
  namespace = office;
  action_result_id = "result";
  effect_attempt_id = "attempt";
  state = Attempt.not_executed;
  safe_projection = record { as_entries = empty };
  result_digest = zeros;
  actor = boss;
  correlation_id = "c-1";
  causation_id = "attempt";
  occurred_at = at 50;
  revision = 1;
  schema_version = 1;
}

outcome_constructed : construct_result outcome ≡ ok outcome
unfolding construct_result validate_causal_record running
outcome_constructed = refl

abbrev chain : AuditChain
chain = record {
  event = event;
  wake_cycle = wake;
  agenda_item = agenda;
  decision = decided;
  proposal = proposal;
  approval = approval;
  attempt = attempt;
  result = outcome;
}

chain-IsConstructed : IsConstructed same_digest chain
chain-IsConstructed = record {
  raw_item = raw_item;
  item = agenda_constructed;
  raw_decision = decided;
  decision = decided_constructed;
  raw_proposal = raw_proposal;
  proposal = proposal_constructed;
  raw_approval = approval;
  approval = approval_constructed;
  raw_attempt = attempt;
  attempt = attempt_constructed;
  raw_result = outcome;
  result = outcome_constructed;
}

chain_passes : validate_causal_audit_chain chain ≡ ok tt
unfolding validate_causal_audit_chain validate_event_wake_agenda_chain running
chain_passes = refl

audit_chain-IsTraced_example : IsTraced chain × IsUniform chain
audit_chain-IsTraced_example =
    audit_chain-IsTraced same_digest chain chain-IsConstructed chain_passes
