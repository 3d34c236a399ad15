-- ===== src/Core/Audit.antt =====
-- core/audit.py: the causal chain from an event to the result of an effect.
pub mod Trace
use digital_colleagues.Base.{
  ℕ, zero, suc, ◌+◌, ◌-◌, ◌*◌, ◌/◌, ◌%◌, ◌≤◌, ◌<◌, ◌≡◌, refl, sym, ap, ◌∙◌, ◌≢◌, ◌↔◌, ◌⊎◌, inl, inr,
  Bool, true, false, not, ◌&&◌, ◌||◌, Option, none, some, List, [], ◌∷◌, ◌++◌, map, String, arith,
  Eq, ◌==◌, nat_eq, string_eq, option_eq, list_eq, List-discrete, Option-discrete, String-discrete,
  ℕ_discrete, ltb, leb, if◌then◌else◌, Bool-cases, Error, Result, ok, err, ◌>>=◌, ◌>>◌, require,
  core_invariant, namespace_mismatch, revision_mismatch, authorization, replay, lifecycle,
  >>=-ok_parts,
}
use digital_colleagues.Core.Namespace.{Namespace, require_exact, namespace_eq}
use digital_colleagues.Core.Runtime.{InputEvent, WakeCycle}
use digital_colleagues.Core.Runtime.Agenda.{AgendaItem, Decision}
use digital_colleagues.Core.Runtime.Chain.{validate_event_wake_agenda_chain}
use digital_colleagues.Core.Effects.{EffectProposal}
use digital_colleagues.Core.Effects.Approval.{HumanApprovalDecision}
use digital_colleagues.Core.Effects.Attempt.{EffectAttempt, ActionResult}

-- The arguments of `validate_causal_audit_chain`.
pub record AuditChain : Type 0 where
  pub event : InputEvent
  pub wake_cycle : WakeCycle
  pub agenda_item : AgendaItem
  pub decision : Decision
  pub proposal : EffectProposal
  pub approval : HumanApprovalDecision
  pub attempt : EffectAttempt
  pub result : ActionResult

-- One round of the loop over the records.
abbrev pub check_record : InputEvent → Namespace → String → Result (Unit {0})
check_record event namespace correlation_id = do
  require_exact event.namespace namespace
  require (correlation_id == event.correlation_id) core_invariant

-- `validate_causal_audit_chain`
unfoldable pub validate_causal_audit_chain : AuditChain → Result (Unit {0})
unfolding validate_event_wake_agenda_chain
validate_causal_audit_chain c = do
  validate_event_wake_agenda_chain c.event c.wake_cycle c.agenda_item
  check_record c.event c.wake_cycle.namespace c.wake_cycle.correlation_id
  check_record c.event c.agenda_item.namespace c.agenda_item.correlation_id
  check_record c.event c.decision.namespace c.decision.correlation_id
  check_record c.event c.proposal.namespace c.proposal.correlation_id
  check_record c.event c.approval.namespace c.approval.correlation_id
  check_record c.event c.attempt.namespace c.attempt.correlation_id
  check_record c.event c.result.namespace c.result.correlation_id
  require (c.decision.wake_cycle_id == c.wake_cycle.wake_cycle_id) core_invariant
  require (c.decision.agenda_item_id == c.agenda_item.agenda_item_id) core_invariant
  require (c.proposal.decision_id == c.decision.decision_id) core_invariant
  require (c.decision.proposed_effect_id == some c.proposal.proposal_id) core_invariant
  require (c.approval.proposal_id == c.proposal.proposal_id) core_invariant
  require (c.approval.proposal_revision == c.proposal.revision) core_invariant
  require (c.approval.proposal_payload_digest == c.proposal.payload_digest) core_invariant
  require (c.approval.proposal_digest == c.proposal.proposal_digest) core_invariant
  require (c.attempt.proposal_id == c.proposal.proposal_id) core_invariant
  require (c.attempt.proposal_revision == c.proposal.revision) core_invariant
  require (c.attempt.approval_decision_id == c.approval.approval_decision_id) core_invariant
  require (c.result.effect_attempt_id == c.attempt.effect_attempt_id) core_invariant
