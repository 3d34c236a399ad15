-- ===== src/Core/Audit/Trace.antt =====
-- What a causal chain that passes says of its records.
use digital_colleagues.Base.{
  ◌≡◌, ◌∙◌, true, some, List, String, arith, nat_eq, string_eq, option_eq, list_eq, ok,
}
use digital_colleagues.Base.Lists.{elem}
use digital_colleagues.Core.Common.Json.{Value}
use digital_colleagues.Core.Runtime.Agenda.{
  AgendaItem, Decision, construct_agenda, construct_decision, freeze_causes,
}
use digital_colleagues.Core.Runtime.Chain.{validate_event_wake_agenda_chain}
use digital_colleagues.Core.Effects.{EffectProposal}
use digital_colleagues.Core.Effects.Approval.{HumanApprovalDecision}
use digital_colleagues.Core.Effects.Attempt.{
  EffectAttempt, ActionResult, construct_attempt, construct_result,
}
use digital_colleagues.Core.Effects.Envelope
use digital_colleagues.Core.Effects.Approval
use digital_colleagues.Core.Audit.{AuditChain, validate_causal_audit_chain}

-- Each record of the chain was returned by its constructor.
pub record IsConstructed (canonical_digest : Value → String) (c : AuditChain) : Type 0 where
  pub raw_item : AgendaItem
  pub item : construct_agenda raw_item ≡ ok c.agenda_item
  pub raw_decision : Decision
  pub decision : construct_decision raw_decision ≡ ok c.decision
  pub raw_proposal : EffectProposal
  pub proposal : Envelope.construct canonical_digest raw_proposal ≡ ok c.proposal
  pub raw_approval : HumanApprovalDecision
  pub approval : Approval.construct raw_approval ≡ ok c.approval
  pub raw_attempt : EffectAttempt
  pub attempt : construct_attempt raw_attempt ≡ ok c.attempt
  pub raw_result : ActionResult
  pub result : construct_result raw_result ≡ ok c.result

-- Every record names the one before it as its cause, back to the event.
pub record IsTraced (c : AuditChain) : Type 0 where
  pub result : c.result.causation_id ≡ c.attempt.effect_attempt_id
  pub attempt : c.attempt.causation_id ≡ c.approval.approval_decision_id
  pub approval : c.approval.causation_id ≡ c.proposal.proposal_id
  pub proposal : c.proposal.causation_id ≡ c.decision.decision_id
  pub decision : c.decision.causation_id ≡ c.agenda_item.agenda_item_id
  pub item : c.agenda_item.causation_id ≡ c.wake_cycle.wake_cycle_id
  pub wake : c.wake_cycle.causation_id ≡ some c.event.event_id
  pub retained : elem c.event.event_id c.agenda_item.cause_ids ≡ true

-- Every record is of the namespace, and has the correlation, of the event.
pub record IsUniform (c : AuditChain) : Type 0 where
  pub wake : c.wake_cycle.namespace ≡ c.event.namespace
  pub item : c.agenda_item.namespace ≡ c.event.namespace
  pub decision : c.decision.namespace ≡ c.event.namespace
  pub proposal : c.proposal.namespace ≡ c.event.namespace
  pub approval : c.approval.namespace ≡ c.event.namespace
  pub attempt : c.attempt.namespace ≡ c.event.namespace
  pub result : c.result.namespace ≡ c.event.namespace
  pub wake_correlated : c.wake_cycle.correlation_id ≡ c.event.correlation_id
  pub item_correlated : c.agenda_item.correlation_id ≡ c.event.correlation_id
  pub decision_correlated : c.decision.correlation_id ≡ c.event.correlation_id
  pub proposal_correlated : c.proposal.correlation_id ≡ c.event.correlation_id
  pub approval_correlated : c.approval.correlation_id ≡ c.event.correlation_id
  pub attempt_correlated : c.attempt.correlation_id ≡ c.event.correlation_id
  pub result_correlated : c.result.correlation_id ≡ c.event.correlation_id

-- The links that the validation compares.
record Links (c : AuditChain) : Type 0 where
  result : c.result.effect_attempt_id ≡ c.attempt.effect_attempt_id
  attempt : c.attempt.approval_decision_id ≡ c.approval.approval_decision_id
  approval : c.approval.proposal_id ≡ c.proposal.proposal_id
  proposal : c.proposal.decision_id ≡ c.decision.decision_id
  decision : c.decision.agenda_item_id ≡ c.agenda_item.agenda_item_id
  item : c.agenda_item.wake_cycle_id ≡ c.wake_cycle.wake_cycle_id
  wake : c.wake_cycle.causation_id ≡ some c.event.event_id
  source : c.agenda_item.source_event_id ≡ some c.event.event_id

module _ (c : AuditChain) where
  Links-of_ok : validate_causal_audit_chain c ≡ ok tt → Links c
  unfolding validate_causal_audit_chain validate_event_wake_agenda_chain
  Links-of_ok h = record {
    result = ground arith;
    attempt = ground arith;
    approval = ground arith;
    proposal = ground arith;
    decision = ground arith;
    item = ground arith;
    wake = ground arith;
    source = ground arith;
  }

  IsUniform-of_ok : validate_causal_audit_chain c ≡ ok tt → IsUniform c
  unfolding validate_causal_audit_chain validate_event_wake_agenda_chain
  IsUniform-of_ok h = record {
    wake = ground arith;
    item = ground arith;
    decision = ground arith;
    proposal = ground arith;
    approval = ground arith;
    attempt = ground arith;
    result = ground arith;
    wake_correlated = ground arith;
    item_correlated = ground arith;
    decision_correlated = ground arith;
    proposal_correlated = ground arith;
    approval_correlated = ground arith;
    attempt_correlated = ground arith;
    result_correlated = ground arith;
  }

result_cause :
    (raw self : ActionResult)
    → construct_result raw ≡ ok self
    → self.causation_id ≡ self.effect_attempt_id
unfolding construct_result
result_cause raw self h = ground arith

attempt_cause :
    (raw self : EffectAttempt)
    → construct_attempt raw ≡ ok self
    → self.causation_id ≡ self.approval_decision_id
unfolding construct_attempt
attempt_cause raw self h = ground arith

approval_cause :
    (raw self : HumanApprovalDecision)
    → Approval.construct raw ≡ ok self
    → self.causation_id ≡ self.proposal_id
unfolding Approval.construct
approval_cause raw self h = ground arith

proposal_cause :
    (canonical_digest : Value → String) (raw self : EffectProposal)
    → Envelope.construct canonical_digest raw ≡ ok self
    → self.causation_id ≡ self.decision_id
unfolding Envelope.construct
proposal_cause canonical_digest raw self h = ground arith

decision_cause :
    (raw self : Decision)
    → construct_decision raw ≡ ok self
    → self.causation_id ≡ self.agenda_item_id
unfolding construct_decision
decision_cause raw self h = ground arith

item_cause :
    (raw self : AgendaItem)
    → construct_agenda raw ≡ ok self
    → self.causation_id ≡ self.wake_cycle_id
unfolding construct_agenda
item_cause raw self h = ground arith

retained_cause :
    (raw self : AgendaItem) (id : String)
    → construct_agenda raw ≡ ok self
    → self.source_event_id ≡ some id
    → elem id self.cause_ids ≡ true
unfolding construct_agenda
retained_cause raw self id h named =
    let causes : freeze_causes raw ≡ ok self.cause_ids = ground arith in
    let source : raw.source_event_id ≡ some id = ground arith in
    kept raw id self.cause_ids source causes
  where
    kept :
        (item : AgendaItem) (id : String) (causes : List String)
        → item.source_event_id ≡ some id
        → freeze_causes item ≡ ok causes
        → elem id causes ≡ true
    kept item id causes source h = ground arith

-- If a chain of constructed records passes, then all of it is of the event's namespace and
-- correlation, and each record names the one before it as its cause, from the result back to the
-- event, which the agenda item also keeps among its causes.
pub audit_chain-IsTraced :
    (canonical_digest : Value → String) (c : AuditChain)
    → IsConstructed canonical_digest c
    → validate_causal_audit_chain c ≡ ok tt
    → IsTraced c × IsUniform c
audit_chain-IsTraced canonical_digest c made h =
    let links = Links-of_ok c h in
    (
      record {
        result = result_cause made.raw_result c.result made.result ∙ links.result;
        attempt = attempt_cause made.raw_attempt c.attempt made.attempt ∙ links.attempt;
        approval = approval_cause made.raw_approval c.approval made.approval ∙ links.approval;
        proposal =
            proposal_cause canonical_digest made.raw_proposal c.proposal made.proposal
            ∙ links.proposal;
        decision = decision_cause made.raw_decision c.decision made.decision ∙ links.decision;
        item = item_cause made.raw_item c.agenda_item made.item ∙ links.item;
        wake = links.wake;
        retained =
            retained_cause made.raw_item c.agenda_item c.event.event_id made.item links.source;
      },
      IsUniform-of_ok c h,
    )
