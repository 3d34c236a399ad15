-- ===== src/Store/Sound/Approvals.antt =====
-- What the statements of a committed approval write.
use digital_colleagues.Base.{
  ℕ, ◌≤◌, ◌≡◌, refl, sym, ap, ◌∙◌, not, some, List, [], arith, ◌==◌, nat_eq, string_eq, option_eq,
  list_eq, leb, Result, ok, require, conflict, permission_denied, >>=-ok_parts, Returns, ok_same,
}
use digital_colleagues.Base.Lists.{any}
use digital_colleagues.Core.Common.{given}
use digital_colleagues.Core.Namespace.{namespace_eq}
use digital_colleagues.Core.Principals.{human, kind_eq, principal_eq}
use digital_colleagues.Core.Effects.{EffectProposal}
use digital_colleagues.Core.Effects.Approval.{HumanApprovalDecision, approve, choice_eq}
use digital_colleagues.Core.Effects.Attempt.{EffectAttempt, construct_attempt}
use digital_colleagues.Governance.Approvals.{
  ApprovalAuthorization, Evaluation, authorize_effect_proposal, authorize_human_approval,
}
use digital_colleagues.Store.Tables.{key_eq, find, insert}
use digital_colleagues.Store.Tables.Keyed.{find-insert_self}
use digital_colleagues.Store.Records.{
  AuditRow, row_key, fetch, get_record, insert_record, datetime_to_z,
}
use digital_colleagues.Store.Records.Laws.{insert_record-insert}
use digital_colleagues.Store.Database.{
  Database, OutboxRow, outbox_key, LedgerRow, ledger_key, approval_columns, proposal_columns,
  principal_key, mandate_key, insert_approval, insert_attempt,
}
use digital_colleagues.Store.Approve.Rows.{
  Approving, proposal_binding, bound_key, decided, effect_row, same_effect, first_attempt,
  first_row,
}
use digital_colleagues.Store.Approve.{
  evaluation_at, principal_namespace, authorization_decision, authorize, keep_decision,
  plan_attempt, approval_ledger_key,
}
use digital_colleagues.Store.Sound.{attempt_key}
use digital_colleagues.Store.Sound.Writes.{
  insert_attempt_same, insert_attempt_ledger, construct_attempt_same,
}

-- What an authorization says of the decision.
pub record Binds (proposal : EffectProposal) (decision : HumanApprovalDecision) : Type 0 where
  pub approves : decision.choice ≡ approve
  pub by_human : decision.author.kind ≡ human
  pub of_proposal : decision.proposal_id ≡ proposal.proposal_id
  pub of_revision : decision.proposal_revision ≡ proposal.revision
  pub of_digest : decision.proposal_digest ≡ proposal.proposal_digest

authorize_human_approval-Binds :
    (proposal : EffectProposal) (decision : HumanApprovalDecision) (e : Evaluation)
    (receipt : ApprovalAuthorization)
    → authorize_human_approval proposal decision e ≡ ok receipt
    → e.caller_supplied_role_ids ≡ []
    → Binds proposal decision
unfolding authorize_human_approval
authorize_human_approval-Binds proposal decision e receipt done plain = record {
  approves = ground arith;
  by_human = ground (arith, plain);
  of_proposal = ground arith;
  of_revision = ground arith;
  of_digest = ground arith;
}

pub authorize_parts :
    (self : Approving) (db : Database) (proposal : EffectProposal)
    → authorize self db ≡ ok proposal
    → (get_record proposal_columns self.namespace self.decision.proposal_id db.proposals
        ≡ ok proposal)
      × (self.decision.choice ≡ approve → Binds proposal self.decision)
unfolding authorize
authorize_parts self db proposal done =
    let r1 : Returns
        (get_record proposal_columns self.namespace self.decision.proposal_id db.proposals) _
        proposal =
      >>=-ok_parts _ _ done in
    let r2 : Returns (fetch mandate_key self.namespace self.mandate_id db.mandates) _ proposal =
      >>=-ok_parts _ _ r1.2 in
    let r3 : Returns
        (principal_namespace self.namespace.tenant_id self.decision.author.principal_id) _
        proposal =
      >>=-ok_parts _ _ r2.2 in
    let r4 : Returns (fetch principal_key r3.0 self.decision.author.principal_id db.principals) _
        proposal =
      >>=-ok_parts _ _ r3.2 in
    let r5 : Returns (require (r4.0 == self.decision.author) permission_denied) _ proposal =
      >>=-ok_parts _ _ r4.2 in
    let r6 : Returns (require (r1.0.mandate_id == some r2.0.mandate_id) permission_denied) _
        proposal =
      >>=-ok_parts _ _ r5.2 in
    let r7 : Returns (require (r1.0.mandate_revision == some r2.0.revision) permission_denied) _
        proposal =
      >>=-ok_parts _ _ r6.2 in
    let r8 : Returns (authorize_effect_proposal r1.0 r2.0 self.expected_mandate_revision) _
        proposal =
      >>=-ok_parts _ _ r7.2 in
    let r9 : Returns (authorization_decision self.decision) _ proposal = >>=-ok_parts _ _ r8.2 in
    let r10 : Returns (authorize_human_approval r1.0 r9.0 (evaluation_at self.occurred_at)) _
        proposal =
      >>=-ok_parts _ _ r9.2 in
    let same : r1.0 ≡ proposal = ok_same r1.0 proposal r10.2 in
    (
      rw (sym same) r1.1,
      λ approves.
          let decision : r9.0 ≡ self.decision = ground (arith, r9.1, approves) in
          rw (sym same, sym decision)
            (authorize_human_approval-Binds r1.0 r9.0 (evaluation_at self.occurred_at) r10.0 r10.1
              refl),
    )

insert_approval_parts :
    (self : HumanApprovalDecision) (db after : Database)
    → insert_approval self db ≡ ok after
    → (result : List HumanApprovalDecision × List AuditRow) × (insert_record approval_columns self
          db.approvals db.audit
        ≡ ok result)
      × (ok (record db { approvals = result.0; audit = result.1 }) ≡ ok after)
unfolding insert_approval
insert_approval_parts self db after done = >>=-ok_parts _ _ done

insert_approval_same :
    (self : HumanApprovalDecision) (db after : Database)
    → insert_approval self db ≡ ok after
    → (after.outbox ≡ db.outbox)
      × (after.attempts ≡ db.attempts)
      × (after.proposals ≡ db.proposals)
      × (insert (row_key approval_columns) self db.approvals ≡ ok after.approvals)
insert_approval_same self db after done =
    let (result, inserted, last) = insert_approval_parts self db after done in
    rw (sym (ok_same (record db { approvals = result.0; audit = result.1 }) after last)) (
      refl,
      refl,
      refl,
      insert_record-insert approval_columns self db.approvals db.audit result inserted,
    )

-- The decision is inserted, and no other record.
pub record IsDecided (self : Approving) (db after : Database) : Type 0 where
  pub same_outbox : after.outbox ≡ db.outbox
  pub same_attempts : after.attempts ≡ db.attempts
  pub same_proposals : after.proposals ≡ db.proposals
  pub inserted : insert (row_key approval_columns) self.decision db.approvals ≡ ok after.approvals
  pub at : ℕ
  pub recorded :
      find ledger_key (approval_ledger_key self) after.approval_ledger
      ≡ some (decided self at self.decision.idempotency_key)

pub keep_decision-IsDecided :
    (self : Approving) (proposal : EffectProposal) (db after : Database)
    → keep_decision self proposal db ≡ ok after
    → IsDecided self db after
unfolding keep_decision
keep_decision-IsDecided self proposal db after done =
    let r1 : Returns
        (require (not (given (find ledger_key (bound_key self proposal) db.proposal_ledger)))
          conflict)
        _ after =
      >>=-ok_parts _ _ done in
    let r2 : Returns (insert_approval self.decision db) _ after = >>=-ok_parts _ _ r1.2 in
    let r3 : Returns (datetime_to_z self.occurred_at) _ after = >>=-ok_parts _ _ r2.2 in
    let r4 : Returns
        (insert ledger_key (decided self r3.0 self.decision.idempotency_key) r2.0.approval_ledger) _
        after =
      >>=-ok_parts _ _ r3.2 in
    let r5 : Returns
        (insert ledger_key (decided self r3.0 (proposal_binding proposal)) r2.0.proposal_ledger) _
        after =
      >>=-ok_parts _ _ r4.2 in
    let (outbox, attempts, proposals, inserted) = insert_approval_same self.decision db r2.0 r2.1 in
    rw (sym (ok_same (record r2.0 { approval_ledger = r4.0; proposal_ledger = r5.0 }) after r5.2))
      (record {
        same_outbox = outbox;
        same_attempts = attempts;
        same_proposals = proposals;
        inserted = inserted;
        at = r3.0;
        recorded =
            find-insert_self ledger_key (decided self r3.0 self.decision.idempotency_key)
              r2.0.approval_ledger r4.0 r4.1;
      })

-- The first attempt and its row are inserted, and no other record.
pub record IsPlanned (self : Approving) (proposal : EffectProposal) (db after : Database)
    (attempt : EffectAttempt) : Type 0 where
  pub at : ℕ
  pub allowed : 1 ≤ proposal.constraints.maximum_attempts
  pub same_approvals : after.approvals ≡ db.approvals
  pub same_proposals : after.proposals ≡ db.proposals
  pub same_ledger : after.approval_ledger ≡ db.approval_ledger
  pub answered : attempt ≡ first_attempt self proposal
  pub attempt_inserted :
      insert attempt_key (first_attempt self proposal) db.attempts ≡ ok after.attempts
  pub row_inserted : insert outbox_key (first_row self proposal at) db.outbox ≡ ok after.outbox

IsPlanned-parts :
    (self : Approving) (proposal : EffectProposal) (db middle after : Database)
    (made attempt : EffectAttempt) (at : ℕ) (outbox : List OutboxRow) (effects : List LedgerRow)
    → made ≡ first_attempt self proposal
    → insert_attempt made db ≡ ok middle
    → require (leb 1 proposal.constraints.maximum_attempts) conflict ≡ ok tt
    → insert outbox_key (first_row self proposal at) middle.outbox ≡ ok outbox
    → ◌≡◌ {A = Result (Database × EffectAttempt)}
        (ok (record middle { outbox = outbox; effect_ledger = effects }, made))
        (ok (after, attempt))
    → IsPlanned self proposal db after attempt
IsPlanned-parts self proposal db middle after made attempt at outbox effects same inserted allowed
      row_inserted returned =
    let pair : ◌≡◌ {A = Database × EffectAttempt}
        (record middle { outbox = outbox; effect_ledger = effects }, made) (after, attempt) =
      ok_same _ _ returned in
    let (same_outbox, planned, approvals, proposals) =
      insert_attempt_same made db middle inserted in
    let ledger = insert_attempt_ledger made db middle inserted in
    rw (sym (ap (λ r. r.0) pair)) (record {
      at = at;
      allowed = ground (arith, allowed);
      same_approvals = approvals;
      same_proposals = proposals;
      same_ledger = ledger;
      answered = sym (ap (λ r. r.1) pair) ∙ same;
      attempt_inserted = ap (λ a. insert attempt_key a db.attempts) (sym same) ∙ planned;
      row_inserted =
          ap (λ rows. insert outbox_key (first_row self proposal at) rows) (sym same_outbox)
          ∙ row_inserted;
    })

pub plan_attempt-IsPlanned :
    (self : Approving) (proposal : EffectProposal) (db after : Database) (attempt : EffectAttempt)
    → plan_attempt self proposal db ≡ ok (after, attempt)
    → IsPlanned self proposal db after attempt
unfolding plan_attempt
plan_attempt-IsPlanned self proposal db after attempt done =
    let r1 : Returns (construct_attempt (first_attempt self proposal)) _ (after, attempt) =
      >>=-ok_parts _ _ done in
    let r2 : Returns (insert_attempt r1.0 db) _ (after, attempt) = >>=-ok_parts _ _ r1.2 in
    let r3 : Returns (datetime_to_z self.occurred_at) _ (after, attempt) = >>=-ok_parts _ _ r2.2 in
    let r4 : Returns (require (leb 1 proposal.constraints.maximum_attempts) conflict) _
        (after, attempt) =
      >>=-ok_parts _ _ r3.2 in
    let r5 : Returns
        (require (not (any (same_effect (first_row self proposal r3.0)) r2.0.outbox)) conflict) _
        (after, attempt) =
      >>=-ok_parts _ _ r4.2 in
    let r6 : Returns (insert outbox_key (first_row self proposal r3.0) r2.0.outbox) _
        (after, attempt) =
      >>=-ok_parts _ _ r5.2 in
    let r7 : Returns (insert ledger_key (effect_row self proposal r1.0 r3.0) r2.0.effect_ledger) _
        (after, attempt) =
      >>=-ok_parts _ _ r6.2 in
    IsPlanned-parts self proposal db r2.0 after r1.0 attempt r3.0 r6.0 r7.0
      (construct_attempt_same (first_attempt self proposal) r1.0 r1.1) r2.1 r4.1 (r6.1) r7.2
