-- ===== src/Store/Sound/Approves.antt =====
-- A committed approval inserts the decision, and the first attempt with its outbox row.
use digital_colleagues.Base.{
  ◌≡◌, refl, sym, ap, ◌∙◌, inl, inr, true, some, List, arith, nat_eq, string_eq, option_eq, list_eq,
  ok, ◌>>=◌, not_found, >>=-ok_parts, Returns, ok_same, Option-cases, or_raise-some,
}
use digital_colleagues.Core.Namespace.{namespace_eq}
use digital_colleagues.Core.Principals.{kind_eq, principal_eq}
use digital_colleagues.Core.Effects.{EffectProposal}
use digital_colleagues.Core.Effects.Approval.{ApprovalChoice, approve, reject, choice_eq}
use digital_colleagues.Core.Effects.Attempt.{EffectAttempt}
use digital_colleagues.Store.Tables.{key_eq, find, insert}
use digital_colleagues.Store.Tables.Keyed.{find-insert_self, find-insert_old}
use digital_colleagues.Store.Records.{AuditRow, row_key, insert_record}
use digital_colleagues.Store.Records.Laws.{insert_record-insert}
use digital_colleagues.Store.Database.{
  Database, OutboxRow, outbox_key, LedgerRow, ledger_key, approval_columns, proposal_columns,
  insert_proposal,
}
use digital_colleagues.Store.Approve.Rows.{Approving, decided, first_attempt, first_row}
use digital_colleagues.Store.Approve.{
  authorize, keep_decision, plan_attempt, Approved, replay_decision, with_attempt, commit_choice,
  commit_decision, approval_ledger_key, commit_approval_and_attempt,
}
use digital_colleagues.Store.Sound.{attempt_key, cited_approval, cited_proposal}
use digital_colleagues.Store.Sound.Writes.{insert_absent}
use digital_colleagues.Store.Sound.Grow.{Extends, Added, Grows}
use digital_colleagues.Store.Sound.Approvals.{
  Binds, authorize_parts, IsDecided, keep_decision-IsDecided, IsPlanned, plan_attempt-IsPlanned,
}

module _ (self : Approving) (own : self.namespace ≡ self.decision.namespace)
    (proposal : EffectProposal) (db : Database) (checked : authorize self db ≡ ok proposal)
    (kept : Database) (decided : IsDecided self db kept) where
  decision_key :
      row_key approval_columns self.decision
      ≡ record { namespace = self.namespace; id = self.decision.approval_decision_id }
  decision_key = rw own refl

  -- The decision alone.
  decided-Extends : Extends db kept
  decided-Extends = record {
    attempts = λ a x found. rw decided.same_attempts found;
    approvals =
        find-insert_old (row_key approval_columns) self.decision db.approvals kept.approvals
          decided.inserted;
    proposals = λ a x found. rw decided.same_proposals found;
  }

  module _ (approves : self.decision.choice ≡ approve) (after : Database) (attempt : EffectAttempt)
      (planned : IsPlanned self proposal kept after attempt) where
    binds : Binds proposal self.decision
    binds = (authorize_parts self db proposal checked).1 approves

    planned-Extends : Extends db after
    planned-Extends = record {
      attempts = λ a x found.
          find-insert_old attempt_key (first_attempt self proposal) kept.attempts after.attempts
            planned.attempt_inserted a x (decided-Extends.attempts a x found);
      approvals = λ a x found. rw planned.same_approvals (decided-Extends.approvals a x found);
      proposals = λ a x found. rw planned.same_proposals (decided-Extends.proposals a x found);
    }

    planned-Added : Added db after (first_row self proposal planned.at)
    planned-Added =
        let read =
          or_raise-some not_found _ proposal (authorize_parts self db proposal checked).0 in
        let row : OutboxRow = first_row self proposal planned.at in
        record {
          inserted =
              ap (λ rows. insert outbox_key (first_row self proposal planned.at) rows)
                (sym decided.same_outbox)
              ∙ planned.row_inserted;
          is_new =
              ap (λ rows. find attempt_key (attempt_key (first_attempt self proposal)) rows)
                (sym decided.same_attempts)
              ∙ insert_absent attempt_key (first_attempt self proposal) kept.attempts after.attempts
                  planned.attempt_inserted;
          tracks = (
            first_attempt self proposal,
            find-insert_self attempt_key (first_attempt self proposal) kept.attempts after.attempts
                planned.attempt_inserted,
            record {
              same_number = refl;
              same_proposal = refl;
              same_approval = refl;
              state_agrees = refl;
              counted = omega arith;
              within_limit = planned.allowed;
            },
          );
          backs = (
            self.decision,
            proposal,
            ap (λ rows. find (row_key approval_columns) (cited_approval row) rows)
                  planned.same_approvals
                ∙ ap (λ k. find (row_key approval_columns) k kept.approvals) (sym decision_key)
                ∙ find-insert_self (row_key approval_columns) self.decision db.approvals
                    kept.approvals decided.inserted,
            ap (λ rows. find (row_key proposal_columns) (cited_proposal row) rows)
                  (planned.same_proposals ∙ decided.same_proposals)
                ∙ ap
                    (λ id.
                      find (row_key proposal_columns)
                        (record { namespace = self.namespace; id = id }) db.proposals)
                    (sym binds.of_proposal)
                ∙ read,
            record {
              approves = approves;
              by_human = binds.by_human;
              of_proposal = binds.of_proposal;
              of_revision = binds.of_revision;
              of_digest = binds.of_digest;
              same_key = refl;
              same_limit = refl;
            },
          );
        }

commit_choice-Grows :
    (self : Approving) (proposal : EffectProposal) (db kept after : Database) (answer : Approved)
    → self.namespace ≡ self.decision.namespace
    → authorize self db ≡ ok proposal
    → IsDecided self db kept
    → commit_choice self proposal kept ≡ ok (after, answer)
    → (choice : ApprovalChoice) → self.decision.choice ≡ choice
    → Grows db after
unfolding commit_choice
commit_choice-Grows self proposal db kept after answer own checked decided done reject e =
    let same : kept ≡ after = ground (arith, e) in
    rw (sym same)
      (decided-Extends self own proposal db checked kept decided, inl decided.same_outbox)
commit_choice-Grows self proposal db kept after answer own checked decided done approve e =
    let plans : (plan_attempt self proposal kept >>= with_attempt self) ≡ ok (after, answer) =
      ground (arith, e) in
    let r : Returns (plan_attempt self proposal kept) (with_attempt self) (after, answer) =
      >>=-ok_parts _ _ plans in
    let pair : ◌≡◌ {A = Database × Approved}
        (r.0.0, record { decision = self.decision; attempt = some r.0.1; created = true })
        (after, answer) =
      ok_same _ _ r.2 in
    let planned = plan_attempt-IsPlanned self proposal kept r.0.0 r.0.1 r.1 in
    rw (sym (ap (λ r. r.0) pair)) (
      planned-Extends self own proposal db checked kept decided e r.0.0 r.0.1 planned,
      inr (
        first_row self proposal planned.at,
        planned-Added self own proposal db checked kept decided e r.0.0 r.0.1 planned,
      ),
    )

commit_decision-Grows :
    (self : Approving) (db after : Database) (answer : Approved)
    → self.namespace ≡ self.decision.namespace
    → commit_decision self db ≡ ok (after, answer)
    → Grows db after
unfolding commit_decision
commit_decision-Grows self db after answer own done =
    let r1 : Returns (authorize self db) _ (after, answer) = >>=-ok_parts _ _ done in
    let r2 : Returns (keep_decision self r1.0 db) _ (after, answer) = >>=-ok_parts _ _ r1.2 in
    commit_choice-Grows self r1.0 db r2.0 after answer own r1.1
      (keep_decision-IsDecided self r1.0 db r2.0 r2.1) r2.2 self.decision.choice refl

replay_decision_same :
    (self : Approving) (used : LedgerRow) (db after : Database) (answer : Approved)
    → replay_decision self used db ≡ ok (after, answer)
    → after ≡ db
unfolding replay_decision
replay_decision_same self used db after answer done = ground arith

pub commit_approval_and_attempt-Grows :
    (self : Approving) (db after : Database) (answer : Approved)
    → commit_approval_and_attempt self db ≡ ok (after, answer)
    → Grows db after
unfolding commit_approval_and_attempt
commit_approval_and_attempt-Grows self db after answer done =
    let own : self.namespace ≡ self.decision.namespace = ground arith in
    elim (Option-cases (find ledger_key (approval_ledger_key self) db.approval_ledger)) [
      | inl nothing ↦ commit_decision-Grows self db after answer own (ground (arith, nothing, own))
      | inr (used, found) ↦
          rw (replay_decision_same self used db after answer (ground (arith, found, own))) (
            record {
              attempts = λ a x found. found;
              approvals = λ a x found. found;
              proposals = λ a x found. found;
            },
            inl refl,
          )
    ]

insert_proposal_parts :
    (self : EffectProposal) (db after : Database)
    → insert_proposal self db ≡ ok after
    → (result : List EffectProposal × List AuditRow) × (insert_record proposal_columns self
          db.proposals db.audit
        ≡ ok result)
      × (ok (record db { proposals = result.0; audit = result.1 }) ≡ ok after)
unfolding insert_proposal
insert_proposal_parts self db after done = >>=-ok_parts _ _ done

pub insert_proposal-Grows :
    (self : EffectProposal) (db after : Database)
    → insert_proposal self db ≡ ok after
    → Grows db after
insert_proposal-Grows self db after done =
    let (result, inserted, last) = insert_proposal_parts self db after done in
    rw (sym (ok_same (record db { proposals = result.0; audit = result.1 }) after last)) (
      record {
        attempts = λ a x found. found;
        approvals = λ a x found. found;
        proposals =
            find-insert_old (row_key proposal_columns) self db.proposals result.0
              (insert_record-insert proposal_columns self db.proposals db.audit result inserted);
      },
      inl refl,
    )
