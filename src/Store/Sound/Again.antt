-- ===== src/Store/Sound/Again.antt =====
-- An approval that was committed is answered again as it was.
use digital_colleagues.Base.{
  ◌≡◌, refl, sym, ap, ◌∙◌, inl, inr, Bool, true, false, Option, none, some, List, [], ◌∷◌, String,
  arith, nat_eq, string_eq, option_eq, list_eq, ok, ◌>>=◌, not_found, >>=-ok_parts, Returns,
  ok_same, Option-cases, or_raise,
}
use digital_colleagues.Core.Namespace.{Namespace, namespace_eq}
use digital_colleagues.Core.Effects.{EffectProposal}
use digital_colleagues.Core.Effects.Approval.{
  HumanApprovalDecision, ApprovalChoice, approve, reject,
}
use digital_colleagues.Core.Effects.Approval
use digital_colleagues.Core.Effects.Attempt.{EffectAttempt}
use digital_colleagues.Store.Tables.{key_eq, find}
use digital_colleagues.Store.Tables.Keyed.{distinct_keys, find_held, find-insert_self}
use digital_colleagues.Store.Records.{row_key}
use digital_colleagues.Store.Database.{
  Database, LedgerRow, ledger_key, OutboxRow, outbox_key, approval_columns,
}
use digital_colleagues.Store.Approve.Rows.{
  Approving, decision_eq, decided, first_attempt, first_row, row_of_approval,
}
use digital_colleagues.Store.Approve.{
  Approved, authorize, keep_decision, plan_attempt, with_attempt, commit_choice, commit_decision,
  attempt_of_row, replay_decision, approval_ledger_key, commit_approval_and_attempt,
}
use digital_colleagues.Store.Sound.{attempt_key, cited_approval, IsSound}
use digital_colleagues.Store.Sound.Writes.{insert_absent}
use digital_colleagues.Store.Sound.Approvals.{
  IsDecided, keep_decision-IsDecided, IsPlanned, plan_attempt-IsPlanned,
}
use digital_colleagues.Store.Sound.Replay.{replay_never_creates}

row_of_approval_cites :
    (namespace : Namespace) (id : String) (rows : List OutboxRow) (row : OutboxRow)
    → row_of_approval namespace id rows ≡ some row
    → (row.namespace ≡ namespace) × (row.approval_decision_id ≡ id)
row_of_approval_cites namespace id [] row found = cc
row_of_approval_cites namespace id (other ∷ rows) row found =
    let rest = row_of_approval_cites namespace id rows row in
    (ground (arith, rest), ground (arith, rest))

-- The row of an approval is found under its key.
find-row_of_approval :
    (namespace : Namespace) (id : String) (rows : List OutboxRow) (row : OutboxRow)
    → distinct_keys outbox_key rows ≡ true
    → row_of_approval namespace id rows ≡ some row
    → find outbox_key (outbox_key row) rows ≡ some row
find-row_of_approval namespace id [] row keyed found = cc
find-row_of_approval namespace id (other ∷ rows) row keyed found = ground (
  arith,
  find-row_of_approval namespace id rows row,
  find_held outbox_key (outbox_key row) rows row,
)

abbrev answered : Approving → Option EffectAttempt → Bool → Approved
answered self attempt created = record {
  decision = self.decision;
  attempt = attempt;
  created = created;
}

-- What a replay reads, and what it answers.
replay_returns :
    (self : Approving) (db : Database) (used : LedgerRow) (attempt : Option EffectAttempt)
    → self.namespace ≡ self.decision.namespace
    → Approval.construct self.decision ≡ ok self.decision
    → find ledger_key (approval_ledger_key self) db.approval_ledger ≡ some used
    → find
        (row_key approval_columns)
        (record { namespace = self.namespace; id = used.record_id })
        db.approvals
      ≡ some self.decision
    → attempt_of_row self.namespace
        (row_of_approval self.namespace self.decision.approval_decision_id db.outbox)
        db
      ≡ ok attempt
    → commit_approval_and_attempt self db ≡ ok (db, answered self attempt false)
unfolding commit_approval_and_attempt replay_decision
replay_returns self db used attempt own built found kept cited =
    ground (arith, own, built, found, kept, cited)

module _ (self : Approving) (own : self.namespace ≡ self.decision.namespace)
    (built : Approval.construct self.decision ≡ ok self.decision) (db : Database)
    (sound : IsSound db) (kept : Database) (decides : IsDecided self db kept) where
  kept_approval :
      find
        (row_key approval_columns)
        (record { namespace = self.namespace; id = self.decision.approval_decision_id })
        kept.approvals
      ≡ some self.decision
  kept_approval =
      ap
        (λ namespace.
          find (row_key approval_columns)
            (record { namespace = namespace; id = self.decision.approval_decision_id })
            kept.approvals)
        own
      ∙ find-insert_self (row_key approval_columns) self.decision db.approvals kept.approvals
          decides.inserted

  -- No row cited the decision before it was kept.
  uncited : row_of_approval self.namespace self.decision.approval_decision_id db.outbox ≡ none
  uncited =
      elim (Option-cases
        (row_of_approval self.namespace self.decision.approval_decision_id db.outbox)) [
          | inl nothing ↦ nothing
          | inr (row, found) ↦
              let here =
                find-row_of_approval self.namespace self.decision.approval_decision_id db.outbox row
                  sound.keyed found in
              let (in_own, cites) =
                row_of_approval_cites self.namespace self.decision.approval_decision_id db.outbox
                  row found in
              let (approval, proposal, fa, fp, b) = sound.backed (outbox_key row) row here in
              let same : cited_approval row ≡ row_key approval_columns self.decision =
                rw (in_own, own, cites) refl in
              cc (
                fa,
                same,
                insert_absent (row_key approval_columns) self.decision db.approvals kept.approvals
                    decides.inserted,
              )
        ]

  rejected_again : commit_approval_and_attempt self kept ≡ ok (kept, answered self none false)
  rejected_again =
      replay_returns self kept (decided self decides.at self.decision.idempotency_key) none own
        built decides.recorded kept_approval
        (ap
            (λ rows.
              attempt_of_row self.namespace
                (row_of_approval self.namespace self.decision.approval_decision_id rows) kept)
            decides.same_outbox
          ∙ ap (λ row. attempt_of_row self.namespace row kept) uncited)

  module _ (proposal : EffectProposal) (after : Database) (attempt : EffectAttempt)
      (plans : IsPlanned self proposal kept after attempt) where
    row_first :
        row_of_approval self.namespace self.decision.approval_decision_id after.outbox
        ≡ some (first_row self proposal plans.at)
    row_first = ground (arith, plans.row_inserted)

    approved_again :
        commit_approval_and_attempt self after
        ≡ ok (after, answered self (some (first_attempt self proposal)) false)
    approved_again =
        replay_returns self after (decided self decides.at self.decision.idempotency_key)
          (some (first_attempt self proposal)) own built
          (ap (λ rows. find ledger_key (approval_ledger_key self) rows) plans.same_ledger
            ∙ decides.recorded)
          (ap
              (λ rows.
                find (row_key approval_columns)
                  (record { namespace = self.namespace; id = self.decision.approval_decision_id })
                  rows)
              plans.same_approvals
            ∙ kept_approval)
          (ap (λ row. attempt_of_row self.namespace row after) row_first
            ∙ ap (λ a. or_raise not_found a >>= λ attempt. ok (some attempt))
                (find-insert_self attempt_key (first_attempt self proposal) kept.attempts
                  after.attempts plans.attempt_inserted))

commit_choice_again :
    (self : Approving) (proposal : EffectProposal) (db kept after : Database) (answer : Approved)
    → self.namespace ≡ self.decision.namespace
    → Approval.construct self.decision ≡ ok self.decision
    → IsSound db
    → IsDecided self db kept
    → commit_choice self proposal kept ≡ ok (after, answer)
    → (choice : ApprovalChoice) → self.decision.choice ≡ choice
    → commit_approval_and_attempt self after ≡ ok (after, record answer { created = false })
unfolding commit_choice
commit_choice_again self proposal db kept after answer own built sound decides done reject e =
    let same : kept ≡ after = ground (arith, e) in
    let given : answer ≡ answered self none true = ground (arith, e) in
    rw (sym same, given) (rejected_again self own built db sound kept decides)
commit_choice_again self proposal db kept after answer own built sound decides done approve e =
    let made : (plan_attempt self proposal kept >>= with_attempt self) ≡ ok (after, answer) =
      ground (arith, e) in
    let r : Returns (plan_attempt self proposal kept) (with_attempt self) (after, answer) =
      >>=-ok_parts _ _ made in
    let pair : ◌≡◌ {A = Database × Approved} (r.0.0, answered self (some r.0.1) true)
        (after, answer) =
      ok_same _ _ r.2 in
    let plans = plan_attempt-IsPlanned self proposal kept r.0.0 r.0.1 r.1 in
    let given : answer ≡ answered self (some (first_attempt self proposal)) true =
      sym (ap (λ r. r.1) pair) ∙ ap (λ a. answered self (some a) true) plans.answered in
    rw (sym (ap (λ r. r.0) pair), given)
      (approved_again self own built db sound kept decides proposal r.0.0 r.0.1 plans)

commit_decision_again :
    (self : Approving) (db after : Database) (answer : Approved)
    → IsSound db
    → Approval.construct self.decision ≡ ok self.decision
    → self.namespace ≡ self.decision.namespace
    → commit_decision self db ≡ ok (after, answer)
    → commit_approval_and_attempt self after ≡ ok (after, record answer { created = false })
unfolding commit_decision
commit_decision_again self db after answer sound built own done =
    let r1 : Returns (authorize self db) _ (after, answer) = >>=-ok_parts _ _ done in
    let r2 : Returns (keep_decision self r1.0 db) _ (after, answer) = >>=-ok_parts _ _ r1.2 in
    commit_choice_again self r1.0 db r2.0 after answer own built sound
      (keep_decision-IsDecided self r1.0 db r2.0 r2.1) r2.2 self.decision.choice refl

-- Committing an approval again changes nothing and answers the same: on a sound database, where a
-- commit returns and is the one that created the decision, and the constructor accepts the decision,
-- a second commit with the same arguments returns the database as it is, the same decision and the
-- same attempt, and says that it created nothing.
pub commit_approval_and_attempt_again :
    (self : Approving) (db after : Database) (answer : Approved)
    → IsSound db
    → Approval.construct self.decision ≡ ok self.decision
    → commit_approval_and_attempt self db ≡ ok (after, answer)
    → answer.created ≡ true
    → commit_approval_and_attempt self after ≡ ok (after, record answer { created = false })
unfolding commit_approval_and_attempt
commit_approval_and_attempt_again self db after answer sound built done created =
    let own : self.namespace ≡ self.decision.namespace = ground arith in
    elim (Option-cases (find ledger_key (approval_ledger_key self) db.approval_ledger)) [
      | inl nothing ↦
          commit_decision_again self db after answer sound built own (ground (arith, nothing, own))
      | inr (used, found) ↦
          cc (created, (replay_never_creates self db after answer used found done).1)
    ]
