-- ===== src/Store/Sound/Replay.antt =====
-- An approval that is committed again.
use digital_colleagues.Base.{
  ◌≡◌, refl, sym, ap, ◌∙◌, false, some, arith, ◌==◌, nat_eq, string_eq, option_eq, list_eq, ok,
  require, not_found, conflict, >>=-ok_parts, Returns, ok_same, or_raise-some,
}
use digital_colleagues.Core.Namespace.{namespace_eq}
use digital_colleagues.Core.Effects.Approval.{
  HumanApprovalDecision, ApprovalChoice, approve, reject,
}
use digital_colleagues.Core.Effects.Approval
use digital_colleagues.Store.Tables.{key_eq, find}
use digital_colleagues.Store.Records.{row_key, get_record}
use digital_colleagues.Store.Database.{Database, LedgerRow, ledger_key, approval_columns}
use digital_colleagues.Store.Approve.Rows.{Approving, decision_eq, row_of_approval}
use digital_colleagues.Store.Approve.{
  Approved, attempt_of_row, replay_decision, approval_ledger_key, commit_approval_and_attempt,
}

replay_parts :
    (self : Approving) (db after : Database) (answer : Approved) (used : LedgerRow)
    → replay_decision self used db ≡ ok (after, answer)
    → (after ≡ db)
      × (answer.created ≡ false)
      × (find
            (row_key approval_columns)
            (record { namespace = self.namespace; id = used.record_id })
            db.approvals
          ≡ some answer.decision)
      × (Approval.construct (record self.decision {
        occurred_at = answer.decision.occurred_at;
        valid_until = answer.decision.valid_until;
      })
          ≡ ok answer.decision)
unfolding replay_decision
replay_parts self db after answer used done =
    let r1 : Returns (get_record approval_columns self.namespace used.record_id db.approvals) _
        (after, answer) =
      >>=-ok_parts _ _ done in
    let r2 : Returns
        (Approval.construct
          (record self.decision { occurred_at = r1.0.occurred_at; valid_until = r1.0.valid_until }))
        _ (after, answer) =
      >>=-ok_parts _ _ r1.2 in
    let r3 : Returns (require (r2.0 == r1.0) conflict) _ (after, answer) = >>=-ok_parts _ _ r2.2 in
    let r4 : Returns
        (attempt_of_row self.namespace
          (row_of_approval self.namespace self.decision.approval_decision_id db.outbox) db)
        _ (after, answer) =
      >>=-ok_parts _ _ r3.2 in
    let pair : ◌≡◌ {A = Database × Approved}
        (db, record { decision = r1.0; attempt = r4.0; created = false }) (after, answer) =
      ok_same _ _ r4.2 in
    let same : r2.0 ≡ r1.0 = ground (arith, r3.1) in
    let given : ◌≡◌ {A = Approved} (record { decision = r1.0; attempt = r4.0; created = false })
        answer =
      ap (λ r. r.1) pair in
    rw (sym given, sym (ap (λ r. r.0) pair))
      (refl, refl, or_raise-some not_found _ r1.0 r1.1, r2.1 ∙ ap ok same)

-- A commit under a key that the ledger of approvals holds.
pub replay_never_creates :
    (self : Approving) (db after : Database) (answer : Approved) (used : LedgerRow)
    → find ledger_key (approval_ledger_key self) db.approval_ledger ≡ some used
    → commit_approval_and_attempt self db ≡ ok (after, answer)
    → (after ≡ db)
      × (answer.created ≡ false)
      × (find
            (row_key approval_columns)
            (record { namespace = self.namespace; id = used.record_id })
            db.approvals
          ≡ some answer.decision)
      × (Approval.construct (record self.decision {
        occurred_at = answer.decision.occurred_at;
        valid_until = answer.decision.valid_until;
      })
          ≡ ok answer.decision)
unfolding commit_approval_and_attempt
replay_never_creates self db after answer used found done =
    let own : self.namespace ≡ self.decision.namespace = ground arith in
    let returned : replay_decision self used db ≡ ok (after, answer) = ground (arith, found, own) in
    replay_parts self db after answer used returned
