-- ===== src/Store/Sound/Writes.antt =====
-- What the statements on records leave alone.
use digital_colleagues.Base.{
  ℕ, ◌≡◌, refl, sym, ◌∙◌, ◌≢◌, inl, inr, none, some, List, arith, nat_eq, string_eq, option_eq,
  list_eq, ok, >>=-ok_parts, ok_same, Option-cases,
}
use digital_colleagues.Core.Effects.Attempt.{EffectAttempt, construct_attempt, ActionResult}
use digital_colleagues.Store.Tables.{Key, key_eq, find, insert}
use digital_colleagues.Store.Tables.Keyed.{find_held}
use digital_colleagues.Store.Records.{AuditRow, insert_record, update_record}
use digital_colleagues.Store.Records.Laws.{
  insert_record-insert, find-update_record, find-update_record_ne,
}
use digital_colleagues.Store.Database.{
  Database, attempt_columns, insert_attempt, update_attempt, insert_result,
}
use digital_colleagues.Store.Sound.{attempt_key}

-- All tables that the invariant reads are the same, but for the attempt with the key `a`.
pub record Keeps (before db : Database) (a : Key) : Type 0 where
  pub same_outbox : db.outbox ≡ before.outbox
  pub same_approvals : db.approvals ≡ before.approvals
  pub same_proposals : db.proposals ≡ before.proposals
  pub other_attempts :
      (b : Key) (other : EffectAttempt)
      → b ≢ a
      → find attempt_key b before.attempts ≡ some other
      → find attempt_key b db.attempts ≡ some other

update_attempt_parts :
    (self : EffectAttempt) (expected : ℕ) (db after : Database)
    → update_attempt self expected db ≡ ok after
    → (result : List EffectAttempt × List AuditRow) × (update_record attempt_columns self expected
          db.attempts db.audit
        ≡ ok result)
      × (ok (record db { attempts = result.0; audit = result.1 }) ≡ ok after)
unfolding update_attempt
update_attempt_parts self expected db after done = >>=-ok_parts _ _ done

pub update_attempt-Keeps :
    (self : EffectAttempt) (expected : ℕ) (db after : Database)
    → update_attempt self expected db ≡ ok after
    → Keeps db after (attempt_key self)
      × (find attempt_key (attempt_key self) after.attempts ≡ some self)
update_attempt-Keeps self expected db after done =
    let (result, updated, last) = update_attempt_parts self expected db after done in
    rw (sym (ok_same (record db { attempts = result.0; audit = result.1 }) after last)) (
      record {
        same_outbox = refl;
        same_approvals = refl;
        same_proposals = refl;
        other_attempts = λ b other differ found.
            find-update_record_ne attempt_columns self expected db.attempts db.audit result updated
              b differ
            ∙ found;
      },
      find-update_record attempt_columns self expected db.attempts db.audit result updated,
    )

pub insert_result_same :
    (self : ActionResult) (db after : Database)
    → insert_result self db ≡ ok after
    → (after.outbox ≡ db.outbox)
      × (after.attempts ≡ db.attempts)
      × (after.approvals ≡ db.approvals)
      × (after.proposals ≡ db.proposals)
unfolding insert_result
insert_result_same self db after done = (ground arith, ground arith, ground arith, ground arith)

insert_attempt_parts :
    (self : EffectAttempt) (db after : Database)
    → insert_attempt self db ≡ ok after
    → (result : List EffectAttempt × List AuditRow) × (insert_record attempt_columns self
          db.attempts db.audit
        ≡ ok result)
      × (ok (record db { attempts = result.0; audit = result.1 }) ≡ ok after)
unfolding insert_attempt
insert_attempt_parts self db after done = >>=-ok_parts _ _ done

pub insert_attempt_same :
    (self : EffectAttempt) (db after : Database)
    → insert_attempt self db ≡ ok after
    → (after.outbox ≡ db.outbox)
      × (insert attempt_key self db.attempts ≡ ok after.attempts)
      × (after.approvals ≡ db.approvals)
      × (after.proposals ≡ db.proposals)
insert_attempt_same self db after done =
    let (result, inserted, last) = insert_attempt_parts self db after done in
    rw (sym (ok_same (record db { attempts = result.0; audit = result.1 }) after last)) (
      refl,
      insert_record-insert attempt_columns self db.attempts db.audit result inserted,
      refl,
      refl,
    )

-- An attempt is kept as it is, or refused.
pub construct_attempt_same :
    (self result : EffectAttempt) → construct_attempt self ≡ ok result → result ≡ self
unfolding construct_attempt
construct_attempt_same self result done = ground arith

-- An attempt that was inserted was absent before.
pub insert_absent :
    {Row : Type 0} (key : Row → Key) (row : Row) (rows after : List Row)
    → insert key row rows ≡ ok after
    → find key (key row) rows ≡ none
insert_absent key row rows after done = elim (Option-cases (find key (key row) rows)) [
  | inl nothing ↦ nothing
  | inr (other, found) ↦ ground (arith, find_held key (key row) rows other found)
]

pub insert_attempt_ledger :
    (self : EffectAttempt) (db after : Database)
    → insert_attempt self db ≡ ok after
    → after.approval_ledger ≡ db.approval_ledger
unfolding insert_attempt
insert_attempt_ledger self db after done = ground arith
