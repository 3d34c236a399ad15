-- ===== src/Store/Sound/Retries.antt =====
-- A retry inserts the next attempt of an effect.
use digital_colleagues.Base.{
  suc, ◌+◌, ◌<◌, ◌≡◌, refl, sym, ap, ◌⊎◌, inl, inr, Bool, true, String, arith, nat_eq, string_eq,
  option_eq, list_eq, ltb, ok, require, conflict, >>=-ok_parts, Returns, ok_same, Option-cases,
}
use digital_colleagues.Core.Common.{DateTime}
use digital_colleagues.Core.Principals.{Principal}
use digital_colleagues.Core.Effects.Attempt.{EffectAttempt, planned, construct_attempt}
use digital_colleagues.Store.Database
use digital_colleagues.Store.Database.{Database, OutboxRow, OutboxState, insert_attempt}
use digital_colleagues.Store.Dispatch.{Report, create_retry_attempt, plan_retry, retry_of}
use digital_colleagues.Store.Sound.Writes.{construct_attempt_same}

-- What is known of the next attempt.
pub record IsNext (previous next : EffectAttempt) (before after : Database) : Type 0 where
  pub same_namespace : next.namespace ≡ previous.namespace
  pub same_proposal : next.proposal_id ≡ previous.proposal_id
  pub same_approval : next.approval_decision_id ≡ previous.approval_decision_id
  pub next_number : next.attempt_number ≡ suc previous.attempt_number
  pub is_planned : next.state ≡ planned
  pub inserted : insert_attempt next before ≡ ok after

create_retry_attempt-IsNext :
    (previous : EffectAttempt) (id : String) (actor : Principal) (occurred_at : DateTime)
    (db after : Database) (next : EffectAttempt)
    → create_retry_attempt previous id actor occurred_at db ≡ ok (after, next)
    → IsNext previous next db after
unfolding create_retry_attempt
create_retry_attempt-IsNext previous id actor occurred_at db after next done =
    let r1 : Returns
        (construct_attempt (record {
          namespace = previous.namespace;
          effect_attempt_id = id;
          proposal_id = previous.proposal_id;
          proposal_revision = previous.proposal_revision;
          approval_decision_id = previous.approval_decision_id;
          attempt_number = previous.attempt_number + 1;
          state = planned;
          actor = actor;
          correlation_id = previous.correlation_id;
          causation_id = previous.approval_decision_id;
          occurred_at = occurred_at;
          revision = 1;
          schema_version = 1;
        }))
        _ (after, next) =
      >>=-ok_parts _ _ done in
    let r2 : Returns (insert_attempt r1.0 db) _ (after, next) = >>=-ok_parts _ _ r1.2 in
    let pair : ◌≡◌ {A = Database × EffectAttempt} (r2.0, r1.0) (after, next) = ok_same _ _ r2.2 in
    let same = construct_attempt_same _ r1.0 r1.1 in
    rw (sym (ap (λ r. r.0) pair), sym (ap (λ r. r.1) pair))
      (record {
        same_namespace = rw same refl;
        same_proposal = rw same refl;
        same_approval = rw same refl;
        next_number = rw same (omega arith);
        is_planned = rw same refl;
        inserted = r2.1;
      })

-- A retry: the attempt that the row cites afterwards is the next one.
pub record Retried (absent : Bool) (row : OutboxRow) (attempt next : EffectAttempt)
    (state : OutboxState) (before after : Database) : Type 0 where
  pub confirmed_absent : absent ≡ true
  pub within_limit : attempt.attempt_number < row.maximum_attempts
  pub to_retry : state ≡ Database.retry
  pub is_next : IsNext attempt next before after

plan_retry-Retried :
    (absent : Bool) (row : OutboxRow) (attempt : EffectAttempt) (report : Report) (id : String)
    (db after : Database) (next : EffectAttempt) (to : OutboxState)
    → plan_retry absent row attempt report id db ≡ ok (after, next, to)
    → Retried absent row attempt next to db after
unfolding plan_retry
plan_retry-Retried absent row attempt report id db after next to done =
    let r1 : Returns (require absent conflict) _ (after, next, to) = >>=-ok_parts _ _ done in
    let r2 : Returns (require (ltb attempt.attempt_number row.maximum_attempts) conflict) _
        (after, next, to) =
      >>=-ok_parts _ _ r1.2 in
    let r3 : Returns (create_retry_attempt attempt id report.result_actor report.occurred_at db) _
        (after, next, to) =
      >>=-ok_parts _ _ r2.2 in
    let triple : ◌≡◌ {A = Database × EffectAttempt × OutboxState} (r3.0.0, r3.0.1, Database.retry)
        (after, next, to) =
      ok_same _ _ r3.2 in
    rw (sym (ap (λ r. r.0) triple), sym (ap (λ r. r.1) triple), sym (ap (λ r. r.2) triple))
      (record {
        confirmed_absent = ground (arith, r1.1);
        within_limit = ground (arith, r2.1);
        to_retry = refl;
        is_next =
            create_retry_attempt-IsNext attempt id report.result_actor report.occurred_at db r3.0.0
              r3.0.1 r3.1;
      })

pub retry_of_cases :
    (absent : Bool) (row : OutboxRow) (attempt : EffectAttempt) (state : OutboxState)
    (report : Report) (db after : Database) (next : EffectAttempt) (to : OutboxState)
    → retry_of absent row attempt state report db ≡ ok (after, next, to)
    → ((after ≡ db) × (next ≡ attempt) × (to ≡ state)) ⊎ Retried absent row attempt next to db after
retry_of_cases absent row attempt state report db after next to done =
    elim (Option-cases report.next_attempt_id) [
      | inl nothing ↦
          inl (ground (arith, nothing), ground (arith, nothing), ground (arith, nothing))
      | inr (id, given) ↦
          inr (
            plan_retry-Retried absent row attempt report id db after next to
              (ground (arith, given)))
    ]
