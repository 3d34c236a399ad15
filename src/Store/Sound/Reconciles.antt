-- ===== src/Store/Sound/Reconciles.antt =====
-- The outcomes of a reconciliation move the row.
use digital_colleagues.Base.{
  ℕ, ◌≡◌, refl, sym, ap, ◌∙◌, ◌≢◌, inl, inr, Bool, true, false, Option, none, some, [], ◌∷◌, arith,
  ◌==◌, nat_eq, string_eq, option_eq, list_eq, ok, ◌>>=◌, require, conflict, >>=-ok_parts, Returns,
  ok_same,
}
use digital_colleagues.Core.Common.{DateTime}
use digital_colleagues.Core.Effects.Attempt
use digital_colleagues.Core.Effects.Attempt.{
  EffectAttempt, EffectAttemptState, started, construct_attempt, ActionResult, construct_result,
}
use digital_colleagues.Store.Contracts.{
  OutboxClaim, ReconciliationOutcome, ReconciliationKind, confirmed_applied, confirmed_absent,
  still_unknown,
}
use digital_colleagues.Store.Records.{datetime_to_z, get_record}
use digital_colleagues.Store.Database
use digital_colleagues.Store.Database.{
  Database, OutboxRow, OutboxState, outbox_key, outbox_state_eq, OutboxState-discrete, dispatching,
  ambiguous_claimed, attempt_columns, update_attempt, insert_result,
}
use digital_colleagues.Store.Outbox.{claim_key, require_outbox_claim}
use digital_colleagues.Store.Dispatch.{
  attempt_state_eq, Report, reported, result_of, retry_of, update_claimed,
}
use digital_colleagues.Store.Reconcile.{
  resolved_result, resolved_attempt, resolved_state, retry_if_absent, resolve, still_waiting,
  waiting, reconcile_row, with_result, without_result, base_delay, reconcile_ambiguous,
}
use digital_colleagues.Store.Sound.{state_of_attempt, IsSound}
use digital_colleagues.Store.Sound.Move.{follows, by_claim, Moved, Moves}
use digital_colleagues.Store.Sound.Writes.{construct_attempt_same}
use digital_colleagues.Store.Sound.Held.{
  Held, require_outbox_claim-Held, held_attempt, update_claimed-Moved,
}
use digital_colleagues.Store.Sound.Settles.{settles_Moves}

-- The state of the row after a known outcome.
resolved_fits :
    (kind : ReconciliationKind)
    → kind ≢ still_unknown
    → (follows ambiguous_claimed (resolved_state kind) ≡ true)
      × (resolved_attempt kind ≡ state_of_attempt (resolved_state kind))
      × (by_claim (resolved_state kind) ≡ false)
      × ((resolved_state kind == Database.retry) ≡ false)
unfolding OutboxState-discrete
resolved_fits confirmed_applied known = (refl, refl, refl, refl)
resolved_fits confirmed_absent known = (refl, refl, refl, refl)
resolved_fits still_unknown known = elim (known refl) [ ]

module _ (claim : OutboxClaim) (db : Database) (sound : IsSound db) (row : OutboxRow)
    (held : Held claim (ambiguous_claimed ∷ []) db row) (attempt : EffectAttempt)
    (read : get_record attempt_columns claim.namespace claim.effect_attempt_id db.attempts
      ≡ ok attempt) where
  was_claimed : row.state ≡ ambiguous_claimed
  was_claimed = ground (arith, held.in_state)

  resolve-Moves :
      (outcome : ReconciliationOutcome) (report : Report) (after : Database) (answer : ActionResult)
      → outcome.kind ≢ still_unknown
      → resolve claim row attempt outcome report db ≡ ok (after, answer)
      → Moves db after
  unfolding resolve
  resolve-Moves outcome report after answer known done =
      let r4 : Returns (construct_attempt (reported (resolved_attempt outcome.kind) report attempt))
          _ (after, answer) =
        >>=-ok_parts _ _ done in
      let r5 : Returns (update_attempt r4.0 attempt.revision db) _ (after, answer) =
        >>=-ok_parts _ _ r4.2 in
      let r6 : Returns
          (construct_result (
            result_of (resolved_result outcome.kind) outcome.safe_projection outcome.result_digest
              report claim.namespace attempt))
          _ (after, answer) =
        >>=-ok_parts _ _ r5.2 in
      let r7 : Returns (insert_result r6.0 r5.0) _ (after, answer) = >>=-ok_parts _ _ r6.2 in
      let r8 : Returns
          (retry_of true row attempt (resolved_state outcome.kind)
            (retry_if_absent outcome.kind report) r7.0)
          _ (after, answer) =
        >>=-ok_parts _ _ r7.2 in
      let r9 : Returns (datetime_to_z report.occurred_at) _ (after, answer) =
        >>=-ok_parts _ _ r8.2 in
      let fits = resolved_fits outcome.kind known in
      settles_Moves claim (ambiguous_claimed ∷ []) db row held sound attempt read
        (resolved_attempt outcome.kind) report r4.0
        (construct_attempt_same (reported (resolved_attempt outcome.kind) report attempt) r4.0 r4.1)
        r5.0 r7.0 r5.1 r6.0 r7.1 (Database.reconciled outcome.kind) (λ row. row.actor_principal_id)
        r9.0 true (resolved_state outcome.kind) r8.0.2 (retry_if_absent outcome.kind report) r8.0.1
        r8.0.0 after r6.0 answer (rw was_claimed fits.0) (rw was_claimed refl) fits.1 fits.2 fits.3
        r8.1 r9.2

  waits_Moved :
      (count : ℕ) (stopped : Bool) (next_attempt_at updated_at : ℕ)
      → Moved db
          (update_claimed claim (waiting count stopped next_attempt_at updated_at) db)
          (claim_key claim)
          row
          (waiting count stopped next_attempt_at updated_at row)
  unfolding OutboxState-discrete
  waits_Moved count stopped next_attempt_at updated_at =
      let (found, same_key, t) =
        held_attempt claim (ambiguous_claimed ∷ []) db row held sound attempt read in
      update_claimed-Moved claim (ambiguous_claimed ∷ []) db row held sound db
        (waiting count stopped next_attempt_at updated_at) attempt
        (record {
          same_outbox = refl;
          same_approvals = refl;
          same_proposals = refl;
          other_attempts = λ b other differ present. present;
        })
        (λ other. refl)
        (record {
          same_key = refl;
          same_proposal = refl;
          same_approval = refl;
          same_effect = refl;
          same_limit = refl;
          next_state = rw was_claimed refl;
          next_number = refl;
          next_token = refl;
          next_revision = omega arith;
        })
        found
        (record {
          same_number = t.same_number;
          same_proposal = t.same_proposal;
          same_approval = t.same_approval;
          state_agrees = t.state_agrees ∙ ap state_of_attempt was_claimed;
          counted = t.counted;
          within_limit = t.within_limit;
        })
        (inl refl)

  still_waiting-Moves :
      (occurred_at : DateTime) (next : Option DateTime) (after : Database)
      → still_waiting claim row occurred_at next db ≡ ok after
      → Moves db after
  unfolding still_waiting
  still_waiting-Moves occurred_at next after done =
      let r1 : Returns (base_delay occurred_at next) _ after = >>=-ok_parts _ _ done in
      let r2 : Returns (datetime_to_z occurred_at) _ after = >>=-ok_parts _ _ r1.2 in
      rw (sym (ok_same _ after r2.2)) (inr (claim_key claim, row, _, waits_Moved _ _ _ _))

resolved-Moves :
    (claim : OutboxClaim) (db : Database) (row : OutboxRow) (attempt : EffectAttempt)
    (outcome : ReconciliationOutcome) (report : Report) (after : Database)
    (answer : Option ActionResult)
    → IsSound db
    → Held claim (ambiguous_claimed ∷ []) db row
    → get_record attempt_columns claim.namespace claim.effect_attempt_id db.attempts ≡ ok attempt
    → outcome.kind ≢ still_unknown
    → (resolve claim row attempt outcome report db >>= with_result) ≡ ok (after, answer)
    → Moves db after
resolved-Moves claim db row attempt outcome report after answer sound held read known done =
    let r : Returns (resolve claim row attempt outcome report db) _ (after, answer) =
      >>=-ok_parts _ _ done in
    let pair : ◌≡◌ {A = Database × Option ActionResult} (r.0.0, some r.0.1) (after, answer) =
      ok_same _ _ r.2 in
    rw (sym (ap (λ r. r.0) pair))
      (resolve-Moves claim db sound row held attempt read outcome report r.0.0 r.0.1 known r.1)

reconciled-Moves :
    (claim : OutboxClaim) (db : Database) (row : OutboxRow) (attempt : EffectAttempt)
    (outcome : ReconciliationOutcome) (report : Report) (next : Option DateTime) (after : Database)
    (answer : Option ActionResult)
    → IsSound db
    → Held claim (ambiguous_claimed ∷ []) db row
    → get_record attempt_columns claim.namespace claim.effect_attempt_id db.attempts ≡ ok attempt
    → reconcile_row claim row attempt outcome report next db ≡ ok (after, answer)
    → (kind : ReconciliationKind) → outcome.kind ≡ kind
    → Moves db after
unfolding reconcile_row
reconciled-Moves claim db row attempt outcome report next after answer sound held read done
      still_unknown e =
    let waits : (still_waiting claim row report.occurred_at next db >>= without_result)
        ≡ ok (after, answer) =
      ground (arith, e) in
    let r : Returns (still_waiting claim row report.occurred_at next db) _ (after, answer) =
      >>=-ok_parts _ _ waits in
    let pair : ◌≡◌ {A = Database × Option ActionResult} (r.0, none) (after, answer) =
      ok_same _ _ r.2 in
    rw (sym (ap (λ r. r.0) pair))
      (still_waiting-Moves claim db sound row held attempt read report.occurred_at next r.0 r.1)
reconciled-Moves claim db row attempt outcome report next after answer sound held read done
      confirmed_applied e =
    resolved-Moves claim db row attempt outcome report after answer sound held read (cc e)
      (ground (arith, e))
reconciled-Moves claim db row attempt outcome report next after answer sound held read done
      confirmed_absent e =
    resolved-Moves claim db row attempt outcome report after answer sound held read (cc e)
      (ground (arith, e))

pub reconcile_ambiguous-Moves :
    (claim : OutboxClaim) (outcome : ReconciliationOutcome) (report : Report)
    (next : Option DateTime) (db after : Database) (answer : Option ActionResult)
    → IsSound db
    → reconcile_ambiguous claim outcome report next db ≡ ok (after, answer)
    → Moves db after
unfolding reconcile_ambiguous
reconcile_ambiguous-Moves claim outcome report next db after answer sound done =
    let r1 : Returns
        (require_outbox_claim claim (ambiguous_claimed ∷ []) (some report.occurred_at) db) _
        (after, answer) =
      >>=-ok_parts _ _ done in
    let r2 : Returns
        (get_record attempt_columns claim.namespace claim.effect_attempt_id db.attempts) _
        (after, answer) =
      >>=-ok_parts _ _ r1.2 in
    let r3 : Returns (require (r2.0.state == Attempt.ambiguous) conflict) _ (after, answer) =
      >>=-ok_parts _ _ r2.2 in
    reconciled-Moves claim db r1.0 r2.0 outcome report next after answer sound
      (require_outbox_claim-Held claim (ambiguous_claimed ∷ []) (some report.occurred_at) db r1.0
        r1.1)
      r2.1 r3.2 outcome.kind refl
