-- ===== src/Store/Sound/Outcomes.antt =====
-- The outcomes of a dispatch and of a reconciliation move the row.
use digital_colleagues.Base.{
  ℕ, ◌≡◌, refl, sym, ap, inl, inr, true, false, none, [], ◌∷◌, String, arith, ◌==◌, nat_eq,
  string_eq, option_eq, list_eq, ok, require, conflict, >>=-ok_parts, Returns, ok_same,
  Option-cases,
}
use digital_colleagues.Core.Common.{DateTime}
use digital_colleagues.Core.Namespace.{Namespace}
use digital_colleagues.Core.Principals.{Principal}
use digital_colleagues.Core.Effects.Attempt.{
  started, construct_attempt, ActionResult, construct_result,
}
use digital_colleagues.Store.Contracts.{
  OutboxClaim, ChannelOutcome, ChannelOutcomeKind, construct_outcome, ReconciliationOutcome,
  ReconciliationKind, confirmed_applied, confirmed_absent, still_unknown,
}
use digital_colleagues.Store.Contracts
use digital_colleagues.Store.Tables.Earliest.{earliest}
use digital_colleagues.Store.Records.{datetime_to_z, get_record}
use digital_colleagues.Store.Database
use digital_colleagues.Store.Database.{
  Database, OutboxRow, OutboxState, outbox_key, outbox_state_eq, OutboxState-discrete, dispatching,
  ambiguous_claimed, attempt_columns, update_attempt, insert_result,
}
use digital_colleagues.Store.Outbox.{require_outbox_claim}
use digital_colleagues.Store.Dispatch.{
  attempt_state_eq, Report, reported, result_of, result_state_of, attempt_state_of, outbox_state_of,
  is_absent, retry_of, finalize_dispatch,
}
use digital_colleagues.Store.Dispatch.Recovery.{
  expired_dispatch, lease_before, recorded_claim, synthetic, recover_row,
  recover_expired_dispatches,
}
use digital_colleagues.Store.Sound.{state_of_attempt, IsSound}
use digital_colleagues.Store.Sound.Move.{follows, by_claim, Moves}
use digital_colleagues.Store.Sound.Writes.{construct_attempt_same}
use digital_colleagues.Store.Sound.Held.{require_outbox_claim-Held}
use digital_colleagues.Store.Sound.Settles.{settles_Moves}

-- The state of the row after an outcome.
outbox_state_of_fits :
    (kind : ChannelOutcomeKind)
    → (follows dispatching (outbox_state_of kind) ≡ true)
      × (attempt_state_of kind ≡ state_of_attempt (outbox_state_of kind))
      × (by_claim (outbox_state_of kind) ≡ false)
      × ((outbox_state_of kind == Database.retry) ≡ false)
unfolding OutboxState-discrete
outbox_state_of_fits Contracts.succeeded = (refl, refl, refl, refl)
outbox_state_of_fits Contracts.known_not_executed = (refl, refl, refl, refl)
outbox_state_of_fits Contracts.retryable_failure = (refl, refl, refl, refl)
outbox_state_of_fits Contracts.permanent_failure = (refl, refl, refl, refl)
outbox_state_of_fits Contracts.ambiguous = (refl, refl, refl, refl)

pub finalize_dispatch-Moves :
    (claim : OutboxClaim) (outcome : ChannelOutcome) (report : Report) (db after : Database)
    (answer : ActionResult)
    → IsSound db
    → finalize_dispatch claim outcome report db ≡ ok (after, answer)
    → Moves db after
unfolding finalize_dispatch
finalize_dispatch-Moves claim outcome report db after answer sound done =
    let r1 : Returns (require_outbox_claim claim (dispatching ∷ []) none db) _ (after, answer) =
      >>=-ok_parts _ _ done in
    let r2 : Returns
        (get_record attempt_columns claim.namespace claim.effect_attempt_id db.attempts) _
        (after, answer) =
      >>=-ok_parts _ _ r1.2 in
    let r3 : Returns (require (r2.0.state == started) conflict) _ (after, answer) =
      >>=-ok_parts _ _ r2.2 in
    let r4 : Returns (construct_attempt (reported (attempt_state_of outcome.kind) report r2.0)) _
        (after, answer) =
      >>=-ok_parts _ _ r3.2 in
    let r5 : Returns (update_attempt r4.0 r2.0.revision db) _ (after, answer) =
      >>=-ok_parts _ _ r4.2 in
    let r6 : Returns
        (construct_result (
          result_of (result_state_of outcome.kind) outcome.safe_projection outcome.result_digest
            report claim.namespace r2.0))
        _ (after, answer) =
      >>=-ok_parts _ _ r5.2 in
    let r7 : Returns (insert_result r6.0 r5.0) _ (after, answer) = >>=-ok_parts _ _ r6.2 in
    let r8 : Returns
        (retry_of (is_absent outcome.kind) r1.0 r2.0 (outbox_state_of outcome.kind) report r7.0) _
        (after, answer) =
      >>=-ok_parts _ _ r7.2 in
    let r9 : Returns (datetime_to_z report.occurred_at) _ (after, answer) = >>=-ok_parts _ _ r8.2 in
    let held = require_outbox_claim-Held claim (dispatching ∷ []) none db r1.0 r1.1 in
    let was : r1.0.state ≡ dispatching = ground (arith, held.in_state) in
    let fits = outbox_state_of_fits outcome.kind in
    settles_Moves claim (dispatching ∷ []) db r1.0 held sound r2.0 r2.1
      (attempt_state_of outcome.kind) report r4.0
      (construct_attempt_same (reported (attempt_state_of outcome.kind) report r2.0) r4.0 r4.1) r5.0
      r7.0 r5.1 r6.0 r7.1 (Database.channel outcome.kind) (λ row. report.result_actor.principal_id)
      r9.0 (is_absent outcome.kind) (outbox_state_of outcome.kind) r8.0.2 report r8.0.1 r8.0.0 after
      r6.0 answer (rw was fits.0) (rw was refl) fits.1 fits.2 fits.3 r8.1 r9.2

-- A recovery that returns moves a row, or finds none.
module _ (recovery_digest : String → String) where
  recover_row-Moves :
      (namespace : Namespace) (now : DateTime) (actor : Principal) (result_id : String)
      (row : OutboxRow) (db after : Database) (count : ℕ)
      → IsSound db
      → recover_row recovery_digest namespace now actor result_id row db ≡ ok (after, count)
      → Moves db after
  unfolding recover_row
  recover_row-Moves namespace now actor result_id row db after count sound done =
      let r1 : Returns (recorded_claim namespace row) _ (after, count) = >>=-ok_parts _ _ done in
      let r2 : Returns (construct_outcome (synthetic recovery_digest r1.0)) _ (after, count) =
        >>=-ok_parts _ _ r1.2 in
      let report : Report = record {
        action_result_id = result_id;
        result_actor = actor;
        occurred_at = now;
        next_attempt_id = none;
      } in
      let r3 : Returns (finalize_dispatch r1.0 r2.0 report db) _ (after, count) =
        >>=-ok_parts _ _ r2.2 in
      let pair : ◌≡◌ {A = Database × ℕ} (r3.0.0, 1) (after, count) = ok_same _ _ r3.2 in
      rw (sym (ap (λ r. r.0) pair))
        (finalize_dispatch-Moves r1.0 r2.0 report db r3.0.0 r3.0.1 sound r3.1)

  pub recover_expired_dispatches-Moves :
      (namespace : Namespace) (now : DateTime) (actor : Principal) (result_id : String)
      (db after : Database) (count : ℕ)
      → IsSound db
      → recover_expired_dispatches recovery_digest namespace now actor result_id db
        ≡ ok (after, count)
      → Moves db after
  unfolding recover_expired_dispatches
  recover_expired_dispatches-Moves namespace now actor result_id db after count sound done =
      elim (Option-cases (earliest (expired_dispatch namespace now.clock) lease_before db.outbox)) [
        | inl nothing ↦ inl (ground (arith, nothing))
        | inr (row, chosen) ↦
            recover_row-Moves namespace now actor result_id row db after count sound
              (ground (arith, chosen))
      ]
