-- ===== src/Store/Sound/Starts.antt =====
-- The start of a dispatch moves the row.
use digital_colleagues.Base.{
  ℕ, ◌+◌, ◌≡◌, refl, sym, inl, none, [], ◌∷◌, arith, ◌==◌, nat_eq, string_eq, option_eq, list_eq,
  ok, require, conflict, >>=-ok_parts, Returns,
}
use digital_colleagues.Core.Common.{DateTime}
use digital_colleagues.Core.Effects.Attempt.{EffectAttempt, planned, started, construct_attempt}
use digital_colleagues.Store.Contracts.{OutboxClaim}
use digital_colleagues.Store.Tables.{key_eq}
use digital_colleagues.Store.Records.{datetime_to_z, get_record}
use digital_colleagues.Store.Database.{
  Database, OutboxRow, outbox_state_eq, OutboxState-discrete, claimed, dispatching, attempt_columns,
  update_attempt,
}
use digital_colleagues.Store.Outbox.{claim_key, require_outbox_claim}
use digital_colleagues.Store.Dispatch.{attempt_state_eq, update_claimed, mark_dispatch_started}
use digital_colleagues.Store.Sound.{attempt_key, cited_attempt, IsSound}
use digital_colleagues.Store.Sound.Move.{Moved, Moves, Moves-ok}
use digital_colleagues.Store.Sound.Writes.{update_attempt-Keeps, construct_attempt_same}
use digital_colleagues.Store.Sound.Held.{
  Held, require_outbox_claim-Held, held_attempt, update_claimed-Moved,
}

abbrev pub start : DateTime → EffectAttempt → EffectAttempt
start occurred_at attempt = record attempt {
  state = started;
  occurred_at = occurred_at;
  revision = attempt.revision + 1;
}

abbrev pub begun : ℕ → OutboxRow → OutboxRow
begun at row = record row { state = dispatching; updated_at = at; revision = row.revision + 1 }

starts_Moved :
    (claim : OutboxClaim) (occurred_at : DateTime) (db written : Database) (row : OutboxRow)
    (attempt next : EffectAttempt) (at : ℕ)
    → IsSound db
    → Held claim (claimed ∷ []) db row
    → get_record attempt_columns claim.namespace claim.effect_attempt_id db.attempts ≡ ok attempt
    → next ≡ start occurred_at attempt
    → update_attempt next attempt.revision db ≡ ok written
    → Moved db (update_claimed claim (begun at) written) (claim_key claim) row (begun at row)
unfolding OutboxState-discrete
starts_Moved claim occurred_at db written row attempt next at sound held read made wrote =
    let (found, same_key, t) = held_attempt claim (claimed ∷ []) db row held sound attempt read in
    let (keeps, kept) = update_attempt-Keeps next attempt.revision db written wrote in
    let cited : attempt_key next ≡ cited_attempt row = rw made same_key in
    let was_claimed : row.state ≡ claimed = ground (arith, held.in_state) in
    update_claimed-Moved claim (claimed ∷ []) db row held sound written (begun at) next
      (rw (sym cited) keeps) (λ other. refl)
      (record {
        same_key = refl;
        same_proposal = refl;
        same_approval = refl;
        same_effect = refl;
        same_limit = refl;
        next_state = rw was_claimed refl;
        next_number = refl;
        next_token = refl;
        next_revision = omega arith;
      })
      (rw (sym cited) kept)
      (rw made (record {
        same_number = t.same_number;
        same_proposal = t.same_proposal;
        same_approval = t.same_approval;
        state_agrees = refl;
        counted = t.counted;
        within_limit = t.within_limit;
      }))
      (inl refl)

pub mark_dispatch_started-Moves :
    (claim : OutboxClaim) (occurred_at : DateTime) (db after : Database) (answer : EffectAttempt)
    → IsSound db
    → mark_dispatch_started claim occurred_at db ≡ ok (after, answer)
    → Moves db after
unfolding mark_dispatch_started
mark_dispatch_started-Moves claim occurred_at db after answer sound done =
    let r1 : Returns (require_outbox_claim claim (claimed ∷ []) none db) _ (after, answer) =
      >>=-ok_parts _ _ done in
    let r2 : Returns
        (get_record attempt_columns claim.namespace claim.effect_attempt_id db.attempts) _
        (after, answer) =
      >>=-ok_parts _ _ r1.2 in
    let r3 : Returns (require (r2.0.state == planned) conflict) _ (after, answer) =
      >>=-ok_parts _ _ r2.2 in
    let r4 : Returns (construct_attempt (start occurred_at r2.0)) _ (after, answer) =
      >>=-ok_parts _ _ r3.2 in
    let r5 : Returns (update_attempt r4.0 r2.0.revision db) _ (after, answer) =
      >>=-ok_parts _ _ r4.2 in
    let r6 : Returns (datetime_to_z occurred_at) _ (after, answer) = >>=-ok_parts _ _ r5.2 in
    Moves-ok db (update_claimed claim (begun r6.0) r5.0) after (claim_key claim) r1.0
      (begun r6.0 r1.0) r4.0 answer
      (starts_Moved claim occurred_at db r5.0 r1.0 r2.0 r4.0 r6.0 sound
        (require_outbox_claim-Held claim (claimed ∷ []) none db r1.0 r1.1) r2.1
        (construct_attempt_same (start occurred_at r2.0) r4.0 r4.1) r5.1)
      r6.2
