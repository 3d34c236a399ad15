-- ===== src/Store/Sound/Backoff.antt =====
-- How long a reconciliation waits, and how often it is tried.
use digital_colleagues.Base.{
  ℕ, suc, ◌+◌, ◌-◌, ◌*◌, ◌≤◌, ◌≡◌, refl, sym, ap, ◌∙◌, ◌≢◌, Bool, true, false, Option, none, some,
  [], ◌∷◌, arith, ◌==◌, nat_eq, string_eq, option_eq, list_eq, leb, ok, ◌>>=◌, require, conflict,
  >>=-ok_parts, Returns, ok_same,
}
use digital_colleagues.Core.Common.{DateTime, zero_offset}
use digital_colleagues.Core.Effects.Attempt
use digital_colleagues.Core.Effects.Attempt.{EffectAttempt, ActionResult}
use digital_colleagues.Store.Contracts.{
  OutboxClaim, ReconciliationOutcome, ReconciliationKind, still_unknown, confirmed_applied,
  confirmed_absent,
}
use digital_colleagues.Store.Tables.{key_eq, find}
use digital_colleagues.Store.Tables.Keyed.{find-update}
use digital_colleagues.Store.Records.{datetime_to_z, get_record}
use digital_colleagues.Store.Database
use digital_colleagues.Store.Database.{
  Database, OutboxRow, outbox_key, ambiguous_claimed, attempt_columns,
}
use digital_colleagues.Store.Outbox.{ClaimRequest, claimable, claim_key, require_outbox_claim}
use digital_colleagues.Store.Dispatch.{has_lease, attempt_state_eq, Report, update_claimed}
use digital_colleagues.Store.Reconcile.{
  reconciliation_max_backoff, reconciliation_max_calls, min, two_to, reconciliation_count,
  base_delay, waiting, still_waiting, resolve, with_result, without_result, reconcile_row,
  reconcile_ambiguous,
}
use digital_colleagues.Store.Sound.Held.{Held, require_outbox_claim-Held}

-- The row after an answer that leaves the effect unknown.
pub record Waits (claim : OutboxClaim) (at : ℕ) (next : Option DateTime) (db after : Database)
    : Type 0 where
  pub row : OutboxRow
  pub later : OutboxRow
  pub was : find outbox_key (claim_key claim) db.outbox ≡ some row
  pub is : find outbox_key (claim_key claim) after.outbox ≡ some later
  pub is_ambiguous : later.state ≡ Database.ambiguous
  pub not_before : at ≤ later.next_attempt_at
  pub not_after : later.next_attempt_at ≤ at + reconciliation_max_backoff
  pub at_once : next ≡ none → later.next_attempt_at ≡ at
  pub doubled :
      (time : DateTime)
      → next ≡ some time
      → time.offset ≡ zero_offset
      → later.next_attempt_at
        ≡ at
          + min
              ((time.clock - at) * two_to (reconciliation_count row.last_outcome))
              reconciliation_max_backoff
  pub counted :
      reconciliation_count later.last_outcome ≡ suc (reconciliation_count row.last_outcome)
  pub stopped :
      min row.maximum_attempts reconciliation_max_calls
        ≤ suc (reconciliation_count row.last_outcome)
      → (request : ClaimRequest) (now : ℕ) → request.exclude_stopped_reconciliation ≡ true
      → claimable request now later ≡ false

waiting-counts :
    (count : ℕ) (stopped : Bool) (next at : ℕ) (row : OutboxRow)
    → reconciliation_count (waiting count stopped next at row).last_outcome ≡ count
waiting-counts count true next at row = refl
waiting-counts count false next at row = refl

stopped_unclaimable :
    (count next at : ℕ) (row : OutboxRow) (request : ClaimRequest) (now : ℕ)
    → request.exclude_stopped_reconciliation ≡ true
    → claimable request now (waiting count true next at row) ≡ false
unfolding claimable
stopped_unclaimable count next at row request now excluded = ground (arith, excluded)

base_delay-none :
    (occurred_at : DateTime) (next : Option DateTime) (base : ℕ)
    → base_delay occurred_at next ≡ ok base
    → next ≡ none
    → base ≡ 0
unfolding base_delay
base_delay-none occurred_at next base done e = ground (arith, e)

base_delay-utc :
    (occurred_at : DateTime) (next : Option DateTime) (base : ℕ) (time : DateTime)
    → base_delay occurred_at next ≡ ok base
    → next ≡ some time
    → time.offset ≡ zero_offset
    → occurred_at.offset ≡ zero_offset
    → base ≡ time.clock - occurred_at.clock
unfolding base_delay
base_delay-utc occurred_at next base time done e utc utc2 = ground (arith, e, utc, utc2)

utc_of :
    (value : DateTime) (clock : ℕ) → datetime_to_z value ≡ ok clock → value.offset ≡ zero_offset
utc_of value clock done = ground arith

still_waiting-Waits :
    (claim : OutboxClaim) (row : OutboxRow) (occurred_at : DateTime) (next : Option DateTime)
    (db after : Database)
    → Held claim (ambiguous_claimed ∷ []) db row
    → still_waiting claim row occurred_at next db ≡ ok after
    → Waits claim occurred_at.clock next db after
unfolding still_waiting
still_waiting-Waits claim row occurred_at next db after held done =
    let r1 : Returns (base_delay occurred_at next) _ after = >>=-ok_parts _ _ done in
    let r2 : Returns (datetime_to_z occurred_at) _ after = >>=-ok_parts _ _ r1.2 in
    let count : ℕ = reconciliation_count row.last_outcome + 1 in
    let stops : Bool = leb (min row.maximum_attempts reconciliation_max_calls) count in
    let delay : ℕ = min (r1.0 * two_to (count - 1)) reconciliation_max_backoff in
    let change : OutboxRow → OutboxRow = waiting count stops (r2.0 + delay) r2.0 in
    let now : r2.0 ≡ occurred_at.clock = ground (arith, r2.1) in
    rw (sym (ok_same (update_claimed claim change db) after r2.2)) (record {
      row = row;
      later = change row;
      was = held.found;
      is =
          find-update outbox_key (claim_key claim) (has_lease claim) change (λ other same. sym same)
            db.outbox row held.found held.leased;
      is_ambiguous = refl;
      not_before = omega (arith, now);
      not_after = ground (arith, now);
      at_once = λ e.
          let zero_base = base_delay-none occurred_at next r1.0 r1.1 e in
          ground (arith, now, zero_base);
      doubled = λ time e utc.
          let same =
            base_delay-utc occurred_at next r1.0 time r1.1 e utc (utc_of occurred_at r2.0 r2.1) in
          let times : count - 1 ≡ reconciliation_count row.last_outcome = omega arith in
          rw (same, times, now) refl;
      counted = waiting-counts count stops (r2.0 + delay) r2.0 row ∙ omega arith;
      stopped = λ enough request now excluded.
          let e : stops ≡ true = ground (arith, enough) in
          rw e (stopped_unclaimable count (r2.0 + delay) r2.0 row request now excluded);
    })

-- A known outcome leaves a result.
resolved_some :
    (claim : OutboxClaim) (row : OutboxRow) (attempt : EffectAttempt)
    (outcome : ReconciliationOutcome) (report : Report) (db after : Database)
    → (resolve claim row attempt outcome report db >>= with_result) ≢ ok (after, none)
resolved_some claim row attempt outcome report db after done =
    let r : Returns (resolve claim row attempt outcome report db) with_result (after, none) =
      >>=-ok_parts _ _ done in
    let pair : ◌≡◌ {A = Database × Option ActionResult} (r.0.0, some r.0.1) (after, none) =
      ok_same _ _ r.2 in
    let clash : ◌≡◌ {A = Option ActionResult} (some r.0.1) none = ap (λ r. r.1) pair in cc clash

reconcile_row-Waits :
    (claim : OutboxClaim) (row : OutboxRow) (attempt : EffectAttempt)
    (outcome : ReconciliationOutcome) (report : Report) (next : Option DateTime)
    (db after : Database)
    → Held claim (ambiguous_claimed ∷ []) db row
    → reconcile_row claim row attempt outcome report next db ≡ ok (after, none)
    → (kind : ReconciliationKind) → outcome.kind ≡ kind
    → Waits claim report.occurred_at.clock next db after
unfolding reconcile_row
reconcile_row-Waits claim row attempt outcome report next db after held done still_unknown e =
    let waits : (still_waiting claim row report.occurred_at next db >>= without_result)
        ≡ ok (after, none) =
      ground (arith, e) in
    let r : Returns (still_waiting claim row report.occurred_at next db) without_result
        (after, none) =
      >>=-ok_parts _ _ waits in
    let pair : ◌≡◌ {A = Database × Option ActionResult} (r.0, none) (after, none) =
      ok_same _ _ r.2 in
    rw (sym (ap (λ r. r.0) pair))
      (still_waiting-Waits claim row report.occurred_at next db r.0 held r.1)
reconcile_row-Waits claim row attempt outcome report next db after held done confirmed_applied e =
    elim (resolved_some claim row attempt outcome report db after (ground (arith, e))) [ ]
reconcile_row-Waits claim row attempt outcome report next db after held done confirmed_absent e =
    elim (resolved_some claim row attempt outcome report db after (ground (arith, e))) [ ]

-- Where `reconcile_ambiguous` returns no result, the row of the claim is `ambiguous` again, its
-- next attempt is due at the time of the report or at most 30 seconds later: at once where no
-- time was given, and for a time given in UTC after the delay until then, doubled for each
-- answer before that left the effect unknown, or after 30 seconds if that is less. The number of
-- such answers has grown by one; where that number is at least the smaller of the row's maximum
-- of attempts and 8, no request that excludes stopped reconciliations can claim the row that is
-- left.
pub reconcile_ambiguous-Waits :
    (claim : OutboxClaim) (outcome : ReconciliationOutcome) (report : Report)
    (next : Option DateTime) (db after : Database)
    → reconcile_ambiguous claim outcome report next db ≡ ok (after, none)
    → Waits claim report.occurred_at.clock next db after
unfolding reconcile_ambiguous
reconcile_ambiguous-Waits claim outcome report next db after done =
    let r1 : Returns
        (require_outbox_claim claim (ambiguous_claimed ∷ []) (some report.occurred_at) db) _
        (after, none) =
      >>=-ok_parts _ _ done in
    let r2 : Returns
        (get_record attempt_columns claim.namespace claim.effect_attempt_id db.attempts) _
        (after, none) =
      >>=-ok_parts _ _ r1.2 in
    let r3 : Returns (require (r2.0.state == Attempt.ambiguous) conflict) _ (after, none) =
      >>=-ok_parts _ _ r2.2 in
    reconcile_row-Waits claim r1.0 r2.0 outcome report next db after
      (require_outbox_claim-Held claim (ambiguous_claimed ∷ []) (some report.occurred_at) db r1.0
        r1.1)
      r3.2 outcome.kind refl
