-- ===== src/Tests/Store/Laws.antt =====
-- The properties of the store at the databases of the run.
use digital_colleagues.Base.{
  ◌≡◌, refl, inl, true, false, Option, none, some, [], ◌∷◌, String, nat_eq, string_eq, option_eq,
  list_eq, ok, err, conflict,
}
use digital_colleagues.Core.Common.{DateTime}
use digital_colleagues.Store.Contracts
use digital_colleagues.Store.Contracts.{ChannelOutcome, ReconciliationOutcome}
use digital_colleagues.Store.Tables.{Key, Key-discrete, find}
use digital_colleagues.Store.Tables.Keyed.{distinct_keys}
use digital_colleagues.Store.Database.{OutboxRow, outbox_key, ambiguous, ambiguous_claimed}
use digital_colleagues.Store.Outbox.{ClaimRequest}
use digital_colleagues.Store.Dispatch.{Report, mark_dispatch_started, finalize_dispatch}
use digital_colleagues.Store.Reconcile.{reconcile_ambiguous}
use digital_colleagues.Store.Bundle.{load_dispatch_bundle}
use digital_colleagues.Store.Approve.{commit_approval_and_attempt}
use digital_colleagues.Store.Sound.{IsSound}
use digital_colleagues.Store.Sound.Order.{Answers, claim_outbox_state-Answers}
use digital_colleagues.Store.Sound.Backoff.{Waits, reconcile_ambiguous-Waits}
use digital_colleagues.Store.Sound.Again.{commit_approval_and_attempt_again}
use digital_colleagues.Store.History
use digital_colleagues.Store.History.{Reach, here, next, Reach-IsSound, empty_outbox-IsSound}
use digital_colleagues.Store.History.Later.{Lives, Reach-Lives}
use digital_colleagues.Store.History.Fencing.{to_dispatch, superseded_claim_refused, settled_stays}
use digital_colleagues.Store.History.Authority.{IsAuthorized, mark_dispatch_started-IsAuthorized}
use digital_colleagues.Tests.Samples.{running, at, office}
use digital_colleagues.Tests.Effects.{approval, approval_constructed, zeros}
use digital_colleagues.Tests.Store.{
  empty_store, approving, committed, first_row, commits, claim, claimed_once, claims_once,
  claimed_twice, claims_twice, dispatching, started_attempt, starts, first_attempt,
}
use digital_colleagues.Tests.Store.Runs.{
  report, unclear, reported, reports, checking, checks, answer, waiting, waits, row_finished,
  finished, finishes,
}

-- What the recovery of a dispatch digests has no part in the run.
abbrev recovery_digest : String → String
recovery_digest key = zeros

to_committed : Reach recovery_digest empty_store committed
to_committed = next here (History.approves approving _ commits)

to_claimed_twice : Reach recovery_digest empty_store claimed_twice
to_claimed_twice =
    next (next to_committed (History.claims office "one" (at 40) (at 45) _ claims_once))
      (History.claims office "two" (at 50) (at 80) _ claims_twice)

to_finished : Reach recovery_digest committed finished
to_finished =
    next
      (next
        (next
          (next
            (next (next here (History.claims office "one" (at 40) (at 45) _ claims_once))
              (History.claims office "two" (at 50) (at 80) _ claims_twice))
            (History.starts (claim "two" 80 2) (at 55) _ starts))
          (History.finishes (claim "two" 80 2) unclear (report "r-1" 60) _ reports))
        (History.claims_ambiguous office "three" (at 70) (at 99) _ checks))
      (History.reconciles (claim "three" 99 3) (answer Contracts.confirmed_applied)
        (report "r-2" 75) none _ finishes)

committed-IsSound : IsSound committed
committed-IsSound = Reach-IsSound recovery_digest empty_store committed refl to_committed

Reach-IsSound_example : IsSound claimed_twice
Reach-IsSound_example =
    Reach-IsSound recovery_digest empty_store claimed_twice refl to_claimed_twice

abbrev key : Key
key = record { namespace = office; id = "outbox-1" }

first_found : find outbox_key key committed.outbox ≡ some first_row
unfolding running Key-discrete
first_found = refl

Reach-Lives_example :
    (later : OutboxRow) × (find outbox_key key finished.outbox ≡ some later) × Lives first_row later
Reach-Lives_example =
    Reach-Lives recovery_digest committed finished key first_row committed-IsSound to_finished
      first_found

mark_dispatch_started-IsAuthorized_example :
    IsAuthorized (claim "two" 80 2) started_attempt claimed_twice
mark_dispatch_started-IsAuthorized_example =
    mark_dispatch_started-IsAuthorized recovery_digest empty_store claimed_twice dispatching
      (claim "two" 80 2) (at 55) started_attempt refl to_claimed_twice starts

superseded_claim_refused_example :
    ((mandate_id : String)
      → load_dispatch_bundle (claim "one" 45 1) mandate_id claimed_twice ≡ err conflict)
    × ((time : DateTime)
        → mark_dispatch_started (claim "one" 45 1) time claimed_twice ≡ err conflict)
    × ((outcome : ChannelOutcome) (given : Report)
        → finalize_dispatch (claim "one" 45 1) outcome given claimed_twice ≡ err conflict)
    × ((outcome : ReconciliationOutcome) (given : Report) (again : Option DateTime)
        → reconcile_ambiguous (claim "one" 45 1) outcome given again claimed_twice ≡ err conflict)
superseded_claim_refused_example =
    superseded_claim_refused recovery_digest committed claimed_once claimed_once claimed_twice
      claimed_twice (claim "one" 45 1) (claim "two" 80 2) committed-IsSound
      (to_dispatch office "one" (at 40) (at 45) claims_once) here
      (to_dispatch office "two" (at 50) (at 80) claims_twice) here refl

finished-IsSound : IsSound finished
finished-IsSound =
    History.onwards-IsSound recovery_digest committed finished committed-IsSound to_finished

finished_found : find outbox_key key finished.outbox ≡ some row_finished
unfolding running Key-discrete
finished_found = refl

settled_stays_example : find outbox_key key finished.outbox ≡ some row_finished
settled_stays_example =
    settled_stays recovery_digest finished finished key row_finished finished-IsSound here
      finished_found (inl refl)

abbrev next_request : ClaimRequest
next_request = record {
  namespace = office;
  owner = "three";
  now = at 70;
  lease_until = at 99;
  source_states = ambiguous ∷ ambiguous_claimed ∷ [];
  target_state = ambiguous_claimed;
  exclude_stopped_reconciliation = true;
}

one_key : distinct_keys outbox_key reported.outbox ≡ true
unfolding running Key-discrete
one_key = refl

claim_outbox_state-Answers_example :
    Answers next_request reported checking (some (claim "three" 99 3))
claim_outbox_state-Answers_example =
    claim_outbox_state-Answers next_request reported checking (some (claim "three" 99 3)) one_key
      checks

reconcile_ambiguous-Waits_example : Waits (claim "three" 99 3) 75 (some (at 76)) checking waiting
reconcile_ambiguous-Waits_example =
    reconcile_ambiguous-Waits (claim "three" 99 3) (answer Contracts.still_unknown)
      (report "r-2" 75) (some (at 76)) checking waiting waits

commit_approval_and_attempt_again_example :
    commit_approval_and_attempt approving committed
    ≡ ok (committed, record { decision = approval; attempt = some first_attempt; created = false })
commit_approval_and_attempt_again_example =
    commit_approval_and_attempt_again approving empty_store committed
      (record { decision = approval; attempt = some first_attempt; created = true })
      (empty_outbox-IsSound recovery_digest empty_store refl) approval_constructed commits refl
