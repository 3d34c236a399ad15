-- ===== src/Store/History.antt =====
-- The transactions of the outbox as steps, and what holds after any number of them.
pub mod Later
pub mod Fencing
pub mod Authority
use digital_colleagues.Base.{
  ℕ, zero, suc, ◌+◌, ◌-◌, ◌*◌, ◌/◌, ◌%◌, ◌≤◌, ◌<◌, ◌≡◌, refl, sym, ap, ◌∙◌, ◌≢◌, ◌↔◌, ◌⊎◌, inl, inr,
  Bool, true, false, not, ◌&&◌, ◌||◌, Option, none, some, List, [], ◌∷◌, ◌++◌, map, String, arith,
  Eq, ◌==◌, nat_eq, string_eq, option_eq, list_eq, List-discrete, Option-discrete, String-discrete,
  ℕ_discrete, ltb, leb, if◌then◌else◌, Bool-cases, Error, Result, ok, err, ◌>>=◌, ◌>>◌, require,
  core_invariant, namespace_mismatch, revision_mismatch, authorization, replay, lifecycle,
  not_found, conflict, permission_denied, persistence, integrity, >>=-ok_parts, Returns, ok_same,
  Option-cases, or_raise, or_raise-some,
}
use digital_colleagues.Core.Common.{DateTime}
use digital_colleagues.Core.Namespace.{Namespace}
use digital_colleagues.Core.Principals.{Principal}
use digital_colleagues.Core.Effects.{EffectProposal}
use digital_colleagues.Core.Effects.Attempt.{EffectAttempt, ActionResult}
use digital_colleagues.Store.Contracts.{OutboxClaim, ChannelOutcome, ReconciliationOutcome}
use digital_colleagues.Store.Tables.{Key, find}
use digital_colleagues.Store.Database.{Database, outbox_key, insert_proposal}
use digital_colleagues.Store.Outbox.{claim_outbox, claim_ambiguous}
use digital_colleagues.Store.Dispatch.{Report, mark_dispatch_started, finalize_dispatch}
use digital_colleagues.Store.Dispatch.Recovery.{recover_expired_dispatches}
use digital_colleagues.Store.Reconcile.{reconcile_ambiguous}
use digital_colleagues.Store.Approve.Rows.{Approving}
use digital_colleagues.Store.Approve.{Approved, commit_approval_and_attempt}
use digital_colleagues.Store.Sound.{IsSound}
use digital_colleagues.Store.Sound.Move.{Moves, Moves-IsSound}
use digital_colleagues.Store.Sound.Claims.{claim_outbox-Moves, claim_ambiguous-Moves}
use digital_colleagues.Store.Sound.Starts.{mark_dispatch_started-Moves}
use digital_colleagues.Store.Sound.Outcomes.{
  finalize_dispatch-Moves, recover_expired_dispatches-Moves,
}
use digital_colleagues.Store.Sound.Reconciles.{reconcile_ambiguous-Moves}
use digital_colleagues.Store.Sound.Grow.{Grows, Grows-IsSound}
use digital_colleagues.Store.Sound.Approves.{
  commit_approval_and_attempt-Grows, insert_proposal-Grows,
}

module _ (recovery_digest : String → String) where
  -- The transactions that return. One that raises leaves the database as it was.
  pub data Step (db after : Database) : Type 0 where
    approves :
        (self : Approving) (answer : Approved)
        → commit_approval_and_attempt self db ≡ ok (after, answer)
        → Step db after
    proposes : (self : EffectProposal) → insert_proposal self db ≡ ok after → Step db after
    claims :
        (namespace : Namespace) (owner : String) (now lease_until : DateTime)
        (answer : Option OutboxClaim)
        → claim_outbox namespace owner now lease_until db ≡ ok (after, answer)
        → Step db after
    claims_ambiguous :
        (namespace : Namespace) (owner : String) (now lease_until : DateTime)
        (answer : Option OutboxClaim)
        → claim_ambiguous namespace owner now lease_until db ≡ ok (after, answer)
        → Step db after
    starts :
        (claim : OutboxClaim) (occurred_at : DateTime) (answer : EffectAttempt)
        → mark_dispatch_started claim occurred_at db ≡ ok (after, answer)
        → Step db after
    finishes :
        (claim : OutboxClaim) (outcome : ChannelOutcome) (report : Report) (answer : ActionResult)
        → finalize_dispatch claim outcome report db ≡ ok (after, answer)
        → Step db after
    recovers :
        (namespace : Namespace) (now : DateTime) (actor : Principal) (result_id : String)
        (count : ℕ)
        → recover_expired_dispatches recovery_digest namespace now actor result_id db
          ≡ ok (after, count)
        → Step db after
    reconciles :
        (claim : OutboxClaim) (outcome : ReconciliationOutcome) (report : Report)
        (next : Option DateTime) (answer : Option ActionResult)
        → reconcile_ambiguous claim outcome report next db ≡ ok (after, answer)
        → Step db after

  -- Each transaction moves one row of the outbox, or adds records and rows.
  pub Step_cases :
      (db after : Database) → IsSound db → Step db after → Moves db after ⊎ Grows db after
  Step_cases db after sound (approves self answer done) =
      inr (commit_approval_and_attempt-Grows self db after answer done)
  Step_cases db after sound (proposes self done) = inr (insert_proposal-Grows self db after done)
  Step_cases db after sound (claims namespace owner now lease_until answer done) =
      inl (claim_outbox-Moves namespace owner now lease_until db after answer sound done)
  Step_cases db after sound (claims_ambiguous namespace owner now lease_until answer done) =
      inl (claim_ambiguous-Moves namespace owner now lease_until db after answer sound done)
  Step_cases db after sound (starts claim occurred_at answer done) =
      inl (mark_dispatch_started-Moves claim occurred_at db after answer sound done)
  Step_cases db after sound (finishes claim outcome report answer done) =
      inl (finalize_dispatch-Moves claim outcome report db after answer sound done)
  Step_cases db after sound (recovers namespace now actor result_id count done) = inl (
      recover_expired_dispatches-Moves recovery_digest namespace now actor result_id db after count
        sound done)
  Step_cases db after sound (reconciles claim outcome report next answer done) =
      inl (reconcile_ambiguous-Moves claim outcome report next db after answer sound done)

  pub Step-IsSound : (db after : Database) → IsSound db → Step db after → IsSound after
  Step-IsSound db after sound step = elim (Step_cases db after sound step) [
    | inl moves ↦ Moves-IsSound db after moves sound
    | inr grows ↦ Grows-IsSound db after grows sound
  ]

  -- Runs of transactions.
  pub data Reach (db : Database) : Database → Type 0 where
    here : Reach db db
    next : {middle after : Database} → Reach db middle → Step middle after → Reach db after

  pub onwards-IsSound : (db after : Database) → IsSound db → Reach db after → IsSound after
  onwards-IsSound db _ sound here = sound
  onwards-IsSound db after sound (next {middle = middle} run step) =
      Step-IsSound middle after (onwards-IsSound db middle sound run) step

  -- A database whose outbox is empty is sound.
  pub empty_outbox-IsSound : (db : Database) → db.outbox ≡ [] → IsSound db
  empty_outbox-IsSound db empty = record {
    keyed = rw empty refl;
    tracked = λ k row found. cc (found, nothing k);
    apart = λ k l row other found found2 same. cc (found, nothing k);
    backed = λ k row found. cc (found, nothing k);
  }
    where
      nothing : (k : Key) → find outbox_key k db.outbox ≡ none
      nothing k = rw empty refl

  -- Every database that the transactions of the outbox lead to from an empty outbox is sound: its
  -- rows have distinct keys, and no two rows cite one attempt; the attempt that a row cites is kept
  -- with the number, the proposal and the approval of the row, in the state that the state of the
  -- row calls for, and its number is between 1 and the row's maximum of attempts; and the approval
  -- that a row cites is kept as a human's, approves, and names the revision and the digest of the
  -- proposal that the row cites, whose idempotency key and maximum of attempts are the row's.
  pub Reach-IsSound : (db after : Database) → db.outbox ≡ [] → Reach db after → IsSound after
  Reach-IsSound db after empty run = onwards-IsSound db after (empty_outbox-IsSound db empty) run
