-- ===== src/Store/History/Fencing.antt =====
-- A claim that another one has superseded is refused.
use digital_colleagues.Base.{
  ◌≤◌, ◌<◌, ◌≡◌, refl, sym, ap, ◌⊎◌, inl, inr, false, Option, none, some, List, String, arith,
  nat_eq, string_eq, option_eq, list_eq, ok, err, conflict,
}
use digital_colleagues.Core.Common.{DateTime}
use digital_colleagues.Core.Namespace.{Namespace}
use digital_colleagues.Store.Contracts.{OutboxClaim, ChannelOutcome, ReconciliationOutcome}
use digital_colleagues.Store.Tables.{Key, key_eq, find}
use digital_colleagues.Store.Database.{
  Database, OutboxRow, OutboxState, outbox_key, outbox_state_eq, completed, terminal_failed,
}
use digital_colleagues.Store.Outbox.{
  claim_outbox, claim_ambiguous, claim_key, is_held_by, require_outbox_claim,
}
use digital_colleagues.Store.Dispatch.{Report, mark_dispatch_started, finalize_dispatch}
use digital_colleagues.Store.Reconcile.{reconcile_ambiguous}
use digital_colleagues.Store.Bundle.{load_dispatch_bundle}
use digital_colleagues.Store.Sound.{IsSound}
use digital_colleagues.Store.Sound.Move.{follows, Advances, Moves-IsSound}
use digital_colleagues.Store.Sound.Claims.{
  Grants, claim_outbox_state-Grants, claim_outbox-Moves, claim_ambiguous-Moves,
}
use digital_colleagues.Store.History.{Reach, onwards-IsSound}
use digital_colleagues.Store.History.Later.{Lives, same, advance, Reach-Lives}

advance_token :
    (row after : OutboxRow) → Advances row after → row.fencing_token ≤ after.fencing_token
advance_token row after step = ground (arith, step.next_token)

Lives-token : (row later : OutboxRow) → Lives row later → row.fencing_token ≤ later.fencing_token
Lives-token row _ same = omega arith
Lives-token row later (advance {middle = middle} lives step) =
    omega (arith, Lives-token row middle lives, advance_token middle later step)

-- No state follows the end of an effect.
Lives-settled :
    (row later : OutboxRow)
    → ((state : OutboxState) → follows row.state state ≡ false)
    → Lives row later
    → later ≡ row
Lives-settled row _ final same = refl
Lives-settled row later final (advance {middle = middle} lives step) =
    let e : middle ≡ row = Lives-settled row middle final lives in
    cc (final later.state, step.next_state, e)

stale_refused :
    (claim : OutboxClaim) (states : List OutboxState) (at : Option DateTime) (db : Database)
    (row : OutboxRow)
    → find outbox_key (claim_key claim) db.outbox ≡ some row
    → claim.fencing_token < row.fencing_token
    → require_outbox_claim claim states at db ≡ err conflict
unfolding require_outbox_claim is_held_by
stale_refused claim states at db row found older = ground (arith, found)

-- A claim that the store hands out.
pub data Claims (db after : Database) (claim : OutboxClaim) : Type 0 where
  to_dispatch :
      (namespace : Namespace) (owner : String) (now lease_until : DateTime)
      → claim_outbox namespace owner now lease_until db ≡ ok (after, some claim)
      → Claims db after claim
  to_reconcile :
      (namespace : Namespace) (owner : String) (now lease_until : DateTime)
      → claim_ambiguous namespace owner now lease_until db ≡ ok (after, some claim)
      → Claims db after claim

Claims-Grants :
    (db after : Database) (claim : OutboxClaim)
    → IsSound db
    → Claims db after claim
    → Grants db after claim
Claims-Grants db after claim sound (to_dispatch namespace owner now lease_until done) =
    claim_outbox_state-Grants _ db after claim sound done
Claims-Grants db after claim sound (to_reconcile namespace owner now lease_until done) =
    claim_outbox_state-Grants _ db after claim sound done

Claims-IsSound :
    (db after : Database) (claim : OutboxClaim) → IsSound db → Claims db after claim → IsSound after
Claims-IsSound db after claim sound (to_dispatch namespace owner now lease_until done) =
    Moves-IsSound db after
      (claim_outbox-Moves namespace owner now lease_until db after (some claim) sound done) sound
Claims-IsSound db after claim sound (to_reconcile namespace owner now lease_until done) =
    Moves-IsSound db after
      (claim_ambiguous-Moves namespace owner now lease_until db after (some claim) sound done) sound

module _ (recovery_digest : String → String) where
  -- Two claims of one outbox row that a sound store hands out one after the other, with any
  -- transactions of the outbox between them and after them: once the second is handed out, the first
  -- is refused with a conflict wherever a claim is asked for, whether it is to load the bundle, to
  -- start the dispatch, to report its outcome or to reconcile it.
  pub superseded_claim_refused :
      (db1 db2 db3 db4 db5 : Database) (old fresh : OutboxClaim)
      → IsSound db1
      → Claims db1 db2 old
      → Reach recovery_digest db2 db3
      → Claims db3 db4 fresh
      → Reach recovery_digest db4 db5
      → claim_key fresh ≡ claim_key old
      → ((mandate_id : String) → load_dispatch_bundle old mandate_id db5 ≡ err conflict)
        × ((at : DateTime) → mark_dispatch_started old at db5 ≡ err conflict)
        × ((outcome : ChannelOutcome) (report : Report)
            → finalize_dispatch old outcome report db5 ≡ err conflict)
        × ((outcome : ReconciliationOutcome) (report : Report) (next : Option DateTime)
            → reconcile_ambiguous old outcome report next db5 ≡ err conflict)
  unfolding load_dispatch_bundle mark_dispatch_started finalize_dispatch reconcile_ambiguous
  superseded_claim_refused db1 db2 db3 db4 db5 old fresh sound1 first run second run2 same_row =
      let g = Claims-Grants db1 db2 old sound1 first in
      let sound2 = Claims-IsSound db1 db2 old sound1 first in
      let sound3 = onwards-IsSound recovery_digest db2 db3 sound2 run in
      let sound4 = Claims-IsSound db3 db4 fresh sound3 second in
      let (row3, found3, lives3) =
        Reach-Lives recovery_digest db2 db3 (claim_key old) g.moved sound2 run g.is in
      let h = Claims-Grants db3 db4 fresh sound3 second in
      let (row5, found5, lives5) =
        Reach-Lives recovery_digest db4 db5 (claim_key fresh) h.moved sound4 run2 h.is in
      let there : row3 ≡ h.row = cc (found3, h.was, same_row) in
      let older : old.fencing_token < row5.fencing_token = omega (
        arith,
        g.same_token,
        Lives-token g.moved row3 lives3,
        ap (λ r. r.fencing_token) there,
        h.next_token,
        h.same_token,
        Lives-token h.moved row5 lives5,
      ) in
      let found : find outbox_key (claim_key old) db5.outbox ≡ some row5 =
        rw (sym same_row) found5 in
      let refused : (states : List OutboxState) (at : Option DateTime)
          → require_outbox_claim old states at db5 ≡ err conflict =
        λ states at. stale_refused old states at db5 row5 found older in
      (
        λ mandate_id. rw (refused _ none) refl,
        λ at. rw (refused _ none) refl,
        λ outcome report. rw (refused _ none) refl,
        λ outcome report next. rw (refused _ (some report.occurred_at)) refl,
      )

  -- The end of an effect is final: whatever transactions of the outbox follow on a sound database, a
  -- row whose state is `completed` or `terminal_failed` is found unchanged under its key.
  pub settled_stays :
      (db after : Database) (k : Key) (row : OutboxRow)
      → IsSound db
      → Reach recovery_digest db after
      → find outbox_key k db.outbox ≡ some row
      → (row.state ≡ completed) ⊎ (row.state ≡ terminal_failed)
      → find outbox_key k after.outbox ≡ some row
  settled_stays db after k row sound run found settled =
      let (later, kept, lives) = Reach-Lives recovery_digest db after k row sound run found in
      let final : (state : OutboxState) → follows row.state state ≡ false = elim settled [
        | inl e ↦ λ state. rw e refl
        | inr e ↦ λ state. rw e refl
      ] in
      cc (kept, Lives-settled row later final lives)
