-- ===== src/Store/Sound/Held.antt =====
-- A transaction under a claim: the row that the claim holds, and its attempt.
use digital_colleagues.Base.{
  ◌≡◌, refl, sym, ap, ◌∙◌, ◌⊎◌, true, Option, none, some, List, arith, nat_eq, string_eq, option_eq,
  list_eq, ok, not_found, or_raise-some,
}
use digital_colleagues.Base.Lists.{elem}
use digital_colleagues.Core.Common.{DateTime}
use digital_colleagues.Core.Effects.Attempt.{EffectAttempt}
use digital_colleagues.Store.Contracts.{OutboxClaim}
use digital_colleagues.Store.Tables.{key_eq, find}
use digital_colleagues.Store.Tables.Keyed.{
  find-key, find-update, find-update_ne, distinct_keys-update,
}
use digital_colleagues.Store.Records.{get_record}
use digital_colleagues.Store.Database.{
  Database, OutboxRow, OutboxState, outbox_key, outbox_state_eq, attempt_columns,
}
use digital_colleagues.Store.Outbox.{claim_key, is_held_by, require_outbox_claim}
use digital_colleagues.Store.Dispatch.{has_lease, update_claimed}
use digital_colleagues.Store.Sound.{attempt_key, cited_attempt, IsTracked, IsSound}
use digital_colleagues.Store.Sound.Move.{Advances, Moved}
use digital_colleagues.Store.Sound.Writes.{Keeps}

-- What `_require_outbox_claim` has tested when it returns.
pub record Held (claim : OutboxClaim) (states : List OutboxState) (db : Database) (row : OutboxRow)
    : Type 0 where
  pub found : find outbox_key (claim_key claim) db.outbox ≡ some row
  pub in_state : elem row.state states ≡ true
  pub leased : has_lease claim row ≡ true
  pub same_attempt : row.effect_attempt_id ≡ claim.effect_attempt_id

pub require_outbox_claim-Held :
    (claim : OutboxClaim) (states : List OutboxState) (at : Option DateTime) (db : Database)
    (row : OutboxRow)
    → require_outbox_claim claim states at db ≡ ok row
    → Held claim states db row
unfolding require_outbox_claim is_held_by
require_outbox_claim-Held claim states at db row done = record {
  found = ground arith;
  in_state = ground arith;
  leased = ground arith;
  same_attempt = ground arith;
}

module _ (claim : OutboxClaim) (states : List OutboxState) (db : Database) (row : OutboxRow)
    (held : Held claim states db row) (sound : IsSound db) where
  pub held_key : outbox_key row ≡ claim_key claim
  held_key = find-key outbox_key (claim_key claim) db.outbox row held.found

  pub held_cites :
      cited_attempt row ≡ record { namespace = claim.namespace; id = claim.effect_attempt_id }
  held_cites = rw (ap (λ k. k.namespace) held_key, held.same_attempt) refl

  -- The attempt that the transaction reads is the one that the row cites.
  pub held_attempt :
      (attempt : EffectAttempt)
      → get_record attempt_columns claim.namespace claim.effect_attempt_id db.attempts ≡ ok attempt
      → (find attempt_key (cited_attempt row) db.attempts ≡ some attempt)
        × (attempt_key attempt ≡ cited_attempt row)
        × IsTracked row attempt
  held_attempt attempt read =
      let (tracked, cited, t) = sound.tracked (claim_key claim) row held.found in
      let found : find attempt_key (cited_attempt row) db.attempts ≡ some attempt =
        rw held_cites (or_raise-some not_found _ attempt read) in
      let same : tracked ≡ attempt = cc (cited, found) in
      (found, find-key attempt_key (cited_attempt row) db.attempts attempt found, rw (sym same) t)

  -- The row that the transaction writes moves.
  pub update_claimed-Moved :
      (written : Database) (change : OutboxRow → OutboxRow) (attempt : EffectAttempt)
      → Keeps db written (cited_attempt row)
      → ((other : OutboxRow) → outbox_key (change other) ≡ outbox_key other)
      → Advances row (change row)
      → find attempt_key (cited_attempt (change row)) written.attempts ≡ some attempt
      → IsTracked (change row) attempt
      → (cited_attempt (change row) ≡ cited_attempt row)
        ⊎ (find attempt_key (cited_attempt (change row)) db.attempts ≡ none)
      → Moved db (update_claimed claim change written) (claim_key claim) row (change row)
  update_claimed-Moved written change attempt keeps same advances cited tracked cites =
      let kept : (other : OutboxRow)
          → claim_key claim ≡ outbox_key other
          → outbox_key (change other) ≡ claim_key claim =
        λ other here. same other ∙ sym here in
      record {
        was = held.found;
        is =
            find-update outbox_key (claim_key claim) (has_lease claim) change kept written.outbox
              row (rw keeps.same_outbox held.found) held.leased;
        advances = advances;
        others = λ l differ.
            find-update_ne outbox_key (claim_key claim) (has_lease claim) change kept written.outbox
              l differ
            ∙ rw keeps.same_outbox refl;
        keyed = λ keyed.
            distinct_keys-update outbox_key (claim_key claim) (has_lease claim) change kept
              written.outbox (rw keeps.same_outbox keyed);
        attempt = attempt;
        tracks = (cited, tracked);
        cites = cites;
        other_attempts = keeps.other_attempts;
        same_approvals = keeps.same_approvals;
        same_proposals = keeps.same_proposals;
      }
