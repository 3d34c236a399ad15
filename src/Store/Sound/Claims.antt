-- ===== src/Store/Sound/Claims.antt =====
-- A claim of an outbox row moves the row.
use digital_colleagues.Base.{
  ℕ, suc, ◌+◌, ◌≡◌, refl, sym, ◌∙◌, inl, inr, Bool, true, Option, none, some, String, arith, ◌==◌,
  nat_eq, string_eq, option_eq, list_eq, ok, ◌>>=◌, Option-cases,
}
use digital_colleagues.Base.Lists.{elem}
use digital_colleagues.Core.Common.{DateTime}
use digital_colleagues.Core.Namespace.{Namespace, namespace_eq}
use digital_colleagues.Store.Contracts.{OutboxClaim, construct_claim}
use digital_colleagues.Store.Tables.{key_eq, find, update, touched}
use digital_colleagues.Store.Tables.Keyed.{find-update, find-update_ne, distinct_keys-update}
use digital_colleagues.Store.Tables.Earliest.{earliest, earliest_passes, find-earliest}
use digital_colleagues.Store.Database.{
  Database, OutboxRow, OutboxState, outbox_key, outbox_state_eq,
}
use digital_colleagues.Store.Outbox.{
  ClaimRequest, claimable, due_before, leased, claim_of, lease_row, claim_outbox_state,
  claim_outbox, claim_ambiguous, claim_key,
}
use digital_colleagues.Store.Sound.{state_of_attempt, IsSound}
use digital_colleagues.Store.Sound.Move.{follows, by_claim, Advances, Moved, Moves}

abbrev pub same_revision : OutboxRow → OutboxRow → Bool
same_revision row other = other.revision == row.revision

-- A claim is kept as it is, or refused.
pub construct_claim_kept :
    (self : OutboxClaim) → construct_claim self ≡ (construct_claim self >>= λ kept. ok self)
unfolding construct_claim
construct_claim_kept self = ground arith

-- What the statement does when it returns.
pub lease_row_parts :
    (request : ClaimRequest) (now : ℕ) (row : OutboxRow) (db after : Database)
    (answer : Option OutboxClaim)
    → lease_row request now row db ≡ ok (after, answer)
    → (touched outbox_key (outbox_key row) (same_revision row) db.outbox ≡ true)
      × (after ≡ record db {
        outbox =
            update outbox_key
              (outbox_key row)
              (same_revision row)
              (leased request now request.lease_until.clock (row.fencing_token + 1))
              db.outbox;
      })
      × (answer ≡ some (claim_of request (row.fencing_token + 1) row))
unfolding lease_row
lease_row_parts request now row db after answer done =
    let made = construct_claim_kept (claim_of request (row.fencing_token + 1) row) in
    (ground arith, ground arith, ground (arith, made))

-- A request whose target follows each of its sources, for an attempt in the same state.
pub record IsLease (request : ClaimRequest) : Type 0 where
  pub follow :
      (state : OutboxState)
      → elem state request.source_states ≡ true
      → follows state request.target_state ≡ true
  pub agree :
      (state : OutboxState)
      → elem state request.source_states ≡ true
      → state_of_attempt request.target_state ≡ state_of_attempt state
  pub to_claim : by_claim request.target_state ≡ true

module _ (request : ClaimRequest) (lease : IsLease request) (db : Database) (sound : IsSound db)
    (row : OutboxRow) (found : find outbox_key (outbox_key row) db.outbox ≡ some row)
    (source : elem row.state request.source_states ≡ true) where
  leased-Advances :
      (now lease_until : ℕ)
      → Advances row (leased request now lease_until (row.fencing_token + 1) row)
  leased-Advances now lease_until = record {
    same_key = refl;
    same_proposal = refl;
    same_approval = refl;
    same_effect = refl;
    same_limit = refl;
    next_state = lease.follow row.state source;
    next_number = ground (arith, lease.to_claim);
    next_token = ground (arith, lease.to_claim);
    next_revision = omega arith;
  }

  lease_row-Moved :
      (now : ℕ) (after : Database) (answer : Option OutboxClaim)
      → lease_row request now row db ≡ ok (after, answer)
      → (moved : OutboxRow) × Moved db after (outbox_key row) row moved
  lease_row-Moved now after answer done =
      let (touches, e, _) = lease_row_parts request now row db after answer done in
      let change : OutboxRow → OutboxRow =
        leased request now request.lease_until.clock (row.fencing_token + 1) in
      let (attempt, cited, t) = sound.tracked (outbox_key row) row found in
      rw e (
        change row,
        record {
          was = found;
          is =
              find-update outbox_key (outbox_key row) (same_revision row) change
                (λ other same. sym same) db.outbox row found (ground arith);
          advances = leased-Advances now request.lease_until.clock;
          others = λ l differ.
              find-update_ne outbox_key (outbox_key row) (same_revision row) change
                (λ other same. sym same) db.outbox l differ;
          keyed =
              distinct_keys-update outbox_key (outbox_key row) (same_revision row) change
                (λ other same. sym same) db.outbox;
          attempt = attempt;
          tracks = (
            cited,
            record {
              same_number = t.same_number;
              same_proposal = t.same_proposal;
              same_approval = t.same_approval;
              state_agrees = t.state_agrees ∙ sym (lease.agree row.state source);
              counted = t.counted;
              within_limit = t.within_limit;
            },
          );
          cites = inl refl;
          other_attempts = λ a other differ kept. kept;
          same_approvals = refl;
          same_proposals = refl;
        },
      )

-- What a claim that is handed out says of the row.
pub record Grants (db after : Database) (claim : OutboxClaim) : Type 0 where
  pub row : OutboxRow
  pub moved : OutboxRow
  pub was : find outbox_key (claim_key claim) db.outbox ≡ some row
  pub is : find outbox_key (claim_key claim) after.outbox ≡ some moved
  pub next_token : claim.fencing_token ≡ suc row.fencing_token
  pub same_token : moved.fencing_token ≡ claim.fencing_token

claimable-source :
    (request : ClaimRequest) (now : ℕ) (row : OutboxRow)
    → claimable request now row ≡ true
    → elem row.state request.source_states ≡ true
unfolding claimable
claimable-source request now row passes = ground arith

-- A claim that returns moves the earliest row that is due, or finds none.
claim_outbox_state-Moves :
    (request : ClaimRequest)
    → IsLease request
    → (db after : Database) (answer : Option OutboxClaim) → IsSound db
    → claim_outbox_state request db ≡ ok (after, answer)
    → Moves db after
unfolding claim_outbox_state
claim_outbox_state-Moves request lease db after answer sound done =
    elim (Option-cases (earliest (claimable request request.now.clock) due_before db.outbox)) [
      | inl nothing ↦ inl (ground (arith, nothing))
      | inr (row, chosen) ↦
          let found =
            find-earliest outbox_key (claimable request request.now.clock) due_before db.outbox row
              sound.keyed chosen in
          let passes =
            earliest_passes (claimable request request.now.clock) due_before db.outbox row chosen in
          let (moved, move) =
            lease_row-Moved request lease db sound row found
              (claimable-source request request.now.clock row passes) request.now.clock after answer
              (ground (arith, chosen)) in
          inr (outbox_key row, row, moved, move)
    ]

pub claim_outbox-Moves :
    (namespace : Namespace) (owner : String) (now lease_until : DateTime) (db after : Database)
    (answer : Option OutboxClaim)
    → IsSound db
    → claim_outbox namespace owner now lease_until db ≡ ok (after, answer)
    → Moves db after
claim_outbox-Moves namespace owner now lease_until db after answer sound done =
    claim_outbox_state-Moves _
      (record {
        follow = λ state source. ground (arith, source);
        agree = λ state source. ground (arith, source);
        to_claim = refl;
      })
      db after answer sound done

pub claim_ambiguous-Moves :
    (namespace : Namespace) (owner : String) (now lease_until : DateTime) (db after : Database)
    (answer : Option OutboxClaim)
    → IsSound db
    → claim_ambiguous namespace owner now lease_until db ≡ ok (after, answer)
    → Moves db after
claim_ambiguous-Moves namespace owner now lease_until db after answer sound done =
    claim_outbox_state-Moves _
      (record {
        follow = λ state source. ground (arith, source);
        agree = λ state source. ground (arith, source);
        to_claim = refl;
      })
      db after answer sound done

claimable-namespace :
    (request : ClaimRequest) (now : ℕ) (row : OutboxRow)
    → claimable request now row ≡ true
    → row.namespace ≡ request.namespace
unfolding claimable
claimable-namespace request now row passes = ground arith

lease_row-Grants :
    (request : ClaimRequest) (now : ℕ) (db after : Database) (row : OutboxRow) (claim : OutboxClaim)
    → find outbox_key (outbox_key row) db.outbox ≡ some row
    → row.namespace ≡ request.namespace
    → lease_row request now row db ≡ ok (after, some claim)
    → Grants db after claim
lease_row-Grants request now db after row claim found own done =
    let (touches, e, answer) = lease_row_parts request now row db after (some claim) done in
    let change : OutboxRow → OutboxRow =
      leased request now request.lease_until.clock (row.fencing_token + 1) in
    let handed : claim ≡ claim_of request (row.fencing_token + 1) row = ground (arith, answer) in
    let key : outbox_key row ≡ claim_key claim = rw (handed, own) refl in
    record {
      row = row;
      moved = change row;
      was = rw (sym key) found;
      is =
          rw (sym key, e)
            (find-update outbox_key (outbox_key row) (same_revision row) change
              (λ other same. sym same) db.outbox row found (ground arith));
      next_token = rw handed (omega arith);
      same_token = rw handed refl;
    }

pub claim_outbox_state-Grants :
    (request : ClaimRequest) (db after : Database) (claim : OutboxClaim)
    → IsSound db
    → claim_outbox_state request db ≡ ok (after, some claim)
    → Grants db after claim
unfolding claim_outbox_state
claim_outbox_state-Grants request db after claim sound done =
    elim (Option-cases (earliest (claimable request request.now.clock) due_before db.outbox)) [
      | inl nothing ↦
          let clash : ◌≡◌ {A = Option OutboxClaim} none (some claim) = ground (arith, nothing) in
          cc clash
      | inr (row, chosen) ↦
          let found =
            find-earliest outbox_key (claimable request request.now.clock) due_before db.outbox row
              sound.keyed chosen in
          let passes =
            earliest_passes (claimable request request.now.clock) due_before db.outbox row chosen in
          lease_row-Grants request request.now.clock db after row claim found
            (claimable-namespace request request.now.clock row passes) (ground (arith, chosen))
    ]
