-- ===== src/Store/Sound/Order.antt =====
-- The row that a claim takes: of those that are due, the earliest.
use digital_colleagues.Base.{
  ℕ, ◌+◌, ◌≤◌, ◌<◌, ◌≡◌, refl, sym, ap, ◌∙◌, ◌≢◌, ◌⊎◌, inl, inr, Bool, true, false, Option, none,
  some, List, arith, nat_eq, string_eq, option_eq, list_eq, ltb, Bool-cases, ok, Option-cases,
}
use digital_colleagues.Base.Lists.{elem}
use digital_colleagues.Core.Namespace.{namespace_eq}
use digital_colleagues.Store.Tables.Keyed.{find-update, find-update_ne}
use digital_colleagues.Store.Outbox
use digital_colleagues.Store.Outbox.{is_stopped, leased}
use digital_colleagues.Store.Sound.Claims.{same_revision}
use digital_colleagues.Store.Database.{
  outbox_state_eq, LastOutcome, channel, reconciled, still_unknown_wait, still_unknown_stopped,
}
use digital_colleagues.Base.Sorting.{str_leb, str_leb_total, str_leb_trans}
use digital_colleagues.Store.Contracts.{OutboxClaim}
use digital_colleagues.Store.Tables.{Key, find}
use digital_colleagues.Store.Tables.Keyed.{distinct_keys}
use digital_colleagues.Store.Tables.Earliest.{
  earliest, earliest_passes, earliest-none, find-earliest, earliest_before,
}
use digital_colleagues.Store.Database.{Database, OutboxRow, outbox_key}
use digital_colleagues.Store.Sound.Claims.{lease_row_parts}
use digital_colleagues.Store.Outbox.{
  ClaimRequest, claimable, due_before, claim_of, lease_row, claim_outbox_state,
}

due_total : (a b : OutboxRow) → due_before a b ≡ false → due_before b a ≡ true
unfolding due_before
due_total a b later = ground (arith, str_leb_total a.outbox_id b.outbox_id)

due_trans :
    (a b c : OutboxRow) → due_before a b ≡ true → due_before b c ≡ true → due_before a c ≡ true
unfolding due_before
due_trans a b c first second = ground (arith, str_leb_trans a.outbox_id b.outbox_id c.outbox_id)

due_again : (a : OutboxRow) → due_before a a ≡ true
unfolding due_before
due_again a = ground (arith, str_leb_total a.outbox_id a.outbox_id)

-- A row that is due for the request at the time `now`.
pub record IsDue (request : ClaimRequest) (now : ℕ) (row : OutboxRow) : Type 0 where
  pub home : row.namespace ≡ request.namespace
  pub in_state : elem row.state request.source_states ≡ true
  pub waited : row.next_attempt_at ≤ now
  pub lease_over : (lease_until : ℕ) → row.lease_until ≡ some lease_until → lease_until < now
  pub within_limit : row.attempt_number ≤ row.maximum_attempts
  pub not_stopped :
      request.exclude_stopped_reconciliation ≡ true
      → (count : ℕ) → row.last_outcome ≢ some (still_unknown_stopped count)

-- The row was due earlier, or at the same time with an identifier that does not come later.
abbrev pub Precedes : OutboxRow → OutboxRow → Type 0
Precedes row other =
    (row.next_attempt_at < other.next_attempt_at)
    ⊎ ((row.next_attempt_at ≡ other.next_attempt_at)
        × (str_leb row.outbox_id other.outbox_id ≡ true))

lease_over_of :
    (lease : Option ℕ) (now : ℕ)
    → Outbox.lease_over lease now ≡ true
    → (lease_until : ℕ) → lease ≡ some lease_until
    → lease_until < now
lease_over_of none now h lease_until e = cc
lease_over_of (some until) now h lease_until e = ground arith

lease_over_from :
    (lease : Option ℕ) (now : ℕ)
    → ((lease_until : ℕ) → lease ≡ some lease_until → lease_until < now)
    → Outbox.lease_over lease now ≡ true
lease_over_from none now h = refl
lease_over_from (some until) now h = ground (arith, h until refl)

stopped_of :
    (outcome : Option LastOutcome) (count : ℕ)
    → outcome ≡ some (still_unknown_stopped count)
    → is_stopped outcome ≡ true
stopped_of outcome count e = rw e refl

stopped_from :
    (outcome : Option LastOutcome)
    → ((count : ℕ) → outcome ≢ some (still_unknown_stopped count))
    → is_stopped outcome ≡ false
stopped_from none h = refl
stopped_from (some (channel kind)) h = refl
stopped_from (some (reconciled kind)) h = refl
stopped_from (some (still_unknown_wait count)) h = refl
stopped_from (some (still_unknown_stopped count)) h = elim (h count refl) [ ]

claimable-IsDue :
    (request : ClaimRequest) (now : ℕ) (row : OutboxRow)
    → claimable request now row ≡ true
    → IsDue request now row
unfolding claimable
claimable-IsDue request now row can = record {
  home = ground arith;
  in_state = ground arith;
  waited = ground arith;
  lease_over = lease_over_of row.lease_until now (ground arith);
  within_limit = ground arith;
  not_stopped =
      λ excluded count stopped. ground (arith, excluded, stopped_of row.last_outcome count stopped);
}

IsDue-claimable :
    (request : ClaimRequest) (now : ℕ) (row : OutboxRow)
    → IsDue request now row
    → claimable request now row ≡ true
unfolding claimable
IsDue-claimable request now row is = elim (Bool-cases request.exclude_stopped_reconciliation) [
  | inl excluded ↦ ground (
    arith,
    is.home,
    is.in_state,
    is.waited,
    is.within_limit,
    lease_over_from row.lease_until now is.lease_over,
    stopped_from row.last_outcome (is.not_stopped excluded),
  )
  | inr included ↦ ground (
    arith,
    is.home,
    is.in_state,
    is.waited,
    is.within_limit,
    lease_over_from row.lease_until now is.lease_over,
    included,
  )
]

due_before-Precedes : (row other : OutboxRow) → due_before row other ≡ true → Precedes row other
unfolding due_before
due_before-Precedes row other first =
    elim (Bool-cases (ltb row.next_attempt_at other.next_attempt_at)) [
      | inl sooner ↦ inl (ground (arith, sooner))
      | inr later ↦ inr (ground (arith, later), ground (arith, later))
    ]

-- What is said of the answer of a claim, at the time of the request.
pub data Answers (request : ClaimRequest) (db after : Database) : Option OutboxClaim → Type 0 where
  nothing_due :
      after ≡ db
      → ((k : Key) (row : OutboxRow)
          → find outbox_key k db.outbox ≡ some row
          → ¬ IsDue request request.now.clock row)
      → Answers request db after none
  earliest_due :
      (row : OutboxRow)
      → find outbox_key (outbox_key row) db.outbox ≡ some row
      → IsDue request request.now.clock row
      → ((k : Key) (other : OutboxRow)
          → find outbox_key k db.outbox ≡ some other
          → IsDue request request.now.clock other
          → Precedes row other)
      → find outbox_key (outbox_key row) after.outbox
        ≡ some (record row {
          state = request.target_state;
          lease_owner = some request.owner;
          lease_until = some request.lease_until.clock;
          fencing_token = row.fencing_token + 1;
          updated_at = request.now.clock;
          revision = row.revision + 1;
        })
      → ((k : Key)
          → k ≢ outbox_key row
          → find outbox_key k after.outbox ≡ find outbox_key k db.outbox)
      → after ≡ record db { outbox = after.outbox }
      → Answers request db after (
          some (record {
            namespace = row.namespace;
            outbox_id = row.outbox_id;
            proposal_id = row.proposal_id;
            approval_decision_id = row.approval_decision_id;
            effect_attempt_id = row.effect_attempt_id;
            effect_idempotency_key = row.effect_idempotency_key;
            attempt_number = row.attempt_number;
            lease_owner = request.owner;
            lease_until = request.lease_until;
            fencing_token = row.fencing_token + 1;
            schema_version = 1;
          }))

module _ (request : ClaimRequest) (row : OutboxRow) (db after : Database)
    (answer : Option OutboxClaim) (found : find outbox_key (outbox_key row) db.outbox ≡ some row)
    (done : lease_row request request.now.clock row db ≡ ok (after, answer)) where
  abbrev change : OutboxRow → OutboxRow
  change = leased request request.now.clock request.lease_until.clock (row.fencing_token + 1)

  leased_row : find outbox_key (outbox_key row) after.outbox ≡ some (change row)
  leased_row =
      let (touches, same, handed) =
        lease_row_parts request request.now.clock row db after answer done in
      ap (λ (x : Database). find outbox_key (outbox_key row) x.outbox) same
      ∙ find-update outbox_key (outbox_key row) (same_revision row) change (λ other e. sym e)
          db.outbox row found (ground arith)

  other_rows :
      (k : Key) → k ≢ outbox_key row → find outbox_key k after.outbox ≡ find outbox_key k db.outbox
  other_rows k differ =
      let (touches, same, handed) =
        lease_row_parts request request.now.clock row db after answer done in
      ap (λ (x : Database). find outbox_key k x.outbox) same
      ∙ find-update_ne outbox_key (outbox_key row) (same_revision row) change (λ other e. sym e)
          db.outbox k differ

  other_tables : after ≡ record db { outbox = after.outbox }
  other_tables =
      let (touches, same, handed) =
        lease_row_parts request request.now.clock row db after answer done in
      same
      ∙ ap (λ (rows : List OutboxRow). record db { outbox = rows })
          (sym (ap (λ (x : Database). x.outbox) same))

-- A claim on an outbox with distinct keys. A row is due for it if it is of the namespace and in one
-- of the source states, its next attempt is not later than the time of the claim, no lease of it
-- reaches to that time, its attempt number is within its limit, and, where the claim excludes
-- stopped reconciliations, it is not stopped. Where the claim answers with none, the database is
-- unchanged and no row is due. Where it answers with a claim, this is of a row that is due and
-- precedes every row that is due, by the time of the next attempt and then by the identifier, and it
-- carries the proposal, the approval, the attempt and the next fencing token of that row; the row is
-- afterwards in the target state under the lease of the claim, with that token, the time and the
-- next revision, and otherwise as it was; and no other row and no other table has changed.
pub claim_outbox_state-Answers :
    (request : ClaimRequest) (db after : Database) (answer : Option OutboxClaim)
    → distinct_keys outbox_key db.outbox ≡ true
    → claim_outbox_state request db ≡ ok (after, answer)
    → Answers request db after answer
unfolding claim_outbox_state
claim_outbox_state-Answers request db after answer keyed done =
    elim (Option-cases (earliest can due_before db.outbox)) [
      | inl nothing ↦
          let e : answer ≡ none = ground (arith, nothing) in
          rw e (
            nothing_due (ground (arith, nothing)) (λ k row found due.
              let passes = IsDue-claimable request request.now.clock row due in
              let fails = earliest-none outbox_key can due_before db.outbox k row nothing found in
              cc (passes, fails)))
      | inr (row, chosen) ↦
          let returned : lease_row request request.now.clock row db ≡ ok (after, answer) =
            ground (arith, chosen) in
          let found = find-earliest outbox_key can due_before db.outbox row keyed chosen in
          let due =
            claimable-IsDue request request.now.clock row
              (earliest_passes can due_before db.outbox row chosen) in
          rw (handed_claim request row db after answer due.home returned) (
            earliest_due row found due
              (λ k other found2 due2. due_before-Precedes row other (
                earliest_before outbox_key can due_before due_total due_trans due_again db.outbox
                  row chosen k other found2 (IsDue-claimable request request.now.clock other due2)))
              (leased_row request row db after answer found returned)
              (other_rows request row db after answer found returned)
              (other_tables request row db after answer found returned))
    ]
  where
    can : OutboxRow → Bool
    can = claimable request request.now.clock

    handed_claim :
        (request : ClaimRequest) (row : OutboxRow) (db after : Database)
        (answer : Option OutboxClaim)
        → row.namespace ≡ request.namespace
        → lease_row request request.now.clock row db ≡ ok (after, answer)
        → answer
          ≡ some
              (record (claim_of request (row.fencing_token + 1) row) { namespace = row.namespace })
    handed_claim request row db after answer home done =
        let (touches, same, handed) =
          lease_row_parts request request.now.clock row db after answer done in
        rw home handed
