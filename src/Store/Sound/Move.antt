-- ===== src/Store/Sound/Move.antt =====
-- A transaction that changes one row of the outbox, and the attempt that the row cites.
use digital_colleagues.Base.{
  suc, ◌≡◌, refl, sym, ap, ◌∙◌, ◌≢◌, ◌⊎◌, inl, inr, Bool, true, false, none, some, ◌==◌, nat_eq,
  string_eq, option_eq, list_eq, if◌then◌else◌, Result, ok, ok_same,
}
use digital_colleagues.Core.Effects.{EffectProposal}
use digital_colleagues.Core.Effects.Approval.{HumanApprovalDecision}
use digital_colleagues.Core.Effects.Attempt.{EffectAttempt}
use digital_colleagues.Store.Tables.{Key, key_eq, find}
use digital_colleagues.Store.Tables.Keyed.{distinct_keys}
use digital_colleagues.Store.Records.{row_key}
use digital_colleagues.Store.Database.{
  approval_columns, proposal_columns, Database, OutboxRow, OutboxState, outbox_key, outbox_state_eq,
  pending, retry, claimed, dispatching, ambiguous, ambiguous_claimed, completed, terminal_failed,
}
use digital_colleagues.Store.Sound.{
  attempt_key, cited_attempt, cited_approval, cited_proposal, IsTracked, IsBacked, IsSound,
}

-- The life of an effect: the states that may follow a state.
abbrev pub follows : OutboxState → OutboxState → Bool
follows pending claimed = true
follows retry claimed = true
follows claimed claimed = true
follows claimed dispatching = true
follows dispatching ambiguous = true
follows dispatching completed = true
follows dispatching terminal_failed = true
follows dispatching retry = true
follows ambiguous ambiguous_claimed = true
follows ambiguous_claimed ambiguous_claimed = true
follows ambiguous_claimed ambiguous = true
follows ambiguous_claimed completed = true
follows ambiguous_claimed terminal_failed = true
follows ambiguous_claimed retry = true
follows _ _ = false

-- Whether a claim leads to the state.
abbrev pub by_claim : OutboxState → Bool
by_claim claimed = true
by_claim ambiguous_claimed = true
by_claim _ = false

-- One step in the life of a row.
pub record Advances (row after : OutboxRow) : Type 0 where
  pub same_key : outbox_key after ≡ outbox_key row
  pub same_proposal : after.proposal_id ≡ row.proposal_id
  pub same_approval : after.approval_decision_id ≡ row.approval_decision_id
  pub same_effect : after.effect_idempotency_key ≡ row.effect_idempotency_key
  pub same_limit : after.maximum_attempts ≡ row.maximum_attempts
  pub next_state : follows row.state after.state ≡ true
  pub next_number :
      after.attempt_number
      ≡ (if after.state == retry then suc row.attempt_number else row.attempt_number)
  pub next_token :
      after.fencing_token
      ≡ (if by_claim after.state then suc row.fencing_token else row.fencing_token)
  pub next_revision : after.revision ≡ suc row.revision

-- The rows and records that a transaction leaves alone.
pub record Moved (before db : Database) (k : Key) (row after : OutboxRow) : Type 0 where
  pub was : find outbox_key k before.outbox ≡ some row
  pub is : find outbox_key k db.outbox ≡ some after
  pub advances : Advances row after
  pub others : (l : Key) → l ≢ k → find outbox_key l db.outbox ≡ find outbox_key l before.outbox
  pub keyed :
      distinct_keys outbox_key before.outbox ≡ true → distinct_keys outbox_key db.outbox ≡ true
  pub attempt : EffectAttempt
  pub tracks :
      (find attempt_key (cited_attempt after) db.attempts ≡ some attempt) × IsTracked after attempt
  pub cites :
      (cited_attempt after ≡ cited_attempt row)
      ⊎ (find attempt_key (cited_attempt after) before.attempts ≡ none)
  pub other_attempts :
      (a : Key) (other : EffectAttempt)
      → a ≢ cited_attempt row
      → find attempt_key a before.attempts ≡ some other
      → find attempt_key a db.attempts ≡ some other
  pub same_approvals : db.approvals ≡ before.approvals
  pub same_proposals : db.proposals ≡ before.proposals

module _ (before db : Database) (k : Key) (row after : OutboxRow)
    (move : Moved before db k row after) (sound : IsSound before) where
  -- A row that is found afterwards is the row that moved, or was there before.
  found_after :
      (l : Key) (other : OutboxRow)
      → find outbox_key l db.outbox ≡ some other
      → ((l ≡ k) × (other ≡ after)) ⊎ ((l ≢ k) × (find outbox_key l before.outbox ≡ some other))
  found_after l other found = elim (key_eq.decide_eq l k) [
    | yes same ↦ inl (same, cc (found, move.is, same))
    | no differ ↦ inr (differ, sym (move.others l differ) ∙ found)
  ]

  -- No other row cites the attempt of the row that moved.
  cites_other :
      (l : Key) (other : OutboxRow)
      → l ≢ k
      → find outbox_key l before.outbox ≡ some other
      → (cited_attempt other ≢ cited_attempt row) × (cited_attempt other ≢ cited_attempt after)
  cites_other l other differ found =
      let (attempt, cited, agrees) = sound.tracked l other found in
      let apart : cited_attempt other ≢ cited_attempt row =
        λ same. differ (sound.apart l k other row found move.was same) in
      (
        apart,
        λ same. elim move.cites [
          | inl again ↦ apart (same ∙ again)
          | inr absent ↦ cc (cited, same, absent)
        ],
      )

  IsTracked-after :
      (l : Key) (other : OutboxRow)
      → find outbox_key l db.outbox ≡ some other
      → (attempt : EffectAttempt) × (find attempt_key (cited_attempt other) db.attempts
          ≡ some attempt)
        × IsTracked other attempt
  IsTracked-after l other found = elim (found_after l other found) [
    | inl (same, e) ↦ rw e (move.attempt, move.tracks.0, move.tracks.1)
    | inr (differ, old) ↦
        let (attempt, cited, agrees) = sound.tracked l other old in
        (
          attempt,
          move.other_attempts (cited_attempt other) attempt (cites_other l other differ old).0
              cited,
          agrees,
        )
  ]

  apart_after :
      (l m : Key) (one two : OutboxRow)
      → find outbox_key l db.outbox ≡ some one
      → find outbox_key m db.outbox ≡ some two
      → cited_attempt one ≡ cited_attempt two
      → l ≡ m
  apart_after l m one two found1 found2 same = elim (found_after l one found1) [
    | inl (here, e) ↦ elim (found_after m two found2) [
      | inl (there, f) ↦ here ∙ sym there
      | inr (differ, old) ↦
          elim ((cites_other m two differ old).1 (sym same ∙ ap cited_attempt e)) [ ]
    ]
    | inr (differ, old) ↦ elim (found_after m two found2) [
      | inl (there, f) ↦ elim ((cites_other l one differ old).1 (same ∙ ap cited_attempt f)) [ ]
      | inr (differ2, old2) ↦ sound.apart l m one two old old2 same
    ]
  ]

  namespace_kept : after.namespace ≡ row.namespace
  namespace_kept = ap (λ k. k.namespace) move.advances.same_key

  approval_kept : cited_approval after ≡ cited_approval row
  approval_kept = rw (namespace_kept, move.advances.same_approval) refl

  proposal_kept : cited_proposal after ≡ cited_proposal row
  proposal_kept = rw (namespace_kept, move.advances.same_proposal) refl

  still-IsBacked :
      (approval : HumanApprovalDecision) (proposal : EffectProposal)
      → IsBacked row approval proposal
      → IsBacked after approval proposal
  still-IsBacked approval proposal b = record {
    approves = b.approves;
    by_human = b.by_human;
    of_proposal = b.of_proposal;
    of_revision = b.of_revision;
    of_digest = b.of_digest;
    same_key = move.advances.same_effect ∙ b.same_key;
    same_limit = move.advances.same_limit ∙ b.same_limit;
  }

  IsBacked-after :
      (l : Key) (other : OutboxRow)
      → find outbox_key l db.outbox ≡ some other
      → (approval : HumanApprovalDecision) × (proposal : EffectProposal) × (find
            (row_key approval_columns)
            (cited_approval other)
            db.approvals
          ≡ some approval)
        × (find (row_key proposal_columns) (cited_proposal other) db.proposals ≡ some proposal)
        × IsBacked other approval proposal
  IsBacked-after l other found = elim (found_after l other found) [
    | inl (same, e) ↦
        let (approval, proposal, fa, fp, b) = sound.backed k row move.was in
        rw e (
          approval,
          proposal,
          rw (approval_kept, move.same_approvals) fa,
          rw (proposal_kept, move.same_proposals) fp,
          still-IsBacked approval proposal b,
        )
    | inr (differ, old) ↦ rw (move.same_approvals, move.same_proposals) (sound.backed l other old)
  ]

  pub Moved-IsSound : IsSound db
  Moved-IsSound = record {
    keyed = move.keyed sound.keyed;
    tracked = IsTracked-after;
    apart = apart_after;
    backed = IsBacked-after;
  }

-- A transaction that leaves the database as it was, or moves a row.
abbrev pub Moves : Database → Database → Type 0
Moves before db =
    (db ≡ before)
    ⊎ ((k : Key) × (row : OutboxRow) × (after : OutboxRow) × Moved before db k row after)

pub Moves-IsSound : (before db : Database) → Moves before db → IsSound before → IsSound db
Moves-IsSound before db (inl same) sound = rw same sound
Moves-IsSound before db (inr (k, row, after, move)) sound =
    Moved-IsSound before db k row after move sound

-- The database that a transaction returns is the one that moved.
pub Moves-ok :
    {Answer : Type 0} (before db result : Database) (k : Key) (row after : OutboxRow)
    (answer given : Answer)
    → Moved before db k row after
    → ◌≡◌ {A = Result (Database × Answer)} (ok (db, answer)) (ok (result, given))
    → Moves before result
Moves-ok before db result k row after answer given move same =
    let pair : ◌≡◌ {A = Database × _} (db, answer) (result, given) = ok_same _ _ same in
    let e : db ≡ result = ap (λ r. r.0) pair in rw (sym e) (inr (k, row, after, move))
