-- ===== src/Store/Sound/Grow.antt =====
-- A transaction that inserts records, and an outbox row or none.
use digital_colleagues.Base.{
  ◌≡◌, sym, ap, ◌∙◌, ◌≢◌, ◌⊎◌, inl, inr, none, some, arith, nat_eq, string_eq, option_eq, list_eq,
  ok,
}
use digital_colleagues.Core.Effects.{EffectProposal}
use digital_colleagues.Core.Effects.Approval.{HumanApprovalDecision}
use digital_colleagues.Core.Effects.Attempt.{EffectAttempt}
use digital_colleagues.Store.Tables.{Key, key_eq, find, insert}
use digital_colleagues.Store.Tables.Keyed.{find-insert, find-insert_self, distinct_keys-insert}
use digital_colleagues.Store.Records.{row_key}
use digital_colleagues.Store.Database.{
  Database, OutboxRow, outbox_key, approval_columns, proposal_columns,
}
use digital_colleagues.Store.Sound.{
  attempt_key, cited_attempt, cited_approval, cited_proposal, IsTracked, IsBacked, IsSound,
}

-- What a row cites, as a predicate.
abbrev pub Tracked : Database → OutboxRow → Type 0
Tracked db row =
    (attempt : EffectAttempt) × (find attempt_key (cited_attempt row) db.attempts ≡ some attempt)
    × IsTracked row attempt

abbrev pub Backed : Database → OutboxRow → Type 0
Backed db row =
    (approval : HumanApprovalDecision) × (proposal : EffectProposal) × (find
        (row_key approval_columns) (cited_approval row) db.approvals
      ≡ some approval)
    × (find (row_key proposal_columns) (cited_proposal row) db.proposals ≡ some proposal)
    × IsBacked row approval proposal

-- The records that were found are found.
pub record Extends (before db : Database) : Type 0 where
  pub attempts :
      (a : Key) (x : EffectAttempt)
      → find attempt_key a before.attempts ≡ some x
      → find attempt_key a db.attempts ≡ some x
  pub approvals :
      (a : Key) (x : HumanApprovalDecision)
      → find (row_key approval_columns) a before.approvals ≡ some x
      → find (row_key approval_columns) a db.approvals ≡ some x
  pub proposals :
      (a : Key) (x : EffectProposal)
      → find (row_key proposal_columns) a before.proposals ≡ some x
      → find (row_key proposal_columns) a db.proposals ≡ some x

-- The new row, if there is one.
pub record Added (before db : Database) (row : OutboxRow) : Type 0 where
  pub inserted : insert outbox_key row before.outbox ≡ ok db.outbox
  pub is_new : find attempt_key (cited_attempt row) before.attempts ≡ none
  pub tracks : Tracked db row
  pub backs : Backed db row

abbrev pub Grows : Database → Database → Type 0
Grows before db =
    Extends before db × ((db.outbox ≡ before.outbox) ⊎ ((row : OutboxRow) × Added before db row))

module _ (before db : Database) (extends : Extends before db) (sound : IsSound before) where
  still-Tracked :
      (k : Key) (row : OutboxRow) → find outbox_key k before.outbox ≡ some row → Tracked db row
  still-Tracked k row found =
      let (attempt, cited, t) = sound.tracked k row found in
      (attempt, extends.attempts (cited_attempt row) attempt cited, t)

  still-Backed :
      (k : Key) (row : OutboxRow) → find outbox_key k before.outbox ≡ some row → Backed db row
  still-Backed k row found =
      let (approval, proposal, fa, fp, b) = sound.backed k row found in
      (
        approval,
        proposal,
        extends.approvals (cited_approval row) approval fa,
        extends.proposals (cited_proposal row) proposal fp,
        b,
      )

  module _ (row : OutboxRow) (added : Added before db row) where
    -- A row that is found is the new one, or was there before.
    found_added :
        (l : Key) (other : OutboxRow)
        → find outbox_key l db.outbox ≡ some other
        → ((l ≡ outbox_key row) × (other ≡ row)) ⊎ (find outbox_key l before.outbox ≡ some other)
    found_added l other found =
        let e = find-insert outbox_key row before.outbox db.outbox added.inserted l in
        elim (key_eq.decide_eq l (outbox_key row)) [
          | yes same ↦ inl (
            same,
            cc (
              found,
              same,
              find-insert_self outbox_key row before.outbox db.outbox added.inserted,
            ),
          )
          | no differ ↦ inr (ground (arith, e, found, differ))
        ]

    cites_new :
        (l : Key) (other : OutboxRow)
        → find outbox_key l before.outbox ≡ some other
        → cited_attempt other ≢ cited_attempt row
    cites_new l other found same =
        let (attempt, cited, t) = sound.tracked l other found in cc (cited, same, added.is_new)

    added-IsSound : IsSound db
    added-IsSound = record {
      keyed =
          distinct_keys-insert outbox_key row before.outbox db.outbox added.inserted sound.keyed;
      tracked = λ l other found. elim (found_added l other found) [
        | inl (same, e) ↦ rw e added.tracks
        | inr old ↦ still-Tracked l other old
      ];
      apart = λ l m one two found1 found2 same. elim (found_added l one found1) [
        | inl (here, e) ↦ elim (found_added m two found2) [
          | inl (there, f) ↦ here ∙ sym there
          | inr old ↦ elim (cites_new m two old (sym same ∙ ap cited_attempt e)) [ ]
        ]
        | inr old ↦ elim (found_added m two found2) [
          | inl (there, f) ↦ elim (cites_new l one old (same ∙ ap cited_attempt f)) [ ]
          | inr old2 ↦ sound.apart l m one two old old2 same
        ]
      ];
      backed = λ l other found. elim (found_added l other found) [
        | inl (same, e) ↦ rw e added.backs
        | inr old ↦ still-Backed l other old
      ];
    }

pub Grows-IsSound : (before db : Database) → Grows before db → IsSound before → IsSound db
Grows-IsSound before db (extends, inl same) sound = record {
  keyed = rw same sound.keyed;
  tracked = λ l other found. still-Tracked before db extends sound l other (rw (sym same) found);
  apart = λ l m one two found1 found2.
      sound.apart l m one two (rw (sym same) found1) (rw (sym same) found2);
  backed = λ l other found. still-Backed before db extends sound l other (rw (sym same) found);
}
Grows-IsSound before db (extends, inr (row, added)) sound =
    added-IsSound before db extends sound row added
