-- ===== src/Store/History/Authority.antt =====
-- What the start of a dispatch rests on.
use digital_colleagues.Base.{
  ◌≤◌, ◌≡◌, refl, sym, ap, ◌∙◌, Option, none, some, List, [], ◌∷◌, String, arith, ◌==◌, nat_eq,
  string_eq, option_eq, list_eq, ok, require, conflict, >>=-ok_parts, Returns, ok_same,
}
use digital_colleagues.Core.Common.{DateTime}
use digital_colleagues.Core.Principals.{human}
use digital_colleagues.Core.Effects.{EffectProposal}
use digital_colleagues.Core.Effects.Approval.{HumanApprovalDecision, approve}
use digital_colleagues.Core.Effects.Attempt.{EffectAttempt, started, planned, construct_attempt}
use digital_colleagues.Store.Contracts.{OutboxClaim}
use digital_colleagues.Store.Tables.{key_eq, find}
use digital_colleagues.Store.Records.{row_key, get_record, datetime_to_z}
use digital_colleagues.Store.Database.{
  Database, OutboxRow, OutboxState, outbox_state_eq, claimed, attempt_columns, approval_columns,
  proposal_columns, update_attempt,
}
use digital_colleagues.Store.Outbox.{claim_key, is_held_by, require_outbox_claim}
use digital_colleagues.Store.Dispatch.{attempt_state_eq, update_claimed, mark_dispatch_started}
use digital_colleagues.Store.Sound.Writes.{construct_attempt_same}
use digital_colleagues.Store.Sound.Held.{require_outbox_claim-Held, held_key, held_attempt}
use digital_colleagues.Store.Sound.Starts.{start, begun}
use digital_colleagues.Store.History.{Reach, Reach-IsSound}

cites_claim :
    (claim : OutboxClaim) (states : List OutboxState) (at : Option DateTime) (db : Database)
    (row : OutboxRow)
    → require_outbox_claim claim states at db ≡ ok row
    → (row.proposal_id ≡ claim.proposal_id)
      × (row.approval_decision_id ≡ claim.approval_decision_id)
unfolding require_outbox_claim is_held_by
cites_claim claim states at db row done = (ground arith, ground arith)

-- The attempt that a start returns is the one that was read, in the state `started`.
starts_parts :
    (claim : OutboxClaim) (at : DateTime) (db after : Database) (attempt : EffectAttempt)
    → mark_dispatch_started claim at db ≡ ok (after, attempt)
    → (row : OutboxRow) × (read : EffectAttempt) × (require_outbox_claim claim
          (claimed ∷ [])
          none
          db
        ≡ ok row)
      × (get_record attempt_columns claim.namespace claim.effect_attempt_id db.attempts ≡ ok read)
      × (attempt ≡ start at read)
unfolding mark_dispatch_started
starts_parts claim at db after attempt done =
    let r1 : Returns (require_outbox_claim claim (claimed ∷ []) none db) _ (after, attempt) =
      >>=-ok_parts _ _ done in
    let r2 : Returns
        (get_record attempt_columns claim.namespace claim.effect_attempt_id db.attempts) _
        (after, attempt) =
      >>=-ok_parts _ _ r1.2 in
    let r3 : Returns (require (r2.0.state == planned) conflict) _ (after, attempt) =
      >>=-ok_parts _ _ r2.2 in
    let r4 : Returns (construct_attempt (start at r2.0)) _ (after, attempt) =
      >>=-ok_parts _ _ r3.2 in
    let r5 : Returns (update_attempt r4.0 r2.0.revision db) _ (after, attempt) =
      >>=-ok_parts _ _ r4.2 in
    let r6 : Returns (datetime_to_z at) _ (after, attempt) = >>=-ok_parts _ _ r5.2 in
    let pair : ◌≡◌ {A = Database × EffectAttempt} (update_claimed claim (begun r6.0) r5.0, r4.0)
        (after, attempt) =
      ok_same _ _ r6.2 in
    (
      r1.0,
      r2.0,
      r1.1,
      r2.1,
      sym (ap (λ r. r.1) pair) ∙ construct_attempt_same (start at r2.0) r4.0 r4.1,
    )

-- The approval that stands behind an attempt.
pub record IsAuthorized (claim : OutboxClaim) (attempt : EffectAttempt) (db : Database)
    : Type 0 where
  pub approval : HumanApprovalDecision
  pub proposal : EffectProposal
  pub approval_kept :
      find
        (row_key approval_columns)
        (record { namespace = claim.namespace; id = claim.approval_decision_id })
        db.approvals
      ≡ some approval
  pub proposal_kept :
      find
        (row_key proposal_columns)
        (record { namespace = claim.namespace; id = claim.proposal_id })
        db.proposals
      ≡ some proposal
  pub approves : approval.choice ≡ approve
  pub by_human : approval.author.kind ≡ human
  pub of_revision : approval.proposal_revision ≡ proposal.revision
  pub of_digest : approval.proposal_digest ≡ proposal.proposal_digest
  pub cited_approval : attempt.approval_decision_id ≡ claim.approval_decision_id
  pub cited_proposal : attempt.proposal_id ≡ claim.proposal_id
  pub within_limit : attempt.attempt_number ≤ proposal.constraints.maximum_attempts
  pub is_started : attempt.state ≡ started

module _ (recovery_digest : String → String) where
  -- No effect leaves without a human's approval: from an empty outbox, and after any transactions of
  -- the outbox, where `mark_dispatch_started` returns an attempt, a decision of a human to approve is
  -- kept under the approval that the claim names, and its digest and revision are those of the
  -- proposal that is kept under the proposal that the claim names; the attempt cites both, its number
  -- is at most that proposal's maximum of attempts, and its state is `started`.
  pub mark_dispatch_started-IsAuthorized :
      (empty db after : Database) (claim : OutboxClaim) (at : DateTime) (attempt : EffectAttempt)
      → empty.outbox ≡ []
      → Reach recovery_digest empty db
      → mark_dispatch_started claim at db ≡ ok (after, attempt)
      → IsAuthorized claim attempt db
  mark_dispatch_started-IsAuthorized empty db after claim at attempt start_empty run done =
      let sound = Reach-IsSound recovery_digest empty db start_empty run in
      let (row, read, required, found, made) = starts_parts claim at db after attempt done in
      let held = require_outbox_claim-Held claim (claimed ∷ []) none db row required in
      let (cites_proposal, cites_approval) =
        cites_claim claim (claimed ∷ []) none db row required in
      let own = ap (λ k. k.namespace) (held_key claim (claimed ∷ []) db row held sound) in
      let (_, _, t) = held_attempt claim (claimed ∷ []) db row held sound read found in
      let (approval, proposal, fa, fp, b) = sound.backed (claim_key claim) row held.found in
      record {
        approval = approval;
        proposal = proposal;
        approval_kept = rw (sym own, sym cites_approval) fa;
        proposal_kept = rw (sym own, sym cites_proposal) fp;
        approves = b.approves;
        by_human = b.by_human;
        of_revision = b.of_revision;
        of_digest = b.of_digest;
        cited_approval = rw made (sym t.same_approval ∙ cites_approval);
        cited_proposal = rw made (sym t.same_proposal ∙ cites_proposal);
        within_limit = rw made (omega (arith, t.same_number, t.within_limit, b.same_limit));
        is_started = rw made refl;
      }
