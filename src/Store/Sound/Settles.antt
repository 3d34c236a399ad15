-- ===== src/Store/Sound/Settles.antt =====
-- The end of a claim moves the row: the attempt is over, or the next one is planned.
use digital_colleagues.Base.{
  ℕ, ◌≡◌, refl, sym, ap, ◌∙◌, inl, inr, Bool, true, false, none, some, List, String, arith, ◌==◌,
  nat_eq, string_eq, option_eq, list_eq, Result, ok, Option-cases,
}
use digital_colleagues.Core.Effects.Attempt.{EffectAttempt, EffectAttemptState, ActionResult}
use digital_colleagues.Store.Contracts.{OutboxClaim}
use digital_colleagues.Store.Tables.{Key, key_eq, find}
use digital_colleagues.Store.Tables.Keyed.{find-insert_self, find-insert_old}
use digital_colleagues.Store.Records.{get_record}
use digital_colleagues.Store.Database
use digital_colleagues.Store.Database.{
  Database, OutboxRow, OutboxState, outbox_key, outbox_state_eq, LastOutcome, attempt_columns,
  insert_attempt, update_attempt, insert_result,
}
use digital_colleagues.Store.Outbox.{claim_key}
use digital_colleagues.Store.Dispatch.{Report, reported, retry_of, settled, update_claimed}
use digital_colleagues.Store.Sound.{attempt_key, cited_attempt, state_of_attempt, IsSound}
use digital_colleagues.Store.Sound.Move.{follows, by_claim, Moved, Moves, Moves-ok}
use digital_colleagues.Store.Sound.Writes.{
  Keeps, update_attempt-Keeps, insert_result_same, insert_attempt_same, insert_absent,
}
use digital_colleagues.Store.Sound.Held.{Held, held_attempt, update_claimed-Moved}
use digital_colleagues.Store.Sound.Retries.{IsNext, Retried, retry_of_cases}

-- The row that closes a claim. `actor` says who is recorded.
abbrev pub settle :
    OutboxState → EffectAttempt → LastOutcome → (OutboxRow → String) → ℕ → OutboxRow → OutboxRow
settle state attempt outcome actor at row = settled state attempt outcome (actor row) at row

module _ (claim : OutboxClaim) (states : List OutboxState) (db : Database) (row : OutboxRow)
    (held : Held claim states db row) (sound : IsSound db) (attempt : EffectAttempt)
    (read : get_record attempt_columns claim.namespace claim.effect_attempt_id db.attempts
      ≡ ok attempt)
    (state : EffectAttemptState) (report : Report) (over : EffectAttempt)
    (made : over ≡ reported state report attempt) (written stored : Database)
    (wrote : update_attempt over attempt.revision db ≡ ok written) (result : ActionResult)
    (inserted : insert_result result written ≡ ok stored) (outcome : LastOutcome)
    (actor : OutboxRow → String) (at : ℕ) where
  same_cited : attempt_key over ≡ cited_attempt row
  same_cited = rw made (held_attempt claim states db row held sound attempt read).1

  stored-Keeps :
      Keeps db stored (cited_attempt row)
      × (find attempt_key (cited_attempt row) stored.attempts ≡ some over)
  stored-Keeps =
      let (keeps, found) = update_attempt-Keeps over attempt.revision db written wrote in
      let (outbox, attempts, approvals, proposals) =
        insert_result_same result written stored inserted in
      (
        record {
          same_outbox = outbox ∙ keeps.same_outbox;
          same_approvals = approvals ∙ keeps.same_approvals;
          same_proposals = proposals ∙ keeps.same_proposals;
          other_attempts = λ b other differ present.
              rw attempts (keeps.other_attempts b other (rw same_cited differ) present);
        },
        rw (attempts, sym same_cited) found,
      )

  -- What the row cites, in terms of the attempt.
  same_row :
      ◌≡◌ {A = Key}
        (record { namespace = row.namespace; id = attempt.effect_attempt_id })
        (cited_attempt row)
  same_row = rw (ap (λ k. k.id) (held_attempt claim states db row held sound attempt read).1) refl

  next_row :
      (next : EffectAttempt) (after : Database)
      → IsNext attempt next stored after
      → ◌≡◌ {A = Key}
          (record { namespace = row.namespace; id = next.effect_attempt_id })
          (attempt_key next)
  next_row next after n =
      rw
        (
          n.same_namespace,
          ap (λ k. k.namespace) (held_attempt claim states db row held sound attempt read).1,
        )
        refl

  -- An attempt that is absent afterwards was absent before.
  absent_before :
      (a : Key) → find attempt_key a stored.attempts ≡ none → find attempt_key a db.attempts ≡ none
  absent_before a absent = elim (Option-cases (find attempt_key a db.attempts)) [
    | inl nothing ↦ nothing
    | inr (other, found) ↦ elim (key_eq.decide_eq a (cited_attempt row)) [
      | yes same ↦ cc (absent, same, stored-Keeps.1)
      | no differ ↦ cc (absent, stored-Keeps.0.other_attempts a other differ found)
    ]
  ]

  module _ (to : OutboxState) (next_state : follows row.state to ≡ true)
      (agrees : state ≡ state_of_attempt to) (no_claim : by_claim to ≡ false)
      (no_retry : (to == Database.retry) ≡ false) where
    settles_Moved :
        Moved db
          (update_claimed claim (settle to attempt outcome actor at) stored)
          (claim_key claim)
          row
          (settle to attempt outcome actor at row)
    settles_Moved =
        let (found, same_key, t) = held_attempt claim states db row held sound attempt read in
        update_claimed-Moved claim states db row held sound stored
          (settle to attempt outcome actor at) over stored-Keeps.0 (λ other. refl)
          (record {
            same_key = refl;
            same_proposal = refl;
            same_approval = refl;
            same_effect = refl;
            same_limit = refl;
            next_state = next_state;
            next_number = rw no_retry (sym t.same_number);
            next_token = rw no_claim refl;
            next_revision = omega arith;
          })
          (rw same_row stored-Keeps.1)
          (rw made (record {
            same_number = refl;
            same_proposal = t.same_proposal;
            same_approval = t.same_approval;
            state_agrees = agrees;
            counted = omega (arith, t.counted, t.same_number);
            within_limit = omega (arith, t.within_limit, t.same_number);
          }))
          (inl same_row)

  retries_Moved :
      (absent : Bool) (next : EffectAttempt) (to : OutboxState) (after : Database)
      → follows row.state Database.retry ≡ true
      → Retried absent row attempt next to stored after
      → Moved db
          (update_claimed claim (settle to next outcome actor at) after)
          (claim_key claim)
          row
          (settle to next outcome actor at row)
  retries_Moved absent next to after next_state retried =
      let (found, same_key, t) = held_attempt claim states db row held sound attempt read in
      let n = retried.is_next in
      let (outbox, planned, approvals, proposals) =
        insert_attempt_same next stored after n.inserted in
      let keeps = stored-Keeps.0 in
      update_claimed-Moved claim states db row held sound after (settle to next outcome actor at)
        next
        (record {
          same_outbox = outbox ∙ keeps.same_outbox;
          same_approvals = approvals ∙ keeps.same_approvals;
          same_proposals = proposals ∙ keeps.same_proposals;
          other_attempts = λ b other differ present.
              find-insert_old attempt_key next stored.attempts after.attempts planned b other
                (keeps.other_attempts b other differ present);
        })
        (λ other. refl)
        (record {
          same_key = refl;
          same_proposal = refl;
          same_approval = refl;
          same_effect = refl;
          same_limit = refl;
          next_state = rw retried.to_retry next_state;
          next_number = ground (arith, n.next_number, t.same_number, retried.to_retry);
          next_token = rw retried.to_retry refl;
          next_revision = omega arith;
        })
        (rw (next_row next after n)
          (find-insert_self attempt_key next stored.attempts after.attempts planned))
        (record {
          same_number = refl;
          same_proposal = t.same_proposal ∙ sym n.same_proposal;
          same_approval = t.same_approval ∙ sym n.same_approval;
          state_agrees = rw retried.to_retry n.is_planned;
          counted = omega (arith, n.next_number);
          within_limit = omega (arith, n.next_number, retried.within_limit);
        })
        (inr (
          rw (next_row next after n) (
            absent_before (attempt_key next)
              (insert_absent attempt_key next stored.attempts after.attempts planned))))

  -- The transaction that returns moves the row.
  pub settles_Moves :
      (absent : Bool) (to final : OutboxState) (asked : Report) (cited : EffectAttempt)
      (stored2 after : Database) (answer given : ActionResult)
      → follows row.state to ≡ true
      → follows row.state Database.retry ≡ true
      → state ≡ state_of_attempt to
      → by_claim to ≡ false
      → (to == Database.retry) ≡ false
      → retry_of absent row attempt to asked stored ≡ ok (stored2, cited, final)
      → ◌≡◌ {A = Result (Database × ActionResult)}
          (ok (update_claimed claim (settle final cited outcome actor at) stored2, answer))
          (ok (after, given))
      → Moves db after
  settles_Moves absent to final asked cited stored2 after answer given next_state can_retry agrees
        no_claim no_retry retried returned =
      elim (retry_of_cases absent row attempt to asked stored stored2 cited final retried) [
        | inl (same, same_attempt, same_state) ↦
            let move : Moved db (update_claimed claim (settle final cited outcome actor at) stored2)
                (claim_key claim) row (settle final cited outcome actor at row) =
              rw (same, same_attempt, same_state)
                (settles_Moved to next_state agrees no_claim no_retry) in
            Moves-ok db _ after (claim_key claim) row _ answer given move returned
        | inr moved ↦
            Moves-ok db _ after (claim_key claim) row _ answer given
              (retries_Moved absent cited final stored2 can_retry moved) returned
      ]
