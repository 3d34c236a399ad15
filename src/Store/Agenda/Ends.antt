-- ===== src/Store/Agenda/Ends.antt =====
-- What the end of a claim of the agenda does to the row of the item.
use digital_colleagues.Base.{
  ℕ, ◌+◌, ◌≡◌, ap, ◌∙◌, Bool, true, ◌&&◌, none, some, arith, ◌==◌, nat_eq, string_eq, option_eq,
  list_eq, ok, require, conflict, >>=-ok_parts, Returns,
}
use digital_colleagues.Core.Namespace.{require_exact, namespace_eq}
use digital_colleagues.Core.Runtime
use digital_colleagues.Core.Runtime.{WakeCycle, construct_wake}
use digital_colleagues.Core.Runtime.Agenda.{construct_agenda, pending}
use digital_colleagues.Store.Tables.{key_eq, find, update, touched}
use digital_colleagues.Store.Records.{get_record}
use digital_colleagues.Store.Agenda.{
  AgendaRow, agenda_key, AgendaTables, item_columns, update_item, AgendaClaim, claimed_key,
  holds_row, require_agenda_claim,
}
use digital_colleagues.Store.Agenda.Rows.{update_item-rows}
use digital_colleagues.Store.Agenda.Commit.{
  wake_columns, insert_decision, update_wake, release_agenda, SemanticDecision, insert_proposed,
  handled, final_state, settle_row, complete_records, commit_semantic_decision,
}

pub require_agenda_claim_parts :
    (claim : AgendaClaim) (db : AgendaTables) (row : AgendaRow)
    → require_agenda_claim claim db ≡ ok row
    → (find agenda_key (claimed_key claim) db.rows ≡ some row) × (holds_row claim row ≡ true)
unfolding require_agenda_claim
require_agenda_claim_parts claim db row done = (ground arith, ground arith)

abbrev pub same_token : AgendaClaim → AgendaRow → Bool
same_token claim row = row.fencing_token == claim.fencing_token

abbrev pub freed : AgendaRow → AgendaRow
freed row = record row {
  state = pending;
  lease_owner = none;
  lease_until = none;
  revision = row.revision + 1;
}

abbrev pub same_lease : AgendaClaim → AgendaRow → Bool
same_lease claim row =
    row.lease_owner == some claim.lease_owner && row.fencing_token == claim.fencing_token

-- A claim that ended: its row, which it held, has changed.
pub record Ended (claim : AgendaClaim) (db after : AgendaTables) (test : AgendaRow → Bool)
    (change : AgendaRow → AgendaRow → AgendaRow) : Type 0 where
  pub row : AgendaRow
  pub found : find agenda_key (claimed_key claim) db.rows ≡ some row
  pub held : holds_row claim row ≡ true
  pub rows : after.rows ≡ update agenda_key (claimed_key claim) test (change row) db.rows

pub release_agenda-Ended :
    (claim : AgendaClaim) (db after : AgendaTables)
    → release_agenda claim db ≡ ok after
    → Ended claim db after (same_token claim) (λ row. freed)
unfolding release_agenda
release_agenda-Ended claim db after done =
    let r1 : Returns (require_agenda_claim claim db) _ after = >>=-ok_parts _ _ done in
    let r2 : Returns
        (get_record item_columns claim.namespace claim.agenda_item.agenda_item_id db.items) _
        after =
      >>=-ok_parts _ _ r1.2 in
    let r3 : Returns
        (construct_agenda (record r2.0 {
          state = pending;
          revision = r2.0.revision + 1;
          generation = r1.0.generation;
          handled_generation = r1.0.handled_generation;
        }))
        _ after =
      >>=-ok_parts _ _ r2.2 in
    let parts = require_agenda_claim_parts claim db r1.0 r1.1 in
    record {
      row = r1.0;
      found = parts.0;
      held = parts.1;
      rows = update_item-rows r3.0 r2.0.revision _ after r3.2;
    }

insert_decision-rows :
    (semantic : SemanticDecision) (db after : AgendaTables)
    → insert_decision semantic.decision db ≡ ok after
    → after.rows ≡ db.rows
unfolding insert_decision
insert_decision-rows semantic db after done = ground arith

insert_proposed-rows :
    (semantic : SemanticDecision) (db after : AgendaTables)
    → insert_proposed semantic db ≡ ok after
    → after.rows ≡ db.rows
unfolding insert_proposed
insert_proposed-rows semantic db after done = ground arith

update_wake-rows :
    (self : WakeCycle) (expected : ℕ) (db after : AgendaTables)
    → update_wake self expected db ≡ ok after
    → after.rows ≡ db.rows
unfolding update_wake
update_wake-rows self expected db after done = ground arith

complete_records-rows :
    (claim : AgendaClaim) (semantic : SemanticDecision) (row : AgendaRow) (db after : AgendaTables)
    → complete_records claim semantic row db ≡ ok after
    → after.rows ≡ db.rows
unfolding complete_records
complete_records-rows claim semantic row db after done =
    let r1 : Returns
        (get_record item_columns claim.namespace claim.agenda_item.agenda_item_id db.items) _
        after =
      >>=-ok_parts _ _ done in
    let r2 : Returns
        (construct_agenda (record r1.0 {
          state = final_state claim row;
          revision = r1.0.revision + 1;
          generation = row.generation;
          handled_generation = handled claim row;
        }))
        _ after =
      >>=-ok_parts _ _ r1.2 in
    let r3 : Returns (update_item r2.0 r1.0.revision db) _ after = >>=-ok_parts _ _ r2.2 in
    let r4 : Returns
        (get_record wake_columns claim.namespace semantic.decision.wake_cycle_id r3.0.wakes) _
        after =
      >>=-ok_parts _ _ r3.2 in
    let r5 : Returns
        (construct_wake (record r4.0 {
          state = Runtime.completed;
          revision = r4.0.revision + 1;
          checkpoint_generation = claim.claimed_generation;
        }))
        _ after =
      >>=-ok_parts _ _ r4.2 in
    update_wake-rows r5.0 r4.0.revision r3.0 after r5.2
    ∙ update_item-rows r2.0 r1.0.revision db r3.0 r3.1

pub commit_semantic_decision-Ended :
    (claim : AgendaClaim) (semantic : SemanticDecision) (db after : AgendaTables)
    → commit_semantic_decision claim semantic db ≡ ok after
    → Ended claim db after (same_lease claim) (settle_row claim)
unfolding commit_semantic_decision
commit_semantic_decision-Ended claim semantic db after done =
    let r1 : Returns (require_agenda_claim claim db) _ after = >>=-ok_parts _ _ done in
    let r2 : Returns (require_exact semantic.decision.namespace claim.namespace) _ after =
      >>=-ok_parts _ _ r1.2 in
    let r3 : Returns
        (require (semantic.decision.agenda_item_id == claim.agenda_item.agenda_item_id) conflict) _
        after =
      >>=-ok_parts _ _ r2.2 in
    let r4 : Returns
        (require (semantic.decision.wake_cycle_id == claim.agenda_item.wake_cycle_id) conflict) _
        after =
      >>=-ok_parts _ _ r3.2 in
    let r5 : Returns (insert_decision semantic.decision db) _ after = >>=-ok_parts _ _ r4.2 in
    let r6 : Returns (insert_proposed semantic r5.0) _ after = >>=-ok_parts _ _ r5.2 in
    let r7 : Returns
        (require (touched agenda_key (claimed_key claim) (same_lease claim) r6.0.rows) conflict) _
        after =
      >>=-ok_parts _ _ r6.2 in
    let parts = require_agenda_claim_parts claim db r1.0 r1.1 in
    record {
      row = r1.0;
      found = parts.0;
      held = parts.1;
      rows =
          complete_records-rows claim semantic r1.0 _ after r7.2
          ∙ ap (update agenda_key (claimed_key claim) (same_lease claim) (settle_row claim r1.0)) (
              insert_proposed-rows semantic r5.0 r6.0 r6.1
              ∙ insert_decision-rows semantic db r5.0 r5.1);
    }
