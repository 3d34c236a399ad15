-- ===== src/Tests/Agenda.antt =====
-- The agenda of the SQLite store on one item: a decision is committed while a new generation has
-- come, and the item is claimed again.
use digital_colleagues.Base.{
  ℕ, ◌≤◌, ◌<◌, ◌≡◌, refl, true, ◌&&◌, none, some, List, [], ◌∷◌, String, nat_eq, string_eq,
  option_eq, list_eq, ltb, ok, err, conflict,
}
use digital_colleagues.Base.Sorting.{str_leb}
use digital_colleagues.Core.Namespace
use digital_colleagues.Core.Runtime.{
  WakeCycle, validate_causal_record, validate_policy_binding, construct_wake,
}
use digital_colleagues.Core.Runtime.Agenda.{
  AgendaItem, pending, selected, Decision, construct_agenda, complete_item,
}
use digital_colleagues.Store.Tables.{Key-discrete, find}
use digital_colleagues.Store.Tables.Keyed.{distinct_keys}
use digital_colleagues.Store.Records.{AuditRow, insert_audit, insert_record, update_record}
use digital_colleagues.Store.Agenda.{
  AgendaRow, agenda_key, AgendaTables, update_item, AgendaClaim, construct_agenda_claim, selectable,
  agenda_before, starve, claim_row, claim_agenda, claimed_key, require_agenda_claim,
}
use digital_colleagues.Store.Agenda.Commit.{
  insert_decision, update_wake, release_agenda, SemanticDecision, no_op, insert_proposed,
  complete_records, commit_semantic_decision, pending_agenda_count,
}
use digital_colleagues.Store.Agenda.Foremost.{Picks, claim_agenda-Picks}
use digital_colleagues.Store.Agenda.Runs.{here}
use digital_colleagues.Store.Agenda.Fencing.{
  superseded_agenda_claim_refused, commit_semantic_decision-reopens, handled_once,
}
use digital_colleagues.Tests.Samples.{running, at, office}
use digital_colleagues.Tests.Audit.{wake, agenda, decided}
use digital_colleagues.Tests.Store.{empty_store}

abbrev pub trail_row : String → String → ℕ → String → ℕ → AuditRow
trail_row record_type record_id revision causation_id time = record {
  namespace = office;
  record_type = record_type;
  record_id = record_id;
  record_revision = revision;
  actor_principal_id = "boss";
  correlation_id = "c-1";
  causation_id = some causation_id;
  occurred_at = time;
}

abbrev pub item_busy : AgendaItem
item_busy = record agenda { state = selected; revision = 3; generation = 2 }

abbrev item_open : AgendaItem
item_open = record item_busy { state = pending; revision = 4; handled_generation = 1 }

abbrev item_again : AgendaItem
item_again = record item_open { state = selected; revision = 5 }

abbrev pub row_busy : AgendaRow
row_busy = record {
  namespace = office;
  agenda_item_id = "item";
  source_key = "event:message";
  generation = 2;
  handled_generation = 0;
  cause_ids = "event" ∷ [];
  state = selected;
  priority = 5;
  due_at = none;
  starvation_count = 0;
  lease_owner = some "one";
  lease_until = some 45;
  fencing_token = 1;
  current_wake_cycle_id = "wake";
  revision = 3;
}

abbrev row_open : AgendaRow
row_open = record row_busy {
  handled_generation = 1;
  state = pending;
  lease_owner = none;
  lease_until = none;
  revision = 4;
}

abbrev row_again : AgendaRow
row_again = record row_open {
  state = selected;
  lease_owner = some "two";
  lease_until = some 80;
  fencing_token = 2;
  revision = 5;
}

-- Another item, which waits.
abbrev row_other : ℕ → AgendaRow
row_other starvation_count = record row_open {
  agenda_item_id = "other";
  priority = 3;
  starvation_count = starvation_count;
}

abbrev pub tables :
    AgendaItem → List Decision → WakeCycle → AgendaRow → ℕ → List AuditRow → AgendaTables
tables item decisions cycle row starvation_count audit = record {
  database = record empty_store { audit = audit };
  items = item ∷ [];
  decisions = decisions;
  wakes = cycle ∷ [];
  rows = row ∷ row_other starvation_count ∷ [];
}

abbrev closing : Decision
closing = record decided { kind = complete_item; proposed_effect_id = none }

abbrev trail : List AuditRow
trail =
    trail_row "wake_cycle" "wake" 2 "event" 2
    ∷ trail_row "agenda_item" "item" 4 "wake" 3
    ∷ trail_row "decision" "decision" 1 "item" 4
    ∷ []

abbrev pub busy : AgendaTables
busy = tables item_busy [] wake row_busy 0 []

abbrev opened : AgendaTables
opened = tables item_open (closing ∷ []) (record wake { revision = 2 }) row_open 0 trail

abbrev again : AgendaTables
again =
    tables item_again (closing ∷ []) (record wake { revision = 2 }) row_again 1
      (trail_row "agenda_item" "item" 5 "wake" 3 ∷ trail)

abbrev claim_one : AgendaClaim
claim_one = record {
  namespace = office;
  agenda_item = item_busy;
  lease_owner = "one";
  lease_until = at 45;
  fencing_token = 1;
  claimed_generation = 1;
  schema_version = 1;
}

abbrev claim_two : AgendaClaim
claim_two = record {
  namespace = office;
  agenda_item = item_again;
  lease_owner = "two";
  lease_until = at 80;
  fencing_token = 2;
  claimed_generation = 2;
  schema_version = 1;
}

abbrev semantic : SemanticDecision
semantic = record {
  outcome = no_op;
  decision = closing;
  proposed = none;
  request_id = "request";
  schema_version = 1;
}

-- What a run of the agenda computes with.
unfoldable choosing : Unit {0}
unfolding running validate_causal_record validate_policy_binding construct_wake construct_agenda
    Namespace.construct Key-discrete insert_audit insert_record update_record str_leb update_item
    construct_agenda_claim selectable agenda_before starve claim_row claim_agenda
    require_agenda_claim insert_decision update_wake release_agenda insert_proposed complete_records
    commit_semantic_decision pending_agenda_count
choosing = tt

commits : commit_semantic_decision claim_one semantic busy ≡ ok opened
unfolding choosing
commits = refl

claims_again : claim_agenda office "two" (at 50) (at 80) opened ≡ ok (again, some claim_two)
unfolding choosing
claims_again = refl

counts : pending_agenda_count office again.rows ≡ 2
unfolding choosing
counts = refl

keyed_busy : distinct_keys agenda_key busy.rows ≡ true
unfolding running Key-discrete
keyed_busy = refl

keyed_opened : distinct_keys agenda_key opened.rows ≡ true
unfolding running Key-discrete
keyed_opened = refl

busy_found : find agenda_key (claimed_key claim_one) busy.rows ≡ some row_busy
unfolding running Key-discrete
busy_found = refl

claim_agenda-Picks_example : Picks office "two" (at 50) (at 80) opened again (some claim_two)
claim_agenda-Picks_example =
    claim_agenda-Picks office "two" (at 50) (at 80) opened again (some claim_two) keyed_opened
      claims_again

-- The item alone in the agenda: its claim runs out, and it is claimed again.
abbrev alone : AgendaItem → AgendaRow → List AuditRow → AgendaTables
alone item row audit = record (tables item [] wake row 0 audit) { rows = row ∷ [] }

abbrev item_trail : List AuditRow
item_trail = trail_row "agenda_item" "item" 5 "wake" 3 ∷ []

abbrev item_third : AgendaItem
item_third = record item_again { revision = 6 }

abbrev row_third : AgendaRow
row_third = record row_again {
  lease_owner = some "three";
  lease_until = some 99;
  fencing_token = 3;
  revision = 6;
}

abbrev claim_three : AgendaClaim
claim_three = record claim_two {
  agenda_item = item_third;
  lease_owner = "three";
  lease_until = at 99;
  fencing_token = 3;
}

abbrev once : AgendaTables
once = alone item_again row_again item_trail

abbrev twice : AgendaTables
twice = alone item_third row_third (trail_row "agenda_item" "item" 6 "wake" 3 ∷ item_trail)

claims_once :
    claim_agenda office "two" (at 50) (at 80) (alone item_open row_open [])
    ≡ ok (once, some claim_two)
unfolding choosing
claims_once = refl

claims_twice : claim_agenda office "three" (at 90) (at 99) once ≡ ok (twice, some claim_three)
unfolding choosing
claims_twice = refl

keyed_alone : distinct_keys agenda_key (row_open ∷ []) ≡ true
unfolding running Key-discrete
keyed_alone = refl

superseded_agenda_claim_refused_example :
    (release_agenda claim_two twice ≡ err conflict)
    × ((decision : SemanticDecision)
        → commit_semantic_decision claim_two decision twice ≡ err conflict)
superseded_agenda_claim_refused_example =
    superseded_agenda_claim_refused office office "two" "three" (at 50) (at 80) (at 90) (at 99)
      (alone item_open row_open []) once once twice twice claim_two claim_three keyed_alone
      claims_once here claims_twice here refl

handled_once_example : claim_one.claimed_generation < claim_two.claimed_generation
handled_once_example =
    handled_once claim_one claim_two semantic busy opened opened again office "two" (at 50) (at 80)
      keyed_busy commits here claims_again refl

commit_semantic_decision-reopens_example :
    (later : AgendaRow) × (find agenda_key (claimed_key claim_one) opened.rows ≡ some later)
    × (later.generation ≡ 2)
    × (later.lease_owner ≡ none)
    × (later.lease_until ≡ none)
    × (1 ≤ later.handled_generation)
    × ((now : ℕ) → selectable office now later ≡ (ltb 1 2 && ltb 0 2))
commit_semantic_decision-reopens_example =
    commit_semantic_decision-reopens claim_one semantic busy opened row_busy busy_found commits
