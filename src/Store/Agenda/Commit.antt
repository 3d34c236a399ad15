-- ===== src/Store/Agenda/Commit.antt =====
-- adapters/sqlite/store.py: how a claim of the agenda ends: it is released, or it commits the
-- semantic decision, a record of application/contracts.py.
use digital_colleagues.Base.{
  ℕ, ◌+◌, Bool, true, false, ◌&&◌, Option, none, some, List, [], ◌∷◌, String, ◌==◌, nat_eq,
  string_eq, option_eq, list_eq, ltb, if◌then◌else◌, Result, ok, ◌>>=◌, ◌>>◌, require, conflict,
}
use digital_colleagues.Core.Namespace.{Namespace, require_exact, namespace_eq}
use digital_colleagues.Core.Runtime
use digital_colleagues.Core.Runtime.{WakeCycle, construct_wake}
use digital_colleagues.Core.Runtime.Agenda.{
  AgendaItemState, pending, completed, Decision, construct_agenda,
}
use digital_colleagues.Core.Effects.{EffectProposal}
use digital_colleagues.Store.Tables.{key_eq, update, touched}
use digital_colleagues.Store.Records.{Columns, get_record, insert_record, update_record}
use digital_colleagues.Store.Database.{insert_proposal}
use digital_colleagues.Store.Agenda.{
  AgendaRow, agenda_key, AgendaTables, item_columns, update_item, AgendaClaim, unhandled,
  claimed_key, require_agenda_claim,
}

abbrev pub decision_columns : Decision → Columns
decision_columns self = record {
  namespace = self.namespace;
  record_type = "decision";
  record_id = self.decision_id;
  revision = self.revision;
  immutable = true;
  actor = self.actor;
  correlation_id = self.correlation_id;
  causation_id = some self.causation_id;
  occurred_at = self.occurred_at;
}

abbrev pub wake_columns : WakeCycle → Columns
wake_columns self = record {
  namespace = self.namespace;
  record_type = "wake_cycle";
  record_id = self.wake_cycle_id;
  revision = self.revision;
  immutable = false;
  actor = self.actor;
  correlation_id = self.correlation_id;
  causation_id = self.causation_id;
  occurred_at = self.occurred_at;
}

unfoldable pub insert_decision : Decision → AgendaTables → Result AgendaTables
insert_decision self db = do
  after ← insert_record decision_columns self db.decisions db.database.audit
  ok (record db { decisions = after.0; database = record db.database { audit = after.1 } })

unfoldable pub update_wake : WakeCycle → ℕ → AgendaTables → Result AgendaTables
update_wake self expected_revision db = do
  after ← update_record wake_columns self expected_revision db.wakes db.database.audit
  ok (record db { wakes = after.0; database = record db.database { audit = after.1 } })

-- `release_agenda`
unfoldable pub release_agenda : AgendaClaim → AgendaTables → Result AgendaTables
release_agenda claim db = do
  row ← require_agenda_claim claim db
  let same_token : AgendaRow → Bool = λ other. other.fencing_token == claim.fencing_token
  let change : AgendaRow → AgendaRow = λ other. record other {
    state = pending;
    lease_owner = none;
    lease_until = none;
    revision = other.revision + 1;
  }
  let freed : AgendaTables = record db {
    rows = update agenda_key (claimed_key claim) same_token change db.rows;
  }
  current ← get_record item_columns claim.namespace claim.agenda_item.agenda_item_id db.items
  released ← construct_agenda (record current {
    state = pending;
    revision = current.revision + 1;
    generation = row.generation;
    handled_generation = row.handled_generation;
  })
  update_item released current.revision freed

pub data SemanticOutcome : Type 0 where
  proposal no_op wait escalation : SemanticOutcome

-- The field `proposed` is the code's `proposal`.
pub record SemanticDecision : Type 0 where
  pub outcome : SemanticOutcome
  pub decision : Decision
  pub proposed : Option EffectProposal
  pub request_id : String
  pub schema_version : ℕ

-- The proposal of the decision, where there is one, is kept with it.
unfoldable pub insert_proposed : SemanticDecision → AgendaTables → Result AgendaTables
insert_proposed semantic db = elim semantic.proposed [
  | none ↦ ok db
  | some self ↦ do
    require (self.decision_id == semantic.decision.decision_id) conflict
    after ← insert_proposal self db.database
    ok (record db { database = after })
]

-- `max(row["handled_generation"], claim.claimed_generation)`
abbrev pub handled : AgendaClaim → AgendaRow → ℕ
handled claim row =
    if ltb row.handled_generation claim.claimed_generation
    then claim.claimed_generation
    else row.handled_generation

-- `final_state`
abbrev pub final_state : AgendaClaim → AgendaRow → AgendaItemState
final_state claim row = if ltb claim.claimed_generation row.generation then pending else completed

-- The row after the `UPDATE` of `commit_semantic_decision`.
abbrev pub settle_row : AgendaClaim → AgendaRow → AgendaRow → AgendaRow
settle_row claim row other = record other {
  handled_generation = handled claim row;
  state = final_state claim row;
  lease_owner = none;
  lease_until = none;
  revision = other.revision + 1;
}

-- The records of the item and of its wake cycle, when the decision is committed.
unfoldable pub complete_records :
    AgendaClaim → SemanticDecision → AgendaRow → AgendaTables → Result AgendaTables
complete_records claim semantic row db = do
  current ← get_record item_columns claim.namespace claim.agenda_item.agenda_item_id db.items
  item ← construct_agenda (record current {
    state = final_state claim row;
    revision = current.revision + 1;
    generation = row.generation;
    handled_generation = handled claim row;
  })
  updated ← update_item item current.revision db
  wake ← get_record wake_columns claim.namespace semantic.decision.wake_cycle_id updated.wakes
  finalized ← construct_wake (record wake {
    state = Runtime.completed;
    revision = wake.revision + 1;
    checkpoint_generation = claim.claimed_generation;
  })
  update_wake finalized wake.revision updated

-- `commit_semantic_decision`, with the `_prepare_semantic_decision` of this store, which changes
-- nothing.
unfoldable pub commit_semantic_decision :
    AgendaClaim → SemanticDecision → AgendaTables → Result AgendaTables
commit_semantic_decision claim semantic db = do
  row ← require_agenda_claim claim db
  require_exact semantic.decision.namespace claim.namespace
  require (semantic.decision.agenda_item_id == claim.agenda_item.agenda_item_id) conflict
  require (semantic.decision.wake_cycle_id == claim.agenda_item.wake_cycle_id) conflict
  decided ← insert_decision semantic.decision db
  kept ← insert_proposed semantic decided
  let held : AgendaRow → Bool = λ other.
      other.lease_owner == some claim.lease_owner && other.fencing_token == claim.fencing_token
  require (touched agenda_key (claimed_key claim) held kept.rows) conflict
  complete_records claim semantic row (record kept {
    rows = update agenda_key (claimed_key claim) held (settle_row claim row) kept.rows;
  })

-- `pending_agenda_count`
unfoldable pub pending_agenda_count : Namespace → List AgendaRow → ℕ
pending_agenda_count namespace [] = 0
pending_agenda_count namespace (row ∷ rows) =
    let rest = pending_agenda_count namespace rows in
    if unhandled namespace row then rest + 1 else rest
