-- ===== src/Store/Agenda.antt =====
-- adapters/sqlite/store.py: the agenda, its claims and their release. application/contracts.py: the
-- claim of an agenda item.
pub mod Commit
pub mod Rows
pub mod Order
pub mod Foremost
pub mod Ends
pub mod Carries
pub mod Runs
pub mod Fencing
use digital_colleagues.Base.{
  ℕ, zero, suc, ◌+◌, ◌-◌, ◌*◌, ◌/◌, ◌%◌, ◌≤◌, ◌<◌, ◌≡◌, refl, sym, ap, ◌∙◌, ◌≢◌, ◌↔◌, ◌⊎◌, inl, inr,
  Bool, true, false, not, ◌&&◌, ◌||◌, Option, none, some, List, [], ◌∷◌, ◌++◌, map, String, arith,
  Eq, ◌==◌, nat_eq, string_eq, option_eq, list_eq, List-discrete, Option-discrete, String-discrete,
  ℕ_discrete, ltb, leb, if◌then◌else◌, Bool-cases, Error, Result, ok, err, ◌>>=◌, ◌>>◌, require,
  core_invariant, namespace_mismatch, revision_mismatch, authorization, replay, lifecycle,
  not_found, conflict, permission_denied, persistence, integrity, >>=-ok_parts, Returns, ok_same,
  Option-cases, or_raise, or_raise-some,
}
use digital_colleagues.Base.Sorting.{str_leb}
use digital_colleagues.Core.Common.{
  DateTime, supported_schema, require_stable_id, require_schema_version, require_revision,
  require_utc,
}
use digital_colleagues.Core.Namespace.{Namespace, require_exact, namespace_eq}
use digital_colleagues.Core.Runtime.{WakeCycle}
use digital_colleagues.Core.Runtime.Agenda.{
  AgendaItem, AgendaItemState, pending, selected, Decision, construct_agenda,
}
use digital_colleagues.Store.Tables.{Key, key_eq, find, update, touched}
use digital_colleagues.Store.Tables.Earliest.{earliest}
use digital_colleagues.Store.Records.{Columns, datetime_to_z, get_record, update_record}
use digital_colleagues.Store.Database.{Database}

-- A row of `agenda_runtime`.
pub record AgendaRow : Type 0 where
  pub namespace : Namespace
  pub agenda_item_id : String
  pub source_key : String
  pub generation : ℕ
  pub handled_generation : ℕ
  pub cause_ids : List String
  pub state : AgendaItemState
  pub priority : ℕ
  pub due_at : Option ℕ
  pub starvation_count : ℕ
  pub lease_owner : Option String
  pub lease_until : Option ℕ
  pub fencing_token : ℕ
  pub current_wake_cycle_id : String
  pub revision : ℕ

abbrev pub agenda_key : AgendaRow → Key
agenda_key row = record { namespace = row.namespace; id = row.agenda_item_id }

-- The tables that the agenda works on, beside those of the outbox.
pub record AgendaTables : Type 0 where
  pub database : Database
  pub items : List AgendaItem
  pub decisions : List Decision
  pub wakes : List WakeCycle
  pub rows : List AgendaRow

abbrev pub item_columns : AgendaItem → Columns
item_columns self = record {
  namespace = self.namespace;
  record_type = "agenda_item";
  record_id = self.agenda_item_id;
  revision = self.revision;
  immutable = false;
  actor = self.actor;
  correlation_id = self.correlation_id;
  causation_id = some self.causation_id;
  occurred_at = self.occurred_at;
}

unfoldable pub update_item : AgendaItem → ℕ → AgendaTables → Result AgendaTables
update_item self expected_revision db = do
  after ← update_record item_columns self expected_revision db.items db.database.audit
  ok (record db { items = after.0; database = record db.database { audit = after.1 } })

pub record AgendaClaim : Type 0 where
  pub namespace : Namespace
  pub agenda_item : AgendaItem
  pub lease_owner : String
  pub lease_until : DateTime
  pub fencing_token : ℕ
  pub claimed_generation : ℕ
  pub schema_version : ℕ

-- `AgendaClaim.__post_init__`
unfoldable pub construct_agenda_claim : AgendaClaim → Result AgendaClaim
construct_agenda_claim self = do
  require_schema_version self.schema_version
  require_exact self.namespace self.agenda_item.namespace
  require_stable_id self.lease_owner
  require_utc self.lease_until
  require_revision self.fencing_token
  require_revision self.claimed_generation
  ok self

abbrev pub is_pending : AgendaItemState → Bool
is_pending pending = true
is_pending _ = false

abbrev pub is_selected : AgendaItemState → Bool
is_selected selected = true
is_selected _ = false

-- `lease_until < now`, which NULL is not.
abbrev pub lease_past : Option ℕ → ℕ → Bool
lease_past none now = false
lease_past (some lease_until) now = ltb lease_until now

-- The row has a generation that no decision has handled.
abbrev pub unhandled : Namespace → AgendaRow → Bool
unhandled namespace row = row.namespace == namespace && ltb row.handled_generation row.generation

-- The condition of the `SELECT`.
unfoldable pub selectable : Namespace → ℕ → AgendaRow → Bool
selectable namespace now row =
    unhandled namespace row
    && (is_pending row.state || is_selected row.state && lease_past row.lease_until now)

-- `CASE WHEN due_at IS NULL THEN 1 ELSE 0 END, due_at, agenda_item_id`
abbrev pub due_first : Option ℕ → Option ℕ → String → String → Bool
due_first none none id other_id = str_leb id other_id
due_first none (some _) id other_id = false
due_first (some _) none id other_id = true
due_first (some due) (some other_due) id other_id =
    ltb due other_due || due == other_due && str_leb id other_id

-- The `ORDER BY` of the `SELECT`.
unfoldable pub agenda_before : AgendaRow → AgendaRow → Bool
agenda_before row other =
    ltb other.starvation_count row.starvation_count
    || row.starvation_count == other.starvation_count
      && (ltb other.priority row.priority
          || row.priority == other.priority
            && due_first row.due_at other.due_at row.agenda_item_id other.agenda_item_id)

-- The first `UPDATE`: a row that waits and is not the one that was selected.
unfoldable pub starve : Namespace → String → AgendaRow → AgendaRow
starve namespace agenda_item_id row =
    if unhandled namespace row && is_pending row.state && not (row.agenda_item_id == agenda_item_id)
    then record row { starvation_count = row.starvation_count + 1 }
    else row

-- The row after the second `UPDATE`.
abbrev pub select_row : String → ℕ → ℕ → AgendaRow → AgendaRow
select_row owner lease_until fencing row = record row {
  state = selected;
  lease_owner = some owner;
  lease_until = some lease_until;
  fencing_token = fencing;
  starvation_count = 0;
  revision = row.revision + 1;
}

-- What `claim_agenda` does with the row that it selected.
unfoldable pub claim_row :
    Namespace
    → String
    → DateTime
    → AgendaRow
    → AgendaTables
    → Result (AgendaTables × Option AgendaClaim)
claim_row namespace owner lease_until row db = do
  let starved : List AgendaRow = map (starve namespace row.agenda_item_id) db.rows
  let same_revision : AgendaRow → Bool = λ other. other.revision == row.revision
  until ← datetime_to_z lease_until
  require (touched agenda_key (agenda_key row) same_revision starved) conflict
  existing ← get_record item_columns namespace row.agenda_item_id db.items
  item ← construct_agenda (record existing { state = selected; revision = existing.revision + 1 })
  after ← update_item item existing.revision db
  claim ← construct_agenda_claim (record {
    namespace = namespace;
    agenda_item = item;
    lease_owner = owner;
    lease_until = lease_until;
    fencing_token = row.fencing_token + 1;
    claimed_generation = row.generation;
    schema_version = supported_schema;
  })
  let change : AgendaRow → AgendaRow = select_row owner until (row.fencing_token + 1)
  ok (
    record after { rows = update agenda_key (agenda_key row) same_revision change starved },
    some claim,
  )

-- `claim_agenda`
unfoldable pub claim_agenda :
    Namespace
    → String
    → DateTime
    → DateTime
    → AgendaTables
    → Result (AgendaTables × Option AgendaClaim)
claim_agenda namespace owner now lease_until db = do
  clock ← datetime_to_z now
  elim (earliest (selectable namespace clock) agenda_before db.rows) [
    | none ↦ ok (db, none)
    | some row ↦ claim_row namespace owner lease_until row db
  ]

abbrev pub claimed_key : AgendaClaim → Key
claimed_key claim = record { namespace = claim.namespace; id = claim.agenda_item.agenda_item_id }

abbrev pub holds_row : AgendaClaim → AgendaRow → Bool
holds_row claim row =
    is_selected row.state
    && row.lease_owner == some claim.lease_owner
    && row.fencing_token == claim.fencing_token

-- `_require_agenda_claim`
unfoldable pub require_agenda_claim : AgendaClaim → AgendaTables → Result AgendaRow
require_agenda_claim claim db = do
  row ← or_raise conflict (find agenda_key (claimed_key claim) db.rows)
  require (holds_row claim row) conflict
  ok row
