-- ===== src/Lib.antt =====
-- Digital Colleagues: the pure core of a runtime for supervised software colleagues, the rules that
-- govern them, and the outbox of the store that carries their effects out. A colleague lives in a namespace of a tenant. A mandate says what it may do, a
-- policy when it may wake, and a human approves each effect before it leaves the system. The core
-- (src/digital_colleagues/core) holds immutable records whose constructors refuse what is not well
-- formed, and pure functions on them; the rules (src/digital_colleagues/governance) decide actions,
-- effects and approvals from such records. The SQLite store
-- (src/digital_colleagues/adapters/sqlite/store.py) keeps the records and runs each operation as one
-- transaction: an approval plans the first attempt of an effect in the outbox, a worker claims the
-- row under a lease and a fencing token, starts the dispatch and reports its outcome, an outcome
-- that is not known is reconciled, and an attempt that did not take place may be followed by another.
-- The services and the interfaces call all three.
--
-- How the code is modelled
--
-- A dataclass is a record with the fields of the source, and `__post_init__` is a function
-- (`construct`, `construct_...`) into `Result`, which holds the record that is kept, with its
-- normalized texts, or the class of the exception. Messages are dropped. The guards stand in the
-- order of the source in a `do` block, so that the first one that fails decides the exception.
-- A test of the form `isinstance(value, Declared)` has no counterpart: the fields are typed. Sets are
-- lists, of which only membership is read. Integers are natural numbers: the code has no negative
-- value that a guard does not refuse. A `datetime` is its clock in microseconds since 0001-01-01
-- and what `utcoffset()` says; two that `require_utc` accepted compare by their clocks.
--
-- The store's database is a record of tables, each the list of its rows; a table of records holds the
-- records themselves, where the code holds their JSON texts. A transaction is a function from the
-- database into `Result`: an exception rolls it back, so that the caller keeps the database it had.
-- Every statement of the code that the model covers names its rows by the primary key or selects the
-- first row in an order; `Store/Tables` has both. A constraint of the schema that an insertion can
-- break (the primary key, the uniqueness of the effect key, a positive maximum of attempts) is tested
-- where the row is inserted. The foreign keys hold, since each cited record is inserted just before.
-- Points in time in a row are their clocks: the code's texts have one length, so that they compare as
-- the clocks do. `last_outcome` is a data type with one constructor for each form of its text. The
-- steps of `Store/History` are the transactions that return, in any order and number.
--
--   Base                    tests, `Result`, lists, and Python's `sorted` on texts
--   Core/Common             core/common.py: texts, identifiers, digests, revisions, points in time;
--     Chars, Strip, Normal, Ids   character classes, `str.strip`, and what is accepted unchanged
--     Json, Json/Canonical  `FrozenJsonObject` and `freeze_json`
--     Calendar              the text of a point in time
--   Core/Namespace          core/namespace.py
--   Core/Principals         core/principals.py
--   Core/Work               core/work.py: `FiniteWork` and `transition_work`
--     Transitions, History  one transition, and runs of them
--     Graph and its modules `validate_work_dependency_graph`
--     Duties                responsibilities and obligations
--   Core/Runtime            core/runtime.py: events, timers, wake cycles
--     Agenda, Chain         agenda items and decisions; the chain from an event to an agenda item
--   Core/Authority          core/authority.py: profiles, mandates, boundaries
--     Card, Card/Exact      the identity card
--     Diff and its modules  `diff_mandate_authority`; Core/Common/Json/Equal has its equality
--   Core/Effects            core/effects.py: destinations, constraints, proposals
--     Envelope              the document that the digest of a proposal covers; its constructor
--     Approval, Attempt     decisions of humans; attempts and results
--   Core/Audit              core/audit.py
--   Core/Policy             core/policy.py: windows (Windows), budgets, `ColleaguePolicy`
--     Records               the outcomes of a policy, and escalations
--   Core/Governance         core/governance.py: memberships and credentials
--     Changes and its module, Exports   changes of authority; exports of audit records
--   Core/Builder            core/builder.py: drafts; Successor relates them to mandates
--   Governance/Hours        governance/policy.py: working hours and budget buckets
--   Governance/Rbac         governance/rbac.py: `ROLE_ACTIONS` and `authorize_action`
--   Governance/Approvals    governance/approvals.py: the authority of effects and of approvals
--     Boundary, Parameters, Exact, Binding   its theorems
--   Store/Tables            rows by key, insertion, update; Keyed and Earliest have their laws
--   Store/Records           adapters/sqlite/store.py: `_insert_record`, `_update_record`,
--                           `_get_record` and the audit rows; Laws
--   Store/Contracts         application/contracts.py: claims, outcomes, bundles
--   Store/Database          the tables and their rows
--   Store/Outbox            adapters/sqlite/store.py: claims of outbox rows
--   Store/Dispatch          the start of a dispatch, its outcome and retries; Recovery
--   Store/Reconcile         `reconcile_ambiguous`
--   Store/Approve, Rows     `commit_approval_and_attempt`
--   Store/Bundle            `load_dispatch_bundle`
--   Store/Sound             the invariant; its modules show what each transaction writes and keeps
--   Store/History           runs of transactions: Later, Fencing, Authority
--   Store/Agenda            `claim_agenda`, `_require_agenda_claim`; in Commit, `release_agenda`,
--                           `commit_semantic_decision`, `pending_agenda_count`; Rows, Ends and
--                           Carries show what they do to the rows, Order and Foremost which row
--                           a claim takes; Runs are sequences of transactions
--   Store/Triggers          `claim_trigger`; in Sources and Materialize, `materialize_agenda`;
--                           Grows shows what it does to the rows of the agenda
--   Tests                   runs of the code, and the theorems at concrete inputs
--
-- Parameters, bounds and fuel
--
-- The time zone data base is a function from a zone and a UTC clock to a wall clock, and the names
-- that `ZoneInfo` knows are a test. The digest of a document (its JSON text, then SHA-256) is a
-- function on the document; the digest that the recovery of a dispatch gives its result is a function
-- on the effect's key; theorems that need it to tell two documents apart say so of these two.
-- The depth-first search of the dependency graph recurs on fuel, one more than the number of units
-- of work, since each call that goes deeper enters a unit that was not being visited.
--
-- Not modelled
--
-- The packages and deployments of the core; the codecs of core/serialization.py; in the store, the
-- arrival of triggers (`ingest_event`, `ingest_timer`), `bootstrap`, the reading methods, and the
-- digests and projections in the audit rows; the application services, the SQLite stores of the later stages, the HTTP interface,
-- the worker, the command line and the operations, which perform input and output around the core;
-- `agenda_order_key` of core/runtime.py; the front end and the scripts of the repository.
pub mod Base
pub mod Core
pub mod Governance
pub mod Store
pub mod Tests
