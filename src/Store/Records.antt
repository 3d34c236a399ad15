-- ===== src/Store/Records.antt =====
-- adapters/sqlite/store.py: the durable records and their audit trail. The rows of one record type
-- are a table of their own here, since the type is a part of the primary key of `domain_records`;
-- a row is the record that its JSON text holds. The digest and the projection that an audit row
-- keeps of that text are left out.
pub mod Laws
use digital_colleagues.Base.{
  ℕ, zero, suc, ◌+◌, ◌-◌, ◌*◌, ◌/◌, ◌%◌, ◌≤◌, ◌<◌, ◌≡◌, refl, sym, ap, ◌∙◌, ◌≢◌, ◌↔◌, ◌⊎◌, inl, inr,
  Bool, true, false, not, ◌&&◌, ◌||◌, Option, none, some, List, [], ◌∷◌, ◌++◌, map, String, arith,
  Eq, ◌==◌, nat_eq, string_eq, option_eq, list_eq, List-discrete, Option-discrete, String-discrete,
  ℕ_discrete, ltb, leb, if◌then◌else◌, Bool-cases, Error, Result, ok, err, ◌>>=◌, ◌>>◌, require,
  core_invariant, namespace_mismatch, revision_mismatch, authorization, replay, lifecycle,
  not_found, conflict, permission_denied, persistence, integrity, >>=-ok_parts, Option-cases,
  or_raise,
}
use digital_colleagues.Base.Lists.{any}
use digital_colleagues.Core.Common.{DateTime, zero_offset, require_utc}
use digital_colleagues.Core.Namespace.{Namespace, namespace_eq}
use digital_colleagues.Core.Principals.{Principal}
use digital_colleagues.Core.Authority.{Mandate}
use digital_colleagues.Core.Effects.{EffectProposal}
use digital_colleagues.Core.Effects.Approval.{HumanApprovalDecision}
use digital_colleagues.Core.Effects.Attempt.{EffectAttempt, ActionResult}
use digital_colleagues.Store.Tables.{Key, key_eq, find, insert, update, touched}

-- The columns of `domain_records` beside the JSON text.
pub record Columns : Type 0 where
  pub namespace : Namespace
  pub record_type : String
  pub record_id : String
  pub revision : ℕ
  pub immutable : Bool
  pub actor : Principal
  pub correlation_id : String
  pub causation_id : Option String
  pub occurred_at : DateTime

-- A row of `audit_records`. `audit_id` is a digest of the type, the identifier and the revision.
pub record AuditRow : Type 0 where
  pub namespace : Namespace
  pub record_type : String
  pub record_id : String
  pub record_revision : ℕ
  pub actor_principal_id : String
  pub correlation_id : String
  pub causation_id : Option String
  pub occurred_at : ℕ

-- `datetime_to_z`: texts of one length, which compare as the points in time do.
abbrev pub datetime_to_z : DateTime → Result ℕ
datetime_to_z value = require_utc value >> ok value.clock

abbrev pub datetime_from_z : ℕ → DateTime
datetime_from_z clock = record { clock = clock; offset = zero_offset }

abbrev same_revision : AuditRow → AuditRow → Bool
same_revision row other =
    row.namespace == other.namespace
    && row.record_type == other.record_type
    && row.record_id == other.record_id
    && row.record_revision == other.record_revision

-- `_insert_audit`. A second row for one revision of a record raises `sqlite3.IntegrityError`.
unfoldable pub insert_audit : Columns → List AuditRow → Result (List AuditRow)
insert_audit self audit = do
  occurred_at ← datetime_to_z self.occurred_at
  let row : AuditRow = record {
    namespace = self.namespace;
    record_type = self.record_type;
    record_id = self.record_id;
    record_revision = self.revision;
    actor_principal_id = self.actor.principal_id;
    correlation_id = self.correlation_id;
    causation_id = self.causation_id;
    occurred_at = occurred_at;
  }
  require (not (any (same_revision row) audit)) integrity
  ok (row ∷ audit)

-- `except sqlite3.IntegrityError: raise ConflictError`
abbrev pub as_conflict : {A : Type 0} → Result A → Result A
as_conflict (err integrity) = err conflict
as_conflict result = result

-- `_get_record`, in a table whose keys `key` gives.
abbrev pub fetch : {Row : Type 0} → (Row → Key) → Namespace → String → List Row → Result Row
fetch key namespace record_id rows =
    or_raise not_found (find key (record { namespace = namespace; id = record_id }) rows)

module _ {Row : Type 0} (columns : Row → Columns) where
  -- The primary key of `domain_records`.
  abbrev pub row_key : Row → Key
  row_key row = record { namespace = (columns row).namespace; id = (columns row).record_id }

  -- `_get_record`
  abbrev pub get_record : Namespace → String → List Row → Result Row
  get_record namespace record_id rows = fetch row_key namespace record_id rows

  -- `_insert_record`: the table and the audit trail afterwards.
  unfoldable pub insert_record : Row → List Row → List AuditRow → Result (List Row × List AuditRow)
  insert_record self rows audit = do
    occurred_at ← datetime_to_z (columns self).occurred_at
    require (leb 1 (columns self).revision) conflict
    after ← insert row_key self rows
    trail ← as_conflict (insert_audit (columns self) audit)
    ok (after, trail)

  -- The row that `_update_record` names: mutable, and of the expected revision.
  abbrev pub is_current : ℕ → Row → Bool
  is_current expected_revision row =
      (columns row).revision == expected_revision && not (columns row).immutable

  -- `_update_record`
  unfoldable pub update_record :
      Row → ℕ → List Row → List AuditRow → Result (List Row × List AuditRow)
  update_record self expected_revision rows audit = do
    require (not (columns self).immutable) persistence
    require ((columns self).revision == expected_revision + 1) conflict
    occurred_at ← datetime_to_z (columns self).occurred_at
    require (touched row_key (row_key self) (is_current expected_revision) rows) conflict
    trail ← insert_audit (columns self) audit
    ok (update row_key (row_key self) (is_current expected_revision) (λ row. self) rows, trail)
