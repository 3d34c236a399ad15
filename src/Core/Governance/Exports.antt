-- ===== src/Core/Governance/Exports.antt =====
-- core/governance.py: exports of audit records.
use digital_colleagues.Base.{
  ℕ, false, not, ◌&&◌, List, [], ◌∷◌, String, nat_eq, string_eq, option_eq, list_eq, leb, Result,
  ok, ◌>>=◌, ◌>>◌, require, core_invariant, authorization,
}
use digital_colleagues.Base.Lists.{elem, each}
use digital_colleagues.Core.Common.{
  DateTime, require_stable_id, require_schema_version, require_revision, require_utc,
  require_digest, freeze_strings,
}
use digital_colleagues.Core.Common.Json.{FrozenJsonObject}
use digital_colleagues.Core.Namespace.{Namespace}
use digital_colleagues.Core.Principals.{PrincipalKind}

pub record AuditExportQuery : Type 0 where
  pub namespace : Namespace
  pub start_at : DateTime
  pub end_at : DateTime
  pub record_types : List String
  pub limit : ℕ
  pub schema_version : ℕ

-- `AuditExportQuery.__post_init__`
unfoldable pub construct_query : AuditExportQuery → Result AuditExportQuery
construct_query self = do
  require_schema_version self.schema_version
  require_utc self.start_at
  require_utc self.end_at
  require (leb self.start_at.clock self.end_at.clock) core_invariant
  record_types ← freeze_strings false self.record_types
  require (not (elem "audit_export" record_types)) authorization
  require (leb 1 self.limit && leb self.limit 500) core_invariant
  ok (record self { record_types = record_types })

pub record AuditExportRecord : Type 0 where
  pub namespace : Namespace
  pub record_type : String
  pub record_id : String
  pub record_revision : ℕ
  pub action : String
  pub result : String
  pub actor_principal_id : String
  pub actor_kind : PrincipalKind
  pub authority_revision : String
  pub correlation_id : String
  pub causation_id : String
  pub occurred_at : DateTime
  pub safe_digest : String
  pub safe_projection : FrozenJsonObject
  pub schema_version : ℕ

-- `AuditExportRecord.__post_init__`
unfoldable pub construct_export : AuditExportRecord → Result AuditExportRecord
construct_export self = do
  require_schema_version self.schema_version
  each require_stable_id (
      self.record_type ∷ self.record_id ∷ self.action ∷ self.result ∷ self.actor_principal_id
      ∷ self.authority_revision ∷ self.correlation_id ∷ self.causation_id ∷ [])
  require_revision self.record_revision
  require_utc self.occurred_at
  require_digest self.safe_digest
  ok self
