-- ===== src/Core/Effects/Envelope.antt =====
-- core/effects.py: what the digest of a proposal covers, and the constructor of proposals.
-- `canonical_digest`, the SHA-256 of a JSON text, is a parameter on the document.
use digital_colleagues.Base.{
  ℕ, not, Option, none, some, List, [], ◌∷◌, map, String, ◌==◌, nat_eq, string_eq, option_eq,
  list_eq, ltb, Result, ok, ◌>>◌, require, core_invariant,
}
use digital_colleagues.Base.Sorting.{sort, str_leb}
use digital_colleagues.Core.Common.{require_stable_id}
use digital_colleagues.Core.Common.Json.{
  FrozenJsonObject, Value, null, text, integer, frozen, mapping, array, Values, end, item, Entries,
  empty, entry, pos, is_empty,
}
use digital_colleagues.Core.Common.Calendar.{datetime_to_canonical_z}
use digital_colleagues.Core.Namespace.{Namespace, NamespaceScope, tenant, colleague, principal}
use digital_colleagues.Core.Principals.{
  Principal, PrincipalKind, human, model, service, HumanRole, tenant_admin, colleague_user, auditor,
}
use digital_colleagues.Core.Authority.{EffectKind, reference_message, internal_record, notification}
use digital_colleagues.Core.Runtime.{validate_causal_record, validate_policy_binding}
use digital_colleagues.Core.Effects.{
  EffectProposal, EffectProposalState, pending_approval, approved, rejected, expired,
}

unfoldable mutual
  -- `_json_data`: plain mappings and lists for the frozen ones.
  pub json_data : Value → Value
  json_data (frozen entries) = mapping (json_entries entries)
  json_data (array values) = array (json_items values)
  json_data value = value

  pub json_items : Values → Values
  json_items end = end
  json_items (item value rest) = item (json_data value) (json_items rest)

  pub json_entries : Entries → Entries
  json_entries empty = empty
  json_entries (entry key value rest) = entry key (json_data value) (json_entries rest)

-- The values of the enumerations.
abbrev pub scope_value : NamespaceScope → String
scope_value tenant = "tenant"
scope_value colleague = "colleague"
scope_value principal = "principal"

abbrev pub kind_value : PrincipalKind → String
kind_value human = "human"
kind_value model = "model"
kind_value service = "service"

abbrev pub role_value : HumanRole → String
role_value tenant_admin = "tenant_admin"
role_value colleague_user = "colleague_user"
role_value auditor = "auditor"

abbrev pub effect_kind_value : EffectKind → String
effect_kind_value reference_message = "reference_message"
effect_kind_value internal_record = "internal_record"
effect_kind_value notification = "notification"

abbrev pub proposal_state_value : EffectProposalState → String
proposal_state_value pending_approval = "pending_approval"
proposal_state_value approved = "approved"
proposal_state_value rejected = "rejected"
proposal_state_value expired = "expired"

abbrev pub optional_text : Option String → Value
optional_text none = null
optional_text (some value) = text value

abbrev pub optional_number : Option ℕ → Value
optional_number none = null
optional_number (some value) = integer (pos value)

-- A list of texts.
abbrev pub texts : List String → Values
texts [] = end
texts (value ∷ values) = item (text value) (texts values)

-- `_namespace_envelope`
abbrev pub namespace_envelope : Namespace → Value
namespace_envelope namespace = mapping (
    entry "scope" (text (scope_value namespace.scope)) (
      entry "scope_id" (optional_text namespace.scope_id)
        (entry "tenant_id" (text namespace.tenant_id) empty)))

-- `_principal_envelope`
abbrev pub principal_envelope : Principal → Value
principal_envelope self = mapping (
    entry "kind" (text (kind_value self.kind)) (
      entry "namespace" (namespace_envelope self.namespace) (
        entry "principal_id" (text self.principal_id) (
          entry "revision" (integer (pos self.revision)) (
            entry "roles" (array (texts (sort str_leb (map role_value self.roles))))
              (entry "schema_version" (integer (pos self.schema_version)) empty))))))

-- The document of which `proposal_digest` is the digest.
abbrev pub proposal_envelope : String → EffectProposal → Value
proposal_envelope payload_digest self = mapping (
    entry "action" (text self.action) (
      entry "actor" (principal_envelope self.actor) (
        entry "causation_id" (text self.causation_id) (
          entry "constraints"
            (mapping (
              entry "boundary_id" (text self.constraints.boundary_id) (
                entry "idempotency_key" (text self.constraints.idempotency_key) (
                  entry "maximum_attempts" (integer (pos self.constraints.maximum_attempts)) (
                    entry "parameters" (json_data (frozen self.constraints.parameters.as_entries)) (
                      entry "valid_until"
                        (text (datetime_to_canonical_z self.constraints.valid_until)) empty))))))
            (entry "correlation_id" (text self.correlation_id) (
              entry "decision_id" (text self.decision_id) (
                entry "destination"
                  (mapping (
                    entry "kind" (text self.destination.kind)
                      (entry "target" (text self.destination.target) empty)))
                  (entry "digest_schema_version" (integer (pos 1)) (
                    entry "effect_kind" (text (effect_kind_value self.effect_kind)) (
                      entry "mandate_id" (optional_text self.mandate_id) (
                        entry "mandate_revision" (optional_number self.mandate_revision) (
                          entry "namespace" (namespace_envelope self.namespace) (
                            entry "occurred_at" (text (datetime_to_canonical_z self.occurred_at)) (
                              entry "policy_id" (optional_text self.policy_id) (
                                entry "policy_revision" (optional_number self.policy_revision) (
                                  entry "payload_digest" (text payload_digest) (
                                    entry "proposal_id" (text self.proposal_id) (
                                      entry "proposal_revision" (integer (pos self.revision)) (
                                        entry "safe_projection"
                                          (json_data (frozen self.safe_projection.as_entries))
                                          (entry "schema_version"
                                            (integer (pos self.schema_version))
                                            (entry "state" (text (proposal_state_value self.state))
                                              empty)))))))))))))))))))))

module _ (canonical_digest : Value → String) where
  -- `_payload_digest`
  abbrev pub payload_digest_of : FrozenJsonObject → String
  payload_digest_of payload = canonical_digest (json_data (frozen payload.as_entries))

  -- `EffectProposal.__post_init__`. The tests of the mandate's and of the policy's identity are
  -- those of `validate_policy_binding`.
  unfoldable pub construct : EffectProposal → Result EffectProposal
  construct self = do
    require_stable_id self.proposal_id
    require_stable_id self.decision_id
    require_stable_id self.action
    require (not (is_empty self.payload)) core_invariant
    require (not (is_empty self.safe_projection)) core_invariant
    validate_causal_record (record {
      namespace = self.namespace;
      actor = self.actor;
      correlation_id = self.correlation_id;
      causation_id = some self.causation_id;
      occurred_at = self.occurred_at;
      revision = self.revision;
      schema_version = self.schema_version;
    })
    require (self.causation_id == self.decision_id) core_invariant
    require (ltb self.occurred_at.clock self.constraints.valid_until.clock) core_invariant
    validate_policy_binding self.mandate_id self.mandate_revision
    validate_policy_binding self.policy_id self.policy_revision
    ok (record self {
      payload_digest = payload_digest_of self.payload;
      proposal_digest = canonical_digest (proposal_envelope (payload_digest_of self.payload) self);
    })
