-- ===== src/Governance/Approvals/Binding.antt =====
-- An approval is only for the effect that was shown.
use digital_colleagues.Base.{
  ℕ, ◌≡◌, refl, sym, ap, ◌∙◌, Option, none, some, String, arith, nat_eq, string_eq, option_eq,
  list_eq, String-discrete, ok,
}
use digital_colleagues.Core.Common.Json.{Value, frozen, mapping, text, integer, pos, null, lookup}
use digital_colleagues.Core.Effects.{EffectProposal}
use digital_colleagues.Core.Effects.Envelope
use digital_colleagues.Core.Effects.Envelope.{
  json_data, proposal_envelope, payload_digest_of, effect_kind_value, optional_text,
  optional_number,
}
use digital_colleagues.Core.Effects.Approval.{HumanApprovalDecision}
use digital_colleagues.Governance.Approvals.{
  Evaluation, ApprovalAuthorization, authorize_human_approval,
}
use digital_colleagues.Governance.Approvals.Exact.{IsApproved-of_ok}

-- What the digest of a proposal fixes of its effect.
pub record IsSameEffect (shown sent : EffectProposal) : Type 0 where
  pub namespace : shown.namespace.tenant_id ≡ sent.namespace.tenant_id
  pub colleague : shown.namespace.scope_id ≡ sent.namespace.scope_id
  pub kind : effect_kind_value shown.effect_kind ≡ effect_kind_value sent.effect_kind
  pub destination : shown.destination ≡ sent.destination
  pub action : shown.action ≡ sent.action
  pub payload :
      json_data (frozen shown.payload.as_entries) ≡ json_data (frozen sent.payload.as_entries)
  pub projection :
      json_data (frozen shown.safe_projection.as_entries)
      ≡ json_data (frozen sent.safe_projection.as_entries)
  pub boundary : shown.constraints.boundary_id ≡ sent.constraints.boundary_id
  pub attempts : shown.constraints.maximum_attempts ≡ sent.constraints.maximum_attempts
  pub mandate : shown.mandate_id ≡ sent.mandate_id
  pub mandate_revision : shown.mandate_revision ≡ sent.mandate_revision

-- The value at a key of a document.
member : String → Value → Value
member key (mapping entries) = elim (lookup entries key) [ none ↦ null | some value ↦ value ]
member key value = null

text-injective : (a b : String) → text a ≡ text b → a ≡ b
text-injective a b h = cc

number-injective : (a b : ℕ) → integer (pos a) ≡ integer (pos b) → a ≡ b
number-injective a b h = cc

optional_text-injective : (a b : Option String) → optional_text a ≡ optional_text b → a ≡ b
optional_text-injective none none h = refl
optional_text-injective none (some _) h = cc
optional_text-injective (some _) none h = cc
optional_text-injective (some _) (some _) h = cc

optional_number-injective : (a b : Option ℕ) → optional_number a ≡ optional_number b → a ≡ b
optional_number-injective none none h = refl
optional_number-injective none (some _) h = cc
optional_number-injective (some _) none h = cc
optional_number-injective (some _) (some _) h = cc

module _ (canonical_digest : Value → String) where
  -- The document of a proposal.
  abbrev pub document : EffectProposal → Value
  document self = proposal_envelope (payload_digest_of canonical_digest self.payload) self

  digest-construct :
      (raw proposal : EffectProposal)
      → Envelope.construct canonical_digest raw ≡ ok proposal
      → proposal.proposal_digest ≡ canonical_digest (document proposal)
  unfolding Envelope.construct
  digest-construct raw proposal h = ground arith

  same_of_document :
      (shown sent : EffectProposal)
      → document shown ≡ document sent
      → (canonical_digest (json_data (frozen shown.payload.as_entries))
            ≡ canonical_digest (json_data (frozen sent.payload.as_entries))
          → json_data (frozen shown.payload.as_entries)
            ≡ json_data (frozen sent.payload.as_entries))
      → IsSameEffect shown sent
  unfolding member String-discrete
  same_of_document shown sent same payload_free = record {
    namespace = text-injective _ _ (ap (λ v. member "tenant_id" (member "namespace" v)) same);
    colleague =
        optional_text-injective _ _ (ap (λ v. member "scope_id" (member "namespace" v)) same);
    kind = text-injective _ _ (ap (member "effect_kind") same);
    destination = cc (
      text-injective shown.destination.kind sent.destination.kind
          (ap (λ v. member "kind" (member "destination" v)) same),
      text-injective shown.destination.target sent.destination.target
          (ap (λ v. member "target" (member "destination" v)) same),
    );
    action = text-injective _ _ (ap (member "action") same);
    payload = payload_free (text-injective _ _ (ap (member "payload_digest") same));
    projection = ap (member "safe_projection") same;
    boundary = text-injective _ _ (ap (λ v. member "boundary_id" (member "constraints" v)) same);
    attempts =
        number-injective _ _ (ap (λ v. member "maximum_attempts" (member "constraints" v)) same);
    mandate = optional_text-injective _ _ (ap (member "mandate_id") same);
    mandate_revision = optional_number-injective _ _ (ap (member "mandate_revision") same);
  }

  -- If one decision authorizes two constructed proposals, and the digest tells their documents and payloads
  -- apart where these differ, then both proposals have the same effect: no approval reaches
  -- another destination, action, payload or mandate than the one that was shown.
  pub approval_binds :
      (raw shown raw_sent sent : EffectProposal) (decision : HumanApprovalDecision)
      (e f : Evaluation) (answer other : ApprovalAuthorization)
      → Envelope.construct canonical_digest raw ≡ ok shown
      → Envelope.construct canonical_digest raw_sent ≡ ok sent
      → authorize_human_approval shown decision e ≡ ok answer
      → authorize_human_approval sent decision f ≡ ok other
      → (canonical_digest (document shown) ≡ canonical_digest (document sent)
          → document shown ≡ document sent)
      → (canonical_digest (json_data (frozen shown.payload.as_entries))
            ≡ canonical_digest (json_data (frozen sent.payload.as_entries))
          → json_data (frozen shown.payload.as_entries)
            ≡ json_data (frozen sent.payload.as_entries))
      → IsSameEffect shown sent
  approval_binds raw shown raw_sent sent decision e f answer other p q a b documents payloads =
      let one = IsApproved-of_ok shown decision e a in
      let two = IsApproved-of_ok sent decision f b in
      same_of_document shown sent
        (documents (
          sym (digest-construct raw shown p)
          ∙ sym one.same_proposal
          ∙ two.same_proposal
          ∙ digest-construct raw_sent sent q))
        payloads
