-- ===== src/Core/Effects.antt =====
-- core/effects.py: destinations, constraints, proposals and what they are bound by.
pub mod Envelope
pub mod Approval
pub mod Attempt
use digital_colleagues.Base.{
  ℕ, zero, suc, ◌+◌, ◌-◌, ◌*◌, ◌/◌, ◌%◌, ◌≤◌, ◌<◌, ◌≡◌, refl, sym, ap, ◌∙◌, ◌≢◌, ◌↔◌, ◌⊎◌, inl, inr,
  Bool, true, false, not, ◌&&◌, ◌||◌, Option, none, some, List, [], ◌∷◌, ◌++◌, map, String, arith,
  Eq, ◌==◌, nat_eq, string_eq, option_eq, list_eq, List-discrete, Option-discrete, String-discrete,
  ℕ_discrete, ltb, leb, if◌then◌else◌, Bool-cases, Error, Result, ok, err, ◌>>=◌, ◌>>◌, require,
  core_invariant, namespace_mismatch, revision_mismatch, authorization, replay, lifecycle,
  >>=-ok_parts,
}
use digital_colleagues.Core.Common.{
  DateTime, require_text, require_stable_id, require_revision, require_utc,
}
use digital_colleagues.Core.Common.Json.{FrozenJsonObject}
use digital_colleagues.Core.Namespace.{Namespace}
use digital_colleagues.Core.Principals.{Principal}
use digital_colleagues.Core.Authority.{EffectKind}

pub record EffectDestination : Type 0 where
  pub kind : String
  pub target : String

-- `EffectDestination.__post_init__`
unfoldable pub construct_destination : EffectDestination → Result EffectDestination
construct_destination self = do
  require_stable_id self.kind
  target ← require_text 512 self.target
  ok (record self { target = target })

pub record EffectConstraints : Type 0 where
  pub boundary_id : String
  pub idempotency_key : String
  pub valid_until : DateTime
  pub maximum_attempts : ℕ
  pub parameters : FrozenJsonObject

-- `EffectConstraints.__post_init__`
unfoldable pub construct_constraints : EffectConstraints → Result EffectConstraints
construct_constraints self = do
  require_stable_id self.boundary_id
  require_stable_id self.idempotency_key
  require_utc self.valid_until
  require (leb 1 self.maximum_attempts) core_invariant
  ok self

pub data EffectProposalState : Type 0 where
  pending_approval approved rejected expired : EffectProposalState

unfoldable pub EffectProposalState-discrete : Discrete EffectProposalState
EffectProposalState-discrete = hlevel

instance abbrev pub proposal_state_eq : Eq EffectProposalState
proposal_state_eq = record { decide_eq = EffectProposalState-discrete }

-- `payload_digest` and `proposal_digest` are filled in by the constructor.
pub record EffectProposal : Type 0 where
  pub namespace : Namespace
  pub proposal_id : String
  pub decision_id : String
  pub effect_kind : EffectKind
  pub destination : EffectDestination
  pub action : String
  pub payload : FrozenJsonObject
  pub safe_projection : FrozenJsonObject
  pub constraints : EffectConstraints
  pub state : EffectProposalState
  pub actor : Principal
  pub correlation_id : String
  pub causation_id : String
  pub occurred_at : DateTime
  pub revision : ℕ
  pub schema_version : ℕ
  pub mandate_id : Option String
  pub mandate_revision : Option ℕ
  pub policy_id : Option String
  pub policy_revision : Option ℕ
  pub payload_digest : String
  pub proposal_digest : String
