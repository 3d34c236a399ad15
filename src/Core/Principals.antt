-- ===== src/Core/Principals.antt =====
-- core/principals.py
use digital_colleagues.Base.{
  ℕ, Bool, true, false, ◌||◌, List, [], ◌∷◌, String, Eq, ◌==◌, nat_eq, string_eq, option_eq,
  list_eq, String-discrete, ℕ_discrete, Result, ok, ◌>>◌, ◌>>=◌, require, core_invariant,
}
use digital_colleagues.Base.Lists.{unique, elem, all}
use digital_colleagues.Core.Common.{
  freeze_strings, require_stable_id, require_schema_version, require_revision,
}
use digital_colleagues.Core.Namespace.{Namespace, Namespace-discrete, require_principal}

pub data PrincipalKind : Type 0 where
  human model service : PrincipalKind

unfoldable pub PrincipalKind-discrete : Discrete PrincipalKind
PrincipalKind-discrete = hlevel

instance abbrev pub kind_eq : Eq PrincipalKind
kind_eq = record { decide_eq = PrincipalKind-discrete }

pub data HumanRole : Type 0 where
  tenant_admin colleague_user auditor : HumanRole

unfoldable pub HumanRole-discrete : Discrete HumanRole
HumanRole-discrete = hlevel

instance abbrev pub role_eq : Eq HumanRole
role_eq = record { decide_eq = HumanRole-discrete }

pub record Principal : Type 0 where
  pub namespace : Namespace
  pub principal_id : String
  pub kind : PrincipalKind
  pub roles : List HumanRole
  pub revision : ℕ
  pub schema_version : ℕ

unfoldable pub Principal-discrete : Discrete Principal
unfolding Namespace-discrete String-discrete HumanRole-discrete PrincipalKind-discrete
Principal-discrete = hlevel (String-discrete, ℕ_discrete, Namespace-discrete)

instance abbrev pub principal_eq : Eq Principal
principal_eq = record { decide_eq = Principal-discrete }

abbrev no_roles : List HumanRole → Bool
no_roles [] = true
no_roles (_ ∷ _) = false

-- `Principal.__post_init__`
unfoldable pub construct : Principal → Result Principal
construct self = do
  require_schema_version self.schema_version
  require_stable_id self.principal_id
  require_principal self.namespace self.principal_id
  require (unique self.roles) core_invariant
  require (self.kind == human || no_roles self.roles) core_invariant
  require_revision self.revision
  ok self

-- `CANONICAL_HUMAN_ROLE_IDS`
abbrev pub canonical_human_role_ids : List String
canonical_human_role_ids = "tenant_admin" ∷ "colleague_user" ∷ "auditor" ∷ []

-- `canonical_role_ids`
abbrev pub canonical_role_ids : List String → Result (List String)
canonical_role_ids values = do
  role_ids ← freeze_strings true values
  require (all (λ role_id. elem role_id canonical_human_role_ids) role_ids) core_invariant
  ok role_ids
