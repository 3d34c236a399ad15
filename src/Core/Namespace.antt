-- ===== src/Core/Namespace.antt =====
-- core/namespace.py
use digital_colleagues.Base.{
  ◌&&◌, Option, none, some, String, Eq, ◌==◌, nat_eq, string_eq, option_eq, list_eq,
  String-discrete, Result, ok, err, ◌>>◌, require, namespace_mismatch,
}
use digital_colleagues.Core.Common.{require_stable_id}

pub data NamespaceScope : Type 0 where
  tenant colleague principal : NamespaceScope

unfoldable pub NamespaceScope-discrete : Discrete NamespaceScope
NamespaceScope-discrete = hlevel

instance abbrev pub scope_eq : Eq NamespaceScope
scope_eq = record { decide_eq = NamespaceScope-discrete }

pub record Namespace : Type 0 where
  pub tenant_id : String
  pub scope : NamespaceScope
  pub scope_id : Option String

unfoldable pub Namespace-discrete : Discrete Namespace
unfolding String-discrete
Namespace-discrete = hlevel String-discrete

instance abbrev pub namespace_eq : Eq Namespace
namespace_eq = record { decide_eq = Namespace-discrete }

-- The test of `scope_id` in `Namespace.__post_init__`.
abbrev check_scope_id : NamespaceScope → Option String → Result (Unit {0})
check_scope_id tenant none = ok tt
check_scope_id tenant (some _) = err namespace_mismatch
check_scope_id _ none = err namespace_mismatch
check_scope_id _ (some scope_id) = require_stable_id scope_id

-- `Namespace.__post_init__`
unfoldable pub construct : Namespace → Result Namespace
construct self = do
  require_stable_id self.tenant_id
  check_scope_id self.scope self.scope_id
  ok self

-- `Namespace.require_colleague`
abbrev pub require_colleague : Namespace → Result (Unit {0})
require_colleague self = require (self.scope == colleague) namespace_mismatch

-- `Namespace.require_principal`
abbrev pub require_principal : Namespace → String → Result (Unit {0})
require_principal self principal_id =
    require (self.scope == principal && self.scope_id == some principal_id) namespace_mismatch

-- `Namespace.require_exact`
abbrev pub require_exact : Namespace → Namespace → Result (Unit {0})
require_exact self other = require (self == other) namespace_mismatch

-- `Namespace.require_same_tenant`
abbrev pub require_same_tenant : Namespace → Namespace → Result (Unit {0})
require_same_tenant self other = require (self.tenant_id == other.tenant_id) namespace_mismatch
