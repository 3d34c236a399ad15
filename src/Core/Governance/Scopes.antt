-- ===== src/Core/Governance/Scopes.antt =====
-- What a constructed membership covers.
use digital_colleagues.Base.{◌≡◌, true, arith, nat_eq, string_eq, option_eq, list_eq, ok}
use digital_colleagues.Base.Lists.{elem}
use digital_colleagues.Core.Namespace.{scope_eq}
use digital_colleagues.Core.Principals.{tenant_admin, role_eq}
use digital_colleagues.Core.Governance.{Membership, construct_membership, every_colleague}

-- A membership that reaches the tenant namespace belongs to an Admin.
pub tenant_scope_admin :
    (membership : Membership)
    → construct_membership membership ≡ ok membership
    → membership.colleague_ids ≡ every_colleague
    → elem tenant_admin membership.roles ≡ true
unfolding construct_membership
tenant_scope_admin membership h e = ground arith
