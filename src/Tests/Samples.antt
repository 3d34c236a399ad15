-- ===== src/Tests/Samples.antt =====
-- Values of the core that the tests share. They are accepted by their constructors.
use digital_colleagues.Base.{
  ℕ, ◌≡◌, refl, some, [], ◌∷◌, String, nat_eq, string_eq, option_eq, list_eq, List-discrete,
  Option-discrete, String-discrete, ℕ_discrete, ok,
}
use digital_colleagues.Core.Common.{
  DateTime, zero_offset, require_text, freeze_strings, is_stable_id, is_digest,
}
use digital_colleagues.Core.Common.Strip.{strip}
use digital_colleagues.Core.Common.Chars.{is_space}
use digital_colleagues.Core.Namespace.{
  Namespace, principal, colleague, Namespace-discrete, NamespaceScope-discrete,
}
use digital_colleagues.Core.Principals.{
  Principal, human, model, service, tenant_admin, colleague_user, HumanRole-discrete,
  PrincipalKind-discrete, Principal-discrete,
}
use digital_colleagues.Core.Principals

abbrev pub at : ℕ → DateTime
at clock = record { clock = clock; offset = zero_offset }

abbrev pub office : Namespace
office = record { tenant_id = "acme"; scope = colleague; scope_id = some "ada" }

abbrev pub person : String → Namespace
person id = record { tenant_id = "acme"; scope = principal; scope_id = some id }

abbrev pub boss : Principal
boss = record {
  namespace = person "boss";
  principal_id = "boss";
  kind = human;
  roles = tenant_admin ∷ [];
  revision = 1;
  schema_version = 1;
}

abbrev pub user : Principal
user = record {
  namespace = person "user";
  principal_id = "user";
  kind = human;
  roles = colleague_user ∷ [];
  revision = 2;
  schema_version = 1;
}

-- What a run of the code computes with: the equalities, and the checks of texts.
unfoldable pub running : Unit {0}
unfolding String-discrete ℕ_discrete List-discrete Option-discrete Namespace-discrete
    NamespaceScope-discrete HumanRole-discrete PrincipalKind-discrete Principal-discrete
    is_stable_id is_digest require_text freeze_strings strip is_space
running = tt

boss_constructed : Principals.construct boss ≡ ok boss
unfolding Principals.construct running
boss_constructed = refl
