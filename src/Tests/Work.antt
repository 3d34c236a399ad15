-- ===== src/Tests/Work.antt =====
-- Finite work and its graph at concrete inputs.
use digital_colleagues.Base.{
  ◌≡◌, refl, ◌≢◌, ◌↔◌, inl, none, List, [], ◌∷◌, String, nat_eq, string_eq, option_eq, list_eq,
  Result, ok, err, core_invariant,
}
use digital_colleagues.Base.Sorting.{sort, str_leb}
use digital_colleagues.Core.Work
use digital_colleagues.Core.Work.{
  FiniteWork, Transition, WorkState-discrete, planned, ready, in_progress, blocked, completed,
  cancelled, transition_work,
}
use digital_colleagues.Core.Work.Graph.{validate_work_dependency_graph, verdict}
use digital_colleagues.Core.Work.Transitions.{IsAllowed, moved, transition_work_exact}
use digital_colleagues.Core.Work.History.{
  here, next, Continues, Run-Continues, transition_work_terminal,
}
use digital_colleagues.Core.Work.Graph.Decides.{
  IsWorkGraph, validate_work_dependency_graph_exact, validate_work_dependency_graph_total,
}
use digital_colleagues.Tests.Samples.{running, at, office, boss}

abbrev task : String → List String → FiniteWork
task id dependencies = record {
  namespace = office;
  work_id = id;
  title = "Write the report";
  description = "A short report";
  state = planned;
  dependency_ids = dependencies;
  responsibility_ids = "reports" ∷ [];
  assignee_principal_id = "boss";
  actor = boss;
  mandate_id = "mandate";
  mandate_revision = 1;
  completion_evidence = [];
  correlation_id = "c-1";
  causation_id = none;
  created_at = at 10;
  updated_at = at 10;
  revision = 1;
  schema_version = 1;
}

task_constructed : Work.construct (task "a" ("b" ∷ [])) ≡ ok (task "a" ("b" ∷ []))
unfolding Work.construct WorkState-discrete running
task_constructed = refl

abbrev prepare : Transition
prepare = record {
  expected_revision = 1;
  next_state = ready;
  occurred_at = at 20;
  satisfied_dependency_ids = "b" ∷ [];
  completion_evidence = [];
}

abbrev done_task : FiniteWork
done_task = record (task "a" []) { state = completed }

transition_work_exact_example :
    (IsAllowed (task "a" ("b" ∷ [])) prepare
      → transition_work (task "a" ("b" ∷ [])) prepare ≡ ok (moved (task "a" ("b" ∷ [])) prepare))
    × ((after : FiniteWork)
        → transition_work (task "a" ("b" ∷ [])) prepare ≡ ok after
        → IsAllowed (task "a" ("b" ∷ [])) prepare × (after ≡ moved (task "a" ("b" ∷ [])) prepare))
transition_work_exact_example = transition_work_exact (task "a" ("b" ∷ [])) prepare task_constructed

prepared : transition_work (task "a" ("b" ∷ [])) prepare ≡ ok (moved (task "a" ("b" ∷ [])) prepare)
unfolding transition_work Work.construct WorkState-discrete running
prepared = refl

Run-Continues_example : Continues (task "a" ("b" ∷ [])) 1 (moved (task "a" ("b" ∷ [])) prepare)
Run-Continues_example =
    Run-Continues (task "a" ("b" ∷ [])) task_constructed (next here prepare prepared)

transition_work_terminal_example : transition_work done_task prepare ≢ ok (moved done_task prepare)
transition_work_terminal_example =
    transition_work_terminal done_task prepare (moved done_task prepare) (inl refl)

abbrev chain : List FiniteWork
chain = task "a" ("b" ∷ "c" ∷ []) ∷ task "b" ("c" ∷ []) ∷ task "c" [] ∷ []

abbrev loop : List FiniteWork
loop = task "a" ("b" ∷ []) ∷ task "b" ("a" ∷ []) ∷ []

validate-chain : validate_work_dependency_graph chain ≡ verdict (ok tt)
unfolding validate_work_dependency_graph sort str_leb running
validate-chain = refl

validate-loop : validate_work_dependency_graph loop ≡ verdict (err core_invariant)
unfolding validate_work_dependency_graph sort str_leb running
validate-loop = refl

validate_work_dependency_graph_exact_example :
    (validate_work_dependency_graph chain ≡ verdict (ok tt)) ↔ IsWorkGraph chain
validate_work_dependency_graph_exact_example = validate_work_dependency_graph_exact chain

validate_work_dependency_graph_total_example :
    (r : Result (Unit {0})) × (validate_work_dependency_graph loop ≡ verdict r)
validate_work_dependency_graph_total_example = validate_work_dependency_graph_total loop
