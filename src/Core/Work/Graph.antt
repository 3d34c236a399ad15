-- ===== src/Core/Work/Graph.antt =====
-- core/work.py: `validate_work_dependency_graph`, a depth-first search for a cycle.
pub mod Index
pub mod Order
pub mod Sound
pub mod Total
pub mod Complete
pub mod Decides
use digital_colleagues.Base.{
  ℕ, zero, suc, ◌+◌, ◌-◌, ◌*◌, ◌/◌, ◌%◌, ◌≤◌, ◌<◌, ◌≡◌, refl, sym, ap, ◌∙◌, ◌≢◌, ◌↔◌, ◌⊎◌, inl, inr,
  Bool, true, false, not, ◌&&◌, ◌||◌, Option, none, some, List, [], ◌∷◌, ◌++◌, map, String, arith,
  Eq, ◌==◌, nat_eq, string_eq, option_eq, list_eq, String-discrete, ℕ_discrete, ltb, leb,
  if◌then◌else◌, Bool-cases, Error, Result, ok, err, ◌>>=◌, ◌>>◌, require, core_invariant,
  namespace_mismatch, revision_mismatch, authorization, replay, lifecycle, >>=-ok_parts,
}
use digital_colleagues.Base.Lists.{elem, all, each, length, remove}
use digital_colleagues.Base.Sorting.{sort, str_leb}
use digital_colleagues.Core.Namespace.{Namespace, require_exact}
use digital_colleagues.Core.Work.{FiniteWork}

-- The dictionary `by_id`, as the list of its values.
pub find_work : List FiniteWork → String → Option FiniteWork
find_work [] id = none
find_work (work ∷ works) id = if id == work.work_id then some work else find_work works id

abbrev dependency_ids : Option FiniteWork → List String
dependency_ids none = []
dependency_ids (some work) = work.dependency_ids

-- `by_id[work_id].dependency_ids`; the search asks only for IDs that are in the dictionary.
unfoldable pub dependencies : List FiniteWork → String → List String
unfolding find_work
dependencies works id = dependency_ids (find_work works id)

pub work_ids : List FiniteWork → List String
work_ids = map (λ work. work.work_id)

-- The first loop: one namespace, and no ID twice.
pub index_works : Namespace → List String → List FiniteWork → Result (Unit {0})
index_works namespace seen [] = ok tt
index_works namespace seen (work ∷ works) = do
  require_exact namespace work.namespace
  require (not (elem work.work_id seen)) core_invariant
  index_works namespace (work.work_id ∷ seen) works

-- The second loop: no dependency outside the dictionary.
pub check_known : List FiniteWork → Result (Unit {0})
unfolding work_ids
check_known works =
    each (λ work. require (all (λ id. elem id (work_ids works)) work.dependency_ids) core_invariant)
      works

-- The sets `visiting` and `visited`.
pub record Visits : Type 0 where
  pub visiting : List String
  pub visited : List String

pub data Search : Type 0 where
  done : Visits → Search
  cycle out_of_fuel : Search

pub enter : String → Visits → Visits
enter id s = record s { visiting = id ∷ s.visiting }

pub leave : String → Search → Search
leave id (done s) = done (record { visiting = remove id s.visiting; visited = id ∷ s.visited })
leave id cycle = cycle
leave id out_of_fuel = out_of_fuel

-- `for id in ids: visit(id)`
pub visit_each : (String → Visits → Search) → List String → Visits → Search
visit_each visit [] s = done s
visit_each visit (id ∷ ids) s = elim (visit id s) [
  | done t ↦ visit_each visit ids t
  | cycle ↦ cycle
  | out_of_fuel ↦ out_of_fuel
]

-- `visit`. The fuel bounds the depth of the recursion.
pub visit : List FiniteWork → ℕ → String → Visits → Search
unfolding visit_each enter leave
visit works zero id s = out_of_fuel
visit works (suc fuel) id s =
    if elem id s.visiting
    then cycle
    else if elem id s.visited
    then done s
    else leave id (visit_each (visit works fuel) (dependencies works id) (enter id s))

abbrev pub no_visits : Visits
no_visits = record { visiting = []; visited = [] }

-- The loop that starts the search, over the sorted IDs.
pub search_all : List FiniteWork → Search
unfolding visit
search_all works =
    visit_each (visit works (suc (length works))) (sort str_leb (work_ids works)) no_visits

pub data Verdict : Type 0 where
  verdict : Result (Unit {0}) → Verdict
  undecided : Verdict

abbrev pub judge : Search → Verdict
judge (done s) = verdict (ok tt)
judge cycle = verdict (err core_invariant)
judge out_of_fuel = undecided

abbrev pub and_then : Result (Unit {0}) → Verdict → Verdict
and_then (ok _) v = v
and_then (err e) v = verdict (err e)

-- `validate_work_dependency_graph`
unfoldable pub validate_work_dependency_graph : List FiniteWork → Verdict
unfolding index_works check_known search_all dependencies
validate_work_dependency_graph [] = verdict (err core_invariant)
validate_work_dependency_graph (first ∷ works) =
    let all_works = first ∷ works in
    and_then (index_works first.namespace [] all_works >> check_known all_works)
      (judge (search_all all_works))
