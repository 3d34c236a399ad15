-- ===== src/Core/Work/Graph/Decides.antt =====
-- `validate_work_dependency_graph` decides whether work forms a graph without a cycle.
use digital_colleagues.Base.{
  suc, ◌≡◌, refl, ap, ◌↔◌, inl, inr, true, List, [], ◌∷◌, String, arith, ◌==◌, nat_eq, string_eq,
  option_eq, list_eq, String-discrete, Result, ok, err, ◌>>◌, core_invariant,
}
use digital_colleagues.Base.Lists.{elem, all, all-elem, length, unique}
use digital_colleagues.Base.Sorting.{sort, str_leb, elem-sort}
use digital_colleagues.Core.Namespace.{Namespace, namespace_eq}
use digital_colleagues.Core.Work.{FiniteWork}
use digital_colleagues.Core.Work.Graph.{
  find_work, dependencies, work_ids, index_works, check_known, Visits, no_visits, Search, done,
  cycle, visit, search_all, Verdict, verdict, validate_work_dependency_graph, judge, and_then,
  out_of_fuel,
}
use digital_colleagues.Core.Work.Graph.Index.{
  all_known, index_works-ok, index_works_accepts, check_known_lem, closed_of_check,
}
use digital_colleagues.Core.Work.Graph.Order.{
  IsAcyclic, DependsOn, direct, indirect, IsOrdered-acyclic,
}
use digital_colleagues.Core.Work.Graph.Sound.{visit_each-Finished, visit-Finished}
use digital_colleagues.Core.Work.Graph.Total.{IsClosed, Bounded, visit_each-Ends, visit-Ends, Ends}
use digital_colleagues.Core.Work.Graph.Complete.{visit_each-Returns, visit-Returns}

-- Work of one namespace, with distinct IDs, closed under dependency and without a cycle.
pub record IsGraph (namespace : Namespace) (works : List FiniteWork) : Type 0 where
  pub one_namespace : all (λ work. namespace == work.namespace) works ≡ true
  pub distinct : unique (work_ids works) ≡ true
  pub known : all_known works ≡ true
  pub acyclic : IsAcyclic (dependencies works)

closed_of_known :
    (ids : List String) (works : List FiniteWork)
    → all (λ work. all (λ id. elem id ids) work.dependency_ids) works ≡ true
    → (id d : String) → elem d (dependencies works id) ≡ true
    → elem d ids ≡ true
unfolding dependencies find_work
closed_of_known ids [] h id d m = cc
closed_of_known ids (work ∷ works) h id d m = elim (String-discrete id work.work_id) [
  | yes same ↦ all-elem (λ id. elem id ids) work.dependency_ids (ground arith) d (ground arith)
  | no differ ↦ closed_of_known ids works (ground arith) id d (ground arith)
]

unknown_has_none :
    (works : List FiniteWork) (id d : String)
    → elem d (dependencies works id) ≡ true
    → elem id (work_ids works) ≡ true
unfolding dependencies find_work work_ids
unknown_has_none [] id d m = cc
unknown_has_none (work ∷ works) id d m = ground (arith, unknown_has_none works id d)

length-work_ids : (works : List FiniteWork) → length (work_ids works) ≡ length works
unfolding work_ids
length-work_ids [] = refl
length-work_ids (work ∷ works) = ap suc (length-work_ids works)

start :
    (works : List FiniteWork) (id : String)
    → elem id (work_ids works) ≡ true
    → Bounded works (suc (length works)) id []
start works id m = record {
  known = m;
  inside = λ x n. cc;
  distinct = refl;
  room = omega (arith, length-work_ids works);
}

search_all-Ends : (works : List FiniteWork) → IsClosed works → Ends (search_all works) no_visits
unfolding search_all
search_all-Ends works closed =
    visit_each-Ends (visit works (suc (length works))) (sort str_leb (work_ids works)) no_visits
      (λ id u m e.
        visit-Ends works (suc (length works)) id u closed
          (rw e (start works id (rw (elem-sort str_leb id (work_ids works)) at m))))

first_of_cycle :
    (works : List FiniteWork) {a b : String}
    → DependsOn (dependencies works) a b
    → (d : String) × (elem d (dependencies works a) ≡ true)
first_of_cycle works (direct {b = b} m) = (b, m)
first_of_cycle works (indirect d m) = first_of_cycle works d

search_all_acyclic :
    (works : List FiniteWork) {t : Visits}
    → search_all works ≡ done t
    → IsAcyclic (dependencies works)
unfolding search_all
search_all_acyclic works {t} h a d =
    let ids = sort str_leb (work_ids works) in
    let f =
      visit_each-Finished works (visit works (suc (length works)))
        (visit-Finished works (suc (length works))) ids no_visits t h tt in
    let member = unknown_has_none works a (first_of_cycle works d).0 (first_of_cycle works d).1 in
    IsOrdered-acyclic (dependencies works) t.visited f.ordered a
      (f.found a (rw (elem-sort str_leb a (work_ids works)) member)) d

search_all_done :
    (works : List FiniteWork)
    → IsClosed works
    → IsAcyclic (dependencies works)
    → (t : Visits) × (search_all works ≡ done t)
unfolding search_all
search_all_done works closed acyclic =
    let (t, e, _) =
      visit_each-Returns (visit works (suc (length works))) (sort str_leb (work_ids works))
        no_visits
        (λ id u m e. visit-Returns works (suc (length works)) id u closed acyclic (
          rw e (record {
            bounded = start works id (rw (elem-sort str_leb id (work_ids works)) at m);
            leads = λ x n. cc;
          }))) in
    (t, e)

-- A namespaced, distinct, closed and acyclic list of work, which is not empty.
abbrev pub IsWorkGraph : List FiniteWork → Type 0
IsWorkGraph [] = ⊥
IsWorkGraph (first ∷ works) = IsGraph first.namespace (first ∷ works)

judge_ok : (r : Search) → judge r ≡ verdict (ok tt) → (t : Visits) × (r ≡ done t)
judge_ok (done t) h = (t, refl)
judge_ok cycle h = cc
judge_ok out_of_fuel h = cc

and_then_ok :
    (r : Result (Unit {0})) (v : Verdict)
    → and_then r v ≡ verdict (ok tt)
    → (r ≡ ok tt) × (v ≡ verdict (ok tt))
and_then_ok (ok tt) v h = (refl, h)
and_then_ok (err e) v h = cc

then_ok : (r q : Result (Unit {0})) → (r >> q) ≡ ok tt → (r ≡ ok tt) × (q ≡ ok tt)
then_ok (ok tt) q h = (refl, h)
then_ok (err e) q h = cc

IsGraph-of_accepted :
    (namespace : Namespace) (works : List FiniteWork)
    → and_then (index_works namespace [] works >> check_known works) (judge (search_all works))
      ≡ verdict (ok tt)
    → IsGraph namespace works
IsGraph-of_accepted namespace works h =
    let (checks, found) =
      and_then_ok (index_works namespace [] works >> check_known works) (judge (search_all works))
        h in
    let (t, e) = judge_ok (search_all works) found in
    let (indexed, known) = then_ok (index_works namespace [] works) (check_known works) checks in
    let (same, u, _) = index_works-ok namespace [] works indexed in
    record {
      one_namespace = same;
      distinct = u;
      known = closed_of_check works known;
      acyclic = search_all_acyclic works e;
    }

accepted_of_IsGraph :
    (namespace : Namespace) (works : List FiniteWork)
    → IsGraph namespace works
    → and_then (index_works namespace [] works >> check_known works) (judge (search_all works))
      ≡ verdict (ok tt)
accepted_of_IsGraph namespace works g =
    let indexed = index_works_accepts namespace [] works g.one_namespace g.distinct (λ x m. refl) in
    let (t, e) = search_all_done works (closed_of_known (work_ids works) works g.known) g.acyclic in
    rw (indexed, check_known_lem works, g.known, e)

-- `validate_work_dependency_graph` accepts exactly the lists that form a graph of work.
pub validate_work_dependency_graph_exact :
    (works : List FiniteWork)
    → (validate_work_dependency_graph works ≡ verdict (ok tt)) ↔ IsWorkGraph works
unfolding validate_work_dependency_graph
validate_work_dependency_graph_exact [] = (λ h. cc, λ h. absurd h)
validate_work_dependency_graph_exact (first ∷ works) = (
  IsGraph-of_accepted first.namespace (first ∷ works),
  accepted_of_IsGraph first.namespace (first ∷ works),
)

decided :
    (works : List FiniteWork) (r : Search)
    → Ends r no_visits
    → (q : Result (Unit {0})) × (judge r ≡ verdict q)
decided works r (inl found) = (err core_invariant, rw found)
decided works r (inr (t, e, _)) = (ok tt, rw e)

and_then_decided :
    (works : List FiniteWork) (r : Result (Unit {0}))
    → check_known works ≡ r
    → (q : Result (Unit {0})) × (and_then r (judge (search_all works)) ≡ verdict q)
and_then_decided works (err e) h = (err e, refl)
and_then_decided works (ok tt) h =
    decided works (search_all works)
      (search_all-Ends works (closed_of_known (work_ids works) works (closed_of_check works h)))

total_of_index :
    (works : List FiniteWork) (r : Result (Unit {0}))
    → (q : Result (Unit {0})) × (and_then (r >> check_known works) (judge (search_all works))
        ≡ verdict q)
total_of_index works (ok tt) = and_then_decided works (check_known works) refl
total_of_index works (err e) = (err e, refl)

-- On every list, also one with a cycle, the search ends with a verdict: the fuel is enough.
pub validate_work_dependency_graph_total :
    (works : List FiniteWork)
    → (r : Result (Unit {0})) × (validate_work_dependency_graph works ≡ verdict r)
unfolding validate_work_dependency_graph
validate_work_dependency_graph_total [] = (err core_invariant, refl)
validate_work_dependency_graph_total (first ∷ works) =
    total_of_index (first ∷ works) (index_works first.namespace [] (first ∷ works))
