-- ===== src/Core/Work/Graph/Index.antt =====
-- The two loops that `validate_work_dependency_graph` runs before its search.
use digital_colleagues.Base.{
  ◌≡◌, refl, ◌≢◌, inl, inr, Bool, true, false, List, [], ◌∷◌, String, arith, ◌==◌, nat_eq,
  string_eq, option_eq, list_eq, String-discrete, Bool-cases, Error, ok, require, core_invariant,
}
use digital_colleagues.Base.Lists.{
  elem, all, elem-cons_of_elem, elem-cons_self, elem_of_ne, unique, each-require,
}
use digital_colleagues.Core.Namespace.{Namespace, namespace_eq}
use digital_colleagues.Core.Work.{FiniteWork}
use digital_colleagues.Core.Work.Graph.{work_ids, index_works, check_known}

-- Work that names only work of the list.
abbrev pub all_known : List FiniteWork → Bool
all_known works = all (λ work. all (λ id. elem id (work_ids works)) work.dependency_ids) works

not_elem_of_apart :
    (id : String) (seen ids : List String)
    → ((x : String) → elem x ids ≡ true → elem x (id ∷ seen) ≡ false)
    → elem id ids ≡ false
not_elem_of_apart id seen ids apart = elim (Bool-cases (elem id ids)) [
  | inl m ↦ cc (apart id m, elem-cons_self id seen)
  | inr none_left ↦ none_left
]

apart_tail : (x id : String) (seen : List String) → elem x (id ∷ seen) ≡ false → elem x seen ≡ false
apart_tail x id seen h = ground arith

apart_cons :
    (x id : String) (seen : List String) → x ≢ id → elem x seen ≡ false → elem x (id ∷ seen) ≡ false
apart_cons x id seen differ h = ground arith

differs_of_unique :
    (x id : String) (ids : List String) → unique (id ∷ ids) ≡ true → elem x ids ≡ true → x ≢ id
differs_of_unique x id ids u m same = ground arith

pub index_works-ok :
    (namespace : Namespace) (seen : List String) (works : List FiniteWork)
    → index_works namespace seen works ≡ ok tt
    → (all (λ work. namespace == work.namespace) works ≡ true)
      × (unique (work_ids works) ≡ true)
      × ((x : String) → elem x (work_ids works) ≡ true → elem x seen ≡ false)
unfolding index_works work_ids
index_works-ok namespace seen [] h = (refl, refl, λ x m. cc)
index_works-ok namespace seen (work ∷ works) h =
    let (same, u, apart) = index_works-ok namespace (work.work_id ∷ seen) works (ground arith) in
    (
      ground arith,
      rw (u, not_elem_of_apart work.work_id seen (work_ids works) apart),
      λ x m. elim (String-discrete x work.work_id) [
        | yes e ↦ rw e (ground arith)
        | no differ ↦
            apart_tail x work.work_id seen
              (apart x (elem_of_ne x work.work_id (work_ids works) differ m))
      ],
    )

pub index_works_accepts :
    (namespace : Namespace) (seen : List String) (works : List FiniteWork)
    → all (λ work. namespace == work.namespace) works ≡ true
    → unique (work_ids works) ≡ true
    → ((x : String) → elem x (work_ids works) ≡ true → elem x seen ≡ false)
    → index_works namespace seen works ≡ ok tt
unfolding index_works work_ids
index_works_accepts namespace seen [] same u apart = refl
index_works_accepts namespace seen (work ∷ works) same u apart =
    let rest =
      index_works_accepts namespace (work.work_id ∷ seen) works (ground arith) (ground arith)
        (λ x m.
          apart_cons x work.work_id seen (differs_of_unique x work.work_id (work_ids works) u m)
            (apart x (elem-cons_of_elem x work.work_id (work_ids works) m))) in
    ground (arith, apart work.work_id (elem-cons_self work.work_id (work_ids works)))

pub check_known_lem :
    (works : List FiniteWork) → check_known works ≡ require (all_known works) core_invariant
unfolding check_known
check_known_lem works =
    each-require (λ (work : FiniteWork). all (λ id. elem id (work_ids works)) work.dependency_ids)
      core_invariant works

pub require-ok : (b : Bool) (e : Error) → require b e ≡ ok tt → b ≡ true
require-ok b e h = ground arith

pub closed_of_check : (works : List FiniteWork) → check_known works ≡ ok tt → all_known works ≡ true
closed_of_check works h = require-ok _ core_invariant (rw (check_known_lem works) at h)
