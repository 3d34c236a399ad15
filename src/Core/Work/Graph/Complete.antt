-- ===== src/Core/Work/Graph/Complete.antt =====
-- A closed graph of work without a cycle is accepted, and the fuel suffices.
use digital_colleagues.Base.{
  ℕ, zero, suc, ◌≡◌, refl, ◌∙◌, ◌≢◌, inl, inr, true, false, List, [], ◌∷◌, String, nat_eq,
  string_eq, option_eq, list_eq, String-discrete, Bool-cases,
}
use digital_colleagues.Base.Lists.{elem, elem-cons_of_elem, elem-cons_self, elem_of_ne}
use digital_colleagues.Core.Work.{FiniteWork}
use digital_colleagues.Core.Work.Graph.{dependencies, Visits, Search, enter, visit_each, visit}
use digital_colleagues.Core.Work.Graph.Total.{
  Returns, Returns-leave, IsClosed, Bounded, Bounded-enter, Bounded-fuel,
}
use digital_colleagues.Core.Work.Graph.Order.{DependsOn, direct, indirect, IsAcyclic}

pub visit_each-Returns :
    (f : String → Visits → Search) (ids : List String) (s : Visits)
    → ((id : String) (u : Visits)
        → elem id ids ≡ true
        → u.visiting ≡ s.visiting
        → Returns (f id u) u)
    → Returns (visit_each f ids s) s
unfolding visit_each
visit_each-Returns f [] s step = (s, refl, refl)
visit_each-Returns f (id ∷ ids) s step =
    let (u, first, same) = step id s (elem-cons_self id ids) refl in
    let (t, rest, back) =
      visit_each-Returns f ids u (λ x v m e. step x v (elem-cons_of_elem x id ids m) (e ∙ same)) in
    (t, rw (first, visit_each) rest, back ∙ same)

module _ (works : List FiniteWork) where
  -- What holds when `visit` is called with some fuel, in a graph without a cycle.
  pub record Ready (fuel : ℕ) (id : String) (visiting : List String) : Type 0 where
    pub bounded : Bounded works fuel id visiting
    pub leads : (x : String) → elem x visiting ≡ true → DependsOn (dependencies works) x id

  DependsOn-via :
      (x id d : String)
      → (x ≢ id → DependsOn (dependencies works) x id)
      → elem d (dependencies works id) ≡ true
      → DependsOn (dependencies works) x d
  DependsOn-via x id d before m = elim (String-discrete x id) [
    | yes same ↦ direct (rw same m)
    | no differ ↦ indirect (before differ) m
  ]

  Ready-enter :
      (fuel : ℕ) (id d : String) (visiting : List String)
      → IsClosed works
      → Ready (suc fuel) id visiting
      → elem id visiting ≡ false
      → elem d (dependencies works id) ≡ true
      → Ready fuel d (id ∷ visiting)
  Ready-enter fuel id d visiting closed r fresh m = record {
    bounded = Bounded-enter works fuel id d visiting closed r.bounded fresh m;
    leads = λ x n. DependsOn-via x id d (λ differ. r.leads x (elem_of_ne x id visiting differ n)) m;
  }

  -- Without a cycle, `id` is not being visited when it is visited.
  Ready-fresh :
      (fuel : ℕ) (id : String) (visiting : List String)
      → IsAcyclic (dependencies works)
      → Ready fuel id visiting
      → elem id visiting ≡ false
  Ready-fresh fuel id visiting acyclic r = elim (Bool-cases (elem id visiting)) [
    | inl again ↦ absurd (acyclic id (r.leads id again))
    | inr fresh ↦ fresh
  ]

  pub visit-Returns :
      (fuel : ℕ) (id : String) (s : Visits)
      → IsClosed works
      → IsAcyclic (dependencies works)
      → Ready fuel id s.visiting
      → Returns (visit works fuel id s) s
  unfolding visit
  visit-Returns zero id s closed acyclic r = absurd (Bounded-fuel works id s.visiting r.bounded)
  visit-Returns (suc fuel) id s closed acyclic r =
      let fresh = Ready-fresh (suc fuel) id s.visiting acyclic r in
      elim (Bool-cases (elem id s.visited)) [
        | inl known ↦ rw (fresh, known) (s, refl, refl)
        | inr new ↦
            rw (fresh, new)
              (Returns-leave id s _ (
                visit_each-Returns (visit works fuel) (dependencies works id) (enter id s)
                  (λ d u m e.
                    visit-Returns fuel d u closed acyclic
                      (rw (e, enter) (Ready-enter fuel id d s.visiting closed r fresh m)))))
      ]
