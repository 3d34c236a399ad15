-- ===== src/Core/Work/Graph/Total.antt =====
-- The search through a closed graph ends, with a verdict, on the fuel that it is given.
use digital_colleagues.Base.{
  ℕ, zero, suc, ◌+◌, ◌<◌, ◌≡◌, refl, ◌∙◌, ◌⊎◌, inl, inr, true, false, List, [], ◌∷◌, String, arith,
  nat_eq, string_eq, option_eq, list_eq, String-discrete, Bool-cases,
}
use digital_colleagues.Base.Lists.{
  elem, elem-cons_of_elem, elem-cons_self, elem_of_ne, length, unique, length-le_of_unique, remove,
}
use digital_colleagues.Core.Work.{FiniteWork}
use digital_colleagues.Core.Work.Graph.{
  dependencies, work_ids, Visits, Search, done, cycle, enter, leave, visit_each, visit,
}

-- A call returns, and has taken from `visiting` what it put there.
abbrev pub Returns : Search → Visits → Type 0
Returns r s = (t : Visits) × (r ≡ done t) × (t.visiting ≡ s.visiting)

pub Returns-leave :
    (id : String) (s : Visits) (r : Search) → Returns r (enter id s) → Returns (leave id r) s
unfolding enter leave
Returns-leave id s r (t, e, same) = (
  record { visiting = remove id t.visiting; visited = id ∷ t.visited },
  rw e,
  rw same (ground arith),
)

-- A call finds a cycle or returns.
abbrev pub Ends : Search → Visits → Type 0
Ends r s = (r ≡ cycle) ⊎ Returns r s

Ends-leave : (id : String) (s : Visits) (r : Search) → Ends r (enter id s) → Ends (leave id r) s
Ends-leave id s r (inl found) = inl (unfold leave in rw found)
Ends-leave id s r (inr back) = inr (Returns-leave id s r back)

pub visit_each-Ends :
    (f : String → Visits → Search) (ids : List String) (s : Visits)
    → ((id : String) (u : Visits) → elem id ids ≡ true → u.visiting ≡ s.visiting → Ends (f id u) u)
    → Ends (visit_each f ids s) s
unfolding visit_each
visit_each-Ends f [] s step = inr (s, refl, refl)
visit_each-Ends f (id ∷ ids) s step = go (step id s (elem-cons_self id ids) refl) (λ u same.
    visit_each-Ends f ids u (λ x v m e. step x v (elem-cons_of_elem x id ids m) (e ∙ same)))
  where
    after :
        (u : Visits)
        → f id s ≡ done u
        → u.visiting ≡ s.visiting
        → Ends (visit_each f ids u) u
        → Ends (visit_each f (id ∷ ids) s) s
    after u first same (inl found) = inl (rw (first, visit_each) found)
    after u first same (inr (t, rest, back)) = inr (t, rw (first, visit_each) rest, back ∙ same)

    go :
        Ends (f id s) s
        → ((u : Visits) → u.visiting ≡ s.visiting → Ends (visit_each f ids u) u)
        → Ends (visit_each f (id ∷ ids) s) s
    go (inl found) rest = inl (rw (found, visit_each))
    go (inr (u, first, same)) rest = after u first same (rest u same)

module _ (works : List FiniteWork) where
  -- Each dependency is the ID of some work.
  abbrev pub IsClosed : Type 0
  IsClosed =
      (id d : String) → elem d (dependencies works id) ≡ true → elem d (work_ids works) ≡ true

  -- What holds when `visit` is called with some fuel.
  pub record Bounded (fuel : ℕ) (id : String) (visiting : List String) : Type 0 where
    pub known : elem id (work_ids works) ≡ true
    pub inside : (x : String) → elem x visiting ≡ true → elem x (work_ids works) ≡ true
    pub distinct : unique visiting ≡ true
    pub room : length (work_ids works) < fuel + length visiting

  pub Bounded-enter :
      (fuel : ℕ) (id d : String) (visiting : List String)
      → IsClosed
      → Bounded (suc fuel) id visiting
      → elem id visiting ≡ false
      → elem d (dependencies works id) ≡ true
      → Bounded fuel d (id ∷ visiting)
  Bounded-enter fuel id d visiting closed r fresh m = record {
    known = closed id d m;
    inside = λ x n. elim (String-discrete x id) [
      | yes same ↦ rw same r.known
      | no differ ↦ r.inside x (elem_of_ne x id visiting differ n)
    ];
    distinct = rw (fresh, r.distinct);
    room = omega (arith, r.room);
  }

  -- The stack of `visiting` cannot be longer than the list of all IDs.
  pub Bounded-fuel : (id : String) (visiting : List String) → ¬ Bounded 0 id visiting
  Bounded-fuel id visiting r =
      omega (arith, r.room, length-le_of_unique visiting (work_ids works) r.distinct r.inside)

  pub visit-Ends :
      (fuel : ℕ) (id : String) (s : Visits)
      → IsClosed
      → Bounded fuel id s.visiting
      → Ends (visit works fuel id s) s
  unfolding visit
  visit-Ends zero id s closed r = absurd (Bounded-fuel id s.visiting r)
  visit-Ends (suc fuel) id s closed r = elim (Bool-cases (elem id s.visiting)) [
    | inl again ↦ rw again (inl refl)
    | inr fresh ↦ elim (Bool-cases (elem id s.visited)) [
      | inl known ↦ rw (fresh, known) (inr (s, refl, refl))
      | inr new ↦
          rw (fresh, new)
            (Ends-leave id s _ (
              visit_each-Ends (visit works fuel) (dependencies works id) (enter id s) (λ d u m e.
                visit-Ends fuel d u closed
                  (rw (e, enter) (Bounded-enter fuel id d s.visiting closed r fresh m)))))
    ]
  ]
