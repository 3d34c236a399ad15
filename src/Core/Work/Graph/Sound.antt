-- ===== src/Core/Work/Graph/Sound.antt =====
-- A graph of work that the search accepts has no cycle.
use digital_colleagues.Base.{
  ℕ, zero, suc, ◌≡◌, refl, ◌∙◌, ◌≢◌, inl, inr, true, List, [], ◌∷◌, String, arith, nat_eq,
  string_eq, option_eq, list_eq, String-discrete, Bool-cases,
}
use digital_colleagues.Base.Lists.{
  elem, all_of_elem, elem-cons_of_elem, remove, elem_self_of_eq, elem_of_ne,
}
use digital_colleagues.Core.Work.{FiniteWork}
use digital_colleagues.Core.Work.Graph.{
  dependencies, Visits, Search, done, cycle, out_of_fuel, enter, leave, visit_each, visit,
}
use digital_colleagues.Core.Work.Graph.Order.{IsOrdered}

cycle_not_done : (t : Visits) → cycle ≢ done t
cycle_not_done t h = cc

not_elem_one : (x id : String) → x ≢ id → elem x (id ∷ []) ≢ true
not_elem_one x id differ m = ground arith

visit_each_inversion :
    (f : String → Visits → Search) (id : String) (ids : List String) (s t : Visits)
    → visit_each f (id ∷ ids) s ≡ done t
    → (u : Visits) × (f id s ≡ done u) × (visit_each f ids u ≡ done t)
unfolding visit_each
visit_each_inversion f id ids s t h = go (f id s) refl
  where
    go :
        (r : Search) → f id s ≡ r → (u : Visits) × (f id s ≡ done u) × (visit_each f ids u ≡ done t)
    go (done u) e = (u, e, (rw (e, visit_each) at h))
    go cycle e = ground arith
    go out_of_fuel e = ground arith

leave_inversion :
    (id : String) (r : Search) (t : Visits)
    → leave id r ≡ done t
    → (u : Visits) × (r ≡ done u)
      × (t ≡ record { visiting = remove id u.visiting; visited = id ∷ u.visited })
unfolding leave
leave_inversion id (done u) t h = (u, refl, cc)
leave_inversion id cycle t h = cc
leave_inversion id out_of_fuel t h = cc

module _ (works : List FiniteWork) where
  -- What a finished search from `ids` has done.
  pub record Finished (ids : List String) (s t : Visits) : Type 0 where
    pub ordered : IsOrdered (dependencies works) t.visited
    pub found : (x : String) → elem x ids ≡ true → elem x t.visited ≡ true
    pub kept : (x : String) → elem x s.visited ≡ true → elem x t.visited ≡ true
    pub visiting : t.visiting ≡ s.visiting

  abbrev pub Sound : (String → Visits → Search) → Type 0
  Sound f =
      (id : String) (s t : Visits)
      → f id s ≡ done t
      → IsOrdered (dependencies works) s.visited
      → Finished (id ∷ []) s t

  Finished-refl :
      (s t : Visits) → done s ≡ done t → IsOrdered (dependencies works) s.visited → Finished [] s t
  Finished-refl s t h o =
      let same : s ≡ t = cc in
      rw (← same) (record { ordered = o; found = λ x m. cc; kept = λ x m. m; visiting = refl })

  Finished-cons :
      (id : String) (ids : List String) (s u t : Visits)
      → Finished (id ∷ []) s u
      → Finished ids u t
      → Finished (id ∷ ids) s t
  Finished-cons id ids s u t a b = record {
    ordered = b.ordered;
    found = λ x m. elim (String-discrete x id) [
      | yes same ↦ b.kept x (a.found x (elem_self_of_eq x id [] same))
      | no differ ↦ b.found x (elem_of_ne x id ids differ m)
    ];
    kept = λ x m. b.kept x (a.kept x m);
    visiting = b.visiting ∙ a.visiting;
  }

  pub visit_each-Finished :
      (f : String → Visits → Search)
      → Sound f
      → (ids : List String) (s t : Visits) → visit_each f ids s ≡ done t
      → IsOrdered (dependencies works) s.visited
      → Finished ids s t
  unfolding visit_each
  visit_each-Finished f sound [] s t h o = Finished-refl s t h o
  visit_each-Finished f sound (id ∷ ids) s t h o =
      let (u, first, rest) = visit_each_inversion f id ids s t h in
      let a = sound id s u first o in
      Finished-cons id ids s u t a (visit_each-Finished f sound ids u t rest a.ordered)

  -- `id` is visited once the search from its dependencies has finished.
  Finished-leave :
      (id : String) (s u : Visits)
      → Finished (dependencies works id) (enter id s) u
      → Finished (id ∷ []) s (record { visiting = remove id u.visiting; visited = id ∷ u.visited })
  unfolding enter
  Finished-leave id s u f = record {
    ordered = (all_of_elem (λ d. elem d u.visited) (dependencies works id) f.found, f.ordered);
    found = λ x m. elim (String-discrete x id) [
      | yes same ↦ elem_self_of_eq x id u.visited same
      | no differ ↦ absurd (not_elem_one x id differ m)
    ];
    kept = λ x m. elem-cons_of_elem x id u.visited (f.kept x m);
    visiting = rw f.visiting (ground arith);
  }

  Finished-known :
      (id : String) (s t : Visits)
      → elem id s.visited ≡ true
      → done s ≡ done t
      → IsOrdered (dependencies works) s.visited
      → Finished (id ∷ []) s t
  Finished-known id s t m h o =
      let same : s ≡ t = cc in
      rw (← same) (record {
        ordered = o;
        found = λ x n. elim (String-discrete x id) [
          | yes e ↦ rw e m
          | no differ ↦ absurd (not_elem_one x id differ n)
        ];
        kept = λ x n. n;
        visiting = refl;
      })

  pub visit-Finished : (fuel : ℕ) → Sound (visit works fuel)
  unfolding visit
  visit-Finished zero id s t h o = cc
  visit-Finished (suc fuel) id s t h o = elim (Bool-cases (elem id s.visiting)) [
    | inl again ↦ absurd (cycle_not_done t (rw again at h))
    | inr fresh ↦ elim (Bool-cases (elem id s.visited)) [
      | inl known ↦ Finished-known id s t known (rw (fresh, known) at h) o
      | inr new ↦
          let (u, inner, e) = leave_inversion id _ t (rw (fresh, new) at h) in
          rw e (
            Finished-leave id s u (
              visit_each-Finished (visit works fuel) (visit-Finished fuel) (dependencies works id)
                (enter id s) u inner (unfold enter in o)))
    ]
  ]
