-- ===== src/Core/Work/History.antt =====
-- Runs of accepted transitions.
use digital_colleagues.Base.{
  ℕ, suc, ◌+◌, ◌≡◌, refl, ◌≢◌, ◌↔◌, ◌⊎◌, true, arith, nat_eq, string_eq, option_eq, list_eq, ok,
}
use digital_colleagues.Core.Work.{
  WorkState, completed, cancelled, FiniteWork, Transition, construct, transition_work, present,
}
use digital_colleagues.Core.Work.Transitions.{
  ◌⟶◌, moved, IsAllowed, transition_work_exact, transition_work-construct,
}

-- `n` accepted transitions lead from one revision of the work to another.
pub data Run (work : FiniteWork) : ℕ → FiniteWork → Type 0 where
  here : Run work 0 work
  next :
      {n : ℕ} {u v : FiniteWork}
      → Run work n u
      → (t : Transition) → transition_work u t ≡ ok v
      → Run work (suc n) v

infix 40 ◌⟶*◌
pub data ◌⟶*◌ (s : WorkState) : WorkState → Type 0 where
  stay : s ⟶* s
  go : {t u : WorkState} → s ⟶* t → t ⟶ u → s ⟶* u

-- What a run keeps.
pub record Continues (work : FiniteWork) (n : ℕ) (after : FiniteWork) : Type 0 where
  pub constructed : construct after ≡ ok after
  pub revision : after.revision ≡ work.revision + n
  pub path : work.state ⟶* after.state
  pub identity : after.work_id ≡ work.work_id
  pub namespace : after.namespace ≡ work.namespace
  pub same_dependencies : after.dependency_ids ≡ work.dependency_ids
  pub created : after.created_at ≡ work.created_at

Continues-moved :
    (work : FiniteWork) (n : ℕ) (u : FiniteWork) (t : Transition)
    → Continues work n u
    → IsAllowed u t
    → construct (moved u t) ≡ ok (moved u t)
    → Continues work (suc n) (moved u t)
Continues-moved work n u t c a built = record {
  constructed = built;
  revision = omega (arith, c.revision);
  path = go c.path a.edge;
  identity = c.identity;
  namespace = c.namespace;
  same_dependencies = c.same_dependencies;
  created = c.created;
}

-- A run of accepted transitions from constructed work ends in constructed work: its revision has
-- grown by one for each transition, its state is reached along the diagram, and its identity,
-- namespace, dependencies and creation time are those at the start.
pub Run-Continues :
    (work : FiniteWork) {n : ℕ} {after : FiniteWork}
    → construct work ≡ ok work
    → Run work n after
    → Continues work n after
Run-Continues work v here = record {
  constructed = v;
  revision = omega arith;
  path = stay;
  identity = refl;
  namespace = refl;
  same_dependencies = refl;
  created = refl;
}
Run-Continues work v (next {n = n} {u = u} {v = w} r t h) =
    let c = Run-Continues work v r in
    let (a, e) = (transition_work_exact u t c.constructed).1 w h in
    rw e (Continues-moved work n u t c a (rw e at (transition_work-construct u t h)))

-- Completed and cancelled work has no further transition, whatever the arguments.
pub transition_work_terminal :
    (work : FiniteWork) (t : Transition) (after : FiniteWork)
    → (work.state ≡ completed) ⊎ (work.state ≡ cancelled)
    → transition_work work t ≢ ok after
unfolding transition_work
transition_work_terminal work t after h e = ground arith

present_of_completed :
    (work : FiniteWork) {after : FiniteWork}
    → construct work ≡ ok after
    → (present work.completion_evidence ≡ true) ↔ (work.state ≡ completed)
unfolding construct
present_of_completed work h = (λ p. ground arith, λ p. ground arith)
