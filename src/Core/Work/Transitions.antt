-- ===== src/Core/Work/Transitions.antt =====
-- What an accepted transition of finite work is.
use digital_colleagues.Base.{
  ◌+◌, ◌≤◌, ◌≡◌, refl, ◌⊎◌, inl, inr, Bool, true, not, ◌||◌, [], ◌∷◌, String, arith, ◌==◌, nat_eq,
  string_eq, option_eq, list_eq, Bool-cases, Error, ok, require, namespace_mismatch,
}
use digital_colleagues.Base.Lists.{elem, all, each, all-elem, all_of_elem, each-require}
use digital_colleagues.Core.Common.{is_utc}
use digital_colleagues.Core.Namespace.{require_same_tenant}
use digital_colleagues.Core.Work.{
  CompletionEvidence, WorkState, planned, ready, in_progress, blocked, completed, cancelled,
  FiniteWork, Transition, construct, transition_work, work_transitions, present, work_state_eq,
  WorkState-discrete,
}

-- The work that a transition leads to.
abbrev pub moved : FiniteWork → Transition → FiniteWork
moved work t = record work {
  state = t.next_state;
  completion_evidence = t.completion_evidence;
  updated_at = t.occurred_at;
  revision = work.revision + 1;
}

transition_work-moved :
    (work : FiniteWork) (t : Transition) {after : FiniteWork}
    → construct work ≡ ok work
    → transition_work work t ≡ ok after
    → after ≡ moved work t
unfolding transition_work construct
transition_work-moved work t v h = ground arith

-- The life of finite work, as a diagram.
infix 40 ◌⟶◌
pub data ◌⟶◌ : WorkState → WorkState → Type 0 where
  prepare : planned ⟶ ready
  start : ready ⟶ in_progress
  hold : ready ⟶ blocked
  stall : in_progress ⟶ blocked
  finish : in_progress ⟶ completed
  release : blocked ⟶ ready
  resume : blocked ⟶ in_progress
  drop_planned : planned ⟶ cancelled
  drop_ready : ready ⟶ cancelled
  drop_running : in_progress ⟶ cancelled
  drop_blocked : blocked ⟶ cancelled

ruleset edges = (
  prepare, start, hold, stall, finish, release, resume, drop_planned, drop_ready, drop_running,
  drop_blocked,
)

edge_of_elem : (s t : WorkState) → elem t (work_transitions s) ≡ true → s ⟶ t
unfolding WorkState-discrete
edge_of_elem s t h = grind (arith, edges)

elem_of_edge : {s t : WorkState} → s ⟶ t → elem t (work_transitions s) ≡ true
unfolding WorkState-discrete
elem_of_edge prepare = refl
elem_of_edge _ = refl

-- When a transition is allowed: it is current, it follows an edge of the diagram, work that is made
-- ready or started has its dependencies satisfied, evidence comes with completion alone and from
-- the tenant of the work, and its time is in UTC and not before the creation of the work.
pub record IsAllowed (work : FiniteWork) (t : Transition) : Type 0 where
  pub utc : is_utc t.occurred_at.offset ≡ true
  pub current : t.expected_revision ≡ work.revision
  pub edge : work.state ⟶ t.next_state
  pub satisfied :
      (t.next_state ≡ ready) ⊎ (t.next_state ≡ in_progress)
      → (id : String) → elem id work.dependency_ids ≡ true
      → elem id t.satisfied_dependency_ids ≡ true
  pub evidence : t.next_state ≡ completed → present t.completion_evidence ≡ true
  pub only_completion : present t.completion_evidence ≡ true → t.next_state ≡ completed
  pub tenants :
      all (λ item. work.namespace.tenant_id == item.actor.namespace.tenant_id) t.completion_evidence
      ≡ true
  pub later : work.created_at.clock ≤ t.occurred_at.clock

-- What the constructor checks of the fields that a transition writes.
construct_evidence_tenants :
    (work : FiniteWork) {after : FiniteWork}
    → construct work ≡ ok after
    → each
        (λ item. require_same_tenant work.namespace item.actor.namespace)
        work.completion_evidence
      ≡ ok tt
unfolding construct
construct_evidence_tenants work h = ground arith

construct_later :
    (work : FiniteWork) {after : FiniteWork}
    → construct work ≡ ok after
    → work.created_at.clock ≤ work.updated_at.clock
unfolding construct
construct_later work h = ground arith

require-ok : (b : Bool) (e : Error) → require b e ≡ ok tt → b ≡ true
require-ok b e h = ground arith

pub transition_work-construct :
    (work : FiniteWork) (t : Transition) {after : FiniteWork}
    → transition_work work t ≡ ok after
    → construct (moved work t) ≡ ok after
unfolding transition_work
transition_work-construct work t h = ground arith

abbrev from_tenant : FiniteWork → CompletionEvidence → Bool
from_tenant work item = work.namespace.tenant_id == item.actor.namespace.tenant_id

transition_work-IsAllowed :
    (work : FiniteWork) (t : Transition) {after : FiniteWork}
    → transition_work work t ≡ ok after
    → IsAllowed work t
unfolding transition_work
transition_work-IsAllowed work t h =
    let c = transition_work-construct work t h in
    record {
      utc = ground arith;
      current = ground arith;
      edge = edge_of_elem _ _ (ground arith);
      satisfied = λ which id m.
          all-elem (λ id. elem id t.satisfied_dependency_ids) work.dependency_ids (ground arith) id
            m;
      evidence = ground arith;
      only_completion = ground arith;
      tenants = require-ok _ namespace_mismatch (
          rw (← each-require (from_tenant work) namespace_mismatch t.completion_evidence)
            (construct_evidence_tenants (moved work t) c));
      later = construct_later (moved work t) c;
    }

-- Constructed work stays constructed when the fields that a transition writes are good.
construct-moved :
    (work : FiniteWork) (t : Transition)
    → construct work ≡ ok work
    → is_utc t.occurred_at.offset ≡ true
    → (t.next_state ≡ completed → present t.completion_evidence ≡ true)
    → (present t.completion_evidence ≡ true → t.next_state ≡ completed)
    → each (λ item. require_same_tenant work.namespace item.actor.namespace) t.completion_evidence
      ≡ ok tt
    → work.created_at.clock ≤ t.occurred_at.clock
    → construct (moved work t) ≡ ok (moved work t)
unfolding construct
construct-moved work t v utc evidence only tenants later = ground arith

satisfied_of_allowed :
    (work : FiniteWork) (t : Transition)
    → IsAllowed work t
    → not (elem t.next_state (ready ∷ in_progress ∷ []))
        || all (λ id. elem id t.satisfied_dependency_ids) work.dependency_ids
      ≡ true
satisfied_of_allowed work t a = elim (Bool-cases (elem t.next_state (ready ∷ in_progress ∷ []))) [
  | inl started ↦ rw (
    started,
    all_of_elem (λ id. elem id t.satisfied_dependency_ids) work.dependency_ids
        (a.satisfied (ground arith)),
  )
  | inr other ↦ rw other
]

transition_work_accepts :
    (work : FiniteWork) (t : Transition)
    → construct work ≡ ok work
    → IsAllowed work t
    → transition_work work t ≡ ok (moved work t)
unfolding transition_work
transition_work_accepts work t v a =
    let built =
      construct-moved work t v a.utc a.evidence a.only_completion
        (rw (each-require (from_tenant work) namespace_mismatch t.completion_evidence, a.tenants))
        a.later in
    ground (arith, elem_of_edge a.edge, satisfied_of_allowed work t a)

-- For constructed work, `transition_work` succeeds exactly on an allowed transition, and then it
-- changes the state, the evidence, the time of the update and the revision, and nothing else.
pub transition_work_exact :
    (work : FiniteWork) (t : Transition)
    → construct work ≡ ok work
    → (IsAllowed work t → transition_work work t ≡ ok (moved work t))
      × ((after : FiniteWork)
          → transition_work work t ≡ ok after
          → IsAllowed work t × (after ≡ moved work t))
transition_work_exact work t v = (
  transition_work_accepts work t v,
  λ after h. (transition_work-IsAllowed work t h, transition_work-moved work t v h),
)
