-- ===== src/Core/Work/Graph/Order.antt =====
-- What it means that the dependencies of work have no cycle, for any function from an ID to IDs.
use digital_colleagues.Base.{
  ◌≡◌, true, List, [], ◌∷◌, String, nat_eq, string_eq, option_eq, list_eq, String-discrete,
}
use digital_colleagues.Base.Lists.{elem, all, all-elem, elem-cons_of_elem, elem_of_ne}

module _ (deps : String → List String) where
  -- `b` is reached from `a` by one dependency or more.
  pub data DependsOn (a : String) : String → Type 0 where
    direct : {b : String} → elem b (deps a) ≡ true → DependsOn a b
    indirect : {b c : String} → DependsOn a b → elem c (deps b) ≡ true → DependsOn a c

  abbrev pub IsAcyclic : Type 0
  IsAcyclic = (a : String) → ¬ DependsOn a a

  -- Each ID stands in front of its dependencies.
  abbrev pub IsOrdered : List String → Type 0
  IsOrdered [] = Unit
  IsOrdered (x ∷ xs) = (all (λ d. elem d xs) (deps x) ≡ true) × IsOrdered xs

  ordered_closed :
      (xs : List String)
      → IsOrdered xs
      → (a b : String) → elem a xs ≡ true
      → elem b (deps a) ≡ true
      → elem b xs ≡ true
  ordered_closed [] o a b m d = cc
  ordered_closed (x ∷ xs) o a b m d = elim (String-discrete a x) [
    | yes same ↦ elem-cons_of_elem b x xs (all-elem (λ d. elem d xs) (deps x) o.0 b (rw (← same) d))
    | no differ ↦
        elem-cons_of_elem b x xs (ordered_closed xs o.1 a b (elem_of_ne a x xs differ m) d)
  ]

  -- What the head of an ordered list depends on stands in its tail.
  tail_of_head :
      (x : String) (xs : List String)
      → IsOrdered (x ∷ xs)
      → {b : String} → DependsOn x b
      → elem b xs ≡ true
  tail_of_head x xs o (direct {b = b} m) = all-elem (λ d. elem d xs) (deps x) o.0 b m
  tail_of_head x xs o (indirect {b = b} {c = c} d m) =
      ordered_closed xs o.1 b c (tail_of_head x xs o d) m

  -- No member of an ordered list depends on itself.
  pub IsOrdered-acyclic :
      (xs : List String) → IsOrdered xs → (a : String) → elem a xs ≡ true → ¬ DependsOn a a
  IsOrdered-acyclic [] o a m d = cc
  IsOrdered-acyclic (x ∷ xs) o a m d = elim (String-discrete a x) [
    | yes same ↦ IsOrdered-acyclic xs o.1 a (tail_of_head a xs (rw same o) d) d
    | no differ ↦ IsOrdered-acyclic xs o.1 a (elem_of_ne a x xs differ m) d
  ]
