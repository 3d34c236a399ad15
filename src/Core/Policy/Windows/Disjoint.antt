-- ===== src/Core/Policy/Windows/Disjoint.antt =====
-- `_validate_windows` decides whether weekly windows are disjoint.
use digital_colleagues.Base.{
  ℕ, ◌≤◌, ◌≡◌, refl, ◌≢◌, ◌↔◌, Bool, true, false, List, [], ◌∷◌, ◌++◌, arith, nat_eq, string_eq,
  option_eq, list_eq, ltb, ok,
}
use digital_colleagues.Base.Lists.{all}
use digital_colleagues.Base.Sorting.{insert, sort}
use digital_colleagues.Base.Sorting.Ordered.{Below, IsSorted, sort-IsSorted}
use digital_colleagues.Core.Policy.Windows.{
  WeeklyWindow, construct_window, Interval, expanded_intervals, all_intervals, interval_leb, clash,
  check_neighbours, validate_windows,
}
use digital_colleagues.Core.Policy.Windows.Cover.{covers, cover, cover-sort}

interval_leb_total : (a b : Interval) → interval_leb a b ≡ false → interval_leb b a ≡ true
interval_leb_total a b h = ground arith

interval_leb_trans :
    (a b c : Interval) → interval_leb a b ≡ true → interval_leb b c ≡ true → interval_leb a c ≡ true
interval_leb_trans a b c h k = ground arith

abbrev Sorted : List Interval → Type 0
Sorted = IsSorted interval_leb

-- What stands apart from a smaller interval stays apart further on.
cover_none :
    (d m : ℕ) (x y : Interval) (ys : List Interval)
    → clash x y ≡ false
    → interval_leb x y ≡ true
    → Below interval_leb y ys
    → covers d m x ≡ true
    → cover d m ys ≡ 0
unfolding cover
cover_none d m x y [] apart le b c = refl
cover_none d m x y (z ∷ zs) apart le b c = ground (arith, cover_none d m x y zs apart le b.1 c)

cover-le-one :
    (d m : ℕ) (is : List Interval) → Sorted is → check_neighbours is ≡ ok tt → cover d m is ≤ 1
unfolding cover check_neighbours
cover-le-one d m [] s h = omega arith
cover-le-one d m (x ∷ []) s h = ground arith
cover-le-one d m (x ∷ y ∷ ys) s h =
    ground (arith, cover-le-one d m (y ∷ ys) s.1, cover_none d m x y ys)

cover_tail :
    (d m : ℕ) (x : Interval) (is : List Interval) → cover d m (x ∷ is) ≤ 1 → cover d m is ≤ 1
unfolding cover
cover_tail d m x is h = ground arith

-- Neighbours that clash would hold the first minute of the second twice.
no_clash :
    (x y : Interval) (ys : List Interval)
    → interval_leb x y ≡ true
    → ltb y.from y.until ≡ true
    → cover y.day y.from (x ∷ y ∷ ys) ≤ 1
    → clash x y ≡ false
unfolding cover
no_clash x y ys le nonempty h = ground arith

abbrev nonempty : List Interval → Bool
nonempty is = all (λ i. ltb i.from i.until) is

neighbours_accepted :
    (is : List Interval)
    → Sorted is
    → nonempty is ≡ true
    → ((d m : ℕ) → cover d m is ≤ 1)
    → check_neighbours is ≡ ok tt
unfolding check_neighbours
neighbours_accepted [] s n h = refl
neighbours_accepted (x ∷ []) s n h = refl
neighbours_accepted (x ∷ y ∷ ys) s n h =
    let rest : check_neighbours (y ∷ ys) ≡ ok tt =
      neighbours_accepted (y ∷ ys) s.1 (ground arith) (λ d m. cover_tail d m x (y ∷ ys) (h d m)) in
    rw (no_clash x y ys s.0.0 (ground arith) (h y.day y.from)) rest

nonempty-append :
    (is js : List Interval) → nonempty is ≡ true → nonempty js ≡ true → nonempty (is ++ js) ≡ true
nonempty-append [] js h k = k
nonempty-append (i ∷ is) js h k = ground (arith, nonempty-append is js)

nonempty-insert :
    (i : Interval) (is : List Interval)
    → nonempty (i ∷ is) ≡ true
    → nonempty (insert interval_leb i is) ≡ true
unfolding insert
nonempty-insert i [] h = h
nonempty-insert i (j ∷ js) h = ground (arith, nonempty-insert i js)

nonempty-sort : (is : List Interval) → nonempty is ≡ true → nonempty (sort interval_leb is) ≡ true
unfolding sort
nonempty-sort [] h = h
nonempty-sort (i ∷ is) h =
    nonempty-insert i (sort interval_leb is) (ground (arith, nonempty-sort is))

-- Every window was constructed.
abbrev pub AllConstructed : List WeeklyWindow → Type 0
AllConstructed [] = Unit
AllConstructed (window ∷ windows) = (construct_window window ≡ ok window) × AllConstructed windows

nonempty-expanded :
    (window : WeeklyWindow)
    → construct_window window ≡ ok window
    → nonempty (expanded_intervals window) ≡ true
unfolding construct_window expanded_intervals
nonempty-expanded window h = ground arith

nonempty-all_intervals :
    (windows : List WeeklyWindow) → AllConstructed windows → nonempty (all_intervals windows) ≡ true
unfolding all_intervals
nonempty-all_intervals [] h = refl
nonempty-all_intervals (window ∷ windows) h =
    nonempty-append (expanded_intervals window) (all_intervals windows)
      (nonempty-expanded window h.0) (nonempty-all_intervals windows h.1)

-- No minute of the week is covered twice.
abbrev pub IsDisjoint : List WeeklyWindow → Type 0
IsDisjoint windows = (d m : ℕ) → cover d m (all_intervals windows) ≤ 1

-- For constructed windows, `_validate_windows` accepts exactly the lists that are not empty and
-- cover no minute of the week twice.
pub validate_windows_exact :
    (windows : List WeeklyWindow)
    → AllConstructed windows
    → (validate_windows windows ≡ ok tt) ↔ ((windows ≢ []) × IsDisjoint windows)
unfolding validate_windows
validate_windows_exact [] c = (λ h. cc, λ h. absurd (h.0 refl))
validate_windows_exact (window ∷ windows) c =
    let is = all_intervals (window ∷ windows) in
    let sorted = sort-IsSorted interval_leb interval_leb_total interval_leb_trans is in
    (
      λ h. (
        λ e. cc,
        λ d m.
            rw (← cover-sort interval_leb d m is)
              (cover-le-one d m (sort interval_leb is) sorted h),
      ),
      λ h.
          neighbours_accepted (sort interval_leb is) sorted
            (nonempty-sort is (nonempty-all_intervals (window ∷ windows) c))
            (λ d m. rw (cover-sort interval_leb d m is) (h.1 d m)),
    )
