-- ===== src/Delta/Once.antt =====
-- src/runtime/update_cache.go, planBusinessDelta: no task stands twice in the list of those to be added.
use mathlib.Core.Path.{subst}
use forward_stub.Config.Business.{Business, SelectorConfig, TaskConfig}
use forward_stub.Config.Stage.{StageConfig}
use forward_stub.Delta.{
  add_name, expand_loop, expand_step, expand_task_delta, expand_task_delta_for_pipeline_changes,
  expand_task_delta_for_sender_changes, has_changes, only_new, plan_business_delta, plan_tasks,
  split_delta_with_replace, split_old, uses_changed,
}
use forward_stub.Pipeline.{is_empty}
use forward_stub.Prelude.{
  Bool, Bool-cases, List, Option, Option-cases, String, [], arith, false, if◌then◌else◌, inl, inr,
  none, not, refl, some, true, ◌&&◌, ◌++◌, ◌∷◌, ◌≡◌,
}
use forward_stub.Prelude.Eq.{DeepEqual, eq_String, ◌==◌}
use forward_stub.Prelude.Map.{Map, keys, lookup}
use forward_stub.Prelude.Names.{Distinct, Distinct-sort_strings, contains, contains-append}

Distinct-append :
    (xs ys : List String)
    → Distinct xs
    → Distinct ys
    → ((n : String) → contains xs n ≡ true → contains ys n ≡ false)
    → Distinct (xs ++ ys)
Distinct-append [] ys dx dy h = dy
Distinct-append (x ∷ xs) ys dx dy h = (
  ground (arith, contains-append xs ys x, dx.0, h x, eq_String.beq_iff x x),
  Distinct-append xs ys dx.1 dy (λ n c. h n (ground (arith, c))),
)

absent-keys {ℓ} :
    {V : Type ℓ} (m : Map String V) (n : String) → lookup n m ≡ none → contains (keys m) n ≡ false
absent-keys [] n h = refl
absent-keys ((j, v) ∷ m) n h = ground (arith, absent-keys m n, h)

module _ {ℓ} {V : Type ℓ} ⦃e : DeepEqual V⦄ where
  split_old-keys :
      (old new : Map String V) (n : String)
      → contains (keys old) n ≡ false
      → contains (split_old old new).0 n ≡ false
  unfolding split_old
  split_old-keys [] new n h = refl
  split_old-keys ((name, c) ∷ old) new n h = ground (arith, split_old-keys old new n, h)

  split_old-Distinct :
      (old new : Map String V) → Distinct (keys old) → Distinct (split_old old new).0
  unfolding split_old
  split_old-Distinct [] new d = tt
  split_old-Distinct ((name, c) ∷ old) new d = elim (Option-cases (lookup name new)) [
    | inl absent ↦ rw (absent, Distinct, split_old) (split_old-Distinct old new d.1)
    | inr (c', found) ↦ elim (Bool-cases (e.deep_equal c c')) [
      | inl same ↦ rw (found, same, Distinct, split_old) (split_old-Distinct old new d.1)
      | inr other ↦
          rw (found, other, Distinct, split_old)
            (split_old-keys old new name d.0, split_old-Distinct old new d.1)
    ]
  ]

  only_new-keys :
      (old new : Map String V) (n : String)
      → contains (keys new) n ≡ false
      → contains (only_new old new) n ≡ false
  unfolding only_new
  only_new-keys old [] n h = refl
  only_new-keys old ((name, c) ∷ new) n h = ground (arith, only_new-keys old new n, h)

  only_new-Distinct : (old new : Map String V) → Distinct (keys new) → Distinct (only_new old new)
  unfolding only_new
  only_new-Distinct old [] d = tt
  only_new-Distinct old ((name, c) ∷ new) d = elim (Option-cases (lookup name old)) [
    | inl absent ↦
        rw (absent, Distinct, only_new)
          (only_new-keys old new name d.0, only_new-Distinct old new d.1)
    | inr (c', found) ↦ rw (found, Distinct, only_new) (only_new-Distinct old new d.1)
  ]

  only_new-absent :
      (old new : Map String V) (n : String)
      → contains (keys old) n ≡ true
      → contains (only_new old new) n ≡ false
  unfolding only_new
  only_new-absent old [] n h = refl
  only_new-absent old ((name, c) ∷ new) n h = elim (Option-cases (lookup name old)) [
    | inr (c', found) ↦ rw (found, contains, only_new) (only_new-absent old new n h)
    | inl absent ↦
        rw (absent, contains, only_new)
          (elim (Bool-cases (name == n)) [
            | inl same ↦ cc (
              subst (λ (x : String). contains (keys old) x ≡ false)
                  ((eq_String.beq_iff name n).0 same) (absent-keys old name absent),
              h,
            )
            | inr other ↦ rw other (only_new-absent old new n h)
          ])
  ]

  split-Distinct :
      (old new : Map String V)
      → Distinct (keys old)
      → Distinct (keys new)
      → Distinct (split_delta_with_replace old new).0
  unfolding split_delta_with_replace
  split-Distinct old new d d' = Distinct-sort_strings ((split_old old new).0 ++ only_new old new) (
      Distinct-append (split_old old new).0 (only_new old new) (split_old-Distinct old new d)
        (only_new-Distinct old new d') (λ n c. only_new-absent old new n (in_old n c)))
    where
      in_old : (n : String) → contains (split_old old new).0 n ≡ true → contains (keys old) n ≡ true
      in_old n c = elim (Bool-cases (contains (keys old) n)) [
        | inl there ↦ there
        | inr gone ↦ cc (split_old-keys old new n gone, c)
      ]

add_name-Distinct :
    (names : List String) (name : String) → Distinct names → Distinct (add_name names name)
add_name-Distinct names name d = elim (Bool-cases (contains names name)) [
  | inl there ↦ rw there d
  | inr absent ↦ rw absent (
      Distinct-append names (name ∷ []) d (refl, tt)
        (λ n c. ground (arith, c, absent, eq_String.beq_iff name n)))
]

expand_loop-Distinct :
    (f : TaskConfig → List String) (changed : List String) (new old : Map String TaskConfig)
    (tasks : List String × List String)
    → Distinct tasks.0
    → Distinct (expand_loop f changed new old tasks).0
unfolding expand_loop
expand_loop-Distinct f changed new [] tasks d = d
expand_loop-Distinct f changed new ((name, tc) ∷ old) tasks d =
    expand_loop-Distinct f changed new old (expand_step f changed name tc (lookup name new) tasks)
      (step (lookup name new))
  where
    step : (o : Option TaskConfig) → Distinct (expand_step f changed name tc o tasks).0
    step none = d
    step (some tc') =
        elim (Bool-cases
          (not (uses_changed (f tc) changed) && not (uses_changed (f tc') changed))) [
            | inl kept ↦ rw kept d
            | inr used ↦ rw used (add_name-Distinct tasks.0 name d)
          ]

expand-Distinct :
    (f : TaskConfig → List String) (old new : Map String TaskConfig)
    (tasks changes : List String × List String)
    → Distinct tasks.0
    → Distinct (expand_task_delta f old new tasks changes).0
unfolding expand_task_delta
expand-Distinct f old new tasks changes d = elim (Bool-cases (is_empty (changes.0 ++ changes.1))) [
  | inl none_changed ↦ rw none_changed d
  | inr some_changed ↦ rw some_changed (
      Distinct-sort_strings (expand_loop f (changes.0 ++ changes.1) new old tasks).0
        (expand_loop-Distinct f (changes.0 ++ changes.1) new old tasks d))
]

plan_tasks-Distinct :
    (old new : Map String TaskConfig) (senders pipelines tasks : List String × List String)
    → Distinct tasks.0
    → Distinct (plan_tasks old new senders pipelines tasks).0
unfolding plan_tasks expand_task_delta_for_sender_changes expand_task_delta_for_pipeline_changes
plan_tasks-Distinct old new senders pipelines tasks d =
    go (has_changes pipelines)
      (if has_changes senders
        then expand_task_delta (λ tc. tc.senders) old new tasks senders
        else tasks)
      (first (has_changes senders))
  where
    first :
        (b : Bool)
        → Distinct
            (if b then expand_task_delta (λ tc. tc.senders) old new tasks senders else tasks).0
    first true = expand-Distinct (λ tc. tc.senders) old new tasks senders d
    first false = d

    go :
        (b : Bool) (widened : List String × List String)
        → Distinct widened.0
        → Distinct
            (if b
              then expand_task_delta (λ tc. tc.pipelines) old new widened pipelines
              else widened).0
    go true widened d = expand-Distinct (λ tc. tc.pipelines) old new widened pipelines d
    go false widened d = d

pub task_added-Distinct :
    {R S : Type 0} ⦃er : DeepEqual R⦄ ⦃es : DeepEqual S⦄ ⦃el : DeepEqual SelectorConfig⦄
    ⦃et : DeepEqual (List String)⦄ ⦃ep : DeepEqual (List StageConfig)⦄ ⦃ec : DeepEqual TaskConfig⦄
    (old cfg : Business R S)
    → Distinct (keys old.tasks)
    → Distinct (keys cfg.tasks)
    → Distinct (plan_business_delta old cfg).task_added
unfolding plan_business_delta
task_added-Distinct old cfg d d' =
    plan_tasks-Distinct old.tasks cfg.tasks (split_delta_with_replace old.senders cfg.senders)
      (split_delta_with_replace old.pipelines cfg.pipelines)
      (split_delta_with_replace old.tasks cfg.tasks) (split-Distinct old.tasks cfg.tasks d d')
