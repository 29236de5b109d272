-- ===== src/Dispatch/Validated.antt =====
-- src/runtime/update_cache.go, src/config/validate.go: an accepted configuration compiles to
-- selectors once its tasks run.
use forward_stub.Config.Business.{Business, SelectorConfig}
use forward_stub.Config.Topology.{missing, validate_topology}
use forward_stub.Config.Topology.Sound.{names_of-has_tasks}
use forward_stub.Dispatch.{
  ReceiverState, compile_default, compile_matches, compile_selector, compile_selectors, names_of,
  rebuild_receiver_selectors, resolve_names,
}
use forward_stub.Prelude.{
  All, Bool-cases, List, Option-cases, String, [], arith, false, inl, inr, ok, refl, ◌∷◌, ◌≡◌,
}
use forward_stub.Prelude.Eq.{eq_String, ◌==◌}
use forward_stub.Prelude.Map.{Map, lookup}
use forward_stub.Selector.{Compiled}
use forward_stub.Store.{TaskState}

-- Every name is the key of a running task.
abbrev AllRun {ℓ} : {T : Type ℓ} → Map String T → List String → Type 0
AllRun tasks names = All (λ n. missing n tasks ≡ false) names

module _ {T : Type 0} (tasks : Map String T) where
  resolve_names-total :
      (name : String) (names : List String)
      → AllRun tasks names
      → (states : List T) × (resolve_names name names tasks ≡ ok states)
  unfolding resolve_names
  resolve_names-total name [] h = ([], refl)
  resolve_names-total name (n ∷ names) h = elim (Option-cases (lookup n tasks)) [
    | inl absent ↦ absurd (ground (arith, h.0, absent))
    | inr (ts, found) ↦
        let (rest, resolved) = resolve_names-total name names h.1 in
        (ts ∷ rest, ground (arith, found, resolved))
  ]

  module _ (task_sets : Map String (List String))
      (all_run : (n : String) → AllRun tasks (names_of task_sets n)) where
    compile_matches-total :
        (name : String) (matches : Map String String)
        → (by_key : Map String (List T)) × (compile_matches task_sets tasks name matches
            ≡ ok by_key)
    unfolding compile_matches
    compile_matches-total name [] = ([], refl)
    compile_matches-total name ((key, n) ∷ matches) =
        let (states, found) = resolve_names-total name (names_of task_sets n) (all_run n) in
        let (rest, compiled) = compile_matches-total name matches in
        ((key, states) ∷ rest, ground (arith, found, compiled))

    compile_default-total :
        (name n : String) → (states : List T) × (compile_default task_sets tasks name n ≡ ok states)
    unfolding compile_default
    compile_default-total name n = elim (Bool-cases (n == "")) [
      | inl none_set ↦ ([], ground (arith, none_set))
      | inr some_set ↦
          let (states, found) = resolve_names-total name (names_of task_sets n) (all_run n) in
          (states, ground (arith, found, some_set))
    ]

    compile_selectors-total :
        (selectors : Map String SelectorConfig)
        → (compiled : Map String (Compiled T)) × (compile_selectors task_sets tasks selectors
            ≡ ok compiled)
    unfolding compile_selectors compile_selector
    compile_selectors-total [] = ([], refl)
    compile_selectors-total ((name, sc) ∷ rest) =
        let (by_key, matched) = compile_matches-total name sc.matches in
        let (defaults, resolved) = compile_default-total name sc.default_task_set in
        let (others, compiled) = compile_selectors-total rest in
        (
          (name, record { name = name; values_by_key = by_key; default_values = defaults })
              ∷ others,
          ground (arith, matched, resolved, compiled),
        )

AllRun-mono :
    {T U : Type 0} (m : Map String T) (k : Map String U) (names : List String)
    → ((n : String) → missing n m ≡ false → missing n k ≡ false)
    → AllRun m names
    → AllRun k names
AllRun-mono m k [] sub h = tt
AllRun-mono m k (n ∷ names) sub h = (sub n h.0, AllRun-mono m k names sub h.1)

-- If the configuration is accepted and every task of it runs, `rebuildReceiverSelectors` succeeds.
pub validated_selectors :
    {R S : Type 0} (c : Business R S) (tasks : Map String TaskState)
    (receivers : Map String ReceiverState)
    → validate_topology c ≡ ok tt
    → ((n : String) → missing n c.tasks ≡ false → missing n tasks ≡ false)
    → (rebuild_receiver_selectors c.selectors c.task_sets tasks receivers).0 ≡ ok tt
unfolding rebuild_receiver_selectors
validated_selectors c tasks receivers h all_run =
    let (compiled, done) =
      compile_selectors-total tasks c.task_sets
        (λ n. AllRun-mono c.tasks tasks (names_of c.task_sets n) all_run (names_of-has_tasks c h n))
        c.selectors in
    ground (arith, done)
