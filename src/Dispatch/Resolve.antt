-- ===== src/Dispatch/Resolve.antt =====
-- src/runtime/update_cache.go: the compiled selectors against the configuration.
use forward_stub.Config.Business.{SelectorConfig}
use forward_stub.Dispatch.{
  ReceiverState, bind_selectors, compile_default, compile_matches, compile_selector,
  compile_selectors, names_of, rebuild_receiver_selectors, resolve_names,
}
use forward_stub.Prelude.{
  Bool, Bool-cases, List, Option, Option-cases, Result-cases, String, [], ap, arith, false,
  if◌then◌else◌, inl, inr, map, none, ok, refl, some, true, ◌∷◌, ◌≡◌,
}
use forward_stub.Prelude.Eq.{eq_String, ◌==◌}
use forward_stub.Prelude.Map.{Map, lookup}
use forward_stub.Selector.{Compiled, match}
use forward_stub.Store.{TaskState}

-- The task set of an entry of `matches`, or the default one, which may be none.
abbrev set_or_default : String → Option String → Option String
set_or_default default_task_set (some n) = some n
set_or_default default_task_set none =
    if default_task_set == "" then none else some default_task_set

abbrev names_of_set : Map String (List String) → Option String → List String
names_of_set task_sets none = []
names_of_set task_sets (some n) = names_of task_sets n

-- The tasks that a configuration has for a match key, by name.
abbrev pub selected_names : Map String (List String) → SelectorConfig → String → List String
selected_names task_sets sc key =
    names_of_set task_sets (set_or_default sc.default_task_set (lookup key sc.matches))

-- A snapshot's tasks are those of the names, in their order, each as the store has it.
abbrev pub IsResolved {ℓ} : {T : Type ℓ} → Map String T → List String → List T → Type ℓ
IsResolved tasks names states = map (λ n. lookup n tasks) names ≡ map some states

module _ {T : Type 0} (task_sets : Map String (List String)) (tasks : Map String T) where
  resolve_names-IsResolved :
      (name : String) (names : List String) (states : List T)
      → resolve_names name names tasks ≡ ok states
      → IsResolved tasks names states
  unfolding resolve_names
  resolve_names-IsResolved name [] states e =
      let same : [] ≡ states = ground arith in rw (← same) refl
  resolve_names-IsResolved name (n ∷ names) states e = elim (Option-cases (lookup n tasks)) [
    | inl absent ↦ absurd (ground (arith, absent))
    | inr (ts, found) ↦ elim (Result-cases (resolve_names name names tasks)) [
      | inr (failure, failed) ↦ absurd (ground (arith, found, failed))
      | inl (rest, resolved) ↦
          let same : ts ∷ rest ≡ states = ground (arith, found, resolved) in
          rw (← same, found)
            (ap (λ l. some ts ∷ l) (resolve_names-IsResolved name names rest resolved))
    ]
  ]

  -- What a table of compiled entries holds for an entry of the configuration.
  abbrev Agrees : Option String → Option (List T) → Type 0
  Agrees none none = Unit
  Agrees (some n) (some states) = IsResolved tasks (names_of task_sets n) states
  Agrees _ _ = true ≡ false

  Agrees-entry :
      (b : Bool) (n : String) (states : List T) (o : Option String) (q : Option (List T))
      → IsResolved tasks (names_of task_sets n) states
      → Agrees o q
      → Agrees (if b then some n else o) (if b then some states else q)
  Agrees-entry true n states o q h g = h
  Agrees-entry false n states o q h g = g

  compile_matches-Agrees :
      (name : String) (matches : Map String String) (by_key : Map String (List T)) (key : String)
      → compile_matches task_sets tasks name matches ≡ ok by_key
      → Agrees (lookup key matches) (lookup key by_key)
  unfolding compile_matches
  compile_matches-Agrees name [] by_key key e =
      let same : [] ≡ by_key = ground arith in rw (← same) tt
  compile_matches-Agrees name ((k, n) ∷ matches) by_key key e =
      elim (Result-cases (resolve_names name (names_of task_sets n) tasks)) [
        | inr (failure, failed) ↦ absurd (ground (arith, failed))
        | inl (states, found) ↦ elim (Result-cases (compile_matches task_sets tasks name matches)) [
          | inr (failure, failed) ↦ absurd (ground (arith, found, failed))
          | inl (rest, compiled) ↦
              let same : (k, states) ∷ rest ≡ by_key = ground (arith, found, compiled) in
              rw (← same) (
                Agrees-entry (k == key) n states (lookup key matches) (lookup key rest)
                  (resolve_names-IsResolved name (names_of task_sets n) states found)
                  (compile_matches-Agrees name matches rest key compiled))
        ]
      ]

  compile_default-IsResolved :
      (name n : String) (states : List T)
      → compile_default task_sets tasks name n ≡ ok states
      → IsResolved tasks (if n == "" then [] else names_of task_sets n) states
  unfolding compile_default
  compile_default-IsResolved name n states e = elim (Bool-cases (n == "")) [
    | inl none_set ↦ let same : [] ≡ states = ground (arith, none_set) in rw (none_set, ← same) refl
    | inr some_set ↦
        rw some_set
          (resolve_names-IsResolved name (names_of task_sets n) states (ground (arith, some_set)))
  ]

  match-IsResolved :
      (d : String) (q : Option String) (o : Option (List T)) (defaults : List T)
      → Agrees q o
      → IsResolved tasks (if d == "" then [] else names_of task_sets d) defaults
      → IsResolved tasks
          (names_of_set task_sets (set_or_default d q))
          (elim o [ none ↦ defaults | some states ↦ states ])
  match-IsResolved d none none defaults a h = elim (Bool-cases (d == "")) [
    | inl none_set ↦ rw none_set (ground (arith, h, none_set))
    | inr some_set ↦ rw some_set (ground (arith, h, some_set))
  ]
  match-IsResolved d (some n) (some states) defaults a h = a
  match-IsResolved d (some n) none defaults a h = cc
  match-IsResolved d none (some states) defaults a h = cc

  pub compile_selector-IsResolved :
      (name : String) (sc : SelectorConfig) (cs : Compiled T) (key : String)
      → compile_selector task_sets tasks name sc ≡ ok cs
      → IsResolved tasks (selected_names task_sets sc key) (match (some cs) key)
  unfolding compile_selector match
  compile_selector-IsResolved name sc cs key e =
      elim (Result-cases (compile_matches task_sets tasks name sc.matches)) [
        | inr (failure, failed) ↦ absurd (ground (arith, failed))
        | inl (by_key, compiled) ↦
            elim (Result-cases (compile_default task_sets tasks name sc.default_task_set)) [
              | inr (failure, failed) ↦ absurd (ground (arith, compiled, failed))
              | inl (defaults, resolved) ↦
                  let same : record {
                    name = name;
                    values_by_key = by_key;
                    default_values = defaults;
                  }
                      ≡ cs =
                    ground (arith, compiled, resolved) in
                  rw (← same) (
                    match-IsResolved sc.default_task_set (lookup key sc.matches) (lookup key by_key)
                      defaults (compile_matches-Agrees name sc.matches by_key key compiled)
                      (compile_default-IsResolved name sc.default_task_set defaults resolved))
            ]
      ]

  compile_selectors-lookup :
      (selectors : Map String SelectorConfig) (compiled : Map String (Compiled T)) (n key : String)
      (sc : SelectorConfig)
      → compile_selectors task_sets tasks selectors ≡ ok compiled
      → lookup n selectors ≡ some sc
      → IsResolved tasks (selected_names task_sets sc key) (match (lookup n compiled) key)
  unfolding compile_selectors
  compile_selectors-lookup [] compiled n key sc e l = cc
  compile_selectors-lookup ((j, c) ∷ rest) compiled n key sc e l =
      elim (Result-cases (compile_selector task_sets tasks j c)) [
        | inr (failure, failed) ↦ absurd (ground (arith, failed))
        | inl (cs, one) ↦ elim (Result-cases (compile_selectors task_sets tasks rest)) [
          | inr (failure, failed) ↦ absurd (ground (arith, one, failed))
          | inl (others, more) ↦
              let same : (j, cs) ∷ others ≡ compiled = ground (arith, one, more) in
              elim (Bool-cases (j == n)) [
                | inl hit ↦
                    let is : c ≡ sc = ground (arith, hit) in
                    rw (← same, hit, ← is) (compile_selector-IsResolved j c cs key one)
                | inr other ↦
                    rw (← same, other)
                      (compile_selectors-lookup rest others n key sc more (ground (arith, other)))
              ]
        ]
      ]

lookup-bind_selectors :
    (compiled : Map String (Compiled TaskState)) (receivers : Map String ReceiverState) (n : String)
    (rs : ReceiverState)
    → lookup n (bind_selectors compiled receivers) ≡ some rs
    → rs.selector ≡ lookup rs.selector_name compiled
unfolding bind_selectors
lookup-bind_selectors compiled [] n rs e = cc
lookup-bind_selectors compiled ((j, r) ∷ rest) n rs e = elim (Bool-cases (j == n)) [
  | inl hit ↦
      let same : record r { selector = lookup r.selector_name compiled } ≡ rs =
        ground (arith, hit) in
      rw (← same) refl
  | inr other ↦ lookup-bind_selectors compiled rest n rs (ground (arith, other))
]

-- After a successful `rebuildReceiverSelectors` every receiver whose selector is configured routes
-- a match key to the tasks that its configuration has for the key, or to those of the default
-- task set when the key has no entry: in the order of the task set, each as the store has it.
pub rebuild_receiver_selectors_lem :
    (selectors : Map String SelectorConfig) (task_sets : Map String (List String))
    (tasks : Map String TaskState) (receivers : Map String ReceiverState) (n key : String)
    (rs : ReceiverState) (sc : SelectorConfig)
    → (rebuild_receiver_selectors selectors task_sets tasks receivers).0 ≡ ok tt
    → lookup n (rebuild_receiver_selectors selectors task_sets tasks receivers).1 ≡ some rs
    → lookup rs.selector_name selectors ≡ some sc
    → IsResolved tasks (selected_names task_sets sc key) (match rs.selector key)
unfolding rebuild_receiver_selectors
rebuild_receiver_selectors_lem selectors task_sets tasks receivers n key rs sc h e l =
    elim (Result-cases (compile_selectors task_sets tasks selectors)) [
      | inr (failure, failed) ↦ absurd (ground (arith, failed))
      | inl (compiled, all) ↦
          let bound = lookup-bind_selectors compiled receivers n rs (ground (arith, all)) in
          rw bound (
            compile_selectors-lookup task_sets tasks selectors compiled rs.selector_name key sc all
              l)
    ]
