-- ===== src/Dispatch.antt =====
-- src/runtime/update_cache.go: the compiled selectors of the receivers, and the fan-out of a packet
-- to the tasks that its match key selects. A task takes a packet in `Handle`, which is an entry of
-- the result here; payload logging is left out.
pub mod Examples
pub mod Resolve
pub mod Fan
pub mod Validated
use forward_stub.Config.Business.{SelectorConfig}
use forward_stub.Packet.{Packet, clone}
use forward_stub.Prelude.{
  List, Option, Result, String, [], err, if◌then◌else◌, none, ok, some, suc, ℕ, ◌++◌, ◌>>=◌, ◌>>◌,
  ◌∷◌,
}
use forward_stub.Prelude.Eq.{eq_String, ◌==◌}
use forward_stub.Prelude.Map.{Map, lookup}
use forward_stub.Selector.{Compiled, match, new_compiled}
use forward_stub.Store.{RuntimeError, TaskState, task_not_found}

-- The fields of ReceiverState that routing reads; `selector` is the snapshot in the atomic value.
pub record ReceiverState : Type 0 where
  pub name : String
  pub selector_name : String
  pub selector : Option (Compiled TaskState)

-- The names of a task set; those of a name that is not there are none.
abbrev pub names_of : Map String (List String) → String → List String
names_of task_sets n = elim (lookup n task_sets) [ none ↦ [] | some names ↦ names ]

-- The loop of `resolveTaskSetStates`.
unfoldable pub resolve_names {ℓ} :
    {T : Type ℓ} → String → List String → Map String T → Result RuntimeError (List T)
resolve_names selector_name [] tasks = ok []
resolve_names selector_name (n ∷ names) tasks = elim (lookup n tasks) [
  | none ↦ err (task_not_found selector_name n)
  | some ts ↦ (do rest ← resolve_names selector_name names tasks; ok (ts ∷ rest))
]

-- resolveTaskSetStates
abbrev pub resolve_task_set_states {ℓ} :
    {T : Type ℓ}
    → String
    → String
    → Map String (List String)
    → Map String T
    → Result RuntimeError (List T)
resolve_task_set_states selector_name n task_sets tasks =
    resolve_names selector_name (names_of task_sets n) tasks

module _ {ℓ} {T : Type ℓ} (task_sets : Map String (List String)) (tasks : Map String T) where
  -- The loop over `sc.Matches`.
  unfoldable pub compile_matches :
      String → Map String String → Result RuntimeError (Map String (List T))
  unfolding resolve_names
  compile_matches name [] = ok []
  compile_matches name ((key, n) ∷ matches) = do
    states ← resolve_task_set_states name n task_sets tasks
    rest ← compile_matches name matches
    ok ((key, states) ∷ rest)

  -- The default of one selector.
  unfoldable pub compile_default : String → String → Result RuntimeError (List T)
  unfolding resolve_names
  compile_default name n = if n == "" then ok [] else resolve_task_set_states name n task_sets tasks

  -- One round of the loop over the selectors.
  unfoldable pub compile_selector : String → SelectorConfig → Result RuntimeError (Compiled T)
  unfolding compile_matches compile_default
  compile_selector name sc = do
    by_key ← compile_matches name sc.matches
    defaults ← compile_default name sc.default_task_set
    ok (record (new_compiled name) { values_by_key = by_key; default_values = defaults })

  unfoldable pub compile_selectors :
      Map String SelectorConfig → Result RuntimeError (Map String (Compiled T))
  unfolding compile_selector
  compile_selectors [] = ok []
  compile_selectors ((name, sc) ∷ rest) = do
    cs ← compile_selector name sc
    others ← compile_selectors rest
    ok ((name, cs) ∷ others)

-- The loop over the receivers; a selector that does not exist leaves a nil snapshot.
unfoldable pub bind_selectors :
    Map String (Compiled TaskState) → Map String ReceiverState → Map String ReceiverState
bind_selectors compiled [] = []
bind_selectors compiled ((name, rs) ∷ rest) =
    (name, record rs { selector = lookup rs.selector_name compiled }) ∷ bind_selectors compiled rest

-- rebuildReceiverSelectors: the receivers after it, which are as before if it fails.
unfoldable pub rebuild_receiver_selectors :
    Map String SelectorConfig
    → Map String (List String)
    → Map String TaskState
    → Map String ReceiverState
    → Result RuntimeError (Unit {0}) × Map String ReceiverState
unfolding compile_selectors bind_selectors
rebuild_receiver_selectors selectors task_sets tasks receivers =
    elim (compile_selectors task_sets tasks selectors) [
      | err e ↦ (err e, receivers)
      | ok compiled ↦ (ok tt, bind_selectors compiled receivers)
    ]

-- What becomes of a packet and of its clones.
pub data Outcome {ℓ} (T : Type ℓ) : Type ℓ where
  handled : T → Packet → Outcome T
  dropped : Packet → Outcome T

module _ {ℓ} {T : Type ℓ} where
  -- The loop over `tasks[1:]`; the clones stand at the addresses from `fresh` on, with the buffers
  -- of the same numbers.
  clone_to : ℕ → Packet → List T → List (Outcome T)
  clone_to fresh pkt [] = []
  clone_to fresh pkt (t ∷ tasks) =
      handled t (clone fresh fresh pkt) ∷ clone_to (suc fresh) pkt tasks

  -- dispatchToSelector, on a receiver's snapshot
  unfoldable pub dispatch_to_tasks : ℕ → Packet → List T → List (Outcome T)
  unfolding clone_to
  dispatch_to_tasks fresh pkt [] = dropped pkt ∷ []
  dispatch_to_tasks fresh pkt (t ∷ []) = handled t pkt ∷ []
  dispatch_to_tasks fresh pkt (t ∷ tasks) = clone_to fresh pkt tasks ++ handled t pkt ∷ []

-- dispatchToSelector, on a receiver that may be nil
unfoldable pub dispatch_to_selector : ℕ → Option ReceiverState → Packet → List (Outcome TaskState)
unfolding match dispatch_to_tasks
dispatch_to_selector fresh none pkt = dropped pkt ∷ []
dispatch_to_selector fresh (some rs) pkt =
    dispatch_to_tasks fresh pkt (match rs.selector pkt.meta.match_key)

-- dispatch
unfoldable pub dispatch : ℕ → Map String ReceiverState → String → Packet → List (Outcome TaskState)
unfolding dispatch_to_selector
dispatch fresh receivers name pkt = dispatch_to_selector fresh (lookup name receivers) pkt
