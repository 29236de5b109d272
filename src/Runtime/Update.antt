-- ===== src/Runtime/Update.antt =====
-- src/runtime/update_cache.go, store.go: UpdateCache, replaceAll and applyBusinessDelta.
use forward_stub.Config.Business.{Business, TaskConfig}
use forward_stub.Config.Endpoint.{ReceiverConfig, SenderConfig}
use forward_stub.Config.Stage.{StageConfig}
use forward_stub.Delta.{BusinessDeltaPlan, has_changes, plan_business_delta}
use forward_stub.Dispatch.{ReceiverState, rebuild_receiver_selectors}
use forward_stub.Prelude.{
  Bool, List, Option, Result, String, [], err, if◌then◌else◌, map, none, not, ok, some, ◌++◌, ◌>>=◌,
  ◌||◌, ◌∷◌,
}
use forward_stub.Prelude.Eq.{eq_String}
use forward_stub.Prelude.Map.{Map, delete, insert, is_none, lookup}
use forward_stub.Runtime.{
  Act, Live, Stored, World, add_tasks, always_ok, no_step, receiver_started, receiver_stopped,
  replace_tasks, ◌&>◌,
}
use forward_stub.Store.{
  RuntimeError, SenderState, TaskState, build_failed, closed_sender, gc_unused_senders,
}
use forward_stub.Store.Cache.{
  Compilation, compile_pipelines_with_stage_cache, gc_unused_stage_cache, rebuild_stage_task_refs,
}
use forward_stub.Store.Senders.{apply_sender_delta}
use forward_stub.Task.{Sender}

abbrev pub RunConfig : Type 0
RunConfig = Business ReceiverConfig SenderConfig

-- `store.f(...)` on the part that holds the tasks and senders.
abbrev pub on_store : Act Stored → Act Live
on_store act l = let (r, st) = act l.store in (r, record l { store = st })

-- The map with the names of a loop over its keys.
abbrev pub each_name : (String → Live → Live) → List String → Live → Live
each_name f [] l = l
each_name f (name ∷ names) l = each_name f names (f name l)

-- rebuildReceiverSelectors
unfoldable pub rebuild_selectors : Act Live
rebuild_selectors l =
    let (r, receivers) =
      rebuild_receiver_selectors l.selectors l.task_sets l.store.tasks l.receivers in
    (r, record l { receivers = receivers })

-- gcUnusedStageCache
unfoldable pub gc_stages : Stored → Stored
gc_stages st = record st { stage_cache = gc_unused_stage_cache st.stage_cache }

abbrev pub task_configs : Map String TaskState → Map String TaskConfig
task_configs [] = []
task_configs ((name, ts) ∷ tasks) = (name, ts.cfg) ∷ task_configs tasks

abbrev pub sender_configs : Map String (SenderState SenderConfig) → Map String SenderConfig
sender_configs [] = []
sender_configs ((name, ss) ∷ senders) = (name, ss.cfg) ∷ sender_configs senders

-- The snapshots of the running configuration at the start of applyBusinessDelta.
unfoldable pub running_config : Live → RunConfig
running_config l = record {
  receivers = l.receiver_cfg;
  selectors = l.selectors;
  task_sets = l.task_sets;
  senders = sender_configs l.store.senders;
  pipelines = l.pipeline_cfg;
  tasks = task_configs l.store.tasks;
}

-- The new pipelines become those of the store.
unfoldable pub publish_pipelines : Map String (List StageConfig) → Compilation → Live → Live
unfolding gc_stages
publish_pipelines cfgs compiled l = record l {
  store = gc_stages (record l.store { pipelines = compiled.0; pipeline_stage_sigs = compiled.1 });
  pipeline_cfg = cfgs;
}

-- if pipelineChanged { ... }
abbrev pub publish_compiled : Map String (List StageConfig) → Option Compilation → Live → Live
publish_compiled cfgs none l = l
publish_compiled cfgs (some c) l = publish_pipelines cfgs c l

-- stop, or start, of the receiver of a name
abbrev pub stop_receiver : String → Live → Live
stop_receiver name l = record l { events = l.events ++ receiver_stopped name ∷ [] }

abbrev pub start_receiver : String → Live → Live
start_receiver name l = record l { events = l.events ++ receiver_started name ∷ [] }

abbrev pub new_receiver : String → ReceiverConfig → ReceiverState
new_receiver name rc = record { name = name; selector_name = rc.selector; selector = none }

-- st.receivers[rs.Name] = rs
abbrev pub put_receiver : String → ReceiverConfig → Live → Live
put_receiver name rc l = record l {
  receivers = insert name (new_receiver name rc) l.receivers;
  receiver_cfg = insert name rc l.receiver_cfg;
}

-- An element of the built receivers: the name, the configuration, and whether there was one before.
abbrev pub Pending : Type 0
Pending = String × ReceiverConfig × Bool

module _ (w : World) where
  -- The first loop of commitReceiverDelta, over the receivers that the new configuration does not have.
  unfoldable pub remove_receivers :
      Map String ReceiverConfig → Map String ReceiverState → Live → Live
  remove_receivers next [] l = l
  remove_receivers next ((name, rs) ∷ rest) l =
      let gone = stop_receiver name (record l {
        receivers = delete name l.receivers;
        receiver_cfg = delete name l.receiver_cfg;
      }) in
      remove_receivers next rest (if is_none (lookup name next) then gone else l)

  -- The second loop of commitReceiverDelta.
  unfoldable pub publish_receivers : List Pending → Act Live
  unfolding rebuild_selectors
  publish_receivers [] = no_step
  publish_receivers ((name, rc, replaces) ∷ built) =
      always_ok (put_receiver name rc)
      &> rebuild_selectors
      &> always_ok (start_receiver name)
      &> (if replaces then always_ok (stop_receiver name) else no_step)
      &> publish_receivers built

  -- commitReceiverDelta
  unfoldable pub commit_receiver_delta : Map String ReceiverConfig → List Pending → Act Live
  unfolding remove_receivers publish_receivers
  commit_receiver_delta next built l = publish_receivers built (remove_receivers next l.receivers l)

  -- if receiverChanged { ... }
  abbrev pub commit_pending : Map String ReceiverConfig → Option (List Pending) → Act Live
  commit_pending next none = no_step
  commit_pending next (some built) = commit_receiver_delta next built

  -- prepareReceiverDelta
  unfoldable pub prepare_receiver_delta :
      Map String ReceiverConfig → Map String ReceiverConfig → Result RuntimeError (List Pending)
  prepare_receiver_delta olds [] = ok []
  prepare_receiver_delta olds ((name, rc) ∷ next) =
      let rest = prepare_receiver_delta olds next in
      let built =
        if w.build_receiver name rc
        then (do others ← rest; ok ((name, rc, not (is_none (lookup name olds))) ∷ others))
        else err (build_failed name) in
      elim (lookup name olds) [
        | none ↦ built
        | some old ↦ if w.receiver_equal.deep_equal old rc then rest else built
      ]

  -- The compilation and the cache after it, with the error of a pipeline.
  unfoldable pub compile_all :
      Map String (List StageConfig) → Stored → Result RuntimeError Compilation × Stored
  compile_all cfgs st =
      let (r, cache) =
        compile_pipelines_with_stage_cache w.compile w.signature cfgs st.stage_cache in
      (
        elim r [ ok c ↦ ok c | err (name, e) ↦ err (build_failed name) ],
        record st { stage_cache = cache },
      )

  -- planBusinessDelta on the running configuration.
  abbrev pub plan_for : RunConfig → RunConfig → BusinessDeltaPlan
  plan_for old cfg =
      plan_business_delta ⦃er = w.receiver_equal⦄ ⦃es = w.sender_equal⦄ ⦃el = w.selector_equal⦄
        ⦃et = w.task_set_equal⦄ ⦃ep = w.pipeline_equal⦄ ⦃ec = w.task_equal⦄ old cfg

  -- The loops over the tasks, with what is collected after them.
  unfoldable pub change_tasks : Map String TaskConfig → BusinessDeltaPlan → Act Stored
  change_tasks tasks plan =
      replace_tasks w tasks plan.task_added plan.task_removed
      &> add_tasks w tasks plan.task_removed plan.task_added
      &> always_ok (λ st. record st {
        stage_cache =
            rebuild_stage_task_refs st.pipeline_stage_sigs (task_configs st.tasks) st.stage_cache;
      })
      &> always_ok gc_unused_senders
      &> always_ok gc_stages

  -- applySenderDelta; the replaced senders are closed at the end.
  abbrev pub change_senders :
      Map String SenderConfig → Stored → Result RuntimeError (List Sender) × Stored
  change_senders next st = apply_sender_delta ⦃e = w.sender_equal⦄ w.build_sender next st

  abbrev pub close_all : List Sender → Stored → Stored
  close_all senders st = record st { effects = st.effects ++ map closed_sender senders }

  -- The part of applyBusinessDelta behind the senders.
  unfoldable pub finish_delta :
      RunConfig
      → BusinessDeltaPlan
      → Option Compilation
      → Option (List Pending)
      → List Sender
      → Act Live
  unfolding commit_receiver_delta change_tasks
  finish_delta cfg plan compiled pending closers =
      always_ok (publish_compiled cfg.pipelines compiled)
      &> on_store (change_tasks cfg.tasks plan)
      &> commit_pending cfg.receivers pending
      &> (if has_changes (plan.selector_added, plan.selector_removed)
            || has_changes (plan.task_set_added, plan.task_set_removed)
            || has_changes (plan.receiver_added, plan.receiver_removed)
            || has_changes (plan.task_added, plan.task_removed)
          then rebuild_selectors
          else no_step)
      &> on_store (always_ok (close_all closers))

  -- The selectors and the senders, once the pipelines are compiled and the receivers are built.
  unfoldable pub publish_delta :
      RunConfig → BusinessDeltaPlan → Option Compilation → Option (List Pending) → Act Live
  unfolding finish_delta
  publish_delta cfg plan compiled pending l =
      let l1 =
        if has_changes (plan.selector_added, plan.selector_removed)
          || has_changes (plan.task_set_added, plan.task_set_removed)
        then record l { selectors = cfg.selectors; task_sets = cfg.task_sets }
        else l in
      let (r, st) = change_senders cfg.senders l1.store in
      if has_changes (plan.sender_added, plan.sender_removed)
      then elim r [
        | err e ↦ (err e, record l1 { store = st })
        | ok closers ↦ finish_delta cfg plan compiled pending closers (record l1 { store = st })
      ]
      else finish_delta cfg plan compiled pending [] l1

  -- The receivers of a delta, which are built before anything is published.
  unfoldable pub prepare_delta : RunConfig → BusinessDeltaPlan → Option Compilation → Act Live
  unfolding publish_delta
  prepare_delta cfg plan compiled l =
      if has_changes (plan.receiver_added, plan.receiver_removed)
      then elim (prepare_receiver_delta l.receiver_cfg cfg.receivers) [
        | err e ↦ (err e, l)
        | ok built ↦ publish_delta cfg plan compiled (some built) l
      ]
      else publish_delta cfg plan compiled none l

  -- applyBusinessDelta
  unfoldable pub apply_business_delta : RunConfig → Act Live
  unfolding prepare_delta compile_all
  apply_business_delta cfg l =
      let plan = plan_for (running_config l) cfg in
      let (r, st) = compile_all cfg.pipelines l.store in
      if has_changes (plan.pipeline_added, plan.pipeline_removed)
      then elim r [
        | err e ↦ (err e, record l { store = st })
        | ok c ↦ prepare_delta cfg plan (some c) (record l { store = st })
      ]
      else prepare_delta cfg plan none l
