-- ===== src/Runtime/Replace.antt =====
-- src/runtime/update_cache.go, store.go: StopAll, replaceAll and UpdateCache.
use forward_stub.Config.Business.{TaskConfig}
use forward_stub.Config.Endpoint.{ReceiverConfig, SenderConfig}
use forward_stub.Pipeline.{is_empty}
use forward_stub.Prelude.{
  Bool, List, String, [], err, if◌then◌else◌, map, none, not, ok, some, ◌&&◌, ◌++◌, ◌∷◌,
}
use forward_stub.Prelude.Eq.{eq_String}
use forward_stub.Prelude.Int.{pos}
use forward_stub.Prelude.Map.{Map, insert, keys}
use forward_stub.Runtime.{Act, Live, Stored, World, always_ok, no_step, receiver_stopped, ◌&>◌}
use forward_stub.Runtime.Update.{
  RunConfig, apply_business_delta, compile_all, each_name, gc_stages, on_store, put_receiver,
  rebuild_selectors, start_receiver,
}
use forward_stub.Store.{
  Effect, SenderState, TaskState, add_task, build_failed, closed_sender, stopped_task,
}
use forward_stub.Store.Cache.{Compilation}

-- The calls of StopAll on the tasks and on the senders, one after the other.
abbrev pub stops : Map String TaskState → List Effect
stops [] = []
stops ((name, ts) ∷ tasks) = stopped_task name ∷ stops tasks

abbrev pub closes : Map String (SenderState SenderConfig) → List Effect
closes [] = []
closes ((name, ss) ∷ senders) = closed_sender ss.s ∷ closes senders

-- StopAll; the order within the receivers and within the senders is open in Go.
unfoldable pub stop_all : Live → Live
stop_all l = record l {
  store = record l.store {
    effects = l.store.effects ++ stops l.store.tasks ++ closes l.store.senders;
  };
  events = l.events ++ map receiver_stopped (keys l.receivers);
}

-- The store with the new configuration and without running objects.
unfoldable pub cleared : RunConfig → Compilation → Live → Live
unfolding gc_stages
cleared cfg compiled l = record l {
  receivers = [];
  receiver_cfg = [];
  selectors = cfg.selectors;
  task_sets = cfg.task_sets;
  pipeline_cfg = cfg.pipelines;
  store = gc_stages (record l.store {
    senders = [];
    tasks = [];
    pipelines = compiled.0;
    pipeline_stage_sigs = compiled.1;
  });
}

module _ (w : World) where
  -- The loop that builds the senders.
  unfoldable pub build_senders : Map String SenderConfig → Act Stored
  build_senders [] = no_step
  build_senders ((name, sc) ∷ next) = elim (w.build_sender name sc) [
    | none ↦ (λ st. (err (build_failed name), st))
    | some s ↦
        always_ok (λ st. record st {
          senders = insert name (record { name = name; cfg = sc; s = s; refs = pos 0 }) st.senders;
        })
        &> build_senders next
  ]

  -- The loop that adds the tasks.
  unfoldable pub add_all : Map String TaskConfig → Act Stored
  add_all [] = no_step
  add_all ((name, tc) ∷ tasks) = add_task (w.starts name) name tc &> add_all tasks

  -- The loop that builds the receivers.
  unfoldable pub build_receivers : Map String ReceiverConfig → Act Live
  build_receivers [] = no_step
  build_receivers ((name, rc) ∷ next) =
      if w.build_receiver name rc
      then always_ok (put_receiver name rc) &> build_receivers next
      else (λ l. (err (build_failed name), l))

  -- replaceAll behind the compilation.
  unfoldable pub rebuild_all : RunConfig → Compilation → Act Live
  unfolding build_senders add_all build_receivers rebuild_selectors
  rebuild_all cfg compiled =
      always_ok (cleared cfg compiled)
      &> on_store (build_senders cfg.senders)
      &> on_store (add_all cfg.tasks)
      &> rebuild_selectors
      &> build_receivers cfg.receivers
      &> rebuild_selectors
      &> always_ok (each_name start_receiver (keys cfg.receivers))

  -- replaceAll
  unfoldable pub replace_all : RunConfig → Act Live
  unfolding rebuild_all
  replace_all cfg l =
      let stopped = stop_all l in
      let (r, st) = compile_all w cfg.pipelines stopped.store in
      elim r [
        | err e ↦ (err e, record stopped { store = st })
        | ok c ↦ rebuild_all cfg c (record stopped { store = st })
      ]

  -- canApplyBusinessDelta
  abbrev pub can_apply_business_delta : Live → Bool
  can_apply_business_delta l =
      not (is_empty l.receivers && is_empty l.store.senders && is_empty l.store.tasks)

  -- UpdateCache
  unfoldable pub update_cache : RunConfig → Act Live
  unfolding replace_all
  update_cache cfg l =
      if can_apply_business_delta l then apply_business_delta w cfg l else replace_all cfg l
