-- ===== src/Runtime/Examples.antt =====
-- src/runtime/update_cache.go: the first load of a configuration into a new store.
-- Everything can be built, and no configuration is equal to another.
use forward_stub.Config.Samples.{udp_receiver, udp_sender}
use forward_stub.Config.Validate.Accepted.{business_of}
use forward_stub.Dispatch.{
  bind_selectors, compile_default, compile_matches, compile_selector, compile_selectors,
  rebuild_receiver_selectors, resolve_names,
}
use forward_stub.Prelude.{[], false, ok, refl, some, true, ◌∷◌, ◌≡◌}
use forward_stub.Runtime.{Live, World}
use forward_stub.Runtime.Counted.{LiveCounted}
use forward_stub.Runtime.Outcome.{update_cache-running}
use forward_stub.Runtime.Rebuilt.{update_cache-IsCounted}
use forward_stub.Runtime.Replace.{
  add_all, build_receivers, build_senders, cleared, rebuild_all, replace_all, stop_all,
  update_cache,
}
use forward_stub.Runtime.Update.{RunConfig, compile_all, gc_stages, rebuild_selectors}
use forward_stub.Samples.{north, plain_task}
use forward_stub.Store.{add_task, bind_pipelines, finish_task, retain_senders, with_senders}
use forward_stub.Store.Cache.{
  cached_pipelines, cached_stage, cached_stages, compile_pipelines_with_stage_cache,
  gc_unused_stage_cache,
}
use forward_stub.Store.Others.{running}

abbrev world : World
world = record {
  starts = λ name. true;
  build_sender = λ name cfg. some north;
  build_receiver = λ name cfg. true;
  signature = λ sc. sc.type;
  compile = λ sc. ok (λ packets. packets);
  selector_equal = record { deep_equal = λ a b. false };
  task_set_equal = record { deep_equal = λ a b. false };
  pipeline_equal = record { deep_equal = λ a b. false };
  task_equal = record { deep_equal = λ a b. false };
  receiver_equal = record { deep_equal = λ a b. false };
  sender_equal = record { deep_equal = λ a b. false };
}

abbrev new_store : Live
new_store = record {
  store = record {
    senders = [];
    tasks = [];
    pipelines = [];
    pipeline_stage_sigs = [];
    stage_cache = [];
    effects = [];
  };
  receivers = [];
  receiver_cfg = [];
  selectors = [];
  task_sets = [];
  pipeline_cfg = [];
  events = [];
}

abbrev first_config : RunConfig
first_config =
    business_of (("in", udp_receiver) ∷ [])
      (("sel", record { matches = []; default_task_set = "set" }) ∷ []) (("set", "t" ∷ []) ∷ [])
      (("north", udp_sender) ∷ []) (("p", []) ∷ [])
      (("t", plain_task ("p" ∷ []) ("north" ∷ [])) ∷ [])

new_store-IsCounted : LiveCounted new_store
new_store-IsCounted = record { tasks_distinct = tt; senders_distinct = tt; counted = λ n. refl }

update_cache-IsCounted_example : LiveCounted (update_cache world first_config new_store).1
update_cache-IsCounted_example =
    update_cache-IsCounted world first_config new_store new_store-IsCounted (refl, tt)

first_config-loads : (update_cache world first_config new_store).0 ≡ ok tt
unfolding update_cache replace_all compile_all rebuild_all cleared gc_stages build_senders add_all
    build_receivers rebuild_selectors stop_all add_task with_senders finish_task bind_pipelines
    retain_senders compile_pipelines_with_stage_cache cached_pipelines cached_stages cached_stage
    gc_unused_stage_cache rebuild_receiver_selectors compile_selectors compile_selector
    compile_matches compile_default resolve_names bind_selectors
first_config-loads = refl

update_cache-running_example :
    running "t" (update_cache world first_config new_store).1.store
    ≡ some (plain_task ("p" ∷ []) ("north" ∷ []))
update_cache-running_example =
    update_cache-running world first_config new_store "t" (λ a b e. cc) tt (refl, tt)
      first_config-loads
