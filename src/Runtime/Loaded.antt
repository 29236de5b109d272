-- ===== src/Runtime/Loaded.antt =====
-- src/runtime/update_cache.go: what runs after applyBusinessDelta.
use forward_stub.Config.Business.{TaskConfig}
use forward_stub.Delta.{BusinessDeltaPlan, has_changes}
use forward_stub.Delta.Plan.{plan_business_delta-tasks}
use forward_stub.Delta.Split.{adds, removes}
use forward_stub.Delta.Tasks.{affected}
use forward_stub.Prelude.{
  Bool, List, Option, Result, String, [], ap, arith, err, false, if◌then◌else◌, none, ok, refl,
  some, sym, true, ◌++◌, ◌||◌, ◌∙◌, ◌∷◌, ◌≡◌,
}
use forward_stub.Prelude.Eq.{DeepEqual, eq_String}
use forward_stub.Prelude.Map.{Map, keys, lookup, map_option}
use forward_stub.Prelude.Names.{Distinct, contains}
use forward_stub.Runtime.{Live, World, after_step, always_ok, config_of, no_step, zero_task}
use forward_stub.Runtime.Counted.{commit-store}
use forward_stub.Runtime.Planned.{keys-task_configs}
use forward_stub.Runtime.Running.{after_ok, change_tasks-running}
use forward_stub.Runtime.Update.{
  Pending, RunConfig, apply_business_delta, change_senders, change_tasks, close_all, commit_pending,
  compile_all, finish_delta, gc_stages, on_store, plan_for, prepare_delta, prepare_receiver_delta,
  publish_compiled, publish_delta, publish_pipelines, rebuild_selectors, running_config,
  task_configs,
}
use forward_stub.Store.{RuntimeError, TaskState}
use forward_stub.Store.Cache.{Compilation}
use forward_stub.Store.Others.{running}
use forward_stub.Store.Senders.Applied.{apply_sender_delta-tasks}
use forward_stub.Task.{Sender}

lookup-task_configs :
    (n : String) (tasks : Map String TaskState)
    → lookup n (task_configs tasks) ≡ map_option (λ ts. ts.cfg) (lookup n tasks)
lookup-task_configs n [] = refl
lookup-task_configs n ((name, ts) ∷ tasks) = ground (arith, lookup-task_configs n tasks)

-- The plan takes a task from its old configuration to its new one.
settled :
    ⦃e : DeepEqual TaskConfig⦄
    → ((a b : TaskConfig) → e.deep_equal a b ≡ true → a ≡ b)
    → (by_sender by_pipeline : List String) (old new : Option TaskConfig) (add remove : Bool)
    → (let users =
          affected (λ tc. tc.senders) by_sender old new
          || affected (λ tc. tc.pipelines) by_pipeline old new in
        add ≡ (adds old new || users)
        → remove ≡ (removes old new || users)
        → (if add
            then some (elim new [ none ↦ zero_task | some tc ↦ tc ])
            else if remove
            then none
            else old)
          ≡ new)
settled sound s p none none add remove a r = rw (a, r) refl
settled sound s p none (some c) add remove a r = rw a refl
settled sound s p (some c) none add remove a r = rw (a, r) refl
settled sound s p (some c) (some c') true remove a r = refl
settled sound s p (some c) (some c') false true a r = absurd (ground (arith, a, r))
settled sound s p (some c) (some c') false false a r = ap some (sound c c' (ground (arith, a)))

module _ (w : World) (n : String) where
  -- The configuration of the task once the plan is carried out.
  abbrev planned : RunConfig → BusinessDeltaPlan → Option TaskConfig → Option TaskConfig
  planned cfg plan o =
      if contains plan.task_added n
      then some (config_of cfg.tasks n)
      else if contains plan.task_removed n
      then none
      else o

  finish_delta-running :
      (cfg : RunConfig) (plan : BusinessDeltaPlan) (compiled : Option Compilation)
      (pending : Option (List Pending)) (closers : List Sender) (l : Live)
      → (finish_delta w cfg plan compiled pending closers l).0 ≡ ok tt
      → running n (finish_delta w cfg plan compiled pending closers l).1.store
        ≡ planned cfg plan (running n l.store)
  unfolding finish_delta publish_pipelines gc_stages rebuild_selectors
  finish_delta-running cfg plan compiled pending closers l =
      let r2 =
        on_store (change_tasks w cfg.tasks plan) (publish_compiled cfg.pipelines compiled l) in
      let receivers = commit_pending w cfg.receivers pending in
      let again =
        if has_changes (plan.selector_added, plan.selector_removed)
          || has_changes (plan.task_set_added, plan.task_set_removed)
          || has_changes (plan.receiver_added, plan.receiver_removed)
          || has_changes (plan.task_added, plan.task_removed)
        then rebuild_selectors
        else no_step in
      let close = on_store (always_ok (close_all w closers)) in
      let r3 = after_step r2 receivers in
      let Now = λ (a : Live). running n a.store ≡ planned cfg plan (running n l.store) in
      after_ok Now Now (after_step r3 again) close
        (after_ok Now Now r3 again
          (after_ok Now Now r2 receivers (changed compiled) (λ a e h. kept pending a ∙ e))
          (λ a e h. rebuilt _ a ∙ e))
        (λ a e h. e)
    where
      changed :
          (o : Option Compilation)
          → (on_store (change_tasks w cfg.tasks plan) (publish_compiled cfg.pipelines o l)).0
            ≡ ok tt
          → running n
              (on_store
                (change_tasks w cfg.tasks plan)
                (publish_compiled cfg.pipelines o l)).1.store
            ≡ planned cfg plan (running n l.store)
      changed none h = change_tasks-running w cfg.tasks n plan l.store h
      changed (some c) h =
          change_tasks-running w cfg.tasks n plan (publish_pipelines cfg.pipelines c l).store h

      kept :
          (o : Option (List Pending)) (a : Live)
          → running n (commit_pending w cfg.receivers o a).1.store ≡ running n a.store
      kept none a = refl
      kept (some built) a = ap (running n) (commit-store w cfg.receivers built a)

      rebuilt :
          (b : Bool) (a : Live)
          → running n ((if b then rebuild_selectors else no_step) a).1.store ≡ running n a.store
      rebuilt true a = refl
      rebuilt false a = refl

  publish_delta-running :
      (cfg : RunConfig) (plan : BusinessDeltaPlan) (compiled : Option Compilation)
      (pending : Option (List Pending)) (l : Live)
      → (publish_delta w cfg plan compiled pending l).0 ≡ ok tt
      → running n (publish_delta w cfg plan compiled pending l).1.store
        ≡ planned cfg plan (running n l.store)
  unfolding publish_delta
  publish_delta-running cfg plan compiled pending l = published (
      has_changes (plan.selector_added, plan.selector_removed)
      || has_changes (plan.task_set_added, plan.task_set_removed))
    where
      sent :
          (l1 : Live) (b : Bool) (r : Result RuntimeError (List Sender))
          → (let out : Result RuntimeError (Unit {0}) × Live =
                if b
                then elim r as (λ x. Result RuntimeError (Unit {0}) × Live) [
                  | err e ↦ (err e, record l1 { store = (change_senders w cfg.senders l1.store).1 })
                  | ok closers ↦
                      finish_delta w cfg plan compiled pending closers
                        (record l1 { store = (change_senders w cfg.senders l1.store).1 })
                ]
                else finish_delta w cfg plan compiled pending [] l1 in
              out.0 ≡ ok tt → running n out.1.store ≡ planned cfg plan (running n l1.store))
      sent l1 false r h = finish_delta-running cfg plan compiled pending [] l1 h
      sent l1 true (err e) h = absurd (ground arith)
      sent l1 true (ok closers) h =
          let l2 = record l1 { store = (change_senders w cfg.senders l1.store).1 } in
          let same =
            ap (λ (m : Map String TaskState). map_option (λ ts. ts.cfg) (lookup n m))
              (apply_sender_delta-tasks ⦃e = w.sender_equal⦄ w.build_sender cfg.senders l1.store) in
          finish_delta-running cfg plan compiled pending closers l2 h ∙ ap (planned cfg plan) same

      published :
          (b : Bool)
          → (let l1 =
                if b
                then record l { selectors = cfg.selectors; task_sets = cfg.task_sets }
                else l in
              let out : Result RuntimeError (Unit {0}) × Live =
                if has_changes (plan.sender_added, plan.sender_removed)
                then elim (change_senders w cfg.senders l1.store).0
                    as (λ x. Result RuntimeError (Unit {0}) × Live) [
                      | err e ↦
                          (err e, record l1 { store = (change_senders w cfg.senders l1.store).1 })
                      | ok closers ↦
                          finish_delta w cfg plan compiled pending closers
                            (record l1 { store = (change_senders w cfg.senders l1.store).1 })
                    ]
                else finish_delta w cfg plan compiled pending [] l1 in
              out.0 ≡ ok tt → running n out.1.store ≡ planned cfg plan (running n l.store))
      published true =
          let l1 = record l { selectors = cfg.selectors; task_sets = cfg.task_sets } in
          sent l1 (has_changes (plan.sender_added, plan.sender_removed))
            (change_senders w cfg.senders l1.store).0
      published false =
          sent l (has_changes (plan.sender_added, plan.sender_removed))
            (change_senders w cfg.senders l.store).0

  prepare_delta-running :
      (cfg : RunConfig) (plan : BusinessDeltaPlan) (compiled : Option Compilation) (l : Live)
      → (prepare_delta w cfg plan compiled l).0 ≡ ok tt
      → running n (prepare_delta w cfg plan compiled l).1.store
        ≡ planned cfg plan (running n l.store)
  unfolding prepare_delta
  prepare_delta-running cfg plan compiled l =
      go (has_changes (plan.receiver_added, plan.receiver_removed))
        (prepare_receiver_delta w l.receiver_cfg cfg.receivers)
    where
      go :
          (b : Bool) (r : Result RuntimeError (List Pending))
          → (let out : Result RuntimeError (Unit {0}) × Live =
                if b
                then elim r as (λ x. Result RuntimeError (Unit {0}) × Live) [
                  | err e ↦ (err e, l)
                  | ok built ↦ publish_delta w cfg plan compiled (some built) l
                ]
                else publish_delta w cfg plan compiled none l in
              out.0 ≡ ok tt → running n out.1.store ≡ planned cfg plan (running n l.store))
      go true (ok built) = publish_delta-running cfg plan compiled (some built) l
      go true (err e) = λ h. absurd (ground arith)
      go false r = publish_delta-running cfg plan compiled none l

  planned_delta-running :
      (cfg : RunConfig) (l : Live)
      → (apply_business_delta w cfg l).0 ≡ ok tt
      → running n (apply_business_delta w cfg l).1.store
        ≡ planned cfg (plan_for w (running_config l) cfg) (running n l.store)
  unfolding apply_business_delta compile_all
  planned_delta-running cfg l =
      let plan = plan_for w (running_config l) cfg in
      go plan (record l { store = (compile_all w cfg.pipelines l.store).1 }) refl
        (has_changes (plan.pipeline_added, plan.pipeline_removed))
        (compile_all w cfg.pipelines l.store).0
    where
      go :
          (plan : BusinessDeltaPlan) (l1 : Live)
          → running n l1.store ≡ running n l.store
          → (b : Bool) (r : Result RuntimeError Compilation)
          → (let out : Result RuntimeError (Unit {0}) × Live =
                if b
                then elim r as (λ x. Result RuntimeError (Unit {0}) × Live) [
                  | err e ↦ (err e, l1)
                  | ok c ↦ prepare_delta w cfg plan (some c) l1
                ]
                else prepare_delta w cfg plan none l in
              out.0 ≡ ok tt → running n out.1.store ≡ planned cfg plan (running n l.store))
      go plan l1 same true (err e) h = absurd (ground arith)
      go plan l1 same true (ok c) h =
          prepare_delta-running cfg plan (some c) l1 h ∙ ap (planned cfg plan) same
      go plan l1 same false r h = prepare_delta-running cfg plan none l h

  pub delta-running :
      (cfg : RunConfig) (l : Live)
      → ((a b : TaskConfig) → w.task_equal.deep_equal a b ≡ true → a ≡ b)
      → Distinct (keys l.store.tasks)
      → (apply_business_delta w cfg l).0 ≡ ok tt
      → running n (apply_business_delta w cfg l).1.store ≡ lookup n cfg.tasks
  unfolding running_config
  delta-running cfg l sound once h =
      let old = running_config l in
      let plan = plan_for w old cfg in
      let said =
        plan_business_delta-tasks ⦃er = w.receiver_equal⦄ ⦃es = w.sender_equal⦄
          ⦃el = w.selector_equal⦄ ⦃et = w.task_set_equal⦄ ⦃ep = w.pipeline_equal⦄
          ⦃ec = w.task_equal⦄ old cfg n (rw (keys-task_configs l.store.tasks) once) in
      planned_delta-running cfg l h
      ∙ ap (planned cfg plan) (sym (lookup-task_configs n l.store.tasks))
      ∙ settled ⦃e = w.task_equal⦄ sound (plan.sender_added ++ plan.sender_removed)
          (plan.pipeline_added ++ plan.pipeline_removed) (lookup n old.tasks) (lookup n cfg.tasks)
          (contains plan.task_added n) (contains plan.task_removed n) said.0 said.1
