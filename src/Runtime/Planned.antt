-- ===== src/Runtime/Planned.antt =====
-- src/runtime/update_cache.go: applyBusinessDelta keeps the sender reference counts right.
use forward_stub.Config.Business.{TaskConfig}
use forward_stub.Delta.{BusinessDeltaPlan, has_changes}
use forward_stub.Delta.Once.{task_added-Distinct}
use forward_stub.Delta.Plan.{plan_business_delta-tasks}
use forward_stub.Delta.Split.{adds, removes}
use forward_stub.Prelude.{
  Bool, List, Option, Result, String, [], ap, arith, err, false, if◌then◌else◌, none, ok, refl,
  some, sym, true, ◌||◌, ◌∙◌, ◌∷◌, ◌≡◌,
}
use forward_stub.Prelude.Eq.{DeepEqual, eq_String}
use forward_stub.Prelude.Map.{Map, keys, lookup}
use forward_stub.Prelude.Names.{Distinct}
use forward_stub.Runtime.{Live, World}
use forward_stub.Runtime.Counted.{
  Fits, Fits-same, IsCounted-same, LiveCounted, finish_delta-IsCounted,
}
use forward_stub.Runtime.Update.{
  Pending, RunConfig, apply_business_delta, change_senders, compile_all, finish_delta, plan_for,
  prepare_delta, prepare_receiver_delta, publish_delta, running_config, task_configs,
}
use forward_stub.Store.{RuntimeError, TaskState}
use forward_stub.Store.Cache.{Compilation}
use forward_stub.Store.Senders.Applied.{apply_sender_delta-IsCounted, apply_sender_delta-tasks}
use forward_stub.Task.{Sender}

pub keys-task_configs : (tasks : Map String TaskState) → keys (task_configs tasks) ≡ keys tasks
keys-task_configs [] = refl
keys-task_configs ((name, ts) ∷ tasks) = ap (◌∷◌ name) (keys-task_configs tasks)

not_running :
    (n : String) (tasks : Map String TaskState)
    → lookup n (task_configs tasks) ≡ none
    → lookup n tasks ≡ none
not_running n [] h = refl
not_running n ((name, ts) ∷ tasks) h = ground (arith, not_running n tasks)

-- What is to be added and not to be removed does not run yet.
only_added :
    ⦃e : DeepEqual TaskConfig⦄ (old new : Option TaskConfig) (users : Bool)
    → (adds old new || users) ≡ true
    → (removes old new || users) ≡ false
    → old ≡ none
only_added none new users a r = refl
only_added (some c) none users a r = ground (arith, a, r)
only_added (some c) (some c') users a r = ground (arith, a, r)

module _ (w : World) where
  publish_delta-IsCounted :
      (cfg : RunConfig) (plan : BusinessDeltaPlan) (compiled : Option Compilation)
      (pending : Option (List Pending)) (l : Live)
      → Fits w plan cfg l
      → LiveCounted (publish_delta w cfg plan compiled pending l).1
  unfolding publish_delta
  publish_delta-IsCounted cfg plan compiled pending l f = published (
      has_changes (plan.selector_added, plan.selector_removed)
      || has_changes (plan.task_set_added, plan.task_set_removed))
    where
      sent :
          (l1 : Live)
          → Fits w plan cfg l1
          → (b : Bool) (r : Result RuntimeError (List Sender))
          → LiveCounted
              (if b
                then elim r as (λ x. Result RuntimeError (Unit {0}) × Live) [
                  | err e ↦ (err e, record l1 { store = (change_senders w cfg.senders l1.store).1 })
                  | ok closers ↦
                      finish_delta w cfg plan compiled pending closers
                        (record l1 { store = (change_senders w cfg.senders l1.store).1 })
                ]
                else finish_delta w cfg plan compiled pending [] l1).1
      sent l1 f1 false r = finish_delta-IsCounted w cfg plan compiled pending [] l1 f1
      sent l1 f1 true (err e) =
          apply_sender_delta-IsCounted ⦃e = w.sender_equal⦄ w.build_sender cfg.senders l1.store
            f1.counts
      sent l1 f1 true (ok closers) =
          finish_delta-IsCounted w cfg plan compiled pending closers
            (record l1 { store = (change_senders w cfg.senders l1.store).1 })
            (Fits-same w plan cfg l1
              (record l1 { store = (change_senders w cfg.senders l1.store).1 })
              (apply_sender_delta-tasks ⦃e = w.sender_equal⦄ w.build_sender cfg.senders l1.store)
              (apply_sender_delta-IsCounted ⦃e = w.sender_equal⦄ w.build_sender cfg.senders l1.store
                f1.counts)
              f1)

      published :
          (b : Bool)
          → (let l1 =
                if b
                then record l { selectors = cfg.selectors; task_sets = cfg.task_sets }
                else l in
              LiveCounted
                (if has_changes (plan.sender_added, plan.sender_removed)
                  then elim (change_senders w cfg.senders l1.store).0
                      as (λ x. Result RuntimeError (Unit {0}) × Live) [
                        | err e ↦
                            (err e, record l1 { store = (change_senders w cfg.senders l1.store).1 })
                        | ok closers ↦
                            finish_delta w cfg plan compiled pending closers
                              (record l1 { store = (change_senders w cfg.senders l1.store).1 })
                      ]
                  else finish_delta w cfg plan compiled pending [] l1).1)
      published true =
          let l1 = record l { selectors = cfg.selectors; task_sets = cfg.task_sets } in
          sent l1 (Fits-same w plan cfg l l1 refl f.counts f)
            (has_changes (plan.sender_added, plan.sender_removed))
            (change_senders w cfg.senders l1.store).0
      published false =
          sent l f (has_changes (plan.sender_added, plan.sender_removed))
            (change_senders w cfg.senders l.store).0

  prepare_delta-IsCounted :
      (cfg : RunConfig) (plan : BusinessDeltaPlan) (compiled : Option Compilation) (l : Live)
      → Fits w plan cfg l
      → LiveCounted (prepare_delta w cfg plan compiled l).1
  unfolding prepare_delta
  prepare_delta-IsCounted cfg plan compiled l f =
      go (has_changes (plan.receiver_added, plan.receiver_removed))
        (prepare_receiver_delta w l.receiver_cfg cfg.receivers)
    where
      go :
          (b : Bool) (r : Result RuntimeError (List Pending))
          → LiveCounted
              (if b
                then elim r as (λ x. Result RuntimeError (Unit {0}) × Live) [
                  | err e ↦ (err e, l)
                  | ok built ↦ publish_delta w cfg plan compiled (some built) l
                ]
                else publish_delta w cfg plan compiled none l).1
      go true (ok built) = publish_delta-IsCounted cfg plan compiled (some built) l f
      go true (err e) = f.counts
      go false r = publish_delta-IsCounted cfg plan compiled none l f

  -- The plan of applyBusinessDelta fits the tasks that run.
  plan_for-Fits :
      (cfg : RunConfig) (l : Live)
      → LiveCounted l
      → Distinct (keys cfg.tasks)
      → Fits w (plan_for w (running_config l) cfg) cfg l
  unfolding running_config
  plan_for-Fits cfg l v d = record {
    once =
        task_added-Distinct ⦃er = w.receiver_equal⦄ ⦃es = w.sender_equal⦄ ⦃el = w.selector_equal⦄
          ⦃et = w.task_set_equal⦄ ⦃ep = w.pipeline_equal⦄ ⦃ec = w.task_equal⦄ (running_config l) cfg
          keys_once d;
    new = λ n c r.
        let said =
          plan_business_delta-tasks ⦃er = w.receiver_equal⦄ ⦃es = w.sender_equal⦄
            ⦃el = w.selector_equal⦄ ⦃et = w.task_set_equal⦄ ⦃ep = w.pipeline_equal⦄
            ⦃ec = w.task_equal⦄ (running_config l) cfg n keys_once in
        not_running n l.store.tasks (
          only_added ⦃e = w.task_equal⦄ (lookup n (task_configs l.store.tasks)) (lookup n cfg.tasks)
            _ (sym said.0 ∙ c) (sym said.1 ∙ r));
    counts = v;
  }
    where
      keys_once : Distinct (keys (task_configs l.store.tasks))
      keys_once = rw (keys-task_configs l.store.tasks) v.tasks_distinct

  pub apply_business_delta-IsCounted :
      (cfg : RunConfig) (l : Live)
      → LiveCounted l
      → Distinct (keys cfg.tasks)
      → LiveCounted (apply_business_delta w cfg l).1
  unfolding apply_business_delta compile_all
  apply_business_delta-IsCounted cfg l v d =
      let plan = plan_for w (running_config l) cfg in
      let st = (compile_all w cfg.pipelines l.store).1 in
      let same = IsCounted-same l.store st refl refl v in
      let f = plan_for-Fits cfg l v d in
      go plan (record l { store = st })
        (Fits-same w plan cfg l (record l { store = st }) refl same f) f
        (has_changes (plan.pipeline_added, plan.pipeline_removed))
        (compile_all w cfg.pipelines l.store).0
    where
      go :
          (plan : BusinessDeltaPlan) (l1 : Live)
          → Fits w plan cfg l1
          → Fits w plan cfg l
          → (b : Bool) (r : Result RuntimeError Compilation)
          → LiveCounted
              (if b
                then elim r as (λ x. Result RuntimeError (Unit {0}) × Live) [
                  | err e ↦ (err e, l1)
                  | ok c ↦ prepare_delta w cfg plan (some c) l1
                ]
                else prepare_delta w cfg plan none l).1
      go plan l1 f1 f true (err e) = f1.counts
      go plan l1 f1 f true (ok c) = prepare_delta-IsCounted cfg plan (some c) l1 f1
      go plan l1 f1 f false r = prepare_delta-IsCounted cfg plan none l f
