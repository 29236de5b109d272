-- ===== src/Runtime/Counted.antt =====
-- src/runtime/update_cache.go: applyBusinessDelta as a whole keeps the sender reference counts right.
use forward_stub.Config.Business.{TaskConfig}
use forward_stub.Config.Endpoint.{ReceiverConfig}
use forward_stub.Delta.{BusinessDeltaPlan, has_changes}
use forward_stub.Dispatch.{ReceiverState}
use forward_stub.Prelude.{
  Bool, Bool-cases, List, Option, Result, String, [], err, false, if◌then◌else◌, inl, inr, none, ok,
  refl, some, true, ◌||◌, ◌∙◌, ◌∷◌, ◌≡◌,
}
use forward_stub.Prelude.Eq.{eq_String}
use forward_stub.Prelude.Map.{Map, delete, is_none, lookup}
use forward_stub.Prelude.Names.{Distinct}
use forward_stub.Runtime.{
  Live, Stored, World, add_tasks, after_step, always_ok, no_step, replace_tasks,
}
use forward_stub.Runtime.Tasks.{
  AreNew, add_tasks-IsCounted, after_keep, replace_tasks-IsCounted, replace_tasks-other,
}
use forward_stub.Runtime.Update.{
  Pending, RunConfig, change_tasks, close_all, commit_pending, commit_receiver_delta, finish_delta,
  gc_stages, on_store, publish_compiled, publish_pipelines, publish_receivers, put_receiver,
  rebuild_selectors, remove_receivers, start_receiver, stop_receiver, task_configs,
}
use forward_stub.Store.{RuntimeError, gc_unused_senders}
use forward_stub.Store.Cache.{Compilation, rebuild_stage_task_refs}
use forward_stub.Store.Sweep.{gc_unused_senders_lem}
use forward_stub.Store.Tasks.{IsCounted}
use forward_stub.Task.{Sender}

-- The counts hang on the tasks and the senders of the store only.
pub IsCounted-same :
    (a b : Stored) → a.tasks ≡ b.tasks → a.senders ≡ b.senders → IsCounted a → IsCounted b
IsCounted-same a b t s v = record {
  tasks_distinct = rw (← t) v.tasks_distinct;
  senders_distinct = rw (← s) v.senders_distinct;
  counted = λ n. rw (← t, ← s) (v.counted n);
}

abbrev pub LiveCounted : Live → Type 0
LiveCounted l = IsCounted l.store

module _ (w : World) where
  change_tasks-IsCounted :
      (tasks : Map String TaskConfig) (plan : BusinessDeltaPlan) (st : Stored)
      → Distinct plan.task_added
      → AreNew w tasks plan.task_removed plan.task_added st
      → IsCounted st
      → IsCounted (change_tasks w tasks plan st).1
  unfolding change_tasks gc_stages
  change_tasks-IsCounted tasks plan st d new v =
      let r1 = replace_tasks w tasks plan.task_added plan.task_removed st in
      let r2 = after_step r1 (add_tasks w tasks plan.task_removed plan.task_added) in
      let v1 = replace_tasks-IsCounted w tasks plan.task_added plan.task_removed st v in
      let new1 : AreNew w tasks plan.task_removed plan.task_added r1.1 =
        λ n c e. replace_tasks-other w tasks plan.task_added plan.task_removed n st e ∙ new n c e in
      let collect = always_ok (λ st. record st {
        stage_cache =
            rebuild_stage_task_refs st.pipeline_stage_sigs (task_configs st.tasks) st.stage_cache;
      }) in
      let sweep_senders = always_ok gc_unused_senders in
      let r3 = after_step r2 collect in
      let r4 = after_step r3 sweep_senders in
      let v3 =
        after_keep IsCounted r2 collect (added r1 v1 new1)
          (λ a u. IsCounted-same a (collect a).1 refl refl u) in
      let v4 = after_keep IsCounted r3 sweep_senders v3 (λ a u. (gc_unused_senders_lem a u).1) in
      after_keep IsCounted r4 (always_ok gc_stages) v4
        (λ a u. IsCounted-same a (gc_stages a) refl refl u)
    where
      added :
          (r : Result RuntimeError (Unit {0}) × Stored)
          → IsCounted r.1
          → AreNew w tasks plan.task_removed plan.task_added r.1
          → IsCounted (after_step r (add_tasks w tasks plan.task_removed plan.task_added)).1
      added (ok u, b) v new =
          add_tasks-IsCounted w tasks plan.task_removed plan.task_added b d new v
      added (err e, b) v new = v

  publish_receivers-store :
      (built : List Pending) (l : Live) → (publish_receivers w built l).1.store ≡ l.store
  unfolding publish_receivers rebuild_selectors
  publish_receivers-store [] l = refl
  publish_receivers-store ((name, rc, replaces) ∷ built) l =
      let Same = λ (a : Live). a.store ≡ l.store in
      let r1 = rebuild_selectors (put_receiver name rc l) in
      let r2 = after_step r1 (always_ok (start_receiver name)) in
      let old = if replaces then always_ok (stop_receiver name) else no_step in
      after_keep Same (after_step r2 old) (publish_receivers w built)
        (after_keep Same r2 old
          (after_keep Same r1 (always_ok (start_receiver name)) refl (λ a e. e))
          (λ a e. old_stopped replaces a ∙ e))
        (λ a e. publish_receivers-store built a ∙ e)
    where
      old_stopped :
          (b : Bool) (a : Live)
          → ((if b then always_ok (stop_receiver name) else no_step) a).1.store ≡ a.store
      old_stopped true a = refl
      old_stopped false a = refl

  remove_receivers-store :
      (next : Map String ReceiverConfig) (rs : Map String ReceiverState) (l : Live)
      → (remove_receivers w next rs l).store ≡ l.store
  unfolding remove_receivers
  remove_receivers-store next [] l = refl
  remove_receivers-store next ((name, r) ∷ rest) l =
      elim (Bool-cases (is_none (lookup name next))) [
        | inl gone ↦
            rw (gone, remove_receivers)
              (remove_receivers-store next rest (
                stop_receiver name (record l {
                  receivers = delete name l.receivers;
                  receiver_cfg = delete name l.receiver_cfg;
                })))
        | inr stays ↦ rw (stays, remove_receivers) (remove_receivers-store next rest l)
      ]

  pub commit-store :
      (next : Map String ReceiverConfig) (built : List Pending) (l : Live)
      → (commit_receiver_delta w next built l).1.store ≡ l.store
  unfolding commit_receiver_delta
  commit-store next built l =
      publish_receivers-store built (remove_receivers w next l.receivers l)
      ∙ remove_receivers-store next l.receivers l

  -- The plan is one for the tasks that run.
  pub record Fits (plan : BusinessDeltaPlan) (cfg : RunConfig) (l : Live) : Type 0 where
    pub once : Distinct plan.task_added
    pub new : AreNew w cfg.tasks plan.task_removed plan.task_added l.store
    pub counts : IsCounted l.store

  pub Fits-same :
      (plan : BusinessDeltaPlan) (cfg : RunConfig) (a b : Live)
      → b.store.tasks ≡ a.store.tasks
      → IsCounted b.store
      → Fits plan cfg a
      → Fits plan cfg b
  Fits-same plan cfg a b t v f = record {
    once = f.once;
    new = λ n c e. rw t (f.new n c e);
    counts = v;
  }

  pub finish_delta-IsCounted :
      (cfg : RunConfig) (plan : BusinessDeltaPlan) (compiled : Option Compilation)
      (pending : Option (List Pending)) (closers : List Sender) (l : Live)
      → Fits plan cfg l
      → LiveCounted (finish_delta w cfg plan compiled pending closers l).1
  unfolding finish_delta publish_pipelines gc_stages rebuild_selectors
  finish_delta-IsCounted cfg plan compiled pending closers l f =
      let l1 = publish_compiled cfg.pipelines compiled l in
      let r2 = on_store (change_tasks w cfg.tasks plan) l1 in
      let receivers = commit_pending w cfg.receivers pending in
      let again =
        if has_changes (plan.selector_added, plan.selector_removed)
          || has_changes (plan.task_set_added, plan.task_set_removed)
          || has_changes (plan.receiver_added, plan.receiver_removed)
          || has_changes (plan.task_added, plan.task_removed)
        then rebuild_selectors
        else no_step in
      let close = on_store (always_ok (close_all w closers)) in
      let r3 = after_step r2 receivers in
      let r4 = after_step r3 again in
      let f1 = published compiled in
      after_keep LiveCounted r4 close
        (after_keep LiveCounted r3 again
          (after_keep LiveCounted r2 receivers
            (change_tasks-IsCounted cfg.tasks plan l1.store f1.once f1.new f1.counts)
            (pending_kept pending))
          (λ a v. rebuilt _ a v))
        (λ a v. IsCounted-same a.store (close a).1.store refl refl v)
    where
      published : (o : Option Compilation) → Fits plan cfg (publish_compiled cfg.pipelines o l)
      published none = f
      published (some c) =
          Fits-same plan cfg l (publish_pipelines cfg.pipelines c l) refl
            (IsCounted-same l.store (publish_pipelines cfg.pipelines c l).store refl refl f.counts)
            f

      pending_kept :
          (o : Option (List Pending)) (a : Live)
          → LiveCounted a
          → LiveCounted (commit_pending w cfg.receivers o a).1
      pending_kept none a v = v
      pending_kept (some built) a v = rw (commit-store cfg.receivers built a) v

      rebuilt :
          (b : Bool) (a : Live)
          → LiveCounted a
          → LiveCounted ((if b then rebuild_selectors else no_step) a).1
      rebuilt true a v = IsCounted-same a.store (rebuild_selectors a).1.store refl refl v
      rebuilt false a v = v
