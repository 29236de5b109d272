-- ===== src/Runtime/Outcome.antt =====
-- src/runtime/update_cache.go: what runs after replaceAll and after UpdateCache.
use mathlib.Core.Path.{subst}
use forward_stub.Config.Business.{TaskConfig}
use forward_stub.Config.Endpoint.{SenderConfig}
use forward_stub.Prelude.{
  Bool-cases, Option, Option-cases, Result, String, [], ap, arith, err, false, if◌then◌else◌, inl,
  inr, none, ok, refl, some, true, ◌∙◌, ◌∷◌, ◌≡◌,
}
use forward_stub.Prelude.Eq.{eq_String, ◌==◌}
use forward_stub.Prelude.Int.{pos}
use forward_stub.Prelude.Map.{Map, insert, keys, lookup, map_option}
use forward_stub.Prelude.Names.{Distinct, contains, lookup-absent}
use forward_stub.Runtime.{Live, Stored, World, after_step, always_ok}
use forward_stub.Runtime.Loaded.{delta-running}
use forward_stub.Runtime.Rebuilt.{build_receivers-store, started-store}
use forward_stub.Runtime.Replace.{
  add_all, build_receivers, build_senders, can_apply_business_delta, cleared, rebuild_all,
  replace_all, stop_all, update_cache,
}
use forward_stub.Runtime.Running.{after_ok}
use forward_stub.Runtime.Update.{
  RunConfig, compile_all, each_name, gc_stages, on_store, rebuild_selectors, start_receiver,
}
use forward_stub.Store.{RuntimeError, TaskState, add_task}
use forward_stub.Store.Cache.{Compilation}
use forward_stub.Store.Others.{add_task-running, running}

abbrev or_else : {A : Type 0} → Option A → Option A → Option A
or_else none o = o
or_else (some a) o = some a

or_else-none : {A : Type 0} (o : Option A) → or_else o none ≡ o
or_else-none none = refl
or_else-none (some a) = refl

module _ (w : World) (n : String) where
  -- The task of the name once all tasks are added.
  abbrev added_to : Map String TaskConfig → Option TaskConfig → Option TaskConfig
  added_to tasks o = or_else (lookup n tasks) o

  added_first :
      (name : String) (tc : TaskConfig) (tasks : Map String TaskConfig) (o : Option TaskConfig)
      → contains (keys tasks) name ≡ false
      → added_to tasks (if name == n then some tc else o) ≡ added_to ((name, tc) ∷ tasks) o
  added_first name tc tasks o d = elim (Bool-cases (name == n)) [
    | inl same ↦ rw same (
        ap (λ (found : Option TaskConfig). or_else found (some tc))
          (lookup-absent tasks n (
            subst (λ (x : String). contains (keys tasks) x ≡ false)
              ((eq_String.beq_iff name n).0 same) d)))
    | inr other ↦ rw other refl
  ]

  add_all-running :
      (tasks : Map String TaskConfig) (st : Stored)
      → Distinct (keys tasks)
      → (add_all w tasks st).0 ≡ ok tt
      → running n (add_all w tasks st).1 ≡ added_to tasks (running n st)
  unfolding add_all
  add_all-running [] st d h = refl
  add_all-running ((name, tc) ∷ tasks) st d h =
      after_ok (λ (a : Stored). running n a ≡ (if name == n then some tc else running n st))
        (λ (a : Stored). running n a ≡ added_to ((name, tc) ∷ tasks) (running n st))
        (add_task (w.starts name) name tc st) (add_all w tasks)
        (add_task-running (w.starts name) name n tc st)
        (λ a e ok_rest.
          add_all-running tasks a d.1 ok_rest
          ∙ ap (added_to tasks) e
          ∙ added_first name tc tasks (running n st) d.0)
        h

  build_senders-tasks :
      (next : Map String SenderConfig) (st : Stored) → (build_senders w next st).1.tasks ≡ st.tasks
  unfolding build_senders
  build_senders-tasks [] st = refl
  build_senders-tasks ((name, sc) ∷ next) st = elim (Option-cases (w.build_sender name sc)) [
    | inl failed ↦ rw (failed, build_senders) refl
    | inr (s, made) ↦
        rw (made, build_senders)
          (build_senders-tasks next (record st {
            senders =
                insert name (record { name = name; cfg = sc; s = s; refs = pos 0 }) st.senders;
          }))
  ]

  rebuild_all-running :
      (cfg : RunConfig) (compiled : Compilation) (l : Live)
      → Distinct (keys cfg.tasks)
      → (rebuild_all w cfg compiled l).0 ≡ ok tt
      → running n (rebuild_all w cfg compiled l).1.store ≡ lookup n cfg.tasks
  unfolding rebuild_all rebuild_selectors cleared gc_stages
  rebuild_all-running cfg compiled l d =
      let l0 = cleared cfg compiled l in
      let r1 = on_store (build_senders w cfg.senders) l0 in
      let r2 = after_step r1 (on_store (add_all w cfg.tasks)) in
      let r3 = after_step r2 rebuild_selectors in
      let r4 = after_step r3 (build_receivers w cfg.receivers) in
      let r5 = after_step r4 rebuild_selectors in
      let start = always_ok (each_name start_receiver (keys cfg.receivers)) in
      let Now = λ (a : Live). running n a.store ≡ lookup n cfg.tasks in
      after_ok Now Now r5 start
        (after_ok Now Now r4 rebuild_selectors
          (after_ok Now Now r3 (build_receivers w cfg.receivers)
            (after_ok Now Now r2 rebuild_selectors
              (after_ok (λ (a : Live). a.store.tasks ≡ []) Now r1 (on_store (add_all w cfg.tasks))
                (λ h. build_senders-tasks cfg.senders l0.store)
                (λ a e h.
                  add_all-running cfg.tasks a.store d h
                  ∙ ap
                      (λ (m : Map String TaskState).
                        added_to cfg.tasks (map_option (λ ts. ts.cfg) (lookup n m)))
                      e
                  ∙ or_else-none (lookup n cfg.tasks)))
              (λ a e h. e))
            (λ a e h. ap (running n) (build_receivers-store w cfg.receivers a) ∙ e))
          (λ a e h. e))
        (λ a e h. ap (running n) (started-store w (keys cfg.receivers) a) ∙ e)

  replace_all-running :
      (cfg : RunConfig) (l : Live)
      → Distinct (keys cfg.tasks)
      → (replace_all w cfg l).0 ≡ ok tt
      → running n (replace_all w cfg l).1.store ≡ lookup n cfg.tasks
  unfolding replace_all
  replace_all-running cfg l d =
      go (record (stop_all l) { store = (compile_all w cfg.pipelines (stop_all l).store).1 })
        (compile_all w cfg.pipelines (stop_all l).store).0
    where
      go :
          (l1 : Live) (r : Result RuntimeError Compilation)
          → (let out : Result RuntimeError (Unit {0}) × Live =
                elim r as (λ x. Result RuntimeError (Unit {0}) × Live) [
                  | err e ↦ (err e, l1)
                  | ok c ↦ rebuild_all w cfg c l1
                ] in
              out.0 ≡ ok tt → running n out.1.store ≡ lookup n cfg.tasks)
      go l1 (err e) h = absurd (ground arith)
      go l1 (ok c) h = rebuild_all-running cfg c l1 d h

-- When `UpdateCache` succeeds, on either of its ways, exactly the tasks of the new configuration run, each under its configuration. The tasks that run before have distinct names, those of the configuration too, and what `reflect.DeepEqual` says to be equal of task configurations is equal.
pub update_cache-running :
    (w : World) (cfg : RunConfig) (l : Live) (n : String)
    → ((a b : TaskConfig) → w.task_equal.deep_equal a b ≡ true → a ≡ b)
    → Distinct (keys l.store.tasks)
    → Distinct (keys cfg.tasks)
    → (update_cache w cfg l).0 ≡ ok tt
    → running n (update_cache w cfg l).1.store ≡ lookup n cfg.tasks
unfolding update_cache
update_cache-running w cfg l n sound once d h = elim (Bool-cases (can_apply_business_delta w l)) [
  | inl warm ↦
      rw (warm, update_cache) (delta-running w n cfg l sound once (rw (warm, update_cache) at h))
  | inr cold ↦
      rw (cold, update_cache) (replace_all-running w n cfg l d (rw (cold, update_cache) at h))
]
