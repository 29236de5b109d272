-- ===== src/Runtime/Rebuilt.antt =====
-- src/runtime/update_cache.go: replaceAll makes the sender reference counts right, and UpdateCache keeps them so.
use mathlib.Core.Path.{subst}
use forward_stub.Config.Business.{TaskConfig}
use forward_stub.Config.Endpoint.{ReceiverConfig, SenderConfig}
use forward_stub.Prelude.{
  Bool-cases, List, Option-cases, Result, String, [], arith, err, false, inl, inr, none, ok, refl,
  true, ◌∙◌, ◌∷◌, ◌≡◌,
}
use forward_stub.Prelude.Eq.{eq_String, ◌==◌}
use forward_stub.Prelude.Int.{pos}
use forward_stub.Prelude.Map.{Map, insert, keys, lookup, lookup-insert}
use forward_stub.Prelude.Names.{Distinct, Distinct-insert, contains}
use forward_stub.Runtime.{Live, Stored, World, after_step, always_ok}
use forward_stub.Runtime.Counted.{IsCounted-same, LiveCounted}
use forward_stub.Runtime.Planned.{apply_business_delta-IsCounted}
use forward_stub.Runtime.Replace.{
  add_all, build_receivers, build_senders, can_apply_business_delta, cleared, rebuild_all,
  replace_all, stop_all, update_cache,
}
use forward_stub.Runtime.Tasks.{after_keep, after_keep_both}
use forward_stub.Runtime.Update.{
  RunConfig, compile_all, each_name, gc_stages, on_store, put_receiver, rebuild_selectors,
  start_receiver,
}
use forward_stub.Store.{RuntimeError, SenderState, add_task}
use forward_stub.Store.Cache.{Compilation}
use forward_stub.Store.Others.{add_task-other}
use forward_stub.Store.Tasks.{IsCounted, add_task-IsCounted}

put_sender-IsCounted :
    (name : String) (ss : SenderState SenderConfig) (st : Stored)
    → ss.refs ≡ pos 0
    → st.tasks ≡ []
    → IsCounted st
    → IsCounted (record st { senders = insert name ss st.senders })
put_sender-IsCounted name ss st zero_refs none_run v = record {
  tasks_distinct = v.tasks_distinct;
  senders_distinct = Distinct-insert name ss st.senders v.senders_distinct;
  counted = λ n. rw (lookup-insert name n ss st.senders) (elim (Bool-cases (name == n)) [
    | inl same ↦ rw same (rw none_run zero_refs)
    | inr other ↦ rw other (v.counted n)
  ]);
}

module _ (w : World) where
  build_senders-IsCounted :
      (next : Map String SenderConfig) (st : Stored)
      → (st.tasks ≡ []) × IsCounted st
      → ((build_senders w next st).1.tasks ≡ []) × IsCounted (build_senders w next st).1
  unfolding build_senders
  build_senders-IsCounted [] st v = v
  build_senders-IsCounted ((name, sc) ∷ next) st v = elim (Option-cases (w.build_sender name sc)) [
    | inl failed ↦ rw (failed, build_senders) v
    | inr (s, made) ↦
        rw (made, build_senders)
          (let ss : SenderState SenderConfig = record {
            name = name;
            cfg = sc;
            s = s;
            refs = pos 0;
          } in
            build_senders-IsCounted next (record st { senders = insert name ss st.senders })
              (v.0, put_sender-IsCounted name ss st refl v.0 v.1))
  ]

  add_all-IsCounted :
      (tasks : Map String TaskConfig) (st : Stored)
      → Distinct (keys tasks)
      → ((n : String) → contains (keys tasks) n ≡ true → lookup n st.tasks ≡ none)
      → IsCounted st
      → IsCounted (add_all w tasks st).1
  unfolding add_all
  add_all-IsCounted [] st d new v = v
  add_all-IsCounted ((name, tc) ∷ tasks) st d new v =
      let first = add_task (w.starts name) name tc in
      after_keep_both first (add_all w tasks) st
        (add_task-IsCounted (w.starts name) name tc st
          (new name (ground (arith, eq_String.beq_iff name name))) v)
        (add_all-IsCounted tasks (first st).1 d.1 still)
    where
      still :
          (n : String)
          → contains (keys tasks) n ≡ true
          → lookup n (add_task (w.starts name) name tc st).1.tasks ≡ none
      still n c = elim (Bool-cases (name == n)) [
        | inl same ↦ cc (
          subst (λ (x : String). contains (keys tasks) x ≡ false)
              ((eq_String.beq_iff name n).0 same) d.0,
          c,
        )
        | inr other ↦ add_task-other (w.starts name) name n tc st other ∙ new n (ground (arith, c))
      ]

  pub build_receivers-store :
      (next : Map String ReceiverConfig) (l : Live) → (build_receivers w next l).1.store ≡ l.store
  unfolding build_receivers
  build_receivers-store [] l = refl
  build_receivers-store ((name, rc) ∷ next) l = elim (Bool-cases (w.build_receiver name rc)) [
    | inl made ↦ rw (made, build_receivers) (build_receivers-store next (put_receiver name rc l))
    | inr failed ↦ rw (failed, build_receivers) refl
  ]

  pub started-store :
      (names : List String) (l : Live) → (each_name start_receiver names l).store ≡ l.store
  started-store [] l = refl
  started-store (name ∷ names) l = started-store names (start_receiver name l)

  rebuild_all-IsCounted :
      (cfg : RunConfig) (compiled : Compilation) (l : Live)
      → Distinct (keys cfg.tasks)
      → LiveCounted (rebuild_all w cfg compiled l).1
  unfolding rebuild_all rebuild_selectors cleared gc_stages
  rebuild_all-IsCounted cfg compiled l d =
      let l0 = cleared cfg compiled l in
      let r1 = on_store (build_senders w cfg.senders) l0 in
      let r2 = after_step r1 (on_store (add_all w cfg.tasks)) in
      let r3 = after_step r2 rebuild_selectors in
      let r4 = after_step r3 (build_receivers w cfg.receivers) in
      let r5 = after_step r4 rebuild_selectors in
      let start = always_ok (each_name start_receiver (keys cfg.receivers)) in
      let empty : IsCounted l0.store = record {
        tasks_distinct = tt;
        senders_distinct = tt;
        counted = λ n. refl;
      } in
      let built = build_senders-IsCounted cfg.senders l0.store (refl, empty) in
      let v2 = tasks_added r1 built.0 built.1 in
      let v3 = after_keep LiveCounted r2 rebuild_selectors v2 (λ a v. v) in
      let v4 =
        after_keep LiveCounted r3 (build_receivers w cfg.receivers) v3
          (λ a v. rw (build_receivers-store cfg.receivers a) v) in
      let v5 = after_keep LiveCounted r4 rebuild_selectors v4 (λ a v. v) in
      after_keep LiveCounted r5 start v5 (λ a v. rw (started-store (keys cfg.receivers) a) v)
    where
      tasks_added :
          (r : Result RuntimeError (Unit {0}) × Live)
          → r.1.store.tasks ≡ []
          → LiveCounted r.1
          → LiveCounted (after_step r (on_store (add_all w cfg.tasks))).1
      tasks_added (ok u, a) none_run v =
          add_all-IsCounted cfg.tasks a.store d (λ n c. rw none_run refl) v
      tasks_added (err e, a) none_run v = v

  replace_all-IsCounted :
      (cfg : RunConfig) (l : Live)
      → LiveCounted l
      → Distinct (keys cfg.tasks)
      → LiveCounted (replace_all w cfg l).1
  unfolding replace_all stop_all compile_all
  replace_all-IsCounted cfg l v d = go (compile_all w cfg.pipelines (stop_all l).store).0
    where
      go :
          (r : Result RuntimeError Compilation)
          → LiveCounted
              (elim r as (λ x. Result RuntimeError (Unit {0}) × Live) [
                | err e ↦ (
                  err e,
                  record (stop_all l) {
                    store = (compile_all w cfg.pipelines (stop_all l).store).1;
                  },
                )
                | ok c ↦ rebuild_all w cfg c (record (stop_all l) {
                  store = (compile_all w cfg.pipelines (stop_all l).store).1;
                })
              ]).1
      go (err e) =
          IsCounted-same l.store (compile_all w cfg.pipelines (stop_all l).store).1 refl refl v
      go (ok c) =
          rebuild_all-IsCounted cfg c
            (record (stop_all l) { store = (compile_all w cfg.pipelines (stop_all l).store).1 }) d

  -- `UpdateCache` keeps the sender reference counts right, on the way through `replaceAll` and on the one through `applyBusinessDelta`, and at whatever step an error ends it. The tasks of the new configuration have distinct names.
  pub update_cache-IsCounted :
      (cfg : RunConfig) (l : Live)
      → LiveCounted l
      → Distinct (keys cfg.tasks)
      → LiveCounted (update_cache w cfg l).1
  unfolding update_cache
  update_cache-IsCounted cfg l v d = elim (Bool-cases (can_apply_business_delta w l)) [
    | inl warm ↦ rw (warm, update_cache) (apply_business_delta-IsCounted w cfg l v d)
    | inr cold ↦ rw (cold, update_cache) (replace_all-IsCounted cfg l v d)
  ]
