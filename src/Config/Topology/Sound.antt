-- ===== src/Config/Topology/Sound.antt =====
-- src/config/validate.go: what an accepted configuration guarantees about the references in it.
use forward_stub.Config.Business.{Business, TaskConfig}
use forward_stub.Config.Stage.{StageConfig, route_stage_targets}
use forward_stub.Config.Topology.{
  check_stage, each, missing, missing_pipeline, missing_sender, stages_of, unbound_target,
  validate_selector, validate_task, validate_task_set, validate_topology,
}
use forward_stub.Dispatch.{names_of}
use forward_stub.Prelude.{
  All, Bool, Bool-cases, List, Option-cases, Result, Result-cases, String, [], arith, fail_if,
  false, if◌then◌else◌, inl, inr, not, ok, refl, some, then_first, then_rest, true, ◌∷◌, ◌≡◌,
}
use forward_stub.Prelude.Eq.{eq_String, ◌==◌}
use forward_stub.Prelude.Map.{Map, lookup}
use forward_stub.Prelude.Names.{contains}

each-All {ℓ κ} :
    {A : Type ℓ} {E : Type κ} (check : A → Result E (Unit {0})) (xs : List A)
    → each check xs ≡ ok tt
    → All (λ x. check x ≡ ok tt) xs
each-All check [] h = tt
each-All check (x ∷ xs) h = elim (Result-cases (check x)) [
  | inl (tt, accepted) ↦ (accepted, each-All check xs (ground (arith, accepted)))
  | inr (failure, failed) ↦ absurd (ground (arith, failed))
]

-- What holds of every element holds of the one that a lookup finds.
pub All-lookup {ℓ κ} :
    {V : Type ℓ} (P : String → V → Type κ) (m : Map String V) (n : String) (v : V)
    → All (λ (kv : String × V). P kv.0 kv.1) m
    → lookup n m ≡ some v
    → P n v
All-lookup P [] n v h e = cc
All-lookup P ((j, w) ∷ m) n v h e = elim (Bool-cases (j == n)) [
  | inl hit ↦ let is : w ≡ v = ground (arith, hit) in rw (← (eq_String.beq_iff j n).0 hit, ← is) h.0
  | inr other ↦ All-lookup P m n v h.1 (ground (arith, other))
]

fail_if-ok {ℓ} : {E : Type ℓ} (b : Bool) (e : E) → fail_if b e ≡ ok tt → b ≡ false
fail_if-ok true e h = cc
fail_if-ok false e h = refl

pub All-map {ℓ κ υ} :
    {A : Type ℓ} (P : A → Type κ) (Q : A → Type υ) (xs : List A)
    → ((a : A) → P a → Q a)
    → All P xs
    → All Q xs
All-map P Q [] f h = tt
All-map P Q (x ∷ xs) f h = (f x h.0, All-map P Q xs f h.1)

-- The targets of a routing stage; another stage has none.
abbrev pub routed_targets : StageConfig → List String
routed_targets sc = if sc.type == "route_offset_bytes_sender" then route_stage_targets sc else []

-- The references of a task are there, and its routing stages lead to its own senders.
pub record IsBound {S : Type 0} (pipelines : Map String (List StageConfig)) (senders : Map String S)
    (t : TaskConfig) : Type 0 where
  pub has_pipelines : All (λ pn. missing pn pipelines ≡ false) t.pipelines
  pub has_senders : All (λ sn. missing sn senders ≡ false) t.senders
  pub has_targets :
      All
        (λ pn.
          All
            (λ sc. All (λ sn. contains t.senders sn ≡ true) (routed_targets sc))
            (stages_of pipelines pn))
        t.pipelines

check_stage-targets :
    (tn : String) (t : TaskConfig) (pn : String) (sc : StageConfig)
    → check_stage tn t pn sc ≡ ok tt
    → All (λ sn. contains t.senders sn ≡ true) (routed_targets sc)
unfolding check_stage
check_stage-targets tn t pn sc h = elim (Bool-cases (sc.type == "route_offset_bytes_sender")) [
  | inr other ↦ rw (other, All) tt
  | inl routes ↦ rw routes (
      let checked : each
            (λ target. fail_if (not (contains t.senders target)) (unbound_target tn pn target))
            (route_stage_targets sc)
          ≡ ok tt =
        ground (arith, routes) in
      All-map _ _ (route_stage_targets sc) (λ sn ok_sn. ground (arith, fail_if-ok _ _ ok_sn))
        (each-All _ (route_stage_targets sc) checked))
]

validate_task-IsBound :
    {S : Type 0} (pipelines : Map String (List StageConfig)) (senders : Map String S) (tn : String)
    (t : TaskConfig)
    → validate_task pipelines senders tn t ≡ ok tt
    → IsBound pipelines senders t
unfolding validate_task
validate_task-IsBound pipelines senders tn t h =
    let pipelines_ok : each (λ pn. fail_if (missing pn pipelines) (missing_pipeline tn pn))
          t.pipelines
        ≡ ok tt =
      ground arith in
    let senders_ok : each (λ sn. fail_if (missing sn senders) (missing_sender tn sn)) t.senders
        ≡ ok tt =
      ground arith in
    let targets_ok : each (λ pn. each (check_stage tn t pn) (stages_of pipelines pn)) t.pipelines
        ≡ ok tt =
      ground arith in
    record {
      has_pipelines =
          All-map _ _ t.pipelines (λ pn. fail_if-ok _ (missing_pipeline tn pn))
            (each-All _ t.pipelines pipelines_ok);
      has_senders =
          All-map _ _ t.senders (λ sn. fail_if-ok _ (missing_sender tn sn))
            (each-All _ t.senders senders_ok);
      has_targets =
          All-map _ _ t.pipelines
            (λ pn good.
              All-map _ _ (stages_of pipelines pn) (λ sc. check_stage-targets tn t pn sc)
                (each-All _ (stages_of pipelines pn) good))
            (each-All _ t.pipelines targets_ok);
    }

module _ {R S : Type 0} (c : Business R S) where
  -- The three loops.
  validate_topology-parts :
      validate_topology c ≡ ok tt
      → (each (λ (tn, t). validate_task c.pipelines c.senders tn t) c.tasks ≡ ok tt)
        × (each (λ (tsn, names). validate_task_set c.tasks tsn names) c.task_sets ≡ ok tt)
        × (each (λ (sn, sc). validate_selector c.task_sets sn sc) c.selectors ≡ ok tt)
  unfolding validate_topology
  validate_topology-parts h =
      let rest = then_rest _ _ _ h in
      (then_first _ _ _ h, then_first _ _ _ rest, then_rest _ _ _ rest)

  -- In an accepted configuration the pipelines and the senders of every task are configured, and
  -- the routing stages of its pipelines have only the task's own senders as their targets.
  pub validate_topology-IsBound :
      (n : String) (t : TaskConfig)
      → validate_topology c ≡ ok tt
      → lookup n c.tasks ≡ some t
      → IsBound c.pipelines c.senders t
  validate_topology-IsBound n t h e =
      let checked = each-All _ c.tasks (validate_topology-parts h).0 in
      validate_task-IsBound c.pipelines c.senders n t (
        All-lookup (λ tn t. validate_task c.pipelines c.senders tn t ≡ ok tt) c.tasks n t checked e)

  task_set-has_tasks :
      (tsn : String) (names : List String)
      → validate_task_set c.tasks tsn names ≡ ok tt
      → All (λ tn. missing tn c.tasks ≡ false) names
  unfolding validate_task_set
  task_set-has_tasks tsn names h =
      let members = then_rest _ _ _ (then_rest _ _ _ h) in
      All-map _ _ names (λ tn good. fail_if-ok _ _ (then_rest _ _ _ good))
        (each-All _ names members)

  pub names_of-has_tasks :
      validate_topology c ≡ ok tt
      → (n : String) → All (λ tn. missing tn c.tasks ≡ false) (names_of c.task_sets n)
  names_of-has_tasks h n = elim (Option-cases (lookup n c.task_sets)) [
    | inl absent ↦ rw (absent, All) tt
    | inr (names, found) ↦
        rw (found, All)
          (task_set-has_tasks n names (
            All-lookup (λ tsn names. validate_task_set c.tasks tsn names ≡ ok tt) c.task_sets n
              names (each-All _ c.task_sets (validate_topology-parts h).1) found))
  ]
