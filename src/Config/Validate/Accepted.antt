-- ===== src/Config/Validate/Accepted.antt =====
-- src/config/validate.go: what an accepted configuration guarantees to the code that builds the running components.
use forward_stub.Compiler.{Regexp, compile_pipelines, compile_stages}
use forward_stub.Compiler.Validated.{accepts, validated_compiles}
use forward_stub.Config.Business.{Business, SelectorConfig, TaskConfig}
use forward_stub.Config.Endpoint.{ReceiverConfig, SenderConfig}
use forward_stub.Config.Snapshot.{Config}
use forward_stub.Config.Stage.{StageConfig, validate_stage_config}
use forward_stub.Config.Topology.{
  each, missing, validate_selector, validate_task, validate_task_set, validate_topology,
}
use forward_stub.Config.Validate.{Checked, Parsers, stage_fault, topology_fault}
use forward_stub.Config.Validate.Keys.{key_compiles, receiver_lem}
use forward_stub.Config.Validate.Receivers.{validate_receiver}
use forward_stub.Config.Validate.Whole.{
  map_err, validate, validate_maps, validate_pipeline, validate_stages,
}
use forward_stub.MatchKey.{SplitHostPort}
use forward_stub.Pipeline.{Pipeline, StageFunc}
use forward_stub.Prelude.{
  All, List, Result, Result-cases, String, [], arith, err, false, inl, inr, ok, refl, some, suc,
  true, ℕ, ◌∷◌, ◌≡◌,
}
use forward_stub.Prelude.Int.{ℤ}
use forward_stub.Prelude.Map.{Map}

-- The maps of a configuration, as the checks on references see them.
abbrev pub business_of :
    Map String ReceiverConfig
    → Map String SelectorConfig
    → Map String (List String)
    → Map String SenderConfig
    → Map String (List StageConfig)
    → Map String TaskConfig
    → Business ReceiverConfig SenderConfig
business_of receivers selectors task_sets senders pipelines tasks = record {
  receivers = receivers;
  selectors = selectors;
  task_sets = task_sets;
  senders = senders;
  pipelines = pipelines;
  tasks = tasks;
}

module _ (go : Parsers) (c : Config) (receivers : Map String ReceiverConfig)
    (selectors : Map String SelectorConfig) (task_sets : Map String (List String))
    (senders : Map String SenderConfig) (pipelines : Map String (List StageConfig)) where
  past_nil :
      c.receivers ≡ some receivers
      → c.selectors ≡ some selectors
      → c.task_sets ≡ some task_sets
      → c.senders ≡ some senders
      → c.pipelines ≡ some pipelines
      → validate go c ≡ ok tt
      → validate_maps go c receivers selectors task_sets senders pipelines ≡ ok tt
  unfolding validate
  past_nil a b d e f h = ground (arith, a, b, d, e, f, h)

  record_checks :
      validate_maps go c receivers selectors task_sets senders pipelines ≡ ok tt
      → (each (λ (pn, stages). validate_pipeline go pn stages) pipelines ≡ ok tt)
        × (each (λ (tn, t). map_err topology_fault (validate_task pipelines senders tn t)) c.tasks
            ≡ ok tt)
        × (each
              (λ (tsn, names). map_err topology_fault (validate_task_set c.tasks tsn names))
              task_sets
            ≡ ok tt)
        × (each (λ (sn, sc). map_err topology_fault (validate_selector task_sets sn sc)) selectors
            ≡ ok tt)
        × (each (λ (rn, r). validate_receiver go selectors rn r) receivers ≡ ok tt)
  unfolding validate_maps
  record_checks h = (ground arith, ground arith, ground arith, ground arith, ground arith)

map_err-ok : {E F : Type 0} (f : E → F) (m : Result E (Unit {0})) → map_err f m ≡ ok tt → m ≡ ok tt
map_err-ok f (ok tt) h = refl
map_err-ok f (err e) h = cc

each-weaken {ℓ} :
    {A : Type ℓ} {E F : Type 0} (f : A → Result E (Unit {0})) (g : A → Result F (Unit {0}))
    (xs : List A)
    → ((x : A) → f x ≡ ok tt → g x ≡ ok tt)
    → each f xs ≡ ok tt
    → each g xs ≡ ok tt
each-weaken f g [] w h = refl
each-weaken f g (x ∷ xs) w h = elim (Result-cases (f x)) [
  | inl (tt, e) ↦ rw (w x e) (each-weaken f g xs w (ground (arith, e, h)))
  | inr (e, bad) ↦ absurd (ground (arith, bad, h))
]

each-All-is {ℓ κ} :
    {A : Type ℓ} (check : A → Checked) (P : A → Type κ) (xs : List A)
    → ((x : A) → check x ≡ ok tt → P x)
    → each check xs ≡ ok tt
    → All P xs
each-All-is check P [] f h = tt
each-All-is check P (x ∷ xs) f h = elim (Result-cases (check x)) [
  | inl (tt, e) ↦ (f x e, each-All-is check P xs f (ground (arith, e, h)))
  | inr (e, bad) ↦ absurd (ground (arith, bad, h))
]

stages_compile :
    (go : Parsers) (compile : Regexp) (pn : String) (i : ℕ) (stages : List StageConfig)
    → go.regexp_ok ≡ accepts compile
    → validate_stages go pn i stages ≡ ok tt
    → (fs : List StageFunc) × (compile_stages compile stages ≡ ok fs)
unfolding validate_stages compile_stages
stages_compile go compile pn i [] same h = ([], refl)
stages_compile go compile pn i (sc ∷ stages) same h =
    let first : validate_stage_config go.regexp_ok sc ≡ ok tt =
      map_err-ok (stage_fault pn i) (validate_stage_config go.regexp_ok sc) (ground (arith, h)) in
    let (f, e) = validated_compiles compile sc (rw same at first) in
    let (fs, es) = stages_compile go compile pn (suc i) stages same (ground (arith, h)) in
    (f ∷ fs, rw (e, es) refl)

pipelines_compile :
    (go : Parsers) (compile : Regexp) (pipelines : Map String (List StageConfig))
    → go.regexp_ok ≡ accepts compile
    → each (λ (pn, stages). validate_pipeline go pn stages) pipelines ≡ ok tt
    → (ps : Map String Pipeline) × (compile_pipelines compile pipelines ≡ ok ps)
unfolding validate_pipeline compile_pipelines
pipelines_compile go compile [] same h = ([], refl)
pipelines_compile go compile ((pn, stages) ∷ rest) same h =
    let (fs, e) = stages_compile go compile pn 0 stages same (ground (arith, h)) in
    let (ps, es) = pipelines_compile go compile rest same (ground (arith, h)) in
    ((pn, record { name = pn; stages = fs }) ∷ ps, rw (e, es) refl)

module _ (go : Parsers) (c : Config) (receivers : Map String ReceiverConfig)
    (selectors : Map String SelectorConfig) (task_sets : Map String (List String))
    (senders : Map String SenderConfig) (pipelines : Map String (List StageConfig)) where
  topology_of :
      validate_maps go c receivers selectors task_sets senders pipelines ≡ ok tt
      → validate_topology (business_of receivers selectors task_sets senders pipelines c.tasks)
        ≡ ok tt
  unfolding validate_topology
  topology_of h =
      let (a, b, d, e, f) = record_checks go c receivers selectors task_sets senders pipelines h in
      let tasks =
        each-weaken (λ (tn, t). map_err topology_fault (validate_task pipelines senders tn t))
          (λ (tn, t). validate_task pipelines senders tn t) c.tasks
          (λ x. map_err-ok topology_fault (validate_task pipelines senders x.0 x.1)) b in
      let sets =
        each-weaken (λ (tsn, names). map_err topology_fault (validate_task_set c.tasks tsn names))
          (λ (tsn, names). validate_task_set c.tasks tsn names) task_sets
          (λ x. map_err-ok topology_fault (validate_task_set c.tasks x.0 x.1)) d in
      let sels =
        each-weaken (λ (sn, sc). map_err topology_fault (validate_selector task_sets sn sc))
          (λ (sn, sc). validate_selector task_sets sn sc) selectors
          (λ x. map_err-ok topology_fault (validate_selector task_sets x.0 x.1)) e in
      rw (tasks, sets, sels) refl

  -- If `Validate` accepts a configuration, its references are right, all its pipelines compile, when both ask the same regular expression compiler, and every receiver has a selector that is configured and a match key that its constructor compiles.
  pub accepted_lem :
      (compile : Regexp) (itoa : ℤ → String) (split : SplitHostPort)
      → c.receivers ≡ some receivers
      → c.selectors ≡ some selectors
      → c.task_sets ≡ some task_sets
      → c.senders ≡ some senders
      → c.pipelines ≡ some pipelines
      → go.regexp_ok ≡ accepts compile
      → validate go c ≡ ok tt
      → (validate_topology (business_of receivers selectors task_sets senders pipelines c.tasks)
          ≡ ok tt)
        × ((ps : Map String Pipeline) × (compile_pipelines compile pipelines ≡ ok ps))
        × All
            (λ ((rn, r) : String × ReceiverConfig).
              (missing r.selector selectors ≡ false) × (key_compiles itoa split r ≡ true))
            receivers
  accepted_lem compile itoa split a b d e f same h =
      let m = past_nil go c receivers selectors task_sets senders pipelines a b d e f h in
      let (ps, tasks, sets, sels, rs) =
        record_checks go c receivers selectors task_sets senders pipelines m in
      (
        topology_of m,
        pipelines_compile go compile pipelines same ps,
        each-All-is (λ (rn, r). validate_receiver go selectors rn r)
            (λ ((rn, r) : String × ReceiverConfig).
              (missing r.selector selectors ≡ false) × (key_compiles itoa split r ≡ true))
            receivers (λ (rn, r). receiver_lem go selectors itoa split rn r) rs,
      )
