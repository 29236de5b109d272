-- ===== src/Store/Cache.antt =====
-- src/runtime/compiler.go and update_cache.go: the cache of stage functions by the signature of
-- their configuration, with the tasks that use them. The signature, which is the JSON text of the
-- configuration, is a parameter; marshalling a StageConfig does not fail.
pub mod Examples
pub mod Counts
pub mod Rebuild
pub mod Collect
use forward_stub.Config.Business.{TaskConfig}
use forward_stub.Config.Stage.{StageConfig, StageError}
use forward_stub.Pipeline.{Pipeline, StageFunc}
use forward_stub.Prelude.{
  List, Result, String, [], err, if◌then◌else◌, none, not, ok, some, ◌++◌, ◌>>=◌, ◌>>◌, ◌∷◌,
}
use forward_stub.Prelude.Eq.{eq_String, ◌==◌}
use forward_stub.Prelude.Int.{int_dec, int_inc, is_nonpos, is_zero, pos, ℤ}
use forward_stub.Prelude.Map.{Map, adjust, delete, insert, lookup}
use forward_stub.Prelude.Names.{contains}

-- StageCacheEntry
pub record StageCacheEntry : Type 0 where
  pub fn : StageFunc
  pub task_refs : ℤ
  pub tasks : List String

abbrev pub StageCache : Type 0
StageCache = Map String StageCacheEntry

abbrev pub erase_name : String → List String → List String
erase_name n [] = []
erase_name n (x ∷ xs) = let rest = erase_name n xs in if x == n then rest else x ∷ rest

-- The body of the loops of `retainTaskStageRefsLocked`.
unfoldable pub retain_entry : String → StageCacheEntry → StageCacheEntry
retain_entry task e =
    if contains e.tasks task
    then e
    else record e { tasks = task ∷ e.tasks; task_refs = int_inc e.task_refs }

abbrev at_least_zero : ℤ → ℤ
at_least_zero x = if is_nonpos x then pos 0 else x

-- The body of the loops of `releaseTaskStageRefsLocked`.
unfoldable pub release_entry : String → StageCacheEntry → StageCacheEntry
release_entry task e = if not (contains e.tasks task) then e else record e {
  tasks = erase_name task e.tasks;
  task_refs = at_least_zero (int_dec e.task_refs);
}

abbrev pub each_sig : (StageCacheEntry → StageCacheEntry) → List String → StageCache → StageCache
each_sig f [] cache = cache
each_sig f (sig ∷ sigs) cache = each_sig f sigs (adjust f sig cache)

-- The signatures of a pipeline's stages; those of a name that is not there are none.
abbrev pub sigs_of : Map String (List String) → String → List String
sigs_of sigs pn = elim (lookup pn sigs) [ none ↦ [] | some s ↦ s ]

each_pipeline :
    (StageCacheEntry → StageCacheEntry)
    → Map String (List String)
    → List String
    → StageCache
    → StageCache
each_pipeline f sigs [] cache = cache
each_pipeline f sigs (pn ∷ pns) cache =
    each_pipeline f sigs pns (each_sig f (sigs_of sigs pn) cache)

-- retainTaskStageRefsLocked
pub retain_task_stage_refs :
    Map String (List String) → String → List String → StageCache → StageCache
unfolding each_pipeline retain_entry
retain_task_stage_refs sigs task pipelines = each_pipeline (retain_entry task) sigs pipelines

-- releaseTaskStageRefsLocked
pub release_task_stage_refs :
    Map String (List String) → String → List String → StageCache → StageCache
unfolding each_pipeline release_entry
release_task_stage_refs sigs task pipelines = each_pipeline (release_entry task) sigs pipelines

-- gcUnusedStageCache
unfoldable pub gc_unused_stage_cache : StageCache → StageCache
gc_unused_stage_cache [] = []
gc_unused_stage_cache ((sig, e) ∷ cache) =
    let rest = gc_unused_stage_cache cache in
    if is_nonpos e.task_refs then rest else (sig, e) ∷ rest

clear_refs : StageCache → StageCache
clear_refs [] = []
clear_refs ((sig, e) ∷ cache) = (sig, record e { task_refs = pos 0; tasks = [] }) ∷ clear_refs cache

-- The loop over the tasks of the function below.
count_tasks : Map String (List String) → Map String TaskConfig → StageCache → StageCache
unfolding retain_task_stage_refs
count_tasks sigs [] cache = cache
count_tasks sigs ((name, tc) ∷ tasks) cache =
    count_tasks sigs tasks (retain_task_stage_refs sigs name tc.pipelines cache)

-- rebuildStageTaskRefs, over the configurations of the running tasks
pub rebuild_stage_task_refs :
    Map String (List String) → Map String TaskConfig → StageCache → StageCache
unfolding clear_refs count_tasks
rebuild_stage_task_refs sigs tasks cache = count_tasks sigs tasks (clear_refs cache)

-- `cleanupCreated`: the created entries that no task uses yet go.
cleanup_created : List String → StageCache → StageCache
cleanup_created [] cache = cache
cleanup_created (sig ∷ created) cache = cleanup_created created (elim (lookup sig cache) [
  | none ↦ cache
  | some e ↦ if is_zero e.task_refs then delete sig cache else cache
])

abbrev new_entry : StageFunc → StageCacheEntry
new_entry fn = record { fn = fn; task_refs = pos 0; tasks = [] }

-- The cache and the signatures that have been created in it.
abbrev pub Building : Type 0
Building = StageCache × List String

-- The compiled pipelines, and the signatures of their stages.
abbrev pub Compilation : Type 0
Compilation = Map String Pipeline × Map String (List String)

module _ (compile : StageConfig → Result StageError StageFunc)
    (signature : StageConfig → String) where
  -- One stage: a cached function is taken over, another is compiled and cached.
  unfoldable pub cached_stage : StageConfig → Building → Result StageError StageFunc × Building
  cached_stage sc (cache, created) =
      let sig = signature sc in
      elim (lookup sig cache) [
        | some e ↦ (ok e.fn, (cache, created))
        | none ↦ elim (compile sc) [
          | err e ↦ (err e, (cache, created))
          | ok fn ↦ (ok fn, (insert sig (new_entry fn) cache, created ++ sig ∷ []))
        ]
      ]

  -- The loop over a pipeline's stages; it stops at the first error.
  unfoldable pub cached_stages :
      List StageConfig → Building → Result StageError (List StageFunc × List String) × Building
  unfolding cached_stage
  cached_stages [] b = (ok ([], []), b)
  cached_stages (sc ∷ scs) b =
      let (r, b') = cached_stage sc b in
      let (rs, b'') = cached_stages scs b' in
      elim r [
        | err e ↦ (err e, b')
        | ok fn ↦ ((do rest ← rs; ok (fn ∷ rest.0, signature sc ∷ rest.1)), b'')
      ]

  -- The loop over the pipelines.
  unfoldable pub cached_pipelines :
      Map String (List StageConfig) → Building → Result (String × StageError) Compilation × Building
  unfolding cached_stages
  cached_pipelines [] b = (ok ([], []), b)
  cached_pipelines ((name, cfgs) ∷ cfg) b =
      let (r, b') = cached_stages cfgs b in
      let (rs, b'') = cached_pipelines cfg b' in
      elim r [
        | err e ↦ (err (name, e), b')
        | ok (fns, sigs) ↦ (
          (do
            rest ← rs
            ok ((name, record { name = name; stages = fns }) ∷ rest.0, (name, sigs) ∷ rest.1)),
          b'',
        )
      ]

  -- compilePipelinesWithStageCache: the result, and the cache after it.
  unfoldable pub compile_pipelines_with_stage_cache :
      Map String (List StageConfig)
      → StageCache
      → Result (String × StageError) Compilation × StageCache
  unfolding cached_pipelines cleanup_created
  compile_pipelines_with_stage_cache cfg cache =
      let (r, b) = cached_pipelines cfg (cache, []) in
      elim r [ ok c ↦ (ok c, b.0) | err e ↦ (err e, cleanup_created b.1 b.0) ]
