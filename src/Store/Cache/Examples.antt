-- ===== src/Store/Cache/Examples.antt =====
-- The theorems on the cache of stages at a concrete cache.
use forward_stub.Compiler.Examples.{routing_func}
use forward_stub.Config.Stage.{StageConfig, StageError}
use forward_stub.Pipeline.{StageFunc}
use forward_stub.Prelude.{Result, String, [], ok, refl, ◌∷◌, ◌≡◌}
use forward_stub.Prelude.Int.{pos}
use forward_stub.Samples.{plain_task, sample_config}
use forward_stub.Store.Cache.{
  StageCacheEntry, cached_pipelines, cached_stage, cached_stages,
  compile_pipelines_with_stage_cache, gc_unused_stage_cache, rebuild_stage_task_refs,
  release_task_stage_refs, retain_task_stage_refs,
}
use forward_stub.Store.Cache.Collect.{gc_after_compile}
use forward_stub.Store.Cache.Counts.{CacheIsCounted, task_refs-CacheIsCounted}
use forward_stub.Store.Cache.Rebuild.{HasEntry, rebuild_stage_task_refs_lem, uses_stage}

abbrev entry : StageCacheEntry
entry = record { fn = routing_func; task_refs = pos 0; tasks = [] }

task_refs-CacheIsCounted_example :
    CacheIsCounted
      (retain_task_stage_refs (("p", "sig" ∷ []) ∷ []) "t" ("p" ∷ []) (("sig", entry) ∷ []))
    × CacheIsCounted
        (release_task_stage_refs (("p", "sig" ∷ []) ∷ []) "t" ("p" ∷ []) (("sig", entry) ∷ []))
task_refs-CacheIsCounted_example =
    task_refs-CacheIsCounted (("p", "sig" ∷ []) ∷ []) "t" ("p" ∷ []) (("sig", entry) ∷ [])
      (record { distinct = tt; counted = refl }, tt)

rebuild_stage_task_refs_lem_example :
    HasEntry
      (rebuild_stage_task_refs
        (("p", "sig" ∷ []) ∷ [])
        (("t", plain_task ("p" ∷ []) []) ∷ [])
        (("sig", entry) ∷ []))
      "sig"
      routing_func
      (uses_stage (("p", "sig" ∷ []) ∷ []) (("t", plain_task ("p" ∷ []) []) ∷ []) "sig")
rebuild_stage_task_refs_lem_example =
    rebuild_stage_task_refs_lem (("p", "sig" ∷ []) ∷ []) (("t", plain_task ("p" ∷ []) []) ∷ [])
      (("sig", entry) ∷ []) "sig" entry refl

abbrev always : StageConfig → Result StageError StageFunc
always sc = ok routing_func

abbrev type_of : StageConfig → String
type_of sc = sc.type

sample_compiles :
    (compile_pipelines_with_stage_cache always type_of sample_config.pipelines []).0
    ≡ ok (
      (("p", record { name = "p"; stages = routing_func ∷ [] }) ∷ []),
      ("p", "route_offset_bytes_sender" ∷ []) ∷ [],
    )
unfolding compile_pipelines_with_stage_cache cached_pipelines cached_stages cached_stage
sample_compiles = refl

gc_after_compile_example :
    gc_unused_stage_cache
      (compile_pipelines_with_stage_cache always type_of sample_config.pipelines []).1
    ≡ gc_unused_stage_cache []
gc_after_compile_example =
    gc_after_compile always type_of sample_config.pipelines []
      (
        (("p", record { name = "p"; stages = routing_func ∷ [] }) ∷ []),
        ("p", "route_offset_bytes_sender" ∷ []) ∷ [],
      )
      sample_compiles
