-- ===== src/Store/Cache/Collect.antt =====
-- src/runtime/update_cache.go, gcUnusedStageCache: what is left of freshly compiled stages when
-- the cache is collected before any task uses them.
use forward_stub.Config.Stage.{StageConfig, StageError}
use forward_stub.Pipeline.{StageFunc}
use forward_stub.Prelude.{
  List, Option-cases, Result, Result-cases, String, [], arith, inl, inr, none, ok, refl, ◌∷◌, ◌≡◌,
}
use forward_stub.Prelude.Eq.{eq_String}
use forward_stub.Prelude.Map.{Map, insert, lookup}
use forward_stub.Store.Cache.{
  Building, Compilation, StageCache, cached_pipelines, cached_stage, cached_stages,
  compile_pipelines_with_stage_cache, gc_unused_stage_cache, new_entry,
}

gc-insert :
    (sig : String) (fn : StageFunc) (cache : StageCache)
    → lookup sig cache ≡ none
    → gc_unused_stage_cache (insert sig (new_entry fn) cache) ≡ gc_unused_stage_cache cache
unfolding gc_unused_stage_cache
gc-insert sig fn [] h = refl
gc-insert sig fn ((j, e) ∷ cache) h = ground (arith, gc-insert sig fn cache)

module _ (compile : StageConfig → Result StageError StageFunc)
    (signature : StageConfig → String) where
  cached_stage-gc :
      (sc : StageConfig) (b : Building)
      → gc_unused_stage_cache (cached_stage compile signature sc b).1.0 ≡ gc_unused_stage_cache b.0
  unfolding cached_stage
  cached_stage-gc sc b = elim (Option-cases (lookup (signature sc) b.0)) [
    | inr (e, found) ↦ ground (arith, found)
    | inl absent ↦ elim (Result-cases (compile sc)) [
      | inl (fn, compiled) ↦
          ground (arith, absent, compiled, gc-insert (signature sc) fn b.0 absent)
      | inr (failure, failed) ↦ ground (arith, absent, failed)
    ]
  ]

  cached_stages-gc :
      (scs : List StageConfig) (b : Building)
      → gc_unused_stage_cache (cached_stages compile signature scs b).1.0
        ≡ gc_unused_stage_cache b.0
  unfolding cached_stages
  cached_stages-gc [] b = refl
  cached_stages-gc (sc ∷ scs) b =
      let one = cached_stage compile signature sc b in
      ground (arith, cached_stage-gc sc b, cached_stages-gc scs one.1)

  cached_pipelines-gc :
      (cfg : Map String (List StageConfig)) (b : Building)
      → gc_unused_stage_cache (cached_pipelines compile signature cfg b).1.0
        ≡ gc_unused_stage_cache b.0
  unfolding cached_pipelines
  cached_pipelines-gc [] b = refl
  cached_pipelines-gc ((name, cfgs) ∷ cfg) b =
      let one = cached_stages compile signature cfgs b in
      ground (arith, cached_stages-gc cfgs b, cached_pipelines-gc cfg one.1)

  -- A collection that directly follows a successful compilation, as in `replaceAll` and in
  -- `applyBusinessDelta`, takes every stage out again that the compilation has cached: the cache
  -- is as if the compilation had not been.
  pub gc_after_compile :
      (cfg : Map String (List StageConfig)) (cache : StageCache) (c : Compilation)
      → (compile_pipelines_with_stage_cache compile signature cfg cache).0 ≡ ok c
      → gc_unused_stage_cache (compile_pipelines_with_stage_cache compile signature cfg cache).1
        ≡ gc_unused_stage_cache cache
  unfolding compile_pipelines_with_stage_cache
  gc_after_compile cfg cache c h = ground (arith, cached_pipelines-gc cfg (cache, []))
