-- ===== src/Store/Cache/Counts.antt =====
-- src/runtime/update_cache.go: the reference count of a cache entry is the number of tasks that
-- are noted in it.
use mathlib.Core.Path.{subst}
use forward_stub.Prelude.{
  Bool-cases, List, String, [], ap, arith, false, inl, inr, length, refl, suc, true, zero, ℕ, ◌∙◌,
  ◌∷◌, ◌≡◌,
}
use forward_stub.Prelude.Eq.{eq_String, ◌==◌}
use forward_stub.Prelude.Int.{int_dec, int_inc, pos, ℤ}
use forward_stub.Prelude.Map.{Map, adjust}
use forward_stub.Prelude.Names.{Distinct, contains}
use forward_stub.Store.Cache.{
  StageCache, StageCacheEntry, at_least_zero, each_pipeline, each_sig, erase_name, release_entry,
  release_task_stage_refs, retain_entry, retain_task_stage_refs, sigs_of,
}

pub record IsCountedEntry (e : StageCacheEntry) : Type 0 where
  pub distinct : Distinct e.tasks
  pub counted : e.task_refs ≡ pos (length e.tasks)

contains-erase_name :
    (n x : String) (xs : List String) → contains xs x ≡ false → contains (erase_name n xs) x ≡ false
contains-erase_name n x [] h = refl
contains-erase_name n x (y ∷ ys) h = ground (arith, contains-erase_name n x ys)

erase_name-absent : (n : String) (xs : List String) → contains xs n ≡ false → erase_name n xs ≡ xs
erase_name-absent n [] h = refl
erase_name-absent n (x ∷ xs) h = ground (arith, erase_name-absent n xs)

erase_name-Distinct :
    (n : String) (xs : List String)
    → Distinct xs
    → contains xs n ≡ true
    → Distinct (erase_name n xs) × (length xs ≡ suc (length (erase_name n xs)))
erase_name-Distinct n [] d c = cc
erase_name-Distinct n (x ∷ xs) d c = elim (Bool-cases (x == n)) [
  | inl same ↦
      let e : x ≡ n = (eq_String.beq_iff x n).0 same in
      let absent = subst (λ (y : String). contains xs y ≡ false) e d.0 in
      rw (same, erase_name-absent n xs absent) (d.1, refl)
  | inr other ↦
      let rest = erase_name-Distinct n xs d.1 (ground (arith, other)) in
      rw other ((contains-erase_name n x xs d.0, rest.0), ap suc rest.1)
]

pub retain_entry-IsCountedEntry :
    (task : String) (e : StageCacheEntry) → IsCountedEntry e → IsCountedEntry (retain_entry task e)
unfolding retain_entry
retain_entry-IsCountedEntry task e v = elim (Bool-cases (contains e.tasks task)) [
  | inl there ↦ rw there v
  | inr new ↦ rw new (record { distinct = (new, v.distinct); counted = ap int_inc v.counted })
]

release_entry-IsCountedEntry :
    (task : String) (e : StageCacheEntry) → IsCountedEntry e → IsCountedEntry (release_entry task e)
unfolding release_entry
release_entry-IsCountedEntry task e v = elim (Bool-cases (contains e.tasks task)) [
  | inr absent ↦ rw absent v
  | inl there ↦
      let (distinct, shorter) = erase_name-Distinct task e.tasks v.distinct there in
      rw there (record {
        distinct = distinct;
        counted =
            lowered (length (erase_name task e.tasks)) e.task_refs (v.counted ∙ ap pos shorter);
      })
]
  where
    lowered : (k : ℕ) (x : ℤ) → x ≡ pos (suc k) → at_least_zero (int_dec x) ≡ pos k
    lowered zero x h = rw h refl
    lowered (suc k) x h = rw h refl

-- Every entry of the cache is counted.
abbrev pub CacheIsCounted : StageCache → Type 0
CacheIsCounted [] = Unit
CacheIsCounted ((sig, e) ∷ cache) = IsCountedEntry e × CacheIsCounted cache

module _ (f : StageCacheEntry → StageCacheEntry)
    (keeps : (e : StageCacheEntry) → IsCountedEntry e → IsCountedEntry (f e)) where
  adjust-CacheIsCounted :
      (sig : String) (cache : StageCache)
      → CacheIsCounted cache
      → CacheIsCounted (adjust f sig cache)
  adjust-CacheIsCounted sig [] h = tt
  adjust-CacheIsCounted sig ((j, e) ∷ cache) h = elim (Bool-cases (j == sig)) [
    | inl same ↦ rw same (keeps e h.0, h.1)
    | inr other ↦ rw other (h.0, adjust-CacheIsCounted sig cache h.1)
  ]

  each_sig-CacheIsCounted :
      (sigs : List String) (cache : StageCache)
      → CacheIsCounted cache
      → CacheIsCounted (each_sig f sigs cache)
  each_sig-CacheIsCounted [] cache h = h
  each_sig-CacheIsCounted (sig ∷ sigs) cache h =
      each_sig-CacheIsCounted sigs (adjust f sig cache) (adjust-CacheIsCounted sig cache h)

  each_pipeline-CacheIsCounted :
      (sigs : Map String (List String)) (pns : List String) (cache : StageCache)
      → CacheIsCounted cache
      → CacheIsCounted (each_pipeline f sigs pns cache)
  unfolding each_pipeline
  each_pipeline-CacheIsCounted sigs [] cache h = h
  each_pipeline-CacheIsCounted sigs (pn ∷ pns) cache h =
      each_pipeline-CacheIsCounted sigs pns (each_sig f (sigs_of sigs pn) cache)
        (each_sig-CacheIsCounted (sigs_of sigs pn) cache h)

-- Noting a task in the entries of its pipelines' stages, and taking it out of them, keep each
-- count equal to the number of distinct tasks that are noted, however often a stage occurs.
pub task_refs-CacheIsCounted :
    (sigs : Map String (List String)) (task : String) (pipelines : List String) (cache : StageCache)
    → CacheIsCounted cache
    → CacheIsCounted (retain_task_stage_refs sigs task pipelines cache)
      × CacheIsCounted (release_task_stage_refs sigs task pipelines cache)
unfolding retain_task_stage_refs release_task_stage_refs
task_refs-CacheIsCounted sigs task pipelines cache h = (
  each_pipeline-CacheIsCounted (retain_entry task) (retain_entry-IsCountedEntry task) sigs pipelines
      cache h,
  each_pipeline-CacheIsCounted (release_entry task) (release_entry-IsCountedEntry task) sigs
      pipelines cache h,
)
