-- ===== src/Store/Cache/Rebuild.antt =====
-- src/runtime/update_cache.go: what rebuildStageTaskRefs notes.
use mathlib.Core.Path.{subst}
use forward_stub.Config.Business.{TaskConfig}
use forward_stub.Pipeline.{StageFunc}
use forward_stub.Prelude.{
  Bool, Bool-cases, List, String, [], ap, arith, false, inl, inr, refl, some, true, ◌&&◌, ◌||◌, ◌∙◌,
  ◌∷◌, ◌≡◌,
}
use forward_stub.Prelude.Eq.{eq_String, ◌==◌}
use forward_stub.Prelude.Int.{pos}
use forward_stub.Prelude.Map.{Map, adjust, lookup, lookup-adjust, map_option}
use forward_stub.Prelude.Names.{contains}
use forward_stub.Store.Cache.{
  StageCache, StageCacheEntry, clear_refs, count_tasks, each_pipeline, each_sig,
  rebuild_stage_task_refs, retain_entry, retain_task_stage_refs, sigs_of,
}
use forward_stub.Store.Cache.Counts.{IsCountedEntry, retain_entry-IsCountedEntry}

-- A pipeline of the list has a stage with the signature.
abbrev pub has_stage : Map String (List String) → String → List String → Bool
has_stage sigs sig [] = false
has_stage sigs sig (pn ∷ pns) = contains (sigs_of sigs pn) sig || has_stage sigs sig pns

-- A task of the name has such a pipeline.
abbrev pub uses_stage : Map String (List String) → Map String TaskConfig → String → String → Bool
uses_stage sigs [] sig n = false
uses_stage sigs ((name, tc) ∷ tasks) sig n =
    (name == n && has_stage sigs sig tc.pipelines) || uses_stage sigs tasks sig n

-- The cache has the function under the signature, with exactly the tasks that `noted` names, and their number.
pub record HasEntry (cache : StageCache) (sig : String) (fn : StageFunc) (noted : String → Bool)
    : Type 0 where
  pub entry : StageCacheEntry
  pub found : lookup sig cache ≡ some entry
  pub same : entry.fn ≡ fn
  pub tasks : (n : String) → contains entry.tasks n ≡ noted n
  pub counted : IsCountedEntry entry

HasEntry-same :
    {cache : StageCache} {sig : String} {fn : StageFunc} (p q : String → Bool)
    → ((n : String) → p n ≡ q n)
    → HasEntry cache sig fn p
    → HasEntry cache sig fn q
HasEntry-same p q h v = record {
  entry = v.entry;
  found = v.found;
  same = v.same;
  tasks = λ n. v.tasks n ∙ h n;
  counted = v.counted;
}

contains-retain_entry :
    (task n : String) (e : StageCacheEntry)
    → contains (retain_entry task e).tasks n ≡ (contains e.tasks n || task == n)
unfolding retain_entry
contains-retain_entry task n e = elim (Bool-cases (contains e.tasks task)) [
  | inr new ↦ rw new (ground arith)
  | inl there ↦ rw there (elim (Bool-cases (task == n)) [
    | inr other ↦ rw other (ground arith)
    | inl same ↦ rw same (
        rw
          (subst (λ (x : String). contains e.tasks x ≡ true) ((eq_String.beq_iff task n).0 same)
            there)
          refl)
  ])
]

retain_entry-fn : (task : String) (e : StageCacheEntry) → (retain_entry task e).fn ≡ e.fn
unfolding retain_entry
retain_entry-fn task e = ground arith

module _ (task sig : String) (fn : StageFunc) where
  adjust-HasEntry :
      (k : String) (cache : StageCache) (p : String → Bool)
      → HasEntry cache sig fn p
      → HasEntry (adjust (retain_entry task) k cache) sig fn (λ n. p n || (k == sig && task == n))
  adjust-HasEntry k cache p v = elim (Bool-cases (k == sig)) [
    | inl hit ↦ record {
      entry = retain_entry task v.entry;
      found = lookup-adjust (retain_entry task) k sig cache ∙ rw (hit, v.found) refl;
      same = retain_entry-fn task v.entry ∙ v.same;
      tasks = λ n. contains-retain_entry task n v.entry ∙ rw (hit, v.tasks n) refl;
      counted = retain_entry-IsCountedEntry task v.entry v.counted;
    }
    | inr miss ↦ record {
      entry = v.entry;
      found = lookup-adjust (retain_entry task) k sig cache ∙ rw miss v.found;
      same = v.same;
      tasks = λ n. v.tasks n ∙ rw miss (ground arith);
      counted = v.counted;
    }
  ]

  each_sig-HasEntry :
      (ks : List String) (cache : StageCache) (p : String → Bool)
      → HasEntry cache sig fn p
      → HasEntry
          (each_sig (retain_entry task) ks cache)
          sig
          fn
          (λ n. p n || (contains ks sig && task == n))
  each_sig-HasEntry [] cache p v = HasEntry-same p (λ n. p n || false) (λ n. ground arith) v
  each_sig-HasEntry (k ∷ ks) cache p v =
      let q : String → Bool = λ n. p n || (k == sig && task == n) in
      HasEntry-same (λ n. q n || (contains ks sig && task == n))
        (λ n. p n || (contains (k ∷ ks) sig && task == n)) (λ n. ground arith)
        (each_sig-HasEntry ks (adjust (retain_entry task) k cache) q (adjust-HasEntry k cache p v))

  each_pipeline-HasEntry :
      (sigs : Map String (List String)) (pns : List String) (cache : StageCache) (p : String → Bool)
      → HasEntry cache sig fn p
      → HasEntry
          (each_pipeline (retain_entry task) sigs pns cache)
          sig
          fn
          (λ n. p n || (has_stage sigs sig pns && task == n))
  unfolding each_pipeline
  each_pipeline-HasEntry sigs [] cache p v =
      HasEntry-same p (λ n. p n || false) (λ n. ground arith) v
  each_pipeline-HasEntry sigs (pn ∷ pns) cache p v =
      let ks = sigs_of sigs pn in
      let q : String → Bool = λ n. p n || (contains ks sig && task == n) in
      HasEntry-same (λ n. q n || (has_stage sigs sig pns && task == n))
        (λ n. p n || (has_stage sigs sig (pn ∷ pns) && task == n)) (λ n. ground arith)
        (each_pipeline-HasEntry sigs pns (each_sig (retain_entry task) ks cache) q
          (each_sig-HasEntry ks cache p v))

count_tasks-HasEntry :
    (sigs : Map String (List String)) (sig : String) (fn : StageFunc)
    (tasks : Map String TaskConfig) (cache : StageCache) (p : String → Bool)
    → HasEntry cache sig fn p
    → HasEntry (count_tasks sigs tasks cache) sig fn (λ n. p n || uses_stage sigs tasks sig n)
unfolding count_tasks retain_task_stage_refs
count_tasks-HasEntry sigs sig fn [] cache p v =
    HasEntry-same p (λ n. p n || false) (λ n. ground arith) v
count_tasks-HasEntry sigs sig fn ((name, tc) ∷ tasks) cache p v =
    let q : String → Bool = λ n. p n || (has_stage sigs sig tc.pipelines && name == n) in
    HasEntry-same (λ n. q n || uses_stage sigs tasks sig n)
      (λ n. p n || uses_stage sigs ((name, tc) ∷ tasks) sig n) (λ n. ground arith)
      (count_tasks-HasEntry sigs sig fn tasks (retain_task_stage_refs sigs name tc.pipelines cache)
        q (each_pipeline-HasEntry name sig fn sigs tc.pipelines cache p v))

abbrev cleared_entry : StageCacheEntry → StageCacheEntry
cleared_entry e = record e { task_refs = pos 0; tasks = [] }

lookup-clear_refs :
    (sig : String) (cache : StageCache)
    → lookup sig (clear_refs cache) ≡ map_option cleared_entry (lookup sig cache)
unfolding clear_refs
lookup-clear_refs sig [] = refl
lookup-clear_refs sig ((j, v) ∷ cache) = elim (Bool-cases (j == sig)) [
  | inl hit ↦ rw hit refl
  | inr miss ↦ rw miss (lookup-clear_refs sig cache)
]

-- Whatever the cache says before, after the rebuild each of its stages has its function, is noted for exactly the tasks that have it in one of their pipelines, and has the number of these tasks as its count.
pub rebuild_stage_task_refs_lem :
    (sigs : Map String (List String)) (tasks : Map String TaskConfig) (cache : StageCache)
    (sig : String) (e : StageCacheEntry)
    → lookup sig cache ≡ some e
    → HasEntry (rebuild_stage_task_refs sigs tasks cache) sig e.fn (uses_stage sigs tasks sig)
unfolding rebuild_stage_task_refs
rebuild_stage_task_refs_lem sigs tasks cache sig e h =
    count_tasks-HasEntry sigs sig e.fn tasks (clear_refs cache) (λ n. false)
      (record {
        entry = cleared_entry e;
        found = lookup-clear_refs sig cache ∙ ap (map_option cleared_entry) h;
        same = refl;
        tasks = λ n. refl;
        counted = record { distinct = tt; counted = refl };
      })
