-- ===== src/Store/Senders.antt =====
-- src/runtime/update_cache.go: applySenderDelta. The constructor of a sender, which opens
-- connections, is a parameter: it gives a sender, or none for an error. So is reflect.DeepEqual.
pub mod Examples
pub mod Applied
pub mod Configured
use forward_stub.Prelude.{
  Bool, List, Option, Result, String, [], err, false, if◌then◌else◌, none, ok, some, ◌&&◌, ◌++◌,
  ◌>>=◌, ◌>>◌, ◌∷◌,
}
use forward_stub.Prelude.Eq.{DeepEqual, eq_String}
use forward_stub.Prelude.Int.{is_zero, pos, ℤ}
use forward_stub.Prelude.Map.{Map, insert, is_none, lookup}
use forward_stub.Store.{Effect, RuntimeError, SenderState, Store, build_failed, closed_sender}
use forward_stub.Task.{Sender}

-- The elements of `built`.
pub record Built (S : Type 0) : Type 0 where
  pub name : String
  pub cfg : S
  pub s : Sender
  pub old : Option Sender

-- The test `old.Refs == 0`.
abbrev pub refs_of : {S : Type 0} → Option (SenderState S) → ℤ
refs_of none = pos 0
refs_of (some ss) = ss.refs

abbrev pub sender_of : {S : Type 0} → Option (SenderState S) → Option Sender
sender_of none = none
sender_of (some ss) = some ss.s

module _ {S : Type 0} ⦃e : DeepEqual S⦄ where
  -- `ok && reflect.DeepEqual(old.Cfg, sc)`
  abbrev pub is_unchanged : Option (SenderState S) → S → Bool
  is_unchanged none sc = false
  is_unchanged (some old) sc = e.deep_equal old.cfg sc

  -- The loop over `next`: what is built, or the name whose constructor failed with what had been
  -- built before, which `closeBuilt` closes.
  pub build_changed :
      (String → S → Option Sender)
      → Map String (SenderState S)
      → List Effect
      → Map String S
      → Result (String × List Effect) (List (Built S))
  build_changed build olds before [] = ok []
  build_changed build olds before ((name, sc) ∷ rest) =
      let old = lookup name olds in
      let skipped = build_changed build olds before rest in
      if is_unchanged old sc then skipped else elim (build name sc) [
        | none ↦ err (name, before)
        | some s ↦ (do
          others ← build_changed build olds (before ++ closed_sender s ∷ []) rest
          ok (record { name = name; cfg = sc; s = s; old = sender_of old } ∷ others))
      ]

-- The loop over `built`: the references of the sender in the store pass to the new one.
pub install :
    {S : Type 0} → List (Built S) → Map String (SenderState S) → Map String (SenderState S)
install [] table = table
install (b ∷ bs) table = install bs (
    insert b.name
      (record { name = b.name; cfg = b.cfg; s = b.s; refs = refs_of (lookup b.name table) }) table)

-- The loop over the senders that `next` does not have: what stays, and what is closed.
pub drop_unused :
    {S : Type 0}
    → Map String S
    → Map String (SenderState S)
    → Map String (SenderState S) × List Effect
drop_unused next [] = ([], [])
drop_unused next ((name, old) ∷ table) =
    let (kept, closed) = drop_unused next table in
    if is_none (lookup name next) && is_zero old.refs
    then (kept, closed_sender old.s ∷ closed)
    else ((name, old) ∷ kept, closed)

-- `toClose`
replaced_senders : {S : Type 0} → List (Built S) → List Sender
replaced_senders [] = []
replaced_senders (b ∷ bs) = elim b.old [
  | none ↦ replaced_senders bs
  | some s ↦ s ∷ replaced_senders bs
]

-- applySenderDelta: the senders that the caller closes later, and the store.
pub apply_sender_delta :
    {S : Type 0} ⦃e : DeepEqual S⦄
    → (String → S → Option Sender)
    → Map String S
    → Store S
    → Result RuntimeError (List Sender) × Store S
unfolding build_changed install drop_unused replaced_senders
apply_sender_delta build next st = elim (build_changed build st.senders [] next) [
  | err (name, closing) ↦ (err (build_failed name), record st { effects = st.effects ++ closing })
  | ok built ↦
      let (kept, closed) = drop_unused next (install built st.senders) in
      (ok (replaced_senders built), record st { senders = kept; effects = st.effects ++ closed })
]
