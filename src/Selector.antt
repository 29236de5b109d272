-- ===== src/Selector.antt =====
-- src/selector/selector.go: the routing table of a receiver, from match keys to values.
use forward_stub.Prelude.{List, Option, String, [], none, some}
use forward_stub.Prelude.Eq.{eq_String}
use forward_stub.Prelude.Map.{Map, lookup, values}

pub record Compiled {ℓ} (T : Type ℓ) : Type ℓ where
  pub name : String
  pub values_by_key : Map String (List T)
  pub default_values : List T

module _ {ℓ} {T : Type ℓ} where
  -- NewCompiled; the capacity is only a hint.
  abbrev pub new_compiled : String → Compiled T
  new_compiled name = record { name = name; values_by_key = []; default_values = [] }

  -- NewDefaultOnlyCompiled
  abbrev pub new_default_only_compiled : String → List T → Compiled T
  new_default_only_compiled name values = record {
    name = name;
    values_by_key = [];
    default_values = values;
  }

  -- Match, on a selector that may be nil.
  unfoldable pub match : Option (Compiled T) → String → List T
  match none key = []
  match (some s) key = elim (lookup key s.values_by_key) [
    | some values ↦ values
    | none ↦ s.default_values
  ]
