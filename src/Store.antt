-- ===== src/Store.antt =====
-- The stores of src/tokenStore.ts, src/requestStore.ts, src/policy.ts and their like, over the
-- mechanics of src/jsonlStore.ts: a map by id, and where a path is configured an append-only file of
-- one JSON line for each save. A file is the list of its lines; one that is not there reads as none.
pub mod Replay
use ambit.Common.{
  true, false, Option, none, some, List, [], ◌∷◌, ◌++◌, String, Dict, lookup, insert, filter,
  is_blank,
}

pub record Store {ℓ} (V : Type ℓ) : Type ℓ where
  pub items : Dict V
  pub file : Option (List String)

-- `appendJsonLine`, if the store has a file.
abbrev pub append_json_line : String → Option (List String) → Option (List String)
append_json_line line none = none
append_json_line line (some lines) = some (lines ++ line ∷ [])

module _ {ℓ} {V : Type ℓ} where
  -- `save`: set the item under its id, and append its line.
  unfoldable pub save : String → V → String → Store V → Store V
  save id v line s = record { items = insert id v s.items; file = append_json_line line s.file }

  unfoldable pub get : String → Store V → Option V
  get id s = lookup id s.items

  -- `rehydrateJsonLines`: blank lines are passed over, and a line that `revive` refuses is skipped.
  unfoldable pub rehydrate_json_lines : (String → Option V) → List String → List V
  rehydrate_json_lines revive [] = []
  rehydrate_json_lines revive (line ∷ lines) =
      let rest = rehydrate_json_lines revive lines in
      elim (is_blank line) [
        | true ↦ rest
        | false ↦ elim (revive line) [ none ↦ rest | some v ↦ v ∷ rest ]
      ]

  -- The loop of a constructor over the rehydrated values.
  unfoldable pub set_all : (V → String) → List V → Dict V → Dict V
  set_all id [] items = items
  set_all id (v ∷ vs) items = set_all id vs (insert (id v) v items)

  -- The constructor of a store.
  unfoldable pub init : (V → String) → (String → Option V) → Option (List String) → Store V
  unfolding rehydrate_json_lines set_all
  init id revive none = record { items = []; file = none }
  init id revive (some lines) = record {
    items = set_all id (rehydrate_json_lines revive lines) [];
    file = some lines;
  }
