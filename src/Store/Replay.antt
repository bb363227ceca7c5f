-- ===== src/Store/Replay.antt =====
-- A restart of a store of src/jsonlStore.ts: replaying its file gives back what was in memory.
use ambit.Common.{
  ◌≡◌, refl, sym, ap, ◌∙◌, false, Option, some, List, [], ◌∷◌, ◌++◌, map, String, arith, All, Dict,
  insert, is_blank,
}
use ambit.Store.{Store, save, init, rehydrate_json_lines, set_all}
use mathlib.Core.List.{append_assoc, append-nil}

module _ {ℓ} {V : Type ℓ} where
  -- The values of a map, changed one by one; the keys and their order stay.
  unfoldable pub map_values : (V → V) → Dict V → Dict V
  map_values f [] = []
  map_values f ((k, v) ∷ m) = (k, f v) ∷ map_values f m

  map_values-insert :
      (f : V → V) (k : String) (v : V) (m : Dict V)
      → map_values f (insert k v m) ≡ insert k (f v) (map_values f m)
  unfolding map_values insert
  map_values-insert f k v [] = refl
  map_values-insert f k v ((j, w) ∷ m) = ground (arith, map_values-insert f k v m)

  -- A store's JSON: how a value is written, and how a line is read.
  module _ (id : V → String) (json : V → String) (revive : String → Option V)
      (durable : V → V) where
    -- The line of `v` is not blank, and reads back as `durable v`, which has the id of `v`.
    pub record IsWritable (v : V) : Type ℓ where
      pub solid : is_blank (json v) ≡ false
      pub parsed : revive (json v) ≡ some (durable v)
      pub same_id : id (durable v) ≡ id v

    unfoldable pub save_all : List V → Store V → Store V
    save_all [] s = s
    save_all (v ∷ vs) s = save_all vs (save (id v) v (json v) s)

    save_all-items : (vs : List V) (s : Store V) → (save_all vs s).items ≡ set_all id vs s.items
    unfolding save_all save set_all
    save_all-items [] s = refl
    save_all-items (v ∷ vs) s = save_all-items vs (save (id v) v (json v) s)

    save_all-file :
        (vs : List V) (s : Store V) (lines : List String)
        → s.file ≡ some lines
        → (save_all vs s).file ≡ some (lines ++ map json vs)
    unfolding save_all save
    save_all-file [] s lines e = rw append-nil e
    save_all-file (v ∷ vs) s lines e =
        save_all-file vs (save (id v) v (json v) s) (lines ++ json v ∷ []) (rw e)
        ∙ ap some (append_assoc lines (json v ∷ []) (map json vs))

    rehydrate-map :
        (vs : List V)
        → All IsWritable vs
        → rehydrate_json_lines revive (map json vs) ≡ map durable vs
    unfolding rehydrate_json_lines
    rehydrate-map [] w = refl
    rehydrate-map (v ∷ vs) w = ground (arith, w.0.solid, w.0.parsed, rehydrate-map vs w.1)

    set_all-map :
        (vs : List V) (m : Dict V)
        → All IsWritable vs
        → set_all id (map durable vs) (map_values durable m) ≡ map_values durable (set_all id vs m)
    unfolding set_all
    set_all-map [] m w = refl
    set_all-map (v ∷ vs) m w =
        ap (λ k. set_all id (map durable vs) (insert k (durable v) (map_values durable m)))
          w.0.same_id
        ∙ ap (set_all id (map durable vs)) (sym (map_values-insert durable (id v) v m))
        ∙ set_all-map vs (insert (id v) v m) w.1

    -- A store that began with an empty file and took any saves, later ones of an id replacing
    -- earlier ones, is read back by a restart with the same ids in the same order, each with the
    -- part of its last value that is written to the file.
    pub restart_items :
        (vs : List V)
        → All IsWritable vs
        → let s = save_all vs (init id revive (some [])) in
          (init id revive s.file).items ≡ map_values durable s.items
    unfolding init map_values
    restart_items vs w =
        let start : Store V = record { items = []; file = some [] } in
        rw (save_all-file vs start [] refl, rehydrate-map vs w, save_all-items vs start)
          (set_all-map vs [] w)
