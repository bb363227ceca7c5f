-- ===== src/Policies.antt =====
-- `createPolicy` and `modifyPolicy` of src/policy.ts.
pub mod Sound
use ambit.Common.{
  ℕ, Bool, true, false, ◌||◌, Option, none, some, List, [], ◌∷◌, String, if◌then◌else◌, str_eq,
  is_blank, template, values,
}
use ambit.Common.Int.{ℤ, pos, leb_ℤ}
use ambit.Records.{Policy, PolicyInput, fields, policy_created, policy_modified}
use ambit.Platform.{Platform}
use ambit.Store.{save}
use ambit.World.{
  World, Action, pure, raise, ◌>>=◌, ◌>>◌, guarded, record_entry, draw_uuid, invalid_policy,
  unknown_policy,
}
use ambit.Token.Access.{policy_get}
use ambit.Token.Issue.{is_nil}

-- `changes`: the fields that are not `undefined`.
pub record PolicyChanges : Type 0 where
  pub name : Option String
  pub allowed_scope : Option (List String)
  pub max_ttl_seconds : Option ℤ

-- `change ?? current`
abbrev pub or_current {ℓ} : {A : Type ℓ} → Option A → A → A
or_current none current = current
or_current (some a) current = a

-- `validate`
unfoldable pub validate : String → List String → ℤ → Action (Unit {0})
unfolding is_nil is_blank
validate name scope ttl =
    if str_eq name "" || is_blank name
    then raise (invalid_policy "name is required")
    else (if is_nil scope
        then raise (invalid_policy "allowedScope must include at least one permission")
        else (if leb_ℤ ttl (pos 0)
            then raise (invalid_policy "maxTtlSeconds must be positive")
            else pure tt))

-- The policy with the changes.
abbrev pub changed : PolicyChanges → ℕ → Policy → Policy
changed c now p = record p {
  name = or_current c.name p.name;
  allowed_scope = or_current c.allowed_scope p.allowed_scope;
  max_ttl_seconds = or_current c.max_ttl_seconds p.max_ttl_seconds;
  updated_at = now;
}

-- `PolicyStore.list`
unfoldable pub policy_list : World → List Policy
policy_list w = values w.policies.items

module _ (pf : Platform) where
  unfoldable pub put_policy : Policy → World → World
  put_policy p w = record w { policies = save p.id p (pf.json_policy p) w.policies }

  -- `PolicyStore.save`
  unfoldable pub policy_save : Policy → Action (Unit {0})
  unfolding put_policy
  policy_save p = guarded pf (λ w. (tt, put_policy p w))

module _ (pf : Platform) (author : String) (now : ℕ) where
  -- `createPolicy`
  unfoldable pub create_policy : PolicyInput → Action Policy
  unfolding validate policy_save draw_uuid record_entry
  create_policy input = do
    validate input.name input.allowed_scope input.max_ttl_seconds
    id ← draw_uuid pf
    let policy : Policy = record {
      id = id;
      name = input.name;
      allowed_scope = input.allowed_scope;
      max_ttl_seconds = input.max_ttl_seconds;
      authored_by = author;
      created_at = now;
      updated_at = now;
    }
    policy_save pf policy
    record_entry pf (record (fields author "create_policy" policy_created) { policy_id = some id })
        now
    pure policy

  unfoldable pub modify_found : String → PolicyChanges → Option Policy → Action Policy
  unfolding validate policy_save record_entry
  modify_found id c none = raise (
      unknown_policy
        (template ("cannot modify policy \"" ∷ id ∷ "\" — no such policy exists" ∷ [])))
  modify_found id c (some existing) = do
    let updated = changed c now existing
    validate updated.name updated.allowed_scope updated.max_ttl_seconds
    policy_save pf updated
    record_entry pf (record (fields author "modify_policy" policy_modified) { policy_id = some id })
        now
    pure updated

  -- `modifyPolicy`
  unfoldable pub modify_policy : String → PolicyChanges → Action Policy
  unfolding policy_get modify_found
  modify_policy id c = policy_get pf id >>= modify_found id c
