-- ===== src/Token/Access.antt =====
-- The token store of src/tokenStore.ts, and the reads of the policy store of src/policy.ts, behind
-- their shared circuit breaker.
pub mod Reads
use ambit.Common.{Option, List, String, filter, values, is_some_eq}
use ambit.Records.{Token, Policy}
use ambit.Platform.{Platform}
use ambit.Store.{Store, save, get}
use ambit.World.{World, Action, guarded}

module _ (pf : Platform) where
  -- The world after the two writes of `save`, in memory and to the file.
  unfoldable pub put_token : Token → World → World
  put_token token w = record w { tokens = save token.id token (pf.json_token token) w.tokens }

  -- `TokenStore.save`
  unfoldable pub token_save : Token → Action (Unit {0})
  token_save token = guarded pf (λ w. (tt, put_token token w))

  -- `TokenStore.get`
  unfoldable pub token_get : String → Action (Option Token)
  token_get id = guarded pf (λ w. (get id w.tokens, w))

  -- `PolicyStore.get`
  unfoldable pub policy_get : String → Action (Option Policy)
  policy_get id = guarded pf (λ w. (get id w.policies, w))

-- `childrenOf`: direct children, not through the breaker.
unfoldable pub children_of : String → World → List Token
children_of parent w = filter (λ t. is_some_eq t.parent_token_id parent) (values w.tokens.items)

-- `TokenStore.list`
unfoldable pub token_list : World → List Token
token_list w = values w.tokens.items
