-- ===== src/Token/Lineage.antt =====
-- `getTokenLineage` of src/token.ts: a token's chain of parents, root first, and the approval that the
-- root stems from.
use ambit.Common.{
  ℕ, zero, suc, Bool, true, false, ◌&&◌, Option, none, some, List, [], ◌∷◌, String, find, given,
  if◌then◌else◌, is_some_eq, template, length,
}
use ambit.Records.{Token, AuditLogEntry, Decision, request_approved}
use ambit.Platform.{Platform}
use ambit.World.{Action, pure, raise, ◌>>=◌, gets, unknown_token}
use ambit.Token.Access.{token_get}
use ambit.Token.Issue.{text_or_empty}

pub record TokenLineageOrigin : Type 0 where
  pub request_id : Option String
  pub policy_id : Option String
  pub approver : Option String

pub record TokenLineage : Type 0 where
  pub chain : List Token
  pub origin : Option TokenLineageOrigin

abbrev is_request_approved : Decision → Bool
is_request_approved request_approved = true
is_request_approved _ = false

-- The entry that approved the token `id`.
unfoldable pub origin_entry : String → List AuditLogEntry → Option AuditLogEntry
origin_entry id = find (λ e.
    is_some_eq e.covered.content.token_id id && is_request_approved e.covered.content.decision)

unfoldable pub origin_of : Option AuditLogEntry → Option TokenLineageOrigin
origin_of none = none
origin_of (some e) = some (record {
  request_id = e.covered.content.request_id;
  policy_id = e.covered.content.policy_id;
  approver = e.covered.content.actor;
})

module _ (pf : Platform) where
  -- The `while` loop from `current` on, on fuel: `none` if it still runs when the fuel is used up.
  -- The last token that it reaches is the root.
  unfoldable pub climb : ℕ → Token → List Token → Action (Option (Token × List Token))
  climb zero current chain = pure none
  climb (suc fuel) current chain =
      if given current.parent_token_id
      then token_get pf (text_or_empty current.parent_token_id) >>= (λ (found : Option Token).
        elim found [
          | none ↦ pure (some (current, chain))
          | some parent ↦ climb fuel parent (parent ∷ chain)
        ])
      else pure (some (current, chain))

  unfoldable pub lineage_of : Option (Token × List Token) → Action (Option TokenLineage)
  unfolding origin_entry origin_of
  lineage_of none = pure none
  lineage_of (some (root, chain)) = gets (λ w.
      some (record { chain = chain; origin = origin_of (origin_entry root.id w.audit.entries) }))

  unfoldable pub lineage_found : String → Option Token → Action (Option TokenLineage)
  unfolding climb lineage_of
  lineage_found id none = raise (unknown_token (template ("no such token \"" ∷ id ∷ "\"" ∷ [])))
  lineage_found id (some target) =
      λ w. (climb (suc (length w.tokens.items)) target (target ∷ []) >>= lineage_of) w

  -- `getTokenLineage`, with fuel for one more token than are stored.
  unfoldable pub get_token_lineage : String → Action (Option TokenLineage)
  unfolding lineage_found token_get
  get_token_lineage id = token_get pf id >>= lineage_found id
