-- ===== src/Policies/Sound.antt =====
-- The methods of src/policy.ts leave the audit log of src/auditLog.ts sound.
use ambit.Common.{ℕ, refl, Option, none, some, List, String}
use ambit.Common.Int.{ℤ}
use ambit.Records.{Policy, PolicyInput}
use ambit.Platform.{Platform}
use ambit.World.Sound.{
  IsSound, pure-IsSound, raise-IsSound, bind-IsSound, if-IsSound, guarded-IsSound,
  record_entry-IsSound, draw_uuid-IsSound,
}
use ambit.Token.Sound.{policy_get-IsSound}
use ambit.Policies.{
  PolicyChanges, validate, put_policy, policy_save, create_policy, modify_found, modify_policy,
}

module _ (pf : Platform) where
  validate-IsSound :
      (name : String) (scope : List String) (ttl : ℤ) → IsSound pf (validate name scope ttl)
  unfolding validate
  validate-IsSound name scope ttl = search (pure-IsSound, raise-IsSound, if-IsSound)

  policy_save-IsSound : (p : Policy) → IsSound pf (policy_save pf p)
  unfolding policy_save put_policy
  policy_save-IsSound p = guarded-IsSound pf _ (λ v. refl)

  ruleset sound = (
    pure-IsSound, raise-IsSound, bind-IsSound, if-IsSound, record_entry-IsSound, draw_uuid-IsSound,
    policy_get-IsSound, policy_save-IsSound, validate-IsSound,
  )

  module _ (author : String) (now : ℕ) where
    pub create_policy-IsSound :
        (input : PolicyInput) → IsSound pf (create_policy pf author now input)
    unfolding create_policy
    create_policy-IsSound input = search sound depth 9

    modify_found-IsSound :
        (id : String) (c : PolicyChanges) (found : Option Policy)
        → IsSound pf (modify_found pf author now id c found)
    unfolding modify_found
    modify_found-IsSound id c none = search sound
    modify_found-IsSound id c (some p) = search sound depth 9

    pub modify_policy-IsSound :
        (id : String) (c : PolicyChanges) → IsSound pf (modify_policy pf author now id c)
    unfolding modify_policy
    modify_policy-IsSound id c = search (sound, modify_found-IsSound)
