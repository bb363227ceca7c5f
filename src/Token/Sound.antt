-- ===== src/Token/Sound.antt =====
-- The methods of src/token.ts leave the audit log of src/auditLog.ts sound.
use ambit.Common.{ℕ, zero, suc, refl, Bool, Option, none, some, List, [], ◌∷◌, String, length}
use ambit.Records.{Token, TokenRequest, Policy, RevocationReason}
use ambit.Platform.{Platform}
use ambit.World.{Action, World}
use ambit.World.Sound.{
  IsSound, pure-IsSound, raise-IsSound, bind-IsSound, try_open-IsSound, if-IsSound, guarded-IsSound,
  record_entry-IsSound, read_clock-IsSound, draw_uuid-IsSound, draw_bytes-IsSound, Extends-same,
}
use ambit.Token.Access.{token_get, token_save, policy_get, put_token, children_of}
use ambit.Token.Issue.{
  Draft, check_request, check_within, check_found, check_policy, capped, make_secret, issue_begin,
  issue_finish, issue_token,
}
use ambit.Token.Enforce.{DenyCode, log_denial, enforce_found, enforce_lookup, enforce_token}
use ambit.Token.Revoke.{
  revoke_child, revoke_each, cascade_revoke, revoke_found, revoke_if_found, revoke_token,
}

module _ (pf : Platform) where
  pub token_get-IsSound : (id : String) → IsSound pf (token_get pf id)
  unfolding token_get
  token_get-IsSound id = guarded-IsSound pf _ (λ v. refl)

  pub token_save-IsSound : (t : Token) → IsSound pf (token_save pf t)
  unfolding token_save put_token
  token_save-IsSound t = guarded-IsSound pf _ (λ v. refl)

  pub policy_get-IsSound : (id : String) → IsSound pf (policy_get pf id)
  unfolding policy_get
  policy_get-IsSound id = guarded-IsSound pf _ (λ v. refl)

  ruleset sound = (
    pure-IsSound, raise-IsSound, bind-IsSound, try_open-IsSound, if-IsSound, record_entry-IsSound,
    read_clock-IsSound, draw_uuid-IsSound, draw_bytes-IsSound, token_get-IsSound,
    token_save-IsSound, policy_get-IsSound,
  )

  log_denial-IsSound :
      (id subject action : String) (c : DenyCode) (m : String) (now : ℕ)
      → IsSound pf (log_denial pf id subject action c m now)
  unfolding log_denial
  log_denial-IsSound id s a c m now = search sound

  enforce_found-IsSound :
      (id secret action : String) (now : ℕ) (t : Token)
      → IsSound pf (enforce_found pf id secret action now t)
  unfolding enforce_found
  enforce_found-IsSound id secret action now t = search (sound, log_denial-IsSound)

  enforce_lookup-IsSound :
      (id secret action : String) (now : ℕ) (found : Option (Option Token))
      → IsSound pf (enforce_lookup pf id secret action now found)
  unfolding enforce_lookup
  enforce_lookup-IsSound id secret action now none = search log_denial-IsSound
  enforce_lookup-IsSound id secret action now (some none) = search log_denial-IsSound
  enforce_lookup-IsSound id secret action now (some (some t)) = search enforce_found-IsSound

  pub enforce_token-IsSound :
      (id secret action : String) (now : ℕ) → IsSound pf (enforce_token pf id secret action now)
  unfolding enforce_token
  enforce_token-IsSound id secret action now = search (sound, enforce_lookup-IsSound)

  check_request-IsSound : (r : TokenRequest) → IsSound pf (check_request pf r)
  unfolding check_request
  check_request-IsSound r = search sound

  check_found-IsSound : (r : TokenRequest) (p : Option Policy) → IsSound pf (check_found pf r p)
  unfolding check_found check_within
  check_found-IsSound r none = search sound
  check_found-IsSound r (some p) = search sound

  check_policy-IsSound : (b : Bool) (r : TokenRequest) → IsSound pf (check_policy pf b r)
  unfolding check_policy
  check_policy-IsSound b r = search (sound, check_found-IsSound)

  capped-IsSound : (parent : Option String) (expires : ℕ) → IsSound pf (capped pf parent expires)
  unfolding capped
  capped-IsSound parent expires = search sound

  pub make_secret-IsSound : IsSound pf (make_secret pf)
  unfolding make_secret
  make_secret-IsSound = search sound

  pub issue_begin-IsSound : (b : Bool) (r : TokenRequest) → IsSound pf (issue_begin pf b r)
  unfolding issue_begin
  issue_begin-IsSound b r =
      search
        (sound, check_request-IsSound, check_policy-IsSound, capped-IsSound, make_secret-IsSound)
        depth 9

  pub issue_finish-IsSound : (d : Draft) → IsSound pf (issue_finish pf d)
  unfolding issue_finish
  issue_finish-IsSound d = search sound

  pub issue_token-IsSound : (b : Bool) (r : TokenRequest) → IsSound pf (issue_token pf b r)
  unfolding issue_token
  issue_token-IsSound b r = search (sound, issue_begin-IsSound, issue_finish-IsSound)

  module _ (now : ℕ) (actor : Option String) where
    revoke_child-IsSound : (c : Token) → IsSound pf (revoke_child pf now actor c)
    unfolding revoke_child
    revoke_child-IsSound c = search sound

    revoke_each-IsSound :
        (recur : String → Action (Unit {0})) (cs : List Token)
        → ((id : String) → IsSound pf (recur id))
        → IsSound pf (revoke_each pf now actor recur cs)
    unfolding revoke_each
    revoke_each-IsSound recur [] h = search sound
    revoke_each-IsSound recur (c ∷ cs) h =
        let ih = revoke_each-IsSound recur cs h in search (sound, revoke_child-IsSound, ih, h)

    pub cascade_revoke-IsSound :
        (depth : ℕ) (id : String) → IsSound pf (cascade_revoke pf now actor depth id)
    unfolding cascade_revoke
    cascade_revoke-IsSound zero id w = Extends-same pf w w refl
    cascade_revoke-IsSound (suc depth) id w =
        revoke_each-IsSound (cascade_revoke pf now actor depth) (children_of id w)
          (cascade_revoke-IsSound depth) w

    revoke_found-IsSound :
        (id : String) (reason : RevocationReason) (t : Token)
        → IsSound pf (revoke_found pf now actor id reason t)
    unfolding revoke_found
    revoke_found-IsSound id reason t =
        search (sound, λ (w : World). cascade_revoke-IsSound (suc (length w.tokens.items)) id w)

    revoke_if_found-IsSound :
        (id : String) (reason : RevocationReason) (found : Option Token)
        → IsSound pf (revoke_if_found pf now actor id reason found)
    unfolding revoke_if_found
    revoke_if_found-IsSound id reason none = search sound
    revoke_if_found-IsSound id reason (some t) = revoke_found-IsSound id reason t

    pub revoke_token-IsSound :
        (id : String) (reason : RevocationReason) → IsSound pf (revoke_token pf now actor id reason)
    unfolding revoke_token
    revoke_token-IsSound id reason = search (sound, revoke_if_found-IsSound)
