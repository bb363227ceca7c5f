-- ===== src/Agents/Sound.antt =====
-- A registration of src/agentIdentity.ts leaves the audit log of src/auditLog.ts sound.
use ambit.Common.{ℕ, refl, Option, String}
use ambit.Records.{AgentIdentity}
use ambit.Platform.{Platform}
use ambit.World.Sound.{
  IsSound, Extends-same, pure-IsSound, raise-IsSound, bind-IsSound, if-IsSound,
  record_entry-IsSound, draw_uuid-IsSound,
}
use ambit.Token.Sound.{make_secret-IsSound}
use ambit.Agents.{
  IdentityDraft, validate_found, validate, find_by_subject, put_identity, save_identity,
  register_begin, register_finish,
}

module _ (pf : Platform) where
  ruleset sound = (
    pure-IsSound, raise-IsSound, bind-IsSound, if-IsSound, record_entry-IsSound, draw_uuid-IsSound,
    make_secret-IsSound,
  )

  validate_found-IsSound :
      (subject : String) (found : Option AgentIdentity) → IsSound pf (validate_found subject found)
  unfolding validate_found
  validate_found-IsSound subject found = search sound

  validate-IsSound : (subject : String) → IsSound pf (validate subject)
  unfolding validate
  validate-IsSound subject w = validate_found-IsSound subject (find_by_subject subject w) w

  save_identity-IsSound : (i : AgentIdentity) → IsSound pf (save_identity pf i)
  unfolding save_identity put_identity
  save_identity-IsSound i w = Extends-same pf w (put_identity pf i w) refl

  pub register_begin-IsSound : (subject : String) → IsSound pf (register_begin pf subject)
  unfolding register_begin
  register_begin-IsSound subject = search (sound, validate-IsSound) depth 9

  pub register_finish-IsSound :
      (subject created_by : String) (now : ℕ) (d : IdentityDraft)
      → IsSound pf (register_finish pf subject created_by now d)
  unfolding register_finish
  register_finish-IsSound subject created_by now d = search (sound, save_identity-IsSound) depth 9
