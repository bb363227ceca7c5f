-- ===== src/Delegation/Sound.antt =====
-- `delegateToken` of src/delegation.ts leaves the audit log of src/auditLog.ts sound.
use ambit.Common.{ℕ, Option, none, some}
use ambit.Records.{Token, IssuedToken}
use ambit.Platform.{Platform}
use ambit.World.Sound.{IsSound, pure-IsSound, bind-IsSound, try_open-IsSound, record_entry-IsSound}
use ambit.Token.Issue.{Draft}
use ambit.Token.Sound.{token_get-IsSound, issue_begin-IsSound, issue_finish-IsSound}
use ambit.Delegation.{
  Delegation, DelegationDenialReason, Progress, over, drafted, deny, stop, begun, start_issue,
  parent_checked, delegate_begin, issued, delegate_finish, delegate_token,
}

module _ (pf : Platform) (d : Delegation) (now : ℕ) where
  ruleset sound = (
    pure-IsSound, bind-IsSound, try_open-IsSound, record_entry-IsSound, token_get-IsSound,
    issue_begin-IsSound, issue_finish-IsSound,
  )

  deny-IsSound : (r : DelegationDenialReason) → IsSound pf (deny pf d now r)
  unfolding deny
  deny-IsSound r = search sound

  stop-IsSound : (r : DelegationDenialReason) → IsSound pf (stop pf d now r)
  unfolding stop
  stop-IsSound r = search (sound, deny-IsSound)

  begun-IsSound : (o : Option Draft) → IsSound pf (begun pf d now o)
  unfolding begun
  begun-IsSound none = search stop-IsSound
  begun-IsSound (some draft) = search sound

  start_issue-IsSound : (o : Option DelegationDenialReason) → IsSound pf (start_issue pf d now o)
  unfolding start_issue
  start_issue-IsSound (some r) = search stop-IsSound
  start_issue-IsSound none = search (sound, begun-IsSound)

  parent_checked-IsSound : (o : Option (Option Token)) → IsSound pf (parent_checked pf d now o)
  unfolding parent_checked
  parent_checked-IsSound none = search stop-IsSound
  parent_checked-IsSound (some none) = search stop-IsSound
  parent_checked-IsSound (some (some t)) = search start_issue-IsSound

  pub delegate_begin-IsSound : IsSound pf (delegate_begin pf d now)
  unfolding delegate_begin
  delegate_begin-IsSound = search (sound, parent_checked-IsSound)

  issued-IsSound : (o : Option IssuedToken) → IsSound pf (issued pf d now o)
  unfolding issued
  issued-IsSound none = search deny-IsSound
  issued-IsSound (some t) = search sound

  pub delegate_finish-IsSound : (p : Progress) → IsSound pf (delegate_finish pf d now p)
  unfolding delegate_finish
  delegate_finish-IsSound (over r) = search sound
  delegate_finish-IsSound (drafted draft) = search (sound, issued-IsSound)

  pub delegate_token-IsSound : IsSound pf (delegate_token pf d now)
  unfolding delegate_token
  delegate_token-IsSound = search (sound, delegate_begin-IsSound, delegate_finish-IsSound)
