-- ===== src/Requests/Sound.antt =====
-- The methods of src/tokenRequest.ts leave the audit log of src/auditLog.ts sound.
use ambit.Common.{ℕ, refl, Bool, Option, none, some, List, String}
use ambit.Records.{PendingRequest}
use ambit.Platform.{Platform}
use ambit.Anomaly.{AnomalyResult}
use ambit.World.{Action, World, Result, Error, ok, throw}
use ambit.World.Sound.{
  IsSound, Extends, Extends-same, Extends-trans, pure-IsSound, raise-IsSound, bind-IsSound,
  if-IsSound, record_entry-IsSound, draw_uuid-IsSound,
}
use ambit.Token.Issue.{Draft}
use ambit.Token.Sound.{issue_begin-IsSound, issue_finish-IsSound}
use ambit.Requests.{get_request, require_pending, get_pending, put_request, save_request}
use ambit.Requests.Submit.{
  Submission, check_anomaly, report_anomaly, submit_new, submit_or_reuse, request_token,
  find_existing,
}
use ambit.Requests.Decide.{
  DenialReason, assert_eligible_decider, record_failure, recording_failure, approve_begin,
  approve_finish, approve_request, deny_request, escalate, escalate_if_due, check_request_timeout,
}
use ambit.Requests.Claim.{reject_subject, hand_over, claim_found, claim_token_secret}

module _ (pf : Platform) where
  get_request-IsSound : (id : String) → IsSound pf (get_request id)
  unfolding get_request
  get_request-IsSound id w = Extends-same pf w w refl

  save_request-IsSound : (r : PendingRequest) → IsSound pf (save_request pf r)
  unfolding save_request put_request
  save_request-IsSound r w = Extends-same pf w (put_request pf r w) refl

  ruleset sound = (
    pure-IsSound, raise-IsSound, bind-IsSound, if-IsSound, record_entry-IsSound, draw_uuid-IsSound,
    get_request-IsSound, save_request-IsSound,
  )

  require_pending-IsSound :
      (id verb : String) (found : Option PendingRequest)
      → IsSound pf (require_pending id verb found)
  unfolding require_pending
  require_pending-IsSound id verb none = search sound
  require_pending-IsSound id verb (some r) = search sound

  get_pending-IsSound : (id verb : String) → IsSound pf (get_pending id verb)
  unfolding get_pending
  get_pending-IsSound id verb = search (sound, require_pending-IsSound)

  check_anomaly-IsSound :
      (subject : String) (scope : List String) (now : ℕ)
      → IsSound pf (check_anomaly subject scope now)
  unfolding check_anomaly
  check_anomaly-IsSound subject scope now w =
      Extends-same pf w (check_anomaly subject scope now w).1 refl

  module _ (approver : Option String) (now : ℕ) where
    report_anomaly-IsSound :
        (r : PendingRequest) (a : AnomalyResult) → IsSound pf (report_anomaly pf approver now r a)
    unfolding report_anomaly
    report_anomaly-IsSound r a = search sound

    submit_new-IsSound : (s : Submission) → IsSound pf (submit_new pf approver now s)
    unfolding submit_new
    submit_new-IsSound s = search (sound, check_anomaly-IsSound, report_anomaly-IsSound) depth 9

    submit_or_reuse-IsSound :
        (s : Submission) (found : Option PendingRequest)
        → IsSound pf (submit_or_reuse pf approver now s found)
    unfolding submit_or_reuse
    submit_or_reuse-IsSound s none = submit_new-IsSound s
    submit_or_reuse-IsSound s (some r) = search sound

    pub request_token-IsSound : (s : Submission) → IsSound pf (request_token pf approver now s)
    unfolding request_token
    request_token-IsSound s w = submit_or_reuse-IsSound s (find_existing s w) w

  module _ (id approver : String) (now : ℕ) where
    assert_eligible_decider-IsSound :
        (r : PendingRequest) (action : String)
        → IsSound pf (assert_eligible_decider pf id approver now r action)
    unfolding assert_eligible_decider
    assert_eligible_decider-IsSound r action = search sound

    record_failure-IsSound {ℓ} :
        (A : Type ℓ) (r : PendingRequest) (e : Error)
        → IsSound pf (record_failure pf id approver now A r e)
    unfolding record_failure
    record_failure-IsSound A r e = search sound

    recording_failure-IsSound {ℓ} :
        {A : Type ℓ} (r : PendingRequest) (m : Action A)
        → IsSound pf m
        → IsSound pf (recording_failure pf id approver now r m)
    unfolding recording_failure
    recording_failure-IsSound {A} r m h w = go (m w).0 (m w).1 (h w)
      where
        go :
            (result : Result A) (w' : World)
            → Extends pf w w'
            → Extends pf w
                (elim result as (λ _. Result A × World) [
                  | ok a ↦ (ok a, w')
                  | throw e ↦ record_failure pf id approver now A r e w'
                ]).1
        go (ok a) w' k = k
        go (throw e) w' k =
            Extends-trans pf w w' (record_failure pf id approver now A r e w').1 k
              (record_failure-IsSound A r e w')

    pub approve_begin-IsSound :
        (b : Bool) (policy : Option String) → IsSound pf (approve_begin pf id approver now b policy)
    unfolding approve_begin
    approve_begin-IsSound b policy =
        search
          (
            sound, get_pending-IsSound, assert_eligible_decider-IsSound, recording_failure-IsSound,
            issue_begin-IsSound,
          )
          depth 9

    pub approve_finish-IsSound :
        (policy : Option String) (r : PendingRequest) (d : Draft)
        → IsSound pf (approve_finish pf id approver now policy r d)
    unfolding approve_finish
    approve_finish-IsSound policy r d =
        search (sound, recording_failure-IsSound, issue_finish-IsSound) depth 9

    pub approve_request-IsSound :
        (b : Bool) (policy : Option String)
        → IsSound pf (approve_request pf id approver now b policy)
    unfolding approve_request
    approve_request-IsSound b policy = search (sound, approve_begin-IsSound, approve_finish-IsSound)

    pub deny_request-IsSound :
        (reason : DenialReason) → IsSound pf (deny_request pf id approver now reason)
    unfolding deny_request
    deny_request-IsSound reason =
        search (sound, get_pending-IsSound, assert_eligible_decider-IsSound) depth 9

  module _ (id : String) (window now : ℕ) where
    escalate-IsSound :
        (backup : String) (r : PendingRequest) → IsSound pf (escalate pf id window now backup r)
    unfolding escalate
    escalate-IsSound backup r = search sound

    escalate_if_due-IsSound :
        (backup : String) (found : Option PendingRequest)
        → IsSound pf (escalate_if_due pf id window now backup found)
    unfolding escalate_if_due
    escalate_if_due-IsSound backup none = search sound
    escalate_if_due-IsSound backup (some r) = search (sound, escalate-IsSound)

    pub check_request_timeout-IsSound :
        (backup : Option String) → IsSound pf (check_request_timeout pf id window now backup)
    unfolding check_request_timeout
    check_request_timeout-IsSound backup = search (sound, escalate_if_due-IsSound)

  module _ (id subject : String) (now : ℕ) where
    reject_subject-IsSound : (r : PendingRequest) → IsSound pf (reject_subject pf id subject now r)
    unfolding reject_subject
    reject_subject-IsSound r = search sound

    hand_over-IsSound : (r : PendingRequest) → IsSound pf (hand_over pf id subject now r)
    unfolding hand_over
    hand_over-IsSound r = search sound

    claim_found-IsSound :
        (found : Option PendingRequest) → IsSound pf (claim_found pf id subject now found)
    unfolding claim_found
    claim_found-IsSound none = search sound
    claim_found-IsSound (some r) = search (sound, reject_subject-IsSound, hand_over-IsSound)

    pub claim_token_secret-IsSound : IsSound pf (claim_token_secret pf id subject now)
    unfolding claim_token_secret
    claim_token_secret-IsSound = search (sound, claim_found-IsSound)
