-- ===== src/Requests/Decide.antt =====
-- `approveRequest`, `denyRequest` and `checkRequestTimeout` of src/tokenRequest.ts. An approval has
-- two segments, before and after the `await` inside `issueToken`.
use ambit.Common.{
  ℕ, ◌+◌, Bool, true, false, Option, none, some, [], ◌∷◌, String, given, if◌then◌else◌, ltb,
  template, is_some_eq,
}
use ambit.Records.{
  PendingRequest, RequestStatus, Token, TokenRequest, fields, request_approved, request_denied,
  request_escalated, request_decision_rejected,
}
use ambit.Platform.{Platform}
use ambit.World.{
  Action, Error, ok, throw, pure, raise, ◌>>=◌, ◌>>◌, record_entry, error_message,
  unauthorized_decider,
}
use ambit.Token.Issue.{Draft, issue_begin, issue_finish, text_or_empty}
use ambit.Requests.{get_pending, get_request, is_pending, save_request}

pub data DenialReason : Type 0 where
  scope_too_broad policy_violation unverified_subject duplicate_request other : DenialReason

abbrev pub denial_text : DenialReason → String
denial_text scope_too_broad = "scope_too_broad"
denial_text DenialReason.policy_violation = "policy_violation"
denial_text unverified_subject = "unverified_subject"
denial_text duplicate_request = "duplicate_request"
denial_text other = "other"

-- Whether the approver may decide: nobody is assigned, or the approver is.
abbrev pub may_decide : Option String → String → Bool
may_decide none approver = true
may_decide (some assigned) approver = is_some_eq (some assigned) approver

-- The errors of `issueToken` that `approveRequest` records before it throws them on.
abbrev pub is_recorded : Error → Bool
is_recorded (Error.policy_violation m) = true
is_recorded (Error.invalid_scope m) = true
is_recorded (Error.circuit_open m) = true
is_recorded _ = false

-- The request that an approval hands to `issueToken`: the approver's policy, and no parent.
abbrev pub approved_request : PendingRequest → Option String → TokenRequest
approved_request r policy = record {
  subject = r.subject;
  scope = r.scope;
  ttl_seconds = r.ttl_seconds;
  parent_token_id = none;
  policy_id = policy;
}

module _ (pf : Platform) (id approver : String) (now : ℕ) where
  -- `assertEligibleDecider`
  unfoldable pub assert_eligible_decider : PendingRequest → String → Action (Unit {0})
  unfolding record_entry
  assert_eligible_decider r action =
      if may_decide r.assigned_approver approver
      then pure tt
      else (record_entry pf
            (record (fields r.subject action request_decision_rejected) {
              request_id = some r.id;
              actor = some approver;
              reason_code = some "not_assigned_approver";
            })
            now
          >> raise (
              unauthorized_decider (
                template (
                  "\""
                  ∷ approver
                  ∷ "\" is not the assigned approver for request \""
                  ∷ r.id
                  ∷ "\" (\""
                  ∷ text_or_empty r.assigned_approver
                  ∷ "\" is)"
                  ∷ []))))

  -- The body of the `catch`.
  unfoldable pub record_failure {ℓ} : (A : Type ℓ) → PendingRequest → Error → Action A
  unfolding record_entry
  record_failure A r e =
      if is_recorded e
      then (record_entry pf
            (record (fields r.subject "approve_request" request_denied) {
              request_id = some id;
              actor = some approver;
              reason_code = some (error_message e);
            })
            now
          >> raise e)
      else raise e

  -- `try { … } catch (err) { … }` around the call of `issueToken`.
  unfoldable pub recording_failure {ℓ} : {A : Type ℓ} → PendingRequest → Action A → Action A
  unfolding record_failure
  recording_failure {A} r m w =
      let (result, w') = m w in
      elim result [ ok a ↦ (ok a, w') | throw e ↦ record_failure A r e w' ]

  -- Up to the `await`: the pending request and the draft of its token.
  unfoldable pub approve_begin : Bool → Option String → Action (PendingRequest × Draft)
  unfolding get_pending assert_eligible_decider recording_failure issue_begin
  approve_begin has_store policy = do
    r ← get_pending id "approve"
    assert_eligible_decider r "approve_request"
    draft ← recording_failure r (issue_begin pf has_store (approved_request r policy))
    pure (r, draft)

  -- After it: the save of the snapshot that the first segment took, approved.
  unfoldable pub approve_finish : Option String → PendingRequest → Draft → Action Token
  unfolding recording_failure issue_finish save_request record_entry
  approve_finish policy r draft = do
    issued ← recording_failure r (issue_finish pf draft)
    save_request pf (record r {
      status = RequestStatus.approved;
      token_id = some issued.token.id;
      token_secret = some issued.secret;
    })
    record_entry pf
        (record (fields r.subject "approve_request" request_approved) {
          request_id = some id;
          token_id = some issued.token.id;
          policy_id = policy;
          actor = some approver;
        })
        now
    pure issued.token

  -- `approveRequest`, with nothing between its segments.
  unfoldable pub approve_request : Bool → Option String → Action Token
  unfolding approve_begin approve_finish
  approve_request has_store policy =
      approve_begin has_store policy >>= (λ p. approve_finish policy p.0 p.1)

  -- `denyRequest`
  unfoldable pub deny_request : DenialReason → Action (Unit {0})
  unfolding get_pending assert_eligible_decider save_request record_entry
  deny_request reason = do
    r ← get_pending id "deny"
    assert_eligible_decider r "deny_request"
    save_request pf (record r { status = RequestStatus.denied })
    record_entry pf
        (record (fields r.subject "deny_request" request_denied) {
          request_id = some id;
          actor = some approver;
          reason_code = some (denial_text reason);
        })
        now

module _ (pf : Platform) (id : String) (window : ℕ) (now : ℕ) where
  unfoldable pub escalate : String → PendingRequest → Action (Unit {0})
  unfolding save_request record_entry
  escalate backup r = do
    save_request pf (record r { assigned_approver = some backup })
    record_entry pf
        (record (fields r.subject "escalate_request" request_escalated) {
          request_id = some r.id;
          reason_code = some "decision_window_expired";
        })
        now

  -- Whether the request has waited for its window: `now - requestedAt < decisionWindowMs` returns.
  unfoldable pub is_due : String → PendingRequest → Bool
  is_due backup r =
      if is_pending r.status
      then (if is_some_eq r.assigned_approver backup
          then false
          else (if ltb now (r.requested_at + window) then false else true))
      else false

  unfoldable pub escalate_if_due : String → Option PendingRequest → Action (Unit {0})
  unfolding escalate is_due
  escalate_if_due backup none = pure tt
  escalate_if_due backup (some r) = if is_due backup r then escalate backup r else pure tt

  -- `checkRequestTimeout`
  unfoldable pub check_request_timeout : Option String → Action (Unit {0})
  unfolding escalate_if_due get_request
  check_request_timeout backup =
      if given backup then get_request id >>= escalate_if_due (text_or_empty backup) else pure tt
