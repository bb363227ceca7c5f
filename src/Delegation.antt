-- ===== src/Delegation.antt =====
-- `delegateToken` of src/delegation.ts: a token for a subagent, narrower than its parent's. The code
-- awaits the possession check and, inside `issueToken`, the hash of the new secret; `delegate_begin`
-- ends at the second `await`, and `delegate_finish` is what follows it.
pub mod Narrow
pub mod Sound
use ambit.Common.{
  ℕ, Bool, true, false, not, ◌&&◌, Option, none, some, List, [], ◌∷◌, String, ltb, all, any,
  includes, if◌then◌else◌,
}
use ambit.Common.Int.{ℤ}
use ambit.Records.{Token, TokenRequest, IssuedToken, Decision, fields}
use ambit.Platform.{Platform}
use ambit.Password.{verify_password}
use ambit.World.{World, Action, pure, ◌>>=◌, ◌>>◌, try_open, record_entry}
use ambit.Token.Access.{token_get}
use ambit.Token.Issue.{Draft, is_nil, issue_begin, issue_finish}
use ambit.Token.Enforce.{is_active}

pub data DelegationDenialReason : Type 0 where
  parent_invalid empty_scope exceeds_parent_scope not_narrower : DelegationDenialReason
  store_unavailable invalid_credential : DelegationDenialReason

abbrev pub denial_text : DelegationDenialReason → String
denial_text parent_invalid = "parent_invalid"
denial_text empty_scope = "empty_scope"
denial_text exceeds_parent_scope = "exceeds_parent_scope"
denial_text not_narrower = "not_narrower"
denial_text store_unavailable = "store_unavailable"
denial_text invalid_credential = "invalid_credential"

pub data DelegationDecision : Type 0 where
  approved : Token → String → DelegationDecision
  refused : DelegationDenialReason → DelegationDecision

-- The parameters of a call.
pub record Delegation : Type 0 where
  pub parent_id : String
  pub parent_secret : String
  pub child_subject : String
  pub requested_scope : List String
  pub ttl_seconds : ℤ

-- Where the call stands at its second `await`: it has been refused, or it has a draft.
pub data Progress : Type 0 where
  over : DelegationDecision → Progress
  drafted : Draft → Progress

-- The first guard that refuses, in the order of the source, for a parent that was found.
unfoldable pub refusal : Platform → Delegation → ℕ → Token → Option DelegationDenialReason
refusal pf d now parent =
    if verify_password pf d.parent_secret parent.secret_hash
    then (if is_active parent.status && ltb now parent.expires_at
        then (if is_nil d.requested_scope
            then some empty_scope
            else (if all (includes parent.scope) d.requested_scope
                then (if any (λ s. not (includes d.requested_scope s)) parent.scope
                    then none
                    else some not_narrower)
                else some exceeds_parent_scope))
        else some parent_invalid)
    else some invalid_credential

-- The request that is handed to `issueToken`.
abbrev pub child_request : Delegation → TokenRequest
child_request d = record {
  subject = d.child_subject;
  scope = d.requested_scope;
  ttl_seconds = d.ttl_seconds;
  parent_token_id = some d.parent_id;
  policy_id = none;
}

module _ (pf : Platform) (d : Delegation) (now : ℕ) where
  -- `deny`
  unfoldable pub deny : DelegationDenialReason → Action DelegationDecision
  unfolding record_entry
  deny reason = do
    record_entry pf
        (record (fields d.child_subject "delegate" Decision.denied) {
          token_id = some d.parent_id;
          reason_code = some (denial_text reason);
        })
        now
    pure (refused reason)

  unfoldable pub stop : DelegationDenialReason → Action Progress
  unfolding deny
  stop reason = deny reason >>= (λ r. pure (over r))

  -- What follows the first segment of `issueToken`: `none` if the store was unreachable.
  unfoldable pub begun : Option Draft → Action Progress
  unfolding stop
  begun none = stop store_unavailable
  begun (some draft) = pure (drafted draft)

  unfoldable pub start_issue : Option DelegationDenialReason → Action Progress
  unfolding begun issue_begin try_open
  start_issue (some reason) = stop reason
  start_issue none = try_open (issue_begin pf false (child_request d)) >>= begun

  unfoldable pub parent_checked : Option (Option Token) → Action Progress
  unfolding start_issue refusal
  parent_checked none = stop store_unavailable
  parent_checked (some none) = stop parent_invalid
  parent_checked (some (some parent)) = start_issue (refusal pf d now parent)

  unfoldable pub delegate_begin : Action Progress
  unfolding parent_checked token_get
  delegate_begin = try_open (token_get pf d.parent_id) >>= parent_checked

  -- After the save: the audit entry and the answer.
  unfoldable pub issued : Option IssuedToken → Action DelegationDecision
  unfolding deny
  issued none = deny store_unavailable
  issued (some t) = do
    record_entry pf
        (record (fields d.child_subject "delegate" Decision.allowed) { token_id = some t.token.id })
        now
    pure (approved t.token t.secret)

  unfoldable pub delegate_finish : Progress → Action DelegationDecision
  unfolding issued issue_finish
  delegate_finish (over r) = pure r
  delegate_finish (drafted draft) = try_open (issue_finish pf draft) >>= issued

  -- `delegateToken`, with nothing between its segments.
  unfoldable pub delegate_token : Action DelegationDecision
  unfolding delegate_begin delegate_finish
  delegate_token = delegate_begin >>= delegate_finish
