-- ===== src/Service/Log.antt =====
-- What any interleaving of calls leaves of the audit log of src/auditLog.ts.
use ambit.Common.{◌≡◌, refl, true, List, ◌++◌, All}
use ambit.Records.{AuditLogEntry}
use ambit.Audit.{verify_audit_chain}
use ambit.Audit.Chain.{verify_audit_chain_iff}
use ambit.Platform.{Platform}
use ambit.World.{World}
use ambit.World.Sound.{HasReason, Extends, Extends-same, Extends-trans}
use ambit.Token.Sound.{
  issue_begin-IsSound, issue_finish-IsSound, enforce_token-IsSound, revoke_token-IsSound,
}
use ambit.Delegation.Sound.{delegate_begin-IsSound, delegate_finish-IsSound}
use ambit.Requests.Sound.{
  request_token-IsSound, approve_begin-IsSound, approve_finish-IsSound, deny_request-IsSound,
  check_request_timeout-IsSound, claim_token_secret-IsSound,
}
use ambit.Policies.Sound.{create_policy-IsSound, modify_policy-IsSound}
use ambit.Agents.Sound.{register_begin-IsSound, register_finish-IsSound}
use ambit.Redaction.Rules.{create_redaction_rule-IsSound}
use ambit.Customers.Access.{access_customer_data-IsSound}
use ambit.Endpoints.Attempts.{access_mock_endpoint-IsSound}
use ambit.Service.{
  Step, issue_starts, issue_ends, enforces, revokes, delegation_starts, delegation_ends, requests,
  approval_starts, approval_ends, denies, times_out, claims, creates_policy, modifies_policy,
  registration_starts, registration_ends, creates_rule, reads_customer, calls_endpoint, Steps, here,
  next,
}

module _ (pf : Platform) where
  Step-Extends : {v w : World} → Step pf v w → Extends pf v w
  Step-Extends (issue_starts b r w) = issue_begin-IsSound pf b r w
  Step-Extends (issue_ends d w) = issue_finish-IsSound pf d w
  Step-Extends (enforces id secret action now w) = enforce_token-IsSound pf id secret action now w
  Step-Extends (revokes now actor id reason w) = revoke_token-IsSound pf now actor id reason w
  Step-Extends (delegation_starts d now w) = delegate_begin-IsSound pf d now w
  Step-Extends (delegation_ends d now p w) = delegate_finish-IsSound pf d now p w
  Step-Extends (requests approver now s w) = request_token-IsSound pf approver now s w
  Step-Extends (approval_starts id approver now b policy w) =
      approve_begin-IsSound pf id approver now b policy w
  Step-Extends (approval_ends id approver now policy r d w) =
      approve_finish-IsSound pf id approver now policy r d w
  Step-Extends (denies id approver now reason w) = deny_request-IsSound pf id approver now reason w
  Step-Extends (times_out id window now backup w) =
      check_request_timeout-IsSound pf id window now backup w
  Step-Extends (claims id subject now w) = claim_token_secret-IsSound pf id subject now w
  Step-Extends (creates_policy author now input w) = create_policy-IsSound pf author now input w
  Step-Extends (modifies_policy author now id c w) = modify_policy-IsSound pf author now id c w
  Step-Extends (registration_starts subject w) = register_begin-IsSound pf subject w
  Step-Extends (registration_ends subject by now d w) =
      register_finish-IsSound pf subject by now d w
  Step-Extends (creates_rule input author now w) =
      create_redaction_rule-IsSound pf input author now w
  Step-Extends (reads_customer token_id now customers secret customer_id rule_id w) =
      access_customer_data-IsSound pf token_id now customers secret customer_id rule_id w
  Step-Extends (calls_endpoint token_id now system verb env most secret w) =
      access_mock_endpoint-IsSound pf token_id now system verb env most secret w

Steps-Extends : (pf : Platform) (v w : World) → Steps pf v w → Extends pf v w
Steps-Extends pf v w here = Extends-same pf v v refl
Steps-Extends pf v w (next {v = u} steps step) =
    Extends-trans pf v u w (Steps-Extends pf v u steps) (Step-Extends pf step)

-- From a world whose log verifies, whatever calls run, in whatever interleaving of their segments,
-- and whether they return or throw: the log has only grown, at its end, by entries that are no denials
-- or give a reason that is not blank, and it verifies.
pub Steps-log :
    (pf : Platform) (v w : World)
    → Steps pf v w
    → (verify_audit_chain pf v.audit.entries).valid ≡ true
    → (more : List AuditLogEntry) × (w.audit.entries ≡ v.audit.entries ++ more)
      × All HasReason more
      × ((verify_audit_chain pf w.audit.entries).valid ≡ true)
Steps-log pf v w steps h =
    let e = Steps-Extends pf v w steps in
    (
      e.more,
      e.appended,
      e.reasoned,
      (verify_audit_chain_iff pf w.audit.entries).1
          (e.chained ((verify_audit_chain_iff pf v.audit.entries).0 h)),
    )
