-- ===== src/Service.antt =====
-- The program as a whole: its state, and the steps by which the calls that the routes of
-- src/server.ts make change it. A call that awaits the hash of a new secret is two steps, so a
-- sequence of steps is an interleaving of any number of calls; the check of a presented secret, which
-- is awaited too, is taken as one with the step it stands in, and so are the attempts of a call of a
-- mock endpoint.
pub mod Log
use ambit.Common.{ℕ, Bool, Option, String, Dict}
use ambit.Records.{PendingRequest, TokenRequest, RevocationReason, PolicyInput, RedactionRuleInput}
use ambit.Platform.{Platform}
use ambit.World.{World}
use ambit.Token.Issue.{Draft, issue_begin, issue_finish}
use ambit.Token.Enforce.{enforce_token}
use ambit.Token.Revoke.{revoke_token}
use ambit.Delegation.{Delegation, Progress, delegate_begin, delegate_finish}
use ambit.Requests.Submit.{Submission, request_token}
use ambit.Requests.Decide.{
  DenialReason, approve_begin, approve_finish, deny_request, check_request_timeout,
}
use ambit.Requests.Claim.{claim_token_secret}
use ambit.Agents.{IdentityDraft, register_begin, register_finish}
use ambit.Redaction.{create_redaction_rule}
use ambit.Customers.{CustomerRecord, access_customer_data}
use ambit.Endpoints.{MockSystem, Surroundings, access_mock_endpoint}
use ambit.Policies.{PolicyChanges, create_policy, modify_policy}

pub data Step (pf : Platform) : World → World → Type 0 where
  issue_starts : (b : Bool) (r : TokenRequest) (w : World) → Step pf w (issue_begin pf b r w).1
  issue_ends : (d : Draft) (w : World) → Step pf w (issue_finish pf d w).1
  enforces :
      (id secret action : String) (now : ℕ) (w : World)
      → Step pf w (enforce_token pf id secret action now w).1
  revokes :
      (now : ℕ) (actor : Option String) (id : String) (reason : RevocationReason) (w : World)
      → Step pf w (revoke_token pf now actor id reason w).1
  delegation_starts :
      (d : Delegation) (now : ℕ) (w : World) → Step pf w (delegate_begin pf d now w).1
  delegation_ends :
      (d : Delegation) (now : ℕ) (p : Progress) (w : World)
      → Step pf w (delegate_finish pf d now p w).1
  requests :
      (approver : Option String) (now : ℕ) (s : Submission) (w : World)
      → Step pf w (request_token pf approver now s w).1
  approval_starts :
      (id approver : String) (now : ℕ) (b : Bool) (policy : Option String) (w : World)
      → Step pf w (approve_begin pf id approver now b policy w).1
  approval_ends :
      (id approver : String) (now : ℕ) (policy : Option String) (r : PendingRequest) (d : Draft)
      (w : World)
      → Step pf w (approve_finish pf id approver now policy r d w).1
  denies :
      (id approver : String) (now : ℕ) (reason : DenialReason) (w : World)
      → Step pf w (deny_request pf id approver now reason w).1
  times_out :
      (id : String) (window now : ℕ) (backup : Option String) (w : World)
      → Step pf w (check_request_timeout pf id window now backup w).1
  claims :
      (id subject : String) (now : ℕ) (w : World)
      → Step pf w (claim_token_secret pf id subject now w).1
  creates_policy :
      (author : String) (now : ℕ) (input : PolicyInput) (w : World)
      → Step pf w (create_policy pf author now input w).1
  modifies_policy :
      (author : String) (now : ℕ) (id : String) (c : PolicyChanges) (w : World)
      → Step pf w (modify_policy pf author now id c w).1
  registration_starts : (subject : String) (w : World) → Step pf w (register_begin pf subject w).1
  registration_ends :
      (subject created_by : String) (now : ℕ) (d : IdentityDraft) (w : World)
      → Step pf w (register_finish pf subject created_by now d w).1
  creates_rule :
      (input : RedactionRuleInput) (author : String) (now : ℕ) (w : World)
      → Step pf w (create_redaction_rule pf input author now w).1
  reads_customer :
      (token_id : String) (now : ℕ) (customers : Dict CustomerRecord)
      (secret customer_id rule_id : String) (w : World)
      → Step pf w (access_customer_data pf token_id now customers secret customer_id rule_id w).1
  calls_endpoint :
      (token_id : String) (now : ℕ) (system : MockSystem) (verb : String) (env : Surroundings)
      (most : Option ℕ) (secret : String) (w : World)
      → Step pf w (access_mock_endpoint pf token_id now system verb env most secret w).1

pub data Steps (pf : Platform) (start : World) : World → Type 0 where
  here : Steps pf start start
  next : {v w : World} → Steps pf start v → Step pf v w → Steps pf start w
