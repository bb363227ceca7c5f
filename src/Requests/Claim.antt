-- ===== src/Requests/Claim.antt =====
-- `claimTokenSecret` of src/tokenRequest.ts: the one way to a token's secret, once.
use ambit.Common.{
  ℕ, Bool, true, false, ◌&&◌, Option, none, some, [], ◌∷◌, String, given, if◌then◌else◌, str_eq,
  template,
}
use ambit.Records.{PendingRequest, RequestStatus, Decision, fields, token_secret_claimed}
use ambit.Platform.{Platform}
use ambit.World.{
  Action, pure, raise, ◌>>=◌, ◌>>◌, record_entry, unknown_request, wrong_subject,
  request_not_approved, token_secret_already_claimed,
}
use ambit.Token.Issue.{text_or_empty}
use ambit.Requests.{get_request, save_request, status_text}

abbrev pub is_approved : RequestStatus → Bool
is_approved RequestStatus.approved = true
is_approved RequestStatus.pending = false
is_approved RequestStatus.denied = false

module _ (pf : Platform) (id subject : String) (now : ℕ) where
  -- The claim of somebody else's request.
  unfoldable pub reject_subject : PendingRequest → Action (String × String)
  unfolding record_entry
  reject_subject r =
      record_entry pf
        (record (fields subject "claim_token_secret" Decision.denied) {
          request_id = some id;
          reason_code = some "wrong_subject";
          message = some (
              template (
                "Credential authenticated as \"" ∷ subject ∷ "\", but request \"" ∷ id
                ∷ "\" was submitted by \"" ∷ r.subject
                ∷ "\" — only the original requester can claim its token's secret." ∷ []));
        })
        now
      >> raise (
          wrong_subject
            (template ("request \"" ∷ id ∷ "\" was not submitted by \"" ∷ subject ∷ "\"" ∷ [])))

  -- The secret leaves the store.
  unfoldable pub hand_over : PendingRequest → Action (String × String)
  unfolding save_request record_entry
  hand_over r = do
    save_request pf (record r { token_secret = none })
    record_entry pf
        (record (fields subject "claim_token_secret" token_secret_claimed) {
          request_id = some id;
          token_id = r.token_id;
        })
        now
    pure (text_or_empty r.token_id, text_or_empty r.token_secret)

  unfoldable pub claim_found : Option PendingRequest → Action (String × String)
  unfolding reject_subject hand_over
  claim_found none = raise (
      unknown_request (
        template
          ("cannot claim a token secret for request \"" ∷ id ∷ "\" — no such request exists" ∷ [])))
  claim_found (some r) =
      if str_eq r.subject subject
      then (if is_approved r.status && given r.token_id
          then (if given r.token_secret
              then hand_over r
              else raise (
                  token_secret_already_claimed (
                    template (
                      "the secret for request \"" ∷ id
                      ∷ "\"'s token was already claimed once — it cannot be retrieved again"
                      ∷ []))))
          else raise (
              request_not_approved (
                template (
                  "request \""
                  ∷ id
                  ∷ "\" is \""
                  ∷ status_text r.status
                  ∷ "\" — no token has been issued for it yet"
                  ∷ []))))
      else reject_subject r

  -- `claimTokenSecret`
  unfoldable pub claim_token_secret : Action (String × String)
  unfolding claim_found get_request
  claim_token_secret = get_request id >>= claim_found
