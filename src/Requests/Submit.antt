-- ===== src/Requests/Submit.antt =====
-- `requestToken` of src/tokenRequest.ts.
use ambit.Common.{ℕ, Option, none, some, List, String, given, if◌then◌else◌, join}
use ambit.Common.Int.{ℤ}
use ambit.Records.{PendingRequest, pending, fields, request_submitted, anomaly_detected}
use ambit.Platform.{Platform}
use ambit.Anomaly.{check, AnomalyResult}
use ambit.World.{World, Action, ok, pure, ◌>>=◌, ◌>>◌, draw_uuid, record_entry}
use ambit.Token.Issue.{text_or_empty}
use ambit.Requests.{find_by_idempotency_key, save_request}

-- What a requester submits: a `TokenRequest` without a policy, and an idempotency key.
pub record Submission : Type 0 where
  pub subject : String
  pub scope : List String
  pub ttl_seconds : ℤ
  pub parent_token_id : Option String
  pub idempotency_key : Option String

-- The request that was submitted before with the same key, if a key was given.
unfoldable pub find_existing : Submission → World → Option PendingRequest
unfolding find_by_idempotency_key
find_existing s w =
    if given s.idempotency_key
    then find_by_idempotency_key s.subject (text_or_empty s.idempotency_key) w
    else none

abbrev pub pending_of : Submission → String → Option String → ℕ → PendingRequest
pending_of s id approver now = record {
  subject = s.subject;
  scope = s.scope;
  ttl_seconds = s.ttl_seconds;
  parent_token_id = s.parent_token_id;
  id = id;
  status = pending;
  requested_at = now;
  token_id = none;
  token_secret = none;
  idempotency_key = s.idempotency_key;
  assigned_approver = approver;
}

-- `anomalyDetector.check`
unfoldable pub check_anomaly : String → List String → ℕ → Action AnomalyResult
unfolding check
check_anomaly subject scope now w =
    let (d, result) = check subject scope now w.detector in (ok result, record w { detector = d })

module _ (pf : Platform) (approver : Option String) (now : ℕ) where
  -- The audit entry of an anomaly.
  unfoldable pub report_anomaly : PendingRequest → AnomalyResult → Action (Unit {0})
  unfolding record_entry
  report_anomaly r anomaly =
      if anomaly.anomalous
      then record_entry pf
          (record (fields r.subject "anomaly_check" anomaly_detected) {
            request_id = some r.id;
            reason_code = some (join "," anomaly.signals);
          })
          now
      else pure tt

  unfoldable pub submit_new : Submission → Action PendingRequest
  unfolding report_anomaly check_anomaly save_request draw_uuid
  submit_new s = do
    id ← draw_uuid pf
    let r = pending_of s id approver now
    save_request pf r
    record_entry pf
        (record (fields s.subject "request_token" request_submitted) { request_id = some id }) now
    anomaly ← check_anomaly s.subject s.scope now
    report_anomaly r anomaly
    pure r

  -- `requestToken`
  unfoldable pub submit_or_reuse : Submission → Option PendingRequest → Action PendingRequest
  unfolding submit_new
  submit_or_reuse s (some existing) = pure existing
  submit_or_reuse s none = submit_new s

  unfoldable pub request_token : Submission → Action PendingRequest
  unfolding submit_or_reuse find_existing
  request_token s w = submit_or_reuse s (find_existing s w) w
