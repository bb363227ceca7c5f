-- ===== src/Requests.antt =====
-- The human approval of token requests: the request store of src/requestStore.ts, and the parts that
-- every step of src/tokenRequest.ts shares.
pub mod Submit
pub mod Decide
pub mod Claim
pub mod Sound
pub mod Once
pub mod Updates
pub mod Idempotent
use ambit.Common.{
  Bool, true, false, ◌&&◌, Option, none, some, List, [], ◌∷◌, String, filter, find, values,
  is_some_eq, str_eq, template, if◌then◌else◌,
}
use ambit.Records.{PendingRequest, RequestStatus, pending, approved, denied}
use ambit.Platform.{Platform}
use ambit.Store.{get, save}
use ambit.World.{World, Action, ok, pure, raise, ◌>>=◌, unknown_request, request_not_pending}

abbrev pub status_text : RequestStatus → String
status_text pending = "pending"
status_text approved = "approved"
status_text denied = "denied"

-- `forPersistence`: the secret never reaches the file.
abbrev pub for_persistence : PendingRequest → PendingRequest
for_persistence request = record request { token_secret = none }

abbrev pub is_pending : RequestStatus → Bool
is_pending pending = true
is_pending approved = false
is_pending denied = false

-- `RequestStore.pending`
unfoldable pub pending_requests : World → List PendingRequest
pending_requests w = filter (λ r. is_pending r.status) (values w.requests.items)

-- `RequestStore.findByIdempotencyKey`
unfoldable pub find_by_idempotency_key : String → String → World → Option PendingRequest
find_by_idempotency_key subject key w =
    find (λ r. str_eq r.subject subject && is_some_eq r.idempotency_key key)
      (values w.requests.items)

-- `RequestStore.get`
unfoldable pub get_request : String → Action (Option PendingRequest)
get_request id w = (ok (get id w.requests), w)

-- `getPending`
unfoldable pub require_pending : String → String → Option PendingRequest → Action PendingRequest
require_pending id verb none = raise (
    unknown_request
      (template ("cannot " ∷ verb ∷ " request \"" ∷ id ∷ "\" — no such request exists" ∷ [])))
require_pending id verb (some r) =
    if is_pending r.status
    then pure r
    else raise (
        request_not_pending
          (template ("request \"" ∷ id ∷ "\" is already " ∷ status_text r.status ∷ [])))

unfoldable pub get_pending : String → String → Action PendingRequest
unfolding get_request require_pending
get_pending id verb = get_request id >>= require_pending id verb

module _ (pf : Platform) where
  unfoldable pub put_request : PendingRequest → World → World
  put_request r w = record w {
    requests = save r.id r (pf.json_request (for_persistence r)) w.requests;
  }

  -- `RequestStore.save`
  unfoldable pub save_request : PendingRequest → Action (Unit {0})
  unfolding put_request
  save_request r w = (ok tt, put_request r w)
