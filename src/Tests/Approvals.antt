-- ===== src/Tests/Approvals.antt =====
-- Runs of the approval of requests.
use ambit.Common.{ℕ, ◌≡◌, ◌≢◌, refl, Bool, true, none, some, [], ◌∷◌, String, lookup, eq_iff, arith}
use ambit.Records.{PendingRequest, RequestStatus}
use ambit.Store.{get}
use ambit.World.{World, ok}
use ambit.Token.Issue.{Draft}
use ambit.Requests.Decide.{scope_too_broad, deny_request, approve_begin}
use ambit.Requests.Claim.{claim_token_secret}
use ambit.Common.Int.{pos}
use ambit.Requests.Submit.{Submission, pending_of, request_token}
use ambit.Requests.Idempotent.{Updates, request_token-idempotent}
use ambit.Requests.Updates.{deny_request-Updates}
use ambit.Requests.Once.{IsKeyed, claim_token_secret-once, deny_request-final}
use ambit.Tests.{platform, world, request}

-- A request that was approved, with the secret still to be claimed.
abbrev approved_world : World
approved_world = record world {
  requests = record {
    items =
        (
          "r",
          record request {
            status = RequestStatus.approved;
            token_id = some "c";
            token_secret = some "aa";
          },
        )
        ∷ [];
    file = none;
  };
}

approved-IsKeyed : IsKeyed approved_world.requests
unfolding get lookup
approved-IsKeyed k r e = ground (arith, eq_iff "r" k)

claimed_run : (claim_token_secret platform "r" "agent" 5 approved_world).0 ≡ ok ("c", "aa")
unfolding claim_token_secret get lookup
claimed_run = refl

abbrev claimed_world : World
claimed_world = (claim_token_secret platform "r" "agent" 5 approved_world).1

abbrev unrelated : Submission
unrelated = record {
  subject = "other";
  scope = "read" ∷ [];
  ttl_seconds = pos 60;
  parent_token_id = none;
  idempotency_key = none;
}

-- After the claim, and another agent's submission.
abbrev later_world : World
later_world = (request_token platform none 6 unrelated claimed_world).1

undisturbed : get "r" later_world.requests ≡ get "r" claimed_world.requests
unfolding request_token claim_token_secret get lookup ambit.World.write_entry ambit.Store.save
    ambit.Common.insert
undisturbed = refl

claim_token_secret-once_example :
    (claim_token_secret platform "r" "agent" 7 later_world).0 ≢ ok ("c", "aa")
claim_token_secret-once_example =
    claim_token_secret-once platform "r" "agent" "agent" 5 7 ("c", "aa") ("c", "aa") approved_world
      later_world approved-IsKeyed claimed_run undisturbed

world-IsKeyed : IsKeyed world.requests
unfolding get lookup
world-IsKeyed k r e = ground (arith, eq_iff "r" k)

denied_run : (deny_request platform "r" "admin" 5 scope_too_broad world).0 ≡ ok tt
unfolding deny_request get lookup ambit.Audit.lacks_reason ambit.Common.is_blank
denied_run = refl

deny_request-final_example :
    ((p : PendingRequest × Draft)
      → (approve_begin platform "r" "backup" 6 true none
          (deny_request platform "r" "admin" 5 scope_too_broad world).1).0
        ≢ ok p)
    × ((deny_request platform "r" "backup" 6 scope_too_broad
          (deny_request platform "r" "admin" 5 scope_too_broad world).1).0
        ≢ ok tt)
deny_request-final_example =
    deny_request-final platform "r" "admin" "backup" 5 6 scope_too_broad scope_too_broad true none
      world (deny_request platform "r" "admin" 5 scope_too_broad world).1 world-IsKeyed denied_run
      refl

abbrev submission : Submission
submission = record {
  subject = "agent";
  scope = "read" ∷ [];
  ttl_seconds = pos 60;
  parent_token_id = none;
  idempotency_key = some "k";
}

-- The same key, for another scope.
abbrev again : Submission
again = record submission { scope = "write" ∷ [] }

submitted_run :
    (request_token platform none 5 submission world).0 ≡ ok (pending_of submission "u0" none 5)
unfolding request_token ambit.World.write_entry lookup
submitted_run = refl

abbrev submitted_world : World
submitted_world = (request_token platform none 5 submission world).1

-- The request was denied in between.
abbrev denied_world : World
denied_world = (deny_request platform "u0" "admin" 6 scope_too_broad submitted_world).1

submitted-IsKeyed : IsKeyed submitted_world.requests
unfolding request_token get lookup ambit.World.write_entry ambit.Store.save ambit.Common.insert
submitted-IsKeyed k r e = ground (arith, eq_iff "r" k, eq_iff "u0" k)

denied_since : Updates submitted_world.requests.items denied_world.requests.items
denied_since =
    deny_request-Updates platform "u0" submitted_world submitted-IsKeyed "admin" 6 scope_too_broad

request_token-idempotent_example :
    (q : PendingRequest) × (q.id ≡ "u0")
    × (request_token platform (some "ann") 9 again denied_world ≡ (ok q, denied_world))
request_token-idempotent_example =
    request_token-idempotent platform none (some "ann") 5 9 submission again
      (pending_of submission "u0" none 5) world denied_world refl refl refl submitted_run
      denied_since
