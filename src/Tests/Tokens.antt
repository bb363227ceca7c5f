-- ===== src/Tests/Tokens.antt =====
-- Runs of the token methods, of delegation and of the approval of requests.
use ambit.Common.{
  ℕ, ◌≡◌, ◌≢◌, ◌≤◌, refl, ◌⊎◌, Bool, true, false, Option, none, some, List, [], ◌∷◌, ◌++◌, String,
  All, all, includes, ◌+◌, ◌*◌, given, arith, some-injective, lookup, eq_iff,
}
use ambit.Common.Int.{pos, pos_part}
use ambit.Token.Access.Reads.{is_down}
use ambit.Records.{Token, TokenStatus, TokenRequest, IssuedToken, Policy, AuditLogEntry, superseded}
use ambit.Password.{hash_with}
use ambit.Store.{get, Store}
use ambit.Audit.{verify_audit_chain}
use ambit.World.{World, Result, ok, throw}
use ambit.World.Sound.{HasReason}
use ambit.Token.Issue.{issue_token}
use ambit.Token.Issue.Stored.{
  IsIssued, issue_token-issues, issue_token-under_parent, issue_token-under_policy,
}
use ambit.Token.Enforce.{
  EnforcementDecision, is_active, allow, deny, enforce_token, store_unavailable,
  unavailable_message,
}
use ambit.Token.Enforce.Decides.{IsEntitled, IsVerdict, enforce_token-decides, enforce_token-safe}
use ambit.Token.Revoke.{revoke_token, mark_revoked}
use ambit.Token.Revoke.Closure.{IsKeyed, IsClosed}
use ambit.Token.Revoke.Ends.{IsRevoked, revoke_token-ends_lineage}
use ambit.Token.Revoke.Active.{IsIndexed}
use ambit.Token.Revoke.Calm.{Calm}
use ambit.Token.Revoke.Returns.{revoke_token-Calm}
use ambit.Delegation.{Delegation, approved, delegate_token}
use ambit.Delegation.Narrow.{IsDelegable, delegate_token-narrows}
use ambit.Service.{here, next, enforces}
use ambit.Service.Log.{Steps-log}
use ambit.Tests.{platform, world, root, child, policy}

Steps-log_example :
    (more : List AuditLogEntry) × ((enforce_token platform "p" "bb" "read" 5 world).1.audit.entries
      ≡ world.audit.entries ++ more)
    × All HasReason more
    × ((verify_audit_chain platform
          (enforce_token platform "p" "bb" "read" 5 world).1.audit.entries).valid
        ≡ true)
unfolding verify_audit_chain
Steps-log_example =
    Steps-log platform world (enforce_token platform "p" "bb" "read" 5 world).1
      (next here (enforces "p" "bb" "read" 5 world)) refl

allowed_run : (enforce_token platform "p" "aa" "read" 5 world).0 ≡ ok allow
unfolding enforce_token ambit.World.guarded ambit.Breaker.execute get lookup
    ambit.Password.verify_password
allowed_run = refl

enforce_token-safe_example :
    (t : Token) × (get "p" world.tokens ≡ some t) × IsEntitled platform t "aa" "read" 5
enforce_token-safe_example = enforce_token-safe platform "p" "aa" "read" 5 world allowed_run

enforce_token-decides_example :
    (d : EnforcementDecision) × ((enforce_token platform "p" "bb" "read" 5 world).0 ≡ ok d)
    × (((is_down platform world.breaker world ≡ false)
          × IsVerdict platform "p" "bb" "read" 5 (get "p" world.tokens) d)
        ⊎ ((is_down platform world.breaker world ≡ true)
            × (d ≡ deny store_unavailable (unavailable_message "p"))))
enforce_token-decides_example = enforce_token-decides platform "p" "bb" "read" 5 world

world-IsKeyed : IsKeyed world.tokens
unfolding get lookup
world-IsKeyed k t e = ground (arith, eq_iff "p" k, eq_iff "c" k)

world-active : (k : String) (t : Token) → get k world.tokens ≡ some t → is_active t.status ≡ true
unfolding get lookup
world-active k t e = ground (arith, eq_iff "p" k, eq_iff "c" k)

world-IsClosed : IsClosed world.tokens
world-IsClosed k p t q e live parent f gone = absurd (cc (world-active p q f))

revoked_run :
    (revoke_token platform 9 none "p" superseded world).0 ≡ ok (mark_revoked root 9 superseded)
unfolding revoke_token ambit.World.guarded ambit.Breaker.execute get lookup ambit.World.write_entry
    ambit.Token.Access.put_token ambit.Store.save ambit.Common.insert
revoked_run = refl

-- Two tokens, each delegated from the other.
abbrev cyclic : World
cyclic = record world {
  tokens = record {
    items = ("p", record root { parent_token_id = some "c" }) ∷ ("c", child) ∷ [];
    file = none;
  };
}

revoke_token-Calm_example : Calm (revoke_token platform 9 none "p" superseded) cyclic
unfolding IsIndexed lookup
revoke_token-Calm_example =
    revoke_token-Calm platform 9 none "p" superseded cyclic (refl, refl, (refl, refl, tt))

revoke_token-ends_lineage_example :
    IsRevoked "p" (revoke_token platform 9 none "p" superseded world).1.tokens
revoke_token-ends_lineage_example =
    revoke_token-ends_lineage platform 9 none "p" superseded (mark_revoked root 9 superseded) world
      world-IsKeyed world-IsClosed revoked_run

-- A request for a lifetime of 60 seconds under a parent that has 50 left.
abbrev wanted : Option String → Option String → TokenRequest
wanted parent policy = record {
  subject = "agent";
  scope = "read" ∷ [];
  ttl_seconds = pos 60;
  parent_token_id = parent;
  policy_id = policy;
}

abbrev issued_token : ℕ → ℕ → Option String → IssuedToken
issued_token now expires parent = record {
  token = record {
    id = "u0";
    subject = "agent";
    scope = "read" ∷ [];
    issued_at = now;
    expires_at = expires;
    status = TokenStatus.active;
    parent_token_id = parent;
    revoked_at = none;
    revocation_reason = none;
    secret_hash = hash_with platform "aa" [];
  };
  secret = "aa";
}

issued_run : (issue_token platform true (wanted none none) world).0 ≡ ok (issued_token 0 60000 none)
unfolding issue_token ambit.World.guarded ambit.Breaker.execute get lookup
issued_run = refl

issue_token-issues_example :
    IsIssued platform true
      (wanted none none)
      (issued_token 0 60000 none)
      world
      (issue_token platform true (wanted none none) world).1
issue_token-issues_example =
    issue_token-issues platform true (wanted none none) (issued_token 0 60000 none) world issued_run

under_parent_run :
    (issue_token platform true (wanted (some "c") none) world).0
    ≡ ok (issued_token 0 50000 (some "c"))
unfolding issue_token ambit.World.guarded ambit.Breaker.execute get lookup
under_parent_run = refl

child_found : get "c" world.tokens ≡ some child
unfolding get lookup
child_found = refl

issue_token-under_parent_example : 50000 ≤ 50000
issue_token-under_parent_example =
    issue_token-under_parent platform true (wanted (some "c") none)
      (issued_token 0 50000 (some "c")) child world refl child_found (omega arith) under_parent_run

under_policy_run :
    (issue_token platform true (wanted none (some "q")) world).0 ≡ ok (issued_token 1000 61000 none)
unfolding issue_token ambit.World.guarded ambit.Breaker.execute get lookup
under_policy_run = refl

issue_token-under_policy_example :
    (p : Policy) × (get "q" world.policies ≡ some p)
    × (all (includes p.allowed_scope) ("read" ∷ []) ≡ true)
    × (61000 ≤ 1000 + pos_part p.max_ttl_seconds * 1000)
issue_token-under_policy_example =
    issue_token-under_policy platform true (wanted none (some "q")) (issued_token 1000 61000 none)
      world refl (omega arith) under_policy_run

abbrev delegation : Delegation
delegation = record {
  parent_id = "p";
  parent_secret = "aa";
  child_subject = "agent";
  requested_scope = "read" ∷ [];
  ttl_seconds = pos 60;
}

abbrev delegated : Token
delegated = (issued_token 1000 60000 (some "p")).token

delegated_run : (delegate_token platform delegation 5 world).0 ≡ ok (approved delegated "aa")
unfolding delegate_token ambit.World.guarded ambit.Breaker.execute get lookup
    ambit.Password.verify_password
delegated_run = refl

delegate_token-narrows_example :
    (parent : Token) × (get "p" world.tokens ≡ some parent)
    × IsDelegable platform delegation 5 parent
    × (delegated.scope ≡ "read" ∷ [])
    × (delegated.expires_at ≤ parent.expires_at)
delegate_token-narrows_example =
    delegate_token-narrows platform delegation 5 delegated "aa" world refl (omega arith)
      delegated_run
