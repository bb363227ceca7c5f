-- ===== src/Token/Issue/Stored.antt =====
-- What a token that `issueToken` of src/token.ts returned is, and that it is the one stored.
use ambit.Common.{
  ℕ, ◌+◌, ◌*◌, ◌≤◌, arith, Option, all, includes, ◌≡◌, sym, ap, ◌∙◌, subst, inl, inr, Bool, true,
  false, some, String, given,
}
use ambit.Common.Int.{ℤ, pos, negsuc, pos_part, leb_ℤ, ltb_ℤ}
use ambit.Records.{TokenRequest, Token, IssuedToken, Policy, TokenStatus}
use ambit.Platform.{Platform}
use ambit.Store.{get, Store}
use ambit.World.{World, Action, ok, pure, ◌>>◌, draw_uuid}
use ambit.World.Frame.{bind-eq-ok}
use ambit.Token.Access.{token_save}
use ambit.Token.Access.Reads.{token_save-writes, get-put_token}
use ambit.Token.Issue.{
  Draft, token_of, is_nil, text_or_empty, max_time, date_time, check_policy, issue_begin,
  issue_finish, issue_token,
}
use ambit.Token.Issue.Bounds.{IsExpiry, issue_begin-drafts, ok-injective}

-- An issued token against its request: the request's subject, scope and parent, the date of issue,
-- the expiry that the request's seconds give or that of the parent, active, and what the store now
-- holds under its id.
pub record IsIssued (pf : Platform) (has_store : Bool) (request : TokenRequest)
    (issued : IssuedToken) (before after : World) : Type 0 where
  pub subject : issued.token.subject ≡ request.subject
  pub scope : issued.token.scope ≡ request.scope
  pub scope_given : is_nil issued.token.scope ≡ false
  pub parent : issued.token.parent_token_id ≡ request.parent_token_id
  pub ttl_positive : leb_ℤ request.ttl_seconds (pos 0) ≡ false
  pub clocked :
      issued.token.issued_at ≡ pf.clock (check_policy pf has_store request before).1.clock_reads
  pub expiry :
      IsExpiry
        (date_time (issued.token.issued_at + pos_part request.ttl_seconds * 1000))
        request.parent_token_id
        issued.token.expires_at
        before.tokens
  pub live : issued.token.status ≡ TokenStatus.active
  pub stored : get issued.token.id after.tokens ≡ some issued.token

-- A date that is not invalid is the time it was made of.
date_time-le : (n : ℕ) → date_time n ≤ max_time → date_time n ≤ n
unfolding date_time
date_time-le n h = ground arith

-- A token whose expiry is a date lives no longer than `top` seconds, if its own are not more.
IsExpiry-le :
    (now own top : ℕ) (parent : Option String) (expires : ℕ) (tokens : Store Token)
    → IsExpiry (date_time (now + own * 1000)) parent expires tokens
    → expires ≤ max_time
    → own ≤ top
    → expires ≤ now + top * 1000
IsExpiry-le now own top parent expires tokens (inl e) dated le =
    let dates = date_time-le (now + own * 1000) (subst (λ x. x ≤ max_time) e dated) in omega arith
IsExpiry-le now own top parent expires tokens (inr (p, g, f, e, l, m)) dated le =
    let dates = date_time-le (now + own * 1000) m in omega arith

pos_part_mono : (x y : ℤ) → ltb_ℤ y x ≡ false → pos_part x ≤ pos_part y
pos_part_mono (pos m) (pos n) h = ground arith
pos_part_mono (pos m) (negsuc n) h = ground arith
pos_part_mono (negsuc m) (pos n) h = omega arith
pos_part_mono (negsuc m) (negsuc n) h = omega arith

module _ (pf : Platform) where
  saved-stored :
      (t : Token) (w : World)
      → (token_save pf t w).0 ≡ ok tt
      → get t.id (token_save pf t w).1.tokens ≡ some t
  saved-stored t w h = elim (token_save-writes pf t w) [
    | inl (e, same) ↦ ap (get t.id) same ∙ get-put_token pf t w
    | inr ((m, e), same) ↦ absurd (cc)
  ]

  -- What the second segment returns is the draft's token, stored.
  pub issue_finish-stores :
      (d : Draft) (i : IssuedToken) (w : World)
      → (issue_finish pf d w).0 ≡ ok i
      → (id : String) × (i.token ≡ token_of d id)
        × (get i.token.id (issue_finish pf d w).1.tokens ≡ some i.token)
  unfolding issue_finish
  issue_finish-stores d i w h =
      let last : String → Action IssuedToken =
        λ id. pure (record { token = token_of d id; secret = d.secret }) in
      let k : String → Action IssuedToken = λ id. token_save pf (token_of d id) >> last id in
      let (id, drawn, rest1) = bind-eq-ok (draw_uuid pf) k w i h in
      let v = (draw_uuid pf w).1 in
      let h1 = ap (λ x. x.0) (sym rest1) ∙ h in
      let (u, saved, rest2) = bind-eq-ok (token_save pf (token_of d id)) (λ _. last id) v i h1 in
      let same : token_of d id ≡ i.token =
        ap (λ x. x.token) (ok-injective (ap (λ x. x.0) (sym rest2) ∙ h1)) in
      let stored = saved-stored (token_of d id) v saved in
      (
        id,
        sym same,
        subst (λ t. get t.id ((issue_finish pf d w).1).tokens ≡ some t) same
            (ap (get id) (ap (λ x. x.1.tokens) (rest1 ∙ rest2)) ∙ stored),
      )

  -- `issueToken` returns a token of the requested subject, parent and scope, which is not empty, and
  -- only for a positive `ttlSeconds`. It is issued at the clock's reading after the policy's check,
  -- and expires either `ttlSeconds` seconds later (an Invalid Date beyond 8.64e15) or at the earlier
  -- expiry of the parent that the request names and the store holds. It is active, and the store
  -- holds it under its id.
  pub issue_token-issues :
      (has_store : Bool) (request : TokenRequest) (issued : IssuedToken) (w : World)
      → (issue_token pf has_store request w).0 ≡ ok issued
      → IsIssued pf has_store request issued w (issue_token pf has_store request w).1
  unfolding issue_token
  issue_token-issues b r i w h =
      let (d, begun, rest) = bind-eq-ok (issue_begin pf b r) (issue_finish pf) w i h in
      let v = (issue_begin pf b r w).1 in
      let drafted = issue_begin-drafts pf b r d w begun in
      let (id, same, stored) = issue_finish-stores d i v (ap (λ x. x.0) (sym rest) ∙ h) in
      record {
        subject = ap (λ t. t.subject) same ∙ drafted.subject;
        scope = ap (λ t. t.scope) same ∙ drafted.scope;
        scope_given = ap (λ t. is_nil t.scope) same ∙ drafted.scope_given;
        parent = ap (λ t. t.parent_token_id) same ∙ drafted.parent;
        ttl_positive = drafted.ttl_positive;
        clocked = ap (λ t. t.issued_at) same ∙ drafted.clocked;
        expiry =
            subst
              (λ t.
                IsExpiry (date_time (t.issued_at + pos_part r.ttl_seconds * 1000)) r.parent_token_id
                  t.expires_at w.tokens)
              (sym same) drafted.expiry;
        live = ap (λ t. t.status) same;
        stored = ap (λ x. get i.token.id x.1.tokens) rest ∙ stored;
      }

  -- A token that `issueToken` returned under a parent which is stored expires no later than it, if
  -- its expiry is a date (at most 8.64e15).
  pub issue_token-under_parent :
      (has_store : Bool) (request : TokenRequest) (issued : IssuedToken) (parent : Token)
      (w : World)
      → given request.parent_token_id ≡ true
      → get (text_or_empty request.parent_token_id) w.tokens ≡ some parent
      → issued.token.expires_at ≤ max_time
      → (issue_token pf has_store request w).0 ≡ ok issued
      → issued.token.expires_at ≤ parent.expires_at
  unfolding issue_token
  issue_token-under_parent b r i parent w g found dated h =
      let (d, begun, rest) = bind-eq-ok (issue_begin pf b r) (issue_finish pf) w i h in
      let drafted = issue_begin-drafts pf b r d w begun in
      let (id, same, stored) =
        issue_finish-stores d i (issue_begin pf b r w).1 (ap (λ x. x.0) (sym rest) ∙ h) in
      subst (λ t. t.expires_at ≤ max_time → t.expires_at ≤ parent.expires_at) (sym same)
        (drafted.under_parent parent g found) dated

  -- A token that `issueToken` returned for a request that names a policy is within that policy, as
  -- the policy store holds it at the call: its scope is among the policy's and, if its expiry is a
  -- date (at most 8.64e15), it lives for the policy's maximum of seconds at most.
  pub issue_token-under_policy :
      (has_store : Bool) (request : TokenRequest) (issued : IssuedToken) (w : World)
      → given request.policy_id ≡ true
      → issued.token.expires_at ≤ max_time
      → (issue_token pf has_store request w).0 ≡ ok issued
      → (p : Policy) × (get (text_or_empty request.policy_id) w.policies ≡ some p)
        × (all (includes p.allowed_scope) issued.token.scope ≡ true)
        × (issued.token.expires_at ≤ issued.token.issued_at + pos_part p.max_ttl_seconds * 1000)
  unfolding issue_token
  issue_token-under_policy b r i w g dated h =
      let (d, begun, rest) = bind-eq-ok (issue_begin pf b r) (issue_finish pf) w i h in
      let drafted = issue_begin-drafts pf b r d w begun in
      let (id, same, stored) =
        issue_finish-stores d i (issue_begin pf b r w).1 (ap (λ x. x.0) (sym rest) ∙ h) in
      let (p, found, within) = drafted.within_policy g in
      let scope : i.token.scope ≡ r.scope = ap (λ t. t.scope) same ∙ drafted.scope in
      let expiry =
        subst
          (λ t.
            IsExpiry (date_time (t.issued_at + pos_part r.ttl_seconds * 1000)) r.parent_token_id
              t.expires_at w.tokens)
          (sym same) drafted.expiry in
      (
        p,
        found,
        ap (all (includes p.allowed_scope)) scope ∙ within.scope,
        IsExpiry-le i.token.issued_at (pos_part r.ttl_seconds) (pos_part p.max_ttl_seconds)
            r.parent_token_id i.token.expires_at w.tokens expiry dated
            (pos_part_mono r.ttl_seconds p.max_ttl_seconds within.ttl),
      )
