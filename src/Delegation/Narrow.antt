-- ===== src/Delegation/Narrow.antt =====
-- What `delegateToken` of src/delegation.ts grants: strictly less than the parent's token.
use ambit.Common.{
  ℕ, ◌≤◌, ◌<◌, ◌≡◌, refl, sym, ap, ◌∙◌, subst, ◌⊎◌, inl, inr, true, false, not, Option, none, some,
  String, all, any, includes, given, arith, is_blank,
}
use ambit.Records.{Decision, fields, Token, IssuedToken}
use ambit.Platform.{Platform}
use ambit.Password.{verify_password}
use ambit.Store.{get}
use ambit.Audit.{lacks_reason}
use ambit.World.{World, ok, pure, try_open, record_entry}
use ambit.World.Frame.{
  try_open-world, SameStores, bind-eq-ok, bind-ok, record_entry-accepts, try_open-eq-some,
}
use ambit.Token.Access.{token_get}
use ambit.Token.Access.Reads.{token_get-reads, read-eq}
use ambit.Token.Issue.{Draft, max_time, is_nil, issue_begin, issue_finish, token_of}
use ambit.Token.Issue.Bounds.{IsDrafted, issue_begin-drafts, ok-injective}
use ambit.Token.Issue.Stored.{issue_finish-stores}
use ambit.Token.Enforce.{is_active}
use ambit.Delegation.{
  Delegation, DelegationDenialReason, approved, refused, Progress, over, drafted, refusal,
  child_request, deny, stop, begun, start_issue, parent_checked, delegate_begin, issued,
  delegate_finish, delegate_token, denial_text,
}

-- What the guards require of the parent that was found.
pub record IsDelegable (pf : Platform) (d : Delegation) (now : ℕ) (parent : Token) : Type 0 where
  pub possessed : verify_password pf d.parent_secret parent.secret_hash ≡ true
  pub live : is_active parent.status ≡ true
  pub unexpired : now < parent.expires_at
  pub scope_given : is_nil d.requested_scope ≡ false
  pub within : all (includes parent.scope) d.requested_scope ≡ true
  pub narrower : any (λ s. not (includes d.requested_scope s)) parent.scope ≡ true

module _ (pf : Platform) (d : Delegation) (now : ℕ) where
  refusal-none : (parent : Token) → refusal pf d now parent ≡ none → IsDelegable pf d now parent
  unfolding refusal
  refusal-none parent h = ground arith

  denial_text-given : (r : DelegationDenialReason) → lacks_reason (some (denial_text r)) ≡ false
  unfolding lacks_reason is_blank
  denial_text-given DelegationDenialReason.parent_invalid = refl
  denial_text-given DelegationDenialReason.empty_scope = refl
  denial_text-given DelegationDenialReason.exceeds_parent_scope = refl
  denial_text-given DelegationDenialReason.not_narrower = refl
  denial_text-given DelegationDenialReason.store_unavailable = refl
  denial_text-given DelegationDenialReason.invalid_credential = refl

  deny-result : (r : DelegationDenialReason) (w : World) → (deny pf d now r w).0 ≡ ok (refused r)
  unfolding deny
  deny-result r w =
      let content = record (fields d.child_subject "delegate" Decision.denied) {
        token_id = some d.parent_id;
        reason_code = some (denial_text r);
      } in
      let accepted = record_entry-accepts pf content now w (denial_text-given r) in
      ap (λ x. x.0)
        (bind-ok (record_entry pf content now) (λ _. pure (refused r)) tt w
          (ap (λ x. x.0) accepted))

  stop-result :
      (r : DelegationDenialReason) (w : World) → (stop pf d now r w).0 ≡ ok (over (refused r))
  unfolding stop
  stop-result r w =
      ap (λ x. x.0) (bind-ok (deny pf d now r) (λ q. pure (over q)) (refused r) w (deny-result r w))

  begun-drafted :
      (found : Option Draft) (draft : Draft) (w : World)
      → (begun pf d now found w).0 ≡ ok (drafted draft)
      → found ≡ some draft
  unfolding begun
  begun-drafted none draft w h =
      absurd (cc (stop-result DelegationDenialReason.store_unavailable w))
  begun-drafted (some x) draft w h = cc

  start_issue-drafted :
      (r : Option DelegationDenialReason) (draft : Draft) (w : World)
      → (start_issue pf d now r w).0 ≡ ok (drafted draft)
      → (r ≡ none) × ((issue_begin pf false (child_request d) w).0 ≡ ok draft)
  unfolding start_issue
  start_issue-drafted (some r) draft w h = absurd (cc (stop-result r w))
  start_issue-drafted none draft w h =
      let m = issue_begin pf false (child_request d) in
      let (found, tried, rest) = bind-eq-ok (try_open m) (begun pf d now) w (drafted draft) h in
      let some_draft = begun-drafted found draft (try_open m w).1 (ap (λ x. x.0) (sym rest) ∙ h) in
      (refl, try_open-eq-some m draft w (tried ∙ ap ok some_draft))

  -- A draft was made: the parent's token was read, it admits the delegation, and the draft is one
  -- of `issueToken`.
  parent_checked-drafted :
      (found : Option (Option Token)) (draft : Draft) (w : World)
      → (parent_checked pf d now found w).0 ≡ ok (drafted draft)
      → (parent : Token) × (found ≡ some (some parent))
        × IsDelegable pf d now parent
        × ((issue_begin pf false (child_request d) w).0 ≡ ok draft)
  unfolding parent_checked
  parent_checked-drafted none draft w h =
      absurd (cc (stop-result DelegationDenialReason.store_unavailable w))
  parent_checked-drafted (some none) draft w h =
      absurd (cc (stop-result DelegationDenialReason.parent_invalid w))
  parent_checked-drafted (some (some parent)) draft w h =
      let (passed, begun) = start_issue-drafted (refusal pf d now parent) draft w h in
      (parent, refl, refusal-none parent passed, begun)

  -- The same of the whole first segment, from the world it starts in.
  pub delegate_begin-drafted :
      (draft : Draft) (w : World)
      → (delegate_begin pf d now w).0 ≡ ok (drafted draft)
      → (parent : Token) × (get d.parent_id w.tokens ≡ some parent)
        × IsDelegable pf d now parent
        × ((v : World) × SameStores v w × IsDrafted pf false (child_request d) draft v)
  unfolding delegate_begin
  delegate_begin-drafted draft w h =
      let m = token_get pf d.parent_id in
      let (found, tried, rest) =
        bind-eq-ok (try_open m) (parent_checked pf d now) w (drafted draft) h in
      let v = (try_open m w).1 in
      let (parent, e, delegable, begun) =
        parent_checked-drafted found draft v (ap (λ x. x.0) (sym rest) ∙ h) in
      let read = try_open-eq-some m (some parent) w (tried ∙ ap ok e) in
      let (reads, same) = token_get-reads pf d.parent_id w in
      (
        parent,
        read-eq (m w).0 (get d.parent_id w.tokens) (some parent) reads read,
        delegable,
        (
          v,
          subst (λ x. SameStores x w) (sym (try_open-world m w)) same,
          issue_begin-drafts pf false (child_request d) draft v begun,
        ),
      )

  -- The first segment approves nothing.
  begun-over :
      (found : Option Draft) (child : Token) (secret : String) (w : World)
      → ¬ ((begun pf d now found w).0 ≡ ok (over (approved child secret)))
  unfolding begun
  begun-over none child secret w h =
      absurd (cc (stop-result DelegationDenialReason.store_unavailable w))
  begun-over (some x) child secret w h = absurd (cc)

  start_issue-over :
      (r : Option DelegationDenialReason) (child : Token) (secret : String) (w : World)
      → ¬ ((start_issue pf d now r w).0 ≡ ok (over (approved child secret)))
  unfolding start_issue
  start_issue-over (some r) child secret w h = absurd (cc (stop-result r w))
  start_issue-over none child secret w h =
      let m = try_open (issue_begin pf false (child_request d)) in
      let (found, tried, rest) = bind-eq-ok m (begun pf d now) w (over (approved child secret)) h in
      begun-over found child secret (m w).1 (ap (λ x. x.0) (sym rest) ∙ h)

  parent_checked-over :
      (found : Option (Option Token)) (child : Token) (secret : String) (w : World)
      → ¬ ((parent_checked pf d now found w).0 ≡ ok (over (approved child secret)))
  unfolding parent_checked
  parent_checked-over none child secret w h =
      absurd (cc (stop-result DelegationDenialReason.store_unavailable w))
  parent_checked-over (some none) child secret w h =
      absurd (cc (stop-result DelegationDenialReason.parent_invalid w))
  parent_checked-over (some (some parent)) child secret w h =
      start_issue-over (refusal pf d now parent) child secret w h

  delegate_begin-over :
      (child : Token) (secret : String) (w : World)
      → ¬ ((delegate_begin pf d now w).0 ≡ ok (over (approved child secret)))
  unfolding delegate_begin
  delegate_begin-over child secret w h =
      let m = try_open (token_get pf d.parent_id) in
      let (found, tried, rest) =
        bind-eq-ok m (parent_checked pf d now) w (over (approved child secret)) h in
      parent_checked-over found child secret (m w).1 (ap (λ x. x.0) (sym rest) ∙ h)

  issued-approved :
      (found : Option IssuedToken) (child : Token) (secret : String) (w : World)
      → (issued pf d now found w).0 ≡ ok (approved child secret)
      → (i : IssuedToken) × (found ≡ some i) × (i.token ≡ child)
  unfolding issued
  issued-approved none child secret w h =
      absurd (cc (deny-result DelegationDenialReason.store_unavailable w))
  issued-approved (some i) child secret w h =
      let content = record (fields d.child_subject "delegate" Decision.allowed) {
        token_id = some i.token.id;
      } in
      let (u, recorded, rest) =
        bind-eq-ok (record_entry pf content now) (λ _. pure (approved i.token i.secret)) w
          (approved child secret) h in
      let same : approved i.token i.secret ≡ approved child secret =
        ok-injective (ap (λ x. x.0) (sym rest) ∙ h) in
      (i, refl, cc)

  -- The second segment approves the draft's token only.
  delegate_finish-approved :
      (p : Progress) (child : Token) (secret : String) (w : World)
      → (delegate_finish pf d now p w).0 ≡ ok (approved child secret)
      → (p ≡ over (approved child secret))
        ⊎ ((draft : Draft) × (p ≡ drafted draft) × ((id : String) × (child ≡ token_of draft id)))
  unfolding delegate_finish
  delegate_finish-approved (over r) child secret w h = inl (ap over (ok-injective h))
  delegate_finish-approved (drafted draft) child secret w h =
      let m = issue_finish pf draft in
      let (found, tried, rest) =
        bind-eq-ok (try_open m) (issued pf d now) w (approved child secret) h in
      let v = (try_open m w).1 in
      let (i, e, same) = issued-approved found child secret v (ap (λ x. x.0) (sym rest) ∙ h) in
      let (id, drawn, stored) =
        issue_finish-stores pf draft i w (try_open-eq-some m i w (tried ∙ ap ok e)) in
      inr (draft, refl, (id, sym same ∙ drawn))

  -- A delegation that is approved hands out less than the parent's token has: the parent that is
  -- stored was possessed, active and unexpired, the child's scope is the requested one, is not empty,
  -- lies within the parent's and leaves out some of it, and the child expires no later. Its expiry is
  -- assumed to be a date (at most 8.64e15).
  pub delegate_token-narrows :
      (child : Token) (secret : String) (w : World)
      → given (some d.parent_id) ≡ true
      → child.expires_at ≤ max_time
      → (delegate_token pf d now w).0 ≡ ok (approved child secret)
      → (parent : Token) × (get d.parent_id w.tokens ≡ some parent)
        × IsDelegable pf d now parent
        × (child.scope ≡ d.requested_scope)
        × (child.expires_at ≤ parent.expires_at)
  unfolding delegate_token
  delegate_token-narrows child secret w g dated h =
      let m = delegate_begin pf d now in
      let (p, begun, rest) = bind-eq-ok m (delegate_finish pf d now) w (approved child secret) h in
      let finished = ap (λ x. x.0) (sym rest) ∙ h in
      elim (delegate_finish-approved p child secret (m w).1 finished) [
        | inl e ↦ absurd (delegate_begin-over child secret w (begun ∙ ap ok e))
        | inr (draft, e, (id, made)) ↦
            let (parent, stored, delegable, (v, same, draft_of)) =
              delegate_begin-drafted draft w (begun ∙ ap ok e) in
            (
              parent,
              stored,
              delegable,
              ap (λ t. t.scope) made ∙ draft_of.scope,
              subst (λ t. t.expires_at ≤ max_time → t.expires_at ≤ parent.expires_at) (sym made)
                  (draft_of.under_parent parent g (ap (get d.parent_id) same.tokens ∙ stored))
                  dated,
            )
      ]
