-- ===== src/Requests/Once.antt =====
-- What src/tokenRequest.ts does at most once: a decision on a request, and the handing over of a
-- token's secret.
use ambit.Common.{
  ℕ, ◌≡◌, ◌≢◌, refl, sym, ap, ◌∙◌, subst, inl, inr, Bool, true, false, ◌&&◌, Option, none, some,
  String, some-injective, given, str_eq, Bool-cases, lookup-insert_self,
}
use ambit.Records.{fields, request_denied, AuditFields, PendingRequest, RequestStatus}
use ambit.Platform.{Platform}
use ambit.Store.{Store, get, save}
use ambit.World.{World, Action, ok, pure, ◌>>=◌, ◌>>◌, record_entry, write_entry}
use ambit.World.Frame.{
  Keeps, pure-Keeps, bind-Keeps, if-Keeps, Fails, then_raise-Fails, bind-eq-ok,
  record_entry-SameStores,
}
use ambit.Requests.{
  get_request, require_pending, get_pending, put_request, save_request, is_pending,
}
use ambit.Token.Issue.Bounds.{ok-injective}
use ambit.Token.Issue.{Draft, issue_begin}
use ambit.Requests.Decide.{
  recording_failure, approved_request, denial_text, DenialReason, assert_eligible_decider,
  deny_request, approve_begin,
}
use ambit.Requests.Claim.{reject_subject, hand_over, claim_found, claim_token_secret, is_approved}

-- Each request is stored under its own id.
abbrev pub IsKeyed : Store PendingRequest → Type 0
IsKeyed s = (k : String) (r : PendingRequest) → get k s ≡ some r → r.id ≡ k

module _ (pf : Platform) where
  get-put_request :
      (r : PendingRequest) (w : World) → get r.id (put_request pf r w).requests ≡ some r
  unfolding get put_request save
  get-put_request r w = lookup-insert_self r.id r w.requests.items

module _ (pf : Platform) (id subject : String) (now : ℕ) where
  reject_subject-Fails : (r : PendingRequest) → Fails (reject_subject pf id subject now r)
  unfolding reject_subject
  reject_subject-Fails r = search then_raise-Fails

  -- A claim that returns has found a secret, which it hands over.
  claim_found-hands_over :
      (found : Option PendingRequest) (x : String × String) (w : World)
      → (claim_found pf id subject now found w).0 ≡ ok x
      → (r : PendingRequest) × (found ≡ some r)
        × (given r.token_secret ≡ true)
        × (claim_found pf id subject now found w ≡ hand_over pf id subject now r w)
  unfolding claim_found
  claim_found-hands_over none x w h = absurd (cc)
  claim_found-hands_over (some r) x w h = elim (Bool-cases (str_eq r.subject subject)) [
    | inr stranger ↦ absurd (reject_subject-Fails r w x (rw stranger at h))
    | inl owner ↦ elim (Bool-cases (is_approved r.status && given r.token_id)) [
      | inr early ↦ absurd (cc (rw (owner, early) at h))
      | inl ready ↦ elim (Bool-cases (given r.token_secret)) [
        | inr claimed ↦ absurd (cc (rw (owner, ready, claimed) at h))
        | inl secret ↦ (r, refl, secret, rw (owner, ready, secret) refl)
      ]
    ]
  ]

  hand_over-clears :
      (r : PendingRequest) (w : World)
      → (hand_over pf id subject now r w).1.requests
        ≡ (put_request pf (record r { token_secret = none }) w).requests
  unfolding hand_over write_entry
  hand_over-clears r w = refl

  -- What a claim that returns leaves: the request without its secret.
  claim-clears :
      (x : String × String) (w : World)
      → IsKeyed w.requests
      → (claim_token_secret pf id subject now w).0 ≡ ok x
      → (r : PendingRequest) × (given r.token_secret ≡ false)
        × (get id (claim_token_secret pf id subject now w).1.requests ≡ some r)
  unfolding claim_token_secret get_request
  claim-clears x w keyed h =
      let (r, found, secret, handed) = claim_found-hands_over (get id w.requests) x w h in
      let cleared : PendingRequest = record r { token_secret = none } in
      let stored = hand_over-clears r w in
      (
        cleared,
        refl,
        ap (λ y. get id y.1.requests) handed
            ∙ ap (get id) stored
            ∙ subst (λ k. get k (put_request pf cleared w).requests ≡ some cleared)
                (keyed id r found) (get-put_request pf cleared w),
      )

  -- A claim needs a secret in the request.
  claim-secret :
      (x : String × String) (w : World)
      → (claim_token_secret pf id subject now w).0 ≡ ok x
      → (r : PendingRequest) × (get id w.requests ≡ some r) × (given r.token_secret ≡ true)
  unfolding claim_token_secret get_request
  claim-secret x w h =
      let (r, found, secret, handed) = claim_found-hands_over (get id w.requests) x w h in
      (r, found, secret)

-- Once a claim of a token's secret has returned it, no claim of that request returns anything,
-- whoever makes it and whatever else has happened, in any world in which the stored request is
-- still the one that the first claim left.
pub claim_token_secret-once :
    (pf : Platform) (id subject other : String) (now later : ℕ) (x y : String × String)
    (w v : World)
    → IsKeyed w.requests
    → (claim_token_secret pf id subject now w).0 ≡ ok x
    → get id v.requests ≡ get id (claim_token_secret pf id subject now w).1.requests
    → (claim_token_secret pf id other later v).0 ≢ ok y
claim_token_secret-once pf id subject other now later x y w v keyed h kept again =
    let (r, cleared, stored) = claim-clears pf id subject now x w keyed h in
    let (q, found, secret) = claim-secret pf id other later y v again in
    let same : r ≡ q = some-injective r q (sym stored ∙ sym kept ∙ found) in
    absurd (cc (ap (λ z. given z.token_secret) same))

module _ (pf : Platform) (id : String) where
  -- `getPending` returns pending requests only.
  pub get_pending-pending :
      (verb : String) (r : PendingRequest) (w : World)
      → (get_pending id verb w).0 ≡ ok r
      → (get id w.requests ≡ some r) × (is_pending r.status ≡ true)
  unfolding get_pending get_request require_pending
  get_pending-pending verb r w h = go (get id w.requests) refl h
    where
      go :
          (found : Option PendingRequest)
          → get id w.requests ≡ found
          → (require_pending id verb found w).0 ≡ ok r
          → (get id w.requests ≡ some r) × (is_pending r.status ≡ true)
      go none e h = absurd (cc)
      go (some q) e h = elim (Bool-cases (is_pending q.status)) [
        | inr decided ↦ absurd (cc (rw decided at h))
        | inl undecided ↦
            let same : q ≡ r = ok-injective (rw undecided at h) in
            (e ∙ ap some same, ap (λ x. is_pending x.status) (sym same) ∙ undecided)
      ]

module _ (pf : Platform) (id approver : String) (now : ℕ) where
  record_entry-Keeps : (content : AuditFields) (at : ℕ) → Keeps (record_entry pf content at)
  record_entry-Keeps content at w = record_entry-SameStores pf content at w

  pub assert_eligible_decider-Keeps :
      (r : PendingRequest) (action : String)
      → Keeps (assert_eligible_decider pf id approver now r action)
  unfolding assert_eligible_decider
  assert_eligible_decider-Keeps r action =
      search (pure-Keeps, bind-Keeps, if-Keeps, record_entry-Keeps)

  -- The rest of `denyRequest`, past the lookup.
  unfoldable pub deny_found : DenialReason → PendingRequest → Action (Unit {0})
  deny_found reason r =
      assert_eligible_decider pf id approver now r "deny_request"
      >> (save_request pf (record r { status = RequestStatus.denied })
          >> record_entry pf
              (record (fields r.subject "deny_request" request_denied) {
                request_id = some id;
                actor = some approver;
                reason_code = some (denial_text reason);
              })
              now)

  -- A denial that returns has found a pending request.
  deny_pending :
      (reason : DenialReason) (w : World)
      → (deny_request pf id approver now reason w).0 ≡ ok tt
      → (r : PendingRequest) × (get id w.requests ≡ some r) × (is_pending r.status ≡ true)
  unfolding deny_request deny_found
  deny_pending reason w h =
      let (r, found, rest) = bind-eq-ok (get_pending id "deny") (deny_found reason) w tt h in
      let (there, undecided) = get_pending-pending pf id "deny" r w found in (r, there, undecided)

  -- What a denial that returns leaves: the request, denied.
  denied-stored :
      (reason : DenialReason) (w : World)
      → IsKeyed w.requests
      → (deny_request pf id approver now reason w).0 ≡ ok tt
      → (r : PendingRequest) × (is_pending r.status ≡ false)
        × (get id (deny_request pf id approver now reason w).1.requests ≡ some r)
  unfolding deny_request
  denied-stored reason w keyed h =
      let content : PendingRequest → AuditFields = λ r.
        record (fields r.subject "deny_request" request_denied) {
          request_id = some id;
          actor = some approver;
          reason_code = some (denial_text reason);
        } in
      let last : PendingRequest → Action (Unit {0}) = λ r. record_entry pf (content r) now in
      let denied : PendingRequest → PendingRequest =
        λ r. record r { status = RequestStatus.denied } in
      let k2 : PendingRequest → Action (Unit {0}) = λ r. save_request pf (denied r) >> last r in
      let k1 : PendingRequest → Action (Unit {0}) =
        λ r. assert_eligible_decider pf id approver now r "deny_request" >> k2 r in
      let (r, found, rest1) = bind-eq-ok (get_pending id "deny") k1 w tt h in
      let v1 = (get_pending id "deny" w).1 in
      let h1 = ap (λ x. x.0) (sym rest1) ∙ h in
      let m2 = assert_eligible_decider pf id approver now r "deny_request" in
      let (u, may, rest2) = bind-eq-ok m2 (λ _. k2 r) v1 tt h1 in
      let v2 = (m2 v1).1 in
      let (stored, undecided) = get_pending-pending pf id "deny" r w found in
      let kept : (k2 r v2).1.requests ≡ (put_request pf (denied r) v2).requests =
        (record_entry-SameStores pf (content r) now (put_request pf (denied r) v2)).requests in
      (
        denied r,
        refl,
        ap (λ x. get id x.1.requests) (rest1 ∙ rest2)
            ∙ ap (get id) kept
            ∙ subst (λ k. get k (put_request pf (denied r) v2).requests ≡ some (denied r))
                (keyed id r stored) (get-put_request pf (denied r) v2),
      )

-- Once a request was denied, no approval of it begins and no further denial of it returns, whoever
-- decides and under whatever policy, in any world in which the stored request is still the one that
-- the denial left.
pub deny_request-final :
    (pf : Platform) (id approver other : String) (now later : ℕ) (reason another : DenialReason)
    (has_store : Bool) (policy : Option String) (w v : World)
    → IsKeyed w.requests
    → (deny_request pf id approver now reason w).0 ≡ ok tt
    → get id v.requests ≡ get id (deny_request pf id approver now reason w).1.requests
    → ((p : PendingRequest × Draft) → (approve_begin pf id other later has_store policy v).0 ≢ ok p)
      × ((deny_request pf id other later another v).0 ≢ ok tt)
unfolding approve_begin
deny_request-final pf id approver other now later reason another has_store policy w v keyed h kept =
    let (r, denied, stored) = denied-stored pf id approver now reason w keyed h in
    let final : (q : PendingRequest) → get id v.requests ≡ some q → is_pending q.status ≡ false =
      λ q found.
        ap (λ z. is_pending z.status) (some-injective q r (sym found ∙ kept ∙ stored)) ∙ denied in
    (
      λ p again.
          let k : PendingRequest → Action (PendingRequest × Draft) = λ r.
            assert_eligible_decider pf id other later r "approve_request"
            >> (recording_failure pf id other later r
                  (issue_begin pf has_store (approved_request r policy))
                >>= λ draft. pure (r, draft)) in
          let (q, found, rest) = bind-eq-ok (get_pending id "approve") k v p again in
          let (there, undecided) = get_pending-pending pf id "approve" q v found in
          absurd (cc (final q there)),
      λ again.
          let (q, there, undecided) = deny_pending pf id other later another v again in
          absurd (cc (final q there)),
    )
