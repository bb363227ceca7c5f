-- ===== src/Requests/Updates.antt =====
-- What the decisions, the escalations, the claims and the submissions of src/tokenRequest.ts do to the
-- stored requests: none changes the id, the subject or the idempotency key of a request that is held.
pub mod Approval
use ambit.Common.{
  ℕ, ◌≡◌, refl, sym, ap, ◌∙◌, subst, inl, inr, Bool, ◌&&◌, Option, none, some, String, given,
  str_eq, Bool-cases, lookup,
}
use ambit.Records.{
  Token, IssuedToken, request_approved, PendingRequest, RequestStatus, fields, token_secret_claimed,
  request_escalated, request_denied,
}
use ambit.Platform.{Platform}
use ambit.Store.{Store, get, save}
use ambit.World.{
  World, Action, Result, ok, throw, pure, ◌>>=◌, ◌>>◌, record_entry, Error, raise, draw_uuid,
  write_entry,
}
use ambit.Token.Issue.{text_or_empty, Draft, token_of, issue_finish}
use ambit.Token.Access.{token_save, put_token}
use ambit.World.Frame.{
  guarded-Guarded, SameStores, SameStores-refl, SameStores-trans, Keeps, pure-Keeps, raise-Keeps,
  bind-Keeps, if-Keeps, bind-ok, bind-throw, record_entry-SameStores,
}
use ambit.Requests.{
  get_request, get_pending, require_pending, is_pending, put_request, save_request, for_persistence,
}
use ambit.Requests.Decide.{
  recording_failure, record_failure, is_recorded, approve_finish, DenialReason, denial_text,
  assert_eligible_decider, deny_request, escalate, escalate_if_due, is_due, check_request_timeout,
}
use ambit.Requests.Claim.{reject_subject, hand_over, claim_found, claim_token_secret, is_approved}
use ambit.Requests.Submit.{
  Submission, pending_of, request_token, submit_or_reuse, submit_new, find_existing,
}
use ambit.Requests.Idempotent.{Updates, submit_new-stores}
use ambit.Requests.Once.{IsKeyed, deny_found, get_pending-pending, assert_eligible_decider-Keeps}

-- The action only updates the requests of `w` when it is run in `v`.
abbrev UpdatesIn {ℓ} : {A : Type ℓ} → Action A → World → World → Type 0
UpdatesIn m w v = Updates w.requests.items (m v).1.requests.items

Keeps-UpdatesIn {ℓ} :
    {A : Type ℓ} (m : Action A) (w v : World)
    → Keeps m
    → Updates w.requests.items v.requests.items
    → UpdatesIn m w v
Keeps-UpdatesIn m w v keeps u =
    subst (λ s. Updates w.requests.items s.items) (sym (keeps v).requests) u

bind-UpdatesIn {ℓ κ} :
    {A : Type ℓ} {B : Type κ} (m : Action A) (f : A → Action B) (w v : World)
    → UpdatesIn m w v
    → ((a : A) → (m v).0 ≡ ok a → UpdatesIn (f a) w (m v).1)
    → UpdatesIn (m >>= f) w v
bind-UpdatesIn {A} m f w v first rest = go (m v).0 refl
  where
    go : (r : Result A) → (m v).0 ≡ r → UpdatesIn (m >>= f) w v
    go (ok a) e =
        subst (λ x. Updates w.requests.items x.1.requests.items) (sym (bind-ok m f a v e))
          (rest a e)
    go (throw x) e =
        subst (λ x. Updates w.requests.items x.1.requests.items) (sym (bind-throw m f x v e)) first

module _ (pf : Platform) (id : String) (w : World) (keyed : IsKeyed w.requests) where
  -- A changed copy of a stored request is saved.
  save_request-UpdatesIn :
      (r changed : PendingRequest) (v : World)
      → get id w.requests ≡ some r
      → changed.id ≡ r.id
      → changed.subject ≡ r.subject
      → changed.idempotency_key ≡ r.idempotency_key
      → SameStores v w
      → UpdatesIn (save_request pf changed) w v
  unfolding save_request put_request save get
  save_request-UpdatesIn r changed v held own subject key same =
      subst
        (λ s.
          Updates w.requests.items
            (save changed.id changed (pf.json_request (for_persistence changed)) s).items)
        (sym same.requests)
        (Updates.saved w.requests.items r changed Updates.same
          (ap (λ k. lookup k w.requests.items) (own ∙ keyed id r held) ∙ held) own subject key)

  save_then-UpdatesIn {ℓ} :
      {A : Type ℓ} (r changed : PendingRequest) (rest : Action A) (v : World)
      → get id w.requests ≡ some r
      → changed.id ≡ r.id
      → changed.subject ≡ r.subject
      → changed.idempotency_key ≡ r.idempotency_key
      → SameStores v w
      → Keeps rest
      → UpdatesIn (save_request pf changed >> rest) w v
  save_then-UpdatesIn r changed rest v held own subject key same keeps =
      let saved = save_request-UpdatesIn r changed v held own subject key same in
      bind-UpdatesIn (save_request pf changed) (λ _. rest) w v saved
        (λ _ e. Keeps-UpdatesIn rest w (save_request pf changed v).1 keeps saved)

  ruleset keeps = (
    pure-Keeps, raise-Keeps, bind-Keeps, if-Keeps, record_entry-SameStores, SameStores-refl,
    Keeps-UpdatesIn,
  )

  hand_over-UpdatesIn :
      (subject : String) (now : ℕ) (r : PendingRequest)
      → get id w.requests ≡ some r
      → UpdatesIn (hand_over pf id subject now r) w w
  unfolding hand_over
  hand_over-UpdatesIn subject now r held =
      let changed : PendingRequest = record r { token_secret = none } in
      let rest : Action (String × String) =
        record_entry pf
          (record (fields subject "claim_token_secret" token_secret_claimed) {
            request_id = some id;
            token_id = r.token_id;
          })
          now
        >> pure (text_or_empty r.token_id, text_or_empty r.token_secret) in
      save_then-UpdatesIn r changed rest w held refl refl refl (SameStores-refl w) (search keeps)

  escalate-UpdatesIn :
      (window now : ℕ) (backup : String) (r : PendingRequest)
      → get id w.requests ≡ some r
      → UpdatesIn (escalate pf id window now backup r) w w
  unfolding escalate
  escalate-UpdatesIn window now backup r held =
      let changed : PendingRequest = record r { assigned_approver = some backup } in
      let rest : Action (Unit {0}) =
        record_entry pf
          (record (fields r.subject "escalate_request" request_escalated) {
            request_id = some r.id;
            reason_code = some "decision_window_expired";
          })
          now in
      save_then-UpdatesIn r changed rest w held refl refl refl (SameStores-refl w) (search keeps)

  escalate_if_due-UpdatesIn :
      (window now : ℕ) (backup : String) (found : Option PendingRequest)
      → get id w.requests ≡ found
      → UpdatesIn (escalate_if_due pf id window now backup found) w w
  unfolding escalate_if_due
  escalate_if_due-UpdatesIn window now backup none e = Updates.same
  escalate_if_due-UpdatesIn window now backup (some r) e =
      elim (Bool-cases (is_due pf id window now backup r)) [
        | inl due ↦ rw due (escalate-UpdatesIn window now backup r e)
        | inr early ↦ rw early Updates.same
      ]

  -- An escalation that is due, or not.
  pub check_request_timeout-Updates :
      (window now : ℕ) (backup : Option String)
      → Updates w.requests.items (check_request_timeout pf id window now backup w).1.requests.items
  unfolding check_request_timeout get_request
  check_request_timeout-Updates window now backup = elim (Bool-cases (given backup)) [
    | inl e ↦
        rw e (escalate_if_due-UpdatesIn window now (text_or_empty backup) (get id w.requests) refl)
    | inr e ↦ rw e Updates.same
  ]

  claim_found-UpdatesIn :
      (subject : String) (now : ℕ) (found : Option PendingRequest)
      → get id w.requests ≡ found
      → UpdatesIn (claim_found pf id subject now found) w w
  unfolding claim_found reject_subject
  claim_found-UpdatesIn subject now none e = Updates.same
  claim_found-UpdatesIn subject now (some r) e = elim (Bool-cases (str_eq r.subject subject)) [
    | inr stranger ↦
        rw stranger
          (Keeps-UpdatesIn (reject_subject pf id subject now r) w w (search keeps) Updates.same)
    | inl owner ↦ elim (Bool-cases (is_approved r.status && given r.token_id)) [
      | inr early ↦ rw (owner, early) Updates.same
      | inl ready ↦ elim (Bool-cases (given r.token_secret)) [
        | inr claimed ↦ rw (owner, ready, claimed) Updates.same
        | inl secret ↦ rw (owner, ready, secret) (hand_over-UpdatesIn subject now r e)
      ]
    ]
  ]

  -- A claim of a request's secret, whatever comes of it.
  pub claim_token_secret-Updates :
      (subject : String) (now : ℕ)
      → Updates w.requests.items (claim_token_secret pf id subject now w).1.requests.items
  unfolding claim_token_secret get_request
  claim_token_secret-Updates subject now =
      claim_found-UpdatesIn subject now (get id w.requests) refl

  deny_found-UpdatesIn :
      (approver : String) (now : ℕ) (reason : DenialReason) (r : PendingRequest) (v : World)
      → get id w.requests ≡ some r
      → SameStores v w
      → UpdatesIn (deny_found pf id approver now reason r) w v
  unfolding deny_found
  deny_found-UpdatesIn approver now reason r v held same =
      let check = assert_eligible_decider pf id approver now r "deny_request" in
      let checked = assert_eligible_decider-Keeps pf id approver now r "deny_request" in
      let changed : PendingRequest = record r { status = RequestStatus.denied } in
      let rest : Action (Unit {0}) =
        record_entry pf
          (record (fields r.subject "deny_request" request_denied) {
            request_id = some id;
            actor = some approver;
            reason_code = some (denial_text reason);
          })
          now in
      bind-UpdatesIn check (λ _. save_request pf changed >> rest) w v
        (Keeps-UpdatesIn check w v checked
          (subst (λ s. Updates w.requests.items s.items) (sym same.requests) Updates.same))
        (λ _ e.
          save_then-UpdatesIn r changed rest (check v).1 held refl refl refl
            (SameStores-trans (check v).1 v w (checked v) same) (search keeps))

  get_pending-same : (verb : String) → SameStores (get_pending id verb w).1 w
  unfolding get_pending get_request require_pending
  get_pending-same verb = go (get id w.requests)
    where
      go : (found : Option PendingRequest) → SameStores (require_pending id verb found w).1 w
      go none = SameStores-refl w
      go (some r) = elim (Bool-cases (is_pending r.status)) [
        | inl e ↦ rw e (SameStores-refl w)
        | inr e ↦ rw e (SameStores-refl w)
      ]

  -- A denial, whatever comes of it.
  pub deny_request-Updates :
      (approver : String) (now : ℕ) (reason : DenialReason)
      → Updates w.requests.items (deny_request pf id approver now reason w).1.requests.items
  unfolding deny_request deny_found
  deny_request-Updates approver now reason =
      let same = get_pending-same "deny" in
      bind-UpdatesIn (get_pending id "deny") (deny_found pf id approver now reason) w w
        (subst (λ s. Updates w.requests.items s.items) (sym same.requests) Updates.same)
        (λ r e.
          let (held, undecided) = get_pending-pending pf id "deny" r w e in
          deny_found-UpdatesIn approver now reason r (get_pending id "deny" w).1 held same)

-- A submission whose new id is not in use, whatever comes of it.
pub request_token-Updates :
    (pf : Platform) (approver : Option String) (now : ℕ) (s : Submission) (w : World)
    → get (pf.random_uuid w.uuids_drawn) w.requests ≡ none
    → Updates w.requests.items (request_token pf approver now s w).1.requests.items
unfolding request_token submit_or_reuse put_request save get
request_token-Updates pf approver now s w new = go (find_existing s w)
  where
    go :
        (found : Option PendingRequest)
        → Updates w.requests.items (submit_or_reuse pf approver now s found w).1.requests.items
    go (some r) = Updates.same
    go none =
        let (returns, stored) = submit_new-stores pf approver now s w in
        let r = pending_of s (pf.random_uuid w.uuids_drawn) approver now in
        subst (λ x. Updates w.requests.items x.items) (sym stored)
          (Updates.added w.requests.items r Updates.same new)
