-- ===== src/Requests/Updates/Approval.antt =====
-- What `approveRequest` of src/tokenRequest.ts does to the stored requests once the secret of the new
-- token is hashed.
use ambit.Common.{ℕ, ◌≡◌, refl, sym, ap, ◌∙◌, subst, inl, inr, Option, some, String}
use ambit.Records.{Token, IssuedToken, request_approved, PendingRequest, RequestStatus, fields}
use ambit.Platform.{Platform}
use ambit.Store.{get, save}
use ambit.World.{
  World, Action, Result, ok, throw, pure, ◌>>=◌, ◌>>◌, record_entry, Error, draw_uuid,
}
use ambit.Token.Issue.{Draft, token_of, issue_finish}
use ambit.Token.Access.{token_save, put_token}
use ambit.World.Frame.{
  Keeps, if-Keeps, raise-Keeps, guarded-Guarded, bind-Keeps, bind-ok, bind-throw,
  record_entry-SameStores,
}
use ambit.Requests.{put_request, save_request, for_persistence}
use ambit.Requests.Decide.{recording_failure, record_failure, approve_finish}
use ambit.Requests.Idempotent.{Updates}
use ambit.Requests.Updates.{UpdatesIn, Keeps-UpdatesIn, bind-UpdatesIn}

-- The action leaves the stored requests as they are.
KeepsRequests {ℓ} : {A : Type ℓ} → Action A → Type 0
KeepsRequests m = (v : World) → (m v).1.requests ≡ v.requests

bind-KeepsRequests {ℓ κ} :
    {A : Type ℓ} {B : Type κ} (m : Action A) (f : A → Action B)
    → KeepsRequests m
    → ((a : A) → KeepsRequests (f a))
    → KeepsRequests (m >>= f)
unfolding KeepsRequests
bind-KeepsRequests {A} m f first rest v = go (m v).0 refl
  where
    go : (r : Result A) → (m v).0 ≡ r → ((m >>= f) v).1.requests ≡ v.requests
    go (ok a) e = ap (λ x. x.1.requests) (bind-ok m f a v e) ∙ rest a (m v).1 ∙ first v
    go (throw x) e = ap (λ x. x.1.requests) (bind-throw m f x v e) ∙ first v

module _ (pf : Platform) where
  token_save-KeepsRequests : (t : Token) → KeepsRequests (token_save pf t)
  unfolding KeepsRequests token_save put_token
  token_save-KeepsRequests t w =
      let (read, same, done) =
        guarded-Guarded {0} pf {A = Unit {0}} (λ v. (tt, put_token pf t v)) w in
      elim done [
        | inl (e, s) ↦ s.requests ∙ same.requests
        | inr (e, s) ↦ s.requests ∙ same.requests
      ]

  issue_finish-KeepsRequests : (d : Draft) → KeepsRequests (issue_finish pf d)
  unfolding KeepsRequests issue_finish draw_uuid
  issue_finish-KeepsRequests d =
      let last : String → Action IssuedToken =
        λ id. pure (record { token = token_of d id; secret = d.secret }) in
      let k : String → Action IssuedToken = λ id. token_save pf (token_of d id) >> last id in
      bind-KeepsRequests (draw_uuid pf) k (λ v. refl)
        (λ id.
          bind-KeepsRequests (token_save pf (token_of d id)) (λ _. last id)
            (token_save-KeepsRequests (token_of d id)) (λ _ v. refl))

  module _ (id approver : String) (now : ℕ) where
    record_failure-Keeps :
        (A : Type 0) (r : PendingRequest) (e : Error)
        → Keeps (record_failure pf id approver now A r e)
    unfolding record_failure
    record_failure-Keeps A r e = search (if-Keeps, bind-Keeps, raise-Keeps, record_entry-SameStores)

    recording_failure-KeepsRequests :
        {A : Type 0} (r : PendingRequest) (m : Action A)
        → KeepsRequests m
        → KeepsRequests (recording_failure pf id approver now r m)
    unfolding KeepsRequests recording_failure
    recording_failure-KeepsRequests {A} r m keeps v = go (m v).0
      where
        go :
            (x : Result A)
            → (elim x as (λ _. Result A × World) [
              | ok a ↦ (ok a, (m v).1)
              | throw e ↦ record_failure pf id approver now A r e (m v).1
            ]).1.requests
              ≡ v.requests
        go (ok a) = keeps v
        go (throw e) = (record_failure-Keeps A r e (m v).1).requests ∙ keeps v

    -- The end of an approval, which saves the request that the first segment has read, whatever
    -- comes of it: what is held under its id by now has the same subject and key.
    pub approve_finish-Updates :
        (policy : Option String) (r old : PendingRequest) (d : Draft) (w : World)
        → get r.id w.requests ≡ some old
        → r.id ≡ old.id
        → r.subject ≡ old.subject
        → r.idempotency_key ≡ old.idempotency_key
        → Updates w.requests.items (approve_finish pf id approver now policy r d w).1.requests.items
    unfolding KeepsRequests approve_finish get save_request put_request save
    approve_finish-Updates policy r old d w held own subject key =
        let approved : IssuedToken → PendingRequest = λ issued. record r {
          status = RequestStatus.approved;
          token_id = some issued.token.id;
          token_secret = some issued.secret;
        } in
        let last : IssuedToken → Action Token = λ issued.
          record_entry pf
            (record (fields r.subject "approve_request" request_approved) {
              request_id = some id;
              token_id = some issued.token.id;
              policy_id = policy;
              actor = some approver;
            })
            now
          >> pure issued.token in
        let m = recording_failure pf id approver now r (issue_finish pf d) in
        let kept =
          recording_failure-KeepsRequests r (issue_finish pf d) (issue_finish-KeepsRequests d) w in
        bind-UpdatesIn m (λ issued. save_request pf (approved issued) >> last issued) w w
          (subst (λ s. Updates w.requests.items s.items) (sym kept) Updates.same)
          (λ issued e.
            let v = (m w).1 in
            let saved : UpdatesIn (save_request pf (approved issued)) w v =
              subst
                (λ s.
                  Updates w.requests.items
                    (save r.id (approved issued)
                      (pf.json_request (for_persistence (approved issued))) s).items)
                (sym kept)
                (Updates.saved w.requests.items old (approved issued) Updates.same held own subject
                  key) in
            bind-UpdatesIn (save_request pf (approved issued)) (λ _. last issued) w v saved
              (λ _ f.
                Keeps-UpdatesIn (last issued) w (put_request pf (approved issued) v)
                  (search (bind-Keeps, record_entry-SameStores)) saved))
