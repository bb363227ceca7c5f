-- ===== src/Requests/Idempotent.antt =====
-- A resubmission under one idempotency key in src/tokenRequest.ts makes no second request.
use ambit.Common.{
  ℕ, false, some-injective, ◌⊎◌, lookup, ◌+◌, ◌≡◌, refl, sym, ap, ◌∙◌, inl, inr, Bool, true, ◌&&◌,
  Option, none, some, [], ◌∷◌, String, Dict, given, str_eq, eq_iff, is_some_eq, find, values,
  insert, Bool-cases,
}
use ambit.Records.{PendingRequest, fields, request_submitted}
use ambit.Platform.{Platform}
use ambit.Store.{save}
use ambit.Anomaly.{check, AnomalyResult}
use ambit.World.{World, ok, pure, draw_uuid, record_entry, write_entry}
use ambit.World.Frame.{bind-ok}
use ambit.Token.Issue.{text_or_empty}
use ambit.Token.Issue.Bounds.{ok-injective}
use ambit.Requests.{put_request, save_request, find_by_idempotency_key}
use ambit.Requests.Submit.{
  Submission, find_existing, pending_of, check_anomaly, report_anomaly, submit_new, submit_or_reuse,
  request_token,
}

-- The first one that is found after a set, where none was before.
find-insert :
    (p : PendingRequest → Bool) (id : String) (r : PendingRequest) (m : Dict PendingRequest)
    → find p (values m) ≡ none
    → p r ≡ true
    → find p (values (insert id r m)) ≡ some r
unfolding insert
find-insert p id r [] h holds = rw holds refl
find-insert p id r ((at, old) ∷ m) h holds = elim (Bool-cases (p old)) [
  | inl e ↦ absurd (cc (rw e at h))
  | inr e ↦ elim (Bool-cases (str_eq at id)) [
    | inl here ↦ rw (here, holds) refl
    | inr there ↦ rw (there, e) (find-insert p id r m (rw e at h) holds)
  ]
]

module _ (pf : Platform) (approver : Option String) (now : ℕ) where
  -- The report of an anomaly returns, and touches no request.
  report_anomaly-returns :
      (r : PendingRequest) (a : AnomalyResult) (v : World)
      → ((report_anomaly pf approver now r a v).0 ≡ ok tt)
        × ((report_anomaly pf approver now r a v).1.requests ≡ v.requests)
  unfolding report_anomaly record_entry write_entry
  report_anomaly-returns r a v = elim (Bool-cases a.anomalous) [
    | inl e ↦ rw e (refl, refl)
    | inr e ↦ rw e (refl, refl)
  ]

  -- A new submission returns the request that it has stored.
  pub submit_new-stores :
      (s : Submission) (w : World)
      → let r = pending_of s (pf.random_uuid w.uuids_drawn) approver now in
        ((submit_new pf approver now s w).0 ≡ ok r)
        × ((submit_new pf approver now s w).1.requests ≡ (put_request pf r w).requests)
  unfolding submit_new draw_uuid save_request put_request record_entry write_entry check_anomaly
  submit_new-stores s w =
      let id = pf.random_uuid w.uuids_drawn in
      let r = pending_of s id approver now in
      let stored : World = put_request pf r (record w { uuids_drawn = w.uuids_drawn + 1 }) in
      let logged =
        write_entry pf
          (record (fields s.subject "request_token" request_submitted) { request_id = some id }) now
          stored in
      let (d, a) = check s.subject s.scope now logged.detector in
      let v : World = record logged { detector = d } in
      let (returns, same) = report_anomaly-returns r a v in
      let after = bind-ok (report_anomaly pf approver now r a) (λ _. pure r) tt v returns in
      (ap (λ x. x.0) after, ap (λ x. x.1.requests) after ∙ same)

own-key : (key : Option String) → given key ≡ true → is_some_eq key (text_or_empty key) ≡ true
own-key none h = absurd (cc)
own-key (some k) h = (eq_iff k k).1 refl

-- The request that a submission makes is the one that its key finds.
find_existing-stored :
    (pf : Platform) (s : Submission) (id : String) (approver : Option String) (now : ℕ)
    (w v : World)
    → given s.idempotency_key ≡ true
    → find_existing s w ≡ none
    → v.requests ≡ (put_request pf (pending_of s id approver now) w).requests
    → find_existing s v ≡ some (pending_of s id approver now)
unfolding find_existing find_by_idempotency_key put_request save
find_existing-stored pf s id approver now w v keyed absent same =
    let r = pending_of s id approver now in
    let p : PendingRequest → Bool = λ x.
      str_eq x.subject s.subject
      && is_some_eq x.idempotency_key (text_or_empty s.idempotency_key) in
    let holds : p r ≡ true =
      rw ((eq_iff s.subject s.subject).1 refl) (own-key s.idempotency_key keyed) in
    let before : find p (values w.requests.items) ≡ none = rw keyed at absent in
    rw keyed
      (ap (λ x. find p (values x.items)) same ∙ find-insert p id r w.requests.items before holds)

-- A submission that returns leaves its request where its key finds it.
request_token-finds :
    (pf : Platform) (approver : Option String) (now : ℕ) (s : Submission) (r : PendingRequest)
    (w : World)
    → given s.idempotency_key ≡ true
    → (request_token pf approver now s w).0 ≡ ok r
    → find_existing s (request_token pf approver now s w).1 ≡ some r
unfolding request_token submit_or_reuse
request_token-finds pf approver now s r w keyed h = go (find_existing s w) refl h
  where
    go :
        (found : Option PendingRequest)
        → find_existing s w ≡ found
        → (submit_or_reuse pf approver now s found w).0 ≡ ok r
        → find_existing s (submit_or_reuse pf approver now s found w).1 ≡ some r
    go (some e) at g = at ∙ ap some (ok-injective g)
    go none at g =
        let (returns, same) = submit_new-stores pf approver now s w in
        find_existing-stored pf s (pf.random_uuid w.uuids_drawn) approver now w
          (submit_new pf approver now s w).1 keyed at same
        ∙ ap some (ok-injective (sym returns ∙ g))

-- What is found depends on the subject and the key only.
same-key :
    (s again : Submission) (v : World)
    → again.subject ≡ s.subject
    → again.idempotency_key ≡ s.idempotency_key
    → find_existing again v ≡ find_existing s v
unfolding find_existing
same-key s again v subject key = rw (subject, key) refl

reused :
    (pf : Platform) (approver : Option String) (now : ℕ) (s : Submission) (r : PendingRequest)
    (v : World)
    → find_existing s v ≡ some r
    → request_token pf approver now s v ≡ (ok r, v)
unfolding request_token submit_or_reuse
reused pf approver now s r v h = ap (λ found. submit_or_reuse pf approver now s found v) h

-- From one map of requests to another: saves of requests that it holds, which leave the id, the
-- subject and the idempotency key as they are, and saves of requests under new ids.
pub data Updates (before : Dict PendingRequest) : Dict PendingRequest → Type 0 where
  same : Updates before before
  saved :
      (m : Dict PendingRequest) (old r : PendingRequest)
      → Updates before m
      → lookup r.id m ≡ some old
      → r.id ≡ old.id
      → r.subject ≡ old.subject
      → r.idempotency_key ≡ old.idempotency_key
      → Updates before (insert r.id r m)
  added :
      (m : Dict PendingRequest) (r : PendingRequest)
      → Updates before m
      → lookup r.id m ≡ none
      → Updates before (insert r.id r m)

-- A save under an id that is held, which the test does not tell from what is held.
find-saved :
    (p : PendingRequest → Bool) (old r q : PendingRequest) (m : Dict PendingRequest)
    → lookup r.id m ≡ some old
    → p r ≡ p old
    → find p (values m) ≡ some q
    → (find p (values (insert r.id r m)) ≡ some q)
      ⊎ ((find p (values (insert r.id r m)) ≡ some r) × (q ≡ old))
unfolding insert lookup
find-saved p old r q [] held alike found = absurd (cc)
find-saved p old r q ((at, x) ∷ m) held alike found = elim (Bool-cases (str_eq at r.id)) [
  | inl here ↦
      let is_old : x ≡ old = some-injective x old (rw here at held) in
      elim (Bool-cases (p x)) [
        | inl e ↦
            let now : p r ≡ true = alike ∙ ap p (sym is_old) ∙ e in
            inr (rw (here, now) refl, sym (some-injective x q (rw e at found)) ∙ is_old)
        | inr e ↦
            let now : p r ≡ false = alike ∙ ap p (sym is_old) ∙ e in
            inl (rw (here, now) (rw e at found))
      ]
  | inr there ↦ elim (Bool-cases (p x)) [
    | inl e ↦ inl (rw (there, e) (rw e at found))
    | inr e ↦ rw (there, e) (find-saved p old r q m (rw there at held) alike (rw e at found))
  ]
]

-- A save under a new id comes last.
find-added :
    (p : PendingRequest → Bool) (r q : PendingRequest) (m : Dict PendingRequest)
    → lookup r.id m ≡ none
    → find p (values m) ≡ some q
    → find p (values (insert r.id r m)) ≡ some q
unfolding insert lookup
find-added p r q [] new found = absurd (cc)
find-added p r q ((at, x) ∷ m) new found = elim (Bool-cases (str_eq at r.id)) [
  | inl here ↦ absurd (cc (rw here at new))
  | inr there ↦ elim (Bool-cases (p x)) [
    | inl e ↦ rw (there, e) (rw e at found)
    | inr e ↦ rw (there, e) (find-added p r q m (rw there at new) (rw e at found))
  ]
]

-- The test of `findByIdempotencyKey`.
has_key : String → String → PendingRequest → Bool
has_key subject key r = str_eq r.subject subject && is_some_eq r.idempotency_key key

-- The request that a subject's key finds keeps its id.
Updates-finds :
    (subject key : String) (before after : Dict PendingRequest) (r : PendingRequest)
    → Updates before after
    → find (has_key subject key) (values before) ≡ some r
    → (q : PendingRequest) × (q.id ≡ r.id) × (find (has_key subject key) (values after) ≡ some q)
unfolding has_key
Updates-finds subject key before after r same h = (r, refl, h)
Updates-finds subject key before after r (saved m old s u held own subjects keys) h =
    let (q, e, found) = Updates-finds subject key before m r u h in
    let alike : has_key subject key s ≡ has_key subject key old = rw (subjects, keys) refl in
    elim (find-saved (has_key subject key) old s q m held alike found) [
      | inl kept ↦ (q, e, kept)
      | inr (replaced, old_one) ↦ (s, own ∙ ap (λ x. x.id) (sym old_one) ∙ e, replaced)
    ]
Updates-finds subject key before after r (added m s u new) h =
    let (q, e, found) = Updates-finds subject key before m r u h in
    (q, e, find-added (has_key subject key) s q m new found)

-- So for what a submission finds.
find_existing-Updates :
    (s : Submission) (w v : World) (r : PendingRequest)
    → given s.idempotency_key ≡ true
    → Updates w.requests.items v.requests.items
    → find_existing s w ≡ some r
    → (q : PendingRequest) × (q.id ≡ r.id) × (find_existing s v ≡ some q)
unfolding find_existing find_by_idempotency_key has_key
find_existing-Updates s w v r keyed u h =
    let found : find (has_key s.subject (text_or_empty s.idempotency_key)) (values w.requests.items)
        ≡ some r =
      rw keyed at h in
    let (q, e, now) =
      Updates-finds s.subject (text_or_empty s.idempotency_key) w.requests.items v.requests.items r
        u found in
    (q, e, rw keyed now)

-- A later submission of the same subject with the same key, whatever else it asks for, returns the
-- request that the first one returned, as it is stored by then, and changes nothing. Later is any
-- world whose requests are those that the first submission left, after saves that leave the ids, the
-- subjects and the keys of the requests held as they are, and saves of requests under new ids.
pub request_token-idempotent :
    (pf : Platform) (approver backup : Option String) (now later : ℕ) (s again : Submission)
    (r : PendingRequest) (w v : World)
    → given s.idempotency_key ≡ true
    → again.subject ≡ s.subject
    → again.idempotency_key ≡ s.idempotency_key
    → (request_token pf approver now s w).0 ≡ ok r
    → Updates (request_token pf approver now s w).1.requests.items v.requests.items
    → (q : PendingRequest) × (q.id ≡ r.id) × (request_token pf backup later again v ≡ (ok q, v))
request_token-idempotent pf approver backup now later s again r w v keyed subject key h u =
    let after = (request_token pf approver now s w).1 in
    let (q, own, found) =
      find_existing-Updates s after v r keyed u
        (request_token-finds pf approver now s r w keyed h) in
    (q, own, reused pf backup later again q v (same-key s again v subject key ∙ found))
