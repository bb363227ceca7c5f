-- ===== src/Token/Issue/Bounds.antt =====
-- What `issueToken` of src/token.ts has established when it issues.
use ambit.Common.{
  ℕ, ◌+◌, ◌*◌, ◌≤◌, ◌<◌, ◌≡◌, refl, ◌⊎◌, leb, ltb, sym, ap, ◌∙◌, subst, inl, inr, Bool, true, false,
  Option, none, some, String, all, includes, given, arith, Bool-cases, some-injective,
}
use ambit.Common.Int.{pos, pos_part, leb_ℤ, ltb_ℤ}
use ambit.Records.{TokenRequest, Token, Policy}
use ambit.Platform.{Platform}
use ambit.Store.{get, Store}
use ambit.World.{World, Action, Result, ok, pure, ◌>>=◌, ◌>>◌, read_clock, draw_bytes}
use ambit.World.Frame.{
  SameStores, SameStores-trans, bind-eq-ok, Keeps, pure-Keeps, raise-Keeps, bind-Keeps, if-Keeps,
}
use ambit.Token.Access.{token_get, policy_get}
use ambit.Token.Access.Reads.{token_get-reads, policy_get-reads, read-eq}
use ambit.Token.Issue.{
  Draft, is_nil, text_or_empty, max_time, date_time, cap_expiry, check_request, check_within,
  check_found, check_policy, capped, make_secret, issue_begin,
}

-- The policy that an approver names, found and satisfied.
pub record IsWithin (request : TokenRequest) (policy : Policy) : Type 0 where
  pub scope : all (includes policy.allowed_scope) request.scope ≡ true
  pub ttl : ltb_ℤ policy.max_ttl_seconds request.ttl_seconds ≡ false

pub ok-injective {ℓ} : {A : Type ℓ} {a b : A} → Result.ok a ≡ ok b → a ≡ b
ok-injective e = cc

-- The expiry is the date that the lifetime gives, or that of the stored parent, which is earlier.
abbrev pub IsExpiry : ℕ → Option String → ℕ → Store Token → Type 0
IsExpiry own parent expires tokens =
    (expires ≡ own)
    ⊎ ((p : Token) × (given parent ≡ true)
        × (get (text_or_empty parent) tokens ≡ some p)
        × (expires ≡ p.expires_at)
        × (p.expires_at < own)
        × (own ≤ max_time))

-- What the checks and the cap of `issueToken` guarantee of a draft.
pub record IsDrafted (pf : Platform) (has_store : Bool) (request : TokenRequest) (d : Draft)
    (w : World) : Type 0 where
  pub subject : d.subject ≡ request.subject
  pub scope : d.scope ≡ request.scope
  pub scope_given : is_nil d.scope ≡ false
  pub ttl_positive : leb_ℤ request.ttl_seconds (pos 0) ≡ false
  pub clocked : d.issued_at ≡ pf.clock (check_policy pf has_store request w).1.clock_reads
  pub expiry :
      IsExpiry
        (date_time (d.issued_at + pos_part request.ttl_seconds * 1000))
        request.parent_token_id
        d.expires_at
        w.tokens
  pub parent : d.parent_token_id ≡ request.parent_token_id
  pub under_parent :
      (p : Token)
      → given request.parent_token_id ≡ true
      → get (text_or_empty request.parent_token_id) w.tokens ≡ some p
      → d.expires_at ≤ max_time
      → d.expires_at ≤ p.expires_at
  pub within_policy :
      given request.policy_id ≡ true
      → (p : Policy) × (get (text_or_empty request.policy_id) w.policies ≡ some p)
        × IsWithin request p

module _ (pf : Platform) where
  check_request-passes :
      (r : TokenRequest) (w : World)
      → (check_request pf r w).0 ≡ ok tt
      → (is_nil r.scope ≡ false) × (leb_ℤ r.ttl_seconds (pos 0) ≡ false)
  unfolding check_request
  check_request-passes r w h = ground arith

  check_within-passes :
      (r : TokenRequest) (p : Policy) (w : World) → (check_within pf r p w).0 ≡ ok tt → IsWithin r p
  unfolding check_within
  check_within-passes r p w h = ground arith

  ruleset keeps = (pure-Keeps, raise-Keeps, bind-Keeps, if-Keeps)

  check_request-same : (r : TokenRequest) (w : World) → (check_request pf r w).1 ≡ w
  unfolding check_request
  check_request-same r w = ground arith

  check_found-Keeps : (r : TokenRequest) (p : Option Policy) → Keeps (check_found pf r p)
  unfolding check_found check_within
  check_found-Keeps r none = search keeps
  check_found-Keeps r (some p) = search keeps

  policy_get-Keeps : (id : String) → Keeps (policy_get pf id)
  policy_get-Keeps id w = (policy_get-reads pf id w).1

  token_get-Keeps : (id : String) → Keeps (token_get pf id)
  token_get-Keeps id w = (token_get-reads pf id w).1

  check_policy-Keeps : (b : Bool) (r : TokenRequest) → Keeps (check_policy pf b r)
  unfolding check_policy
  check_policy-Keeps b r = search (keeps, policy_get-Keeps, check_found-Keeps)

  capped-Keeps : (parent : Option String) (expires : ℕ) → Keeps (capped pf parent expires)
  unfolding capped
  capped-Keeps parent expires = search (keeps, token_get-Keeps)

  read_clock-Keeps : Keeps (read_clock pf)
  unfolding read_clock
  read_clock-Keeps w = record { tokens = refl; policies = refl; requests = refl }

  draw_bytes-Keeps : (size : ℕ) → Keeps (draw_bytes pf size)
  unfolding draw_bytes
  draw_bytes-Keeps size w = record { tokens = refl; policies = refl; requests = refl }

  make_secret-Keeps : Keeps (make_secret pf)
  unfolding make_secret
  make_secret-Keeps = search (keeps, draw_bytes-Keeps)

  check_found-passes :
      (r : TokenRequest) (found : Option Policy) (w : World)
      → (check_found pf r found w).0 ≡ ok tt
      → (p : Policy) × (found ≡ some p) × IsWithin r p
  unfolding check_found
  check_found-passes r none w h = cc
  check_found-passes r (some p) w h = (p, refl, check_within-passes r p w h)

  -- With a policy id, a request that passes is within the policy that is stored under it now.
  check_policy-passes :
      (b : Bool) (r : TokenRequest) (w : World)
      → given r.policy_id ≡ true
      → (check_policy pf b r w).0 ≡ ok tt
      → (p : Policy) × (get (text_or_empty r.policy_id) w.policies ≡ some p) × IsWithin r p
  unfolding check_policy
  check_policy-passes false r w g h = absurd (cc (rw g at h))
  check_policy-passes true r w g h =
      let id = text_or_empty r.policy_id in
      let m = policy_get pf id in
      let (found, read, rest) = bind-eq-ok m (check_found pf r) w tt (rw g at h) in
      let (p, e, within) =
        check_found-passes r found (m w).1 (ap (λ x. x.0) (sym rest) ∙ (rw g at h)) in
      (p, read-eq (m w).0 (get id w.policies) found (policy_get-reads pf id w).0 read ∙ e, within)

  ltb-lt : (m n : ℕ) → ltb m n ≡ true → m < n
  ltb-lt m n h = ground arith

  leb-le : (m n : ℕ) → leb m n ≡ true → m ≤ n
  leb-le m n h = ground arith

  -- The cap is the own expiry, or that of the parent found, which is earlier.
  cap_expiry_lem :
      (own : ℕ) (found : Option Token)
      → (cap_expiry own found ≡ own)
        ⊎ ((p : Token) × (found ≡ some p)
            × (cap_expiry own found ≡ p.expires_at)
            × (p.expires_at < own)
            × (own ≤ max_time))
  cap_expiry_lem own none = inl refl
  cap_expiry_lem own (some q) = elim (Bool-cases (leb own max_time)) [
    | inr f ↦ inl (rw f refl)
    | inl e ↦ elim (Bool-cases (ltb q.expires_at own)) [
      | inr f ↦ inl (rw e (rw f refl))
      | inl l ↦ inr (q, refl, rw e (rw l refl), ltb-lt q.expires_at own l, leb-le own max_time e)
    ]
  ]

  cap_expiry-le :
      (own : ℕ) (found : Option Token) (p : Token)
      → found ≡ some p
      → cap_expiry own found ≤ max_time
      → cap_expiry own found ≤ p.expires_at
  cap_expiry-le own none p e h = absurd (cc)
  cap_expiry-le own (some q) p e h =
      subst (λ x. cap_expiry own (some q) ≤ x.expires_at) (some-injective q p e) (under own q h)
    where
      under :
          (own : ℕ) (q : Token)
          → cap_expiry own (some q) ≤ max_time
          → cap_expiry own (some q) ≤ q.expires_at
      under own q h = ground arith

  -- The expiry of `IsExpiry`; a date under a parent that is stored is the parent's at most.
  capped-passes :
      (parent : Option String) (own e : ℕ) (w : World)
      → (capped pf parent own w).0 ≡ ok e
      → IsExpiry own parent e w.tokens
        × ((p : Token)
            → given parent ≡ true
            → get (text_or_empty parent) w.tokens ≡ some p
            → e ≤ max_time
            → e ≤ p.expires_at)
  unfolding capped
  capped-passes parent own e w h = elim (Bool-cases (given parent)) [
    | inr absent ↦
        let same : own ≡ e = ok-injective (rw absent at h) in (inl (sym same), λ p g. absurd (cc))
    | inl present ↦
        let m = token_get pf (text_or_empty parent) in
        let (found, read, rest) =
          bind-eq-ok m (λ f. pure (cap_expiry own f)) w e (rw present at h) in
        let at_found =
          read-eq (m w).0 (get (text_or_empty parent) w.tokens) found
            (token_get-reads pf (text_or_empty parent) w).0 read in
        let same : cap_expiry own found ≡ e =
          ok-injective (ap (λ x. x.0) (sym rest) ∙ (rw present at h)) in
        (
          elim (cap_expiry_lem own found) [
            | inl q ↦ inl (sym same ∙ q)
            | inr (p, f, q, l, m) ↦ inr (p, present, at_found ∙ f, sym same ∙ q, l, m)
          ],
          λ p g q.
              subst (λ x. x ≤ max_time → x ≤ p.expires_at) same
                (cap_expiry-le own found p (sym at_found ∙ q)),
        )
  ]

  -- What the steps before the secret have found, in one place.
  assemble :
      (b : Bool) (r : TokenRequest) (w : World) (now e : ℕ) (secret hash : String) (v1 v3 : World)
      → (check_request pf r w).0 ≡ ok tt
      → (check_policy pf b r v1).0 ≡ ok tt
      → (capped pf r.parent_token_id (date_time (now + pos_part r.ttl_seconds * 1000)) v3).0 ≡ ok e
      → v1 ≡ w
      → now ≡ pf.clock (check_policy pf b r v1).1.clock_reads
      → SameStores v3 w
      → IsDrafted pf b r
          (record {
            subject = r.subject;
            scope = r.scope;
            issued_at = now;
            expires_at = e;
            parent_token_id = r.parent_token_id;
            secret = secret;
            secret_hash = hash;
          })
          w
  assemble b r w now e secret hash v1 v3 checked allowed under s1 clocked s3 =
      let (scoped, positive) = check_request-passes r w checked in
      let (expiry, below) =
        capped-passes r.parent_token_id (date_time (now + pos_part r.ttl_seconds * 1000)) e v3
          under in
      record {
        subject = refl;
        scope = refl;
        scope_given = scoped;
        ttl_positive = positive;
        clocked = clocked ∙ ap (λ x. pf.clock (check_policy pf b r x).1.clock_reads) s1;
        expiry =
            subst
              (λ x.
                IsExpiry (date_time (now + pos_part r.ttl_seconds * 1000)) r.parent_token_id e x)
              s3.tokens expiry;
        parent = refl;
        under_parent = λ p g q. below p g (ap (get _) s3.tokens ∙ q);
        within_policy = λ g.
            (let (p, q, within) = check_policy-passes b r v1 g allowed in
              (p, ap (λ x. get (text_or_empty r.policy_id) x.policies) (sym s1) ∙ q, within));
      }

  pub issue_begin-drafts :
      (has_store : Bool) (request : TokenRequest) (d : Draft) (w : World)
      → (issue_begin pf has_store request w).0 ≡ ok d
      → IsDrafted pf has_store request d w
  unfolding issue_begin
  issue_begin-drafts b r d w h =
      let drafted : ℕ → ℕ → String × String → Draft = λ now e s. record {
        subject = r.subject;
        scope = r.scope;
        issued_at = now;
        expires_at = e;
        parent_token_id = r.parent_token_id;
        secret = s.0;
        secret_hash = s.1;
      } in
      let k4 : ℕ → ℕ → Action Draft = λ now e. make_secret pf >>= λ s. pure (drafted now e s) in
      let k3 : ℕ → Action Draft = λ now.
        capped pf r.parent_token_id (date_time (now + pos_part r.ttl_seconds * 1000)) >>= k4 now in
      let k2 : Action Draft = read_clock pf >>= k3 in
      let m1 = check_request pf r in
      let m2 = check_policy pf b r in
      let (u1, checked, rest1) = bind-eq-ok m1 (λ _. m2 >> k2) w d h in
      let v1 = (m1 w).1 in
      let h1 = ap (λ x. x.0) (sym rest1) ∙ h in
      let (u2, allowed, rest2) = bind-eq-ok m2 (λ _. k2) v1 d h1 in
      let v2 = (m2 v1).1 in
      let h2 = ap (λ x. x.0) (sym rest2) ∙ h1 in
      let (now, clock, rest3) = bind-eq-ok (read_clock pf) k3 v2 d h2 in
      let v3 = (read_clock pf v2).1 in
      let h3 = ap (λ x. x.0) (sym rest3) ∙ h2 in
      let m4 = capped pf r.parent_token_id (date_time (now + pos_part r.ttl_seconds * 1000)) in
      let (e, under, rest4) = bind-eq-ok m4 (k4 now) v3 d h3 in
      let v4 = (m4 v3).1 in
      let h4 = ap (λ x. x.0) (sym rest4) ∙ h3 in
      let (s, made, rest5) = bind-eq-ok (make_secret pf) (λ s. pure (drafted now e s)) v4 d h4 in
      let same : drafted now e s ≡ d = ok-injective (ap (λ x. x.0) (sym rest5) ∙ h4) in
      let s1 = check_request-same r w in
      let s2 = subst (SameStores v2) s1 (check_policy-Keeps b r v1) in
      let s3 = SameStores-trans v3 v2 w (read_clock-Keeps v2) s2 in
      subst (λ x. IsDrafted pf b r x w) same
        (assemble b r w now e s.0 s.1 v1 v3 checked allowed under s1 (sym (ok-injective clock)) s3)
