-- ===== src/Agents/Credentials.antt =====
-- The credentials of src/agentIdentity.ts: who is let in, and that a registered agent is.
use ambit.Common.{
  ℕ, ◌+◌, ◌≡◌, refl, sym, ap, ◌∙◌, inl, inr, true, false, ◌||◌, Option, none, some, some-injective,
  [], ◌∷◌, String, str_eq, cut, template, length, All, Excludes, cut-template, Bool-cases, arith,
  lookup-insert_self,
}
use ambit.Records.{AgentIdentity}
use ambit.Platform.{Platform}
use ambit.Store.{get, save}
use ambit.Password.{hash_with, verify_password, salt_bytes}
use ambit.Password.Laws.{IsByte, HexLaws, verify_password-hash_with}
use ambit.World.{World, Action, ok, pure, ◌>>=◌, draw_uuid, draw_bytes, write_entry, record_entry}
use ambit.World.Frame.{bind-eq-ok}
use ambit.Token.Issue.{make_secret}
use ambit.Token.Issue.Bounds.{ok-injective}
use ambit.Agents.{
  IdentityDraft, RegisteredAgentIdentity, identity_of, validate, put_identity, save_identity,
  register_begin, register_finish, register_agent_identity, get_identity, authenticate_found,
  authenticate_parts, authenticate_agent,
}

-- What Node documents of its draws: a UUID is not empty and holds no dot, and `randomBytes` gives as
-- many bytes as it is asked for.
pub record DrawLaws (pf : Platform) : Type 0 where
  pub uuid_plain : (n : ℕ) → Excludes b'.' (pf.random_uuid n)
  pub uuid_solid : (n : ℕ) → str_eq (pf.random_uuid n) "" ≡ false
  pub drawn_bytes : (n size : ℕ) → All IsByte (pf.random_bytes n size)
  pub drawn_length : (n size : ℕ) → length (pf.random_bytes n size) ≡ size

module _ (pf : Platform) where
  -- Whoever is let in has presented the id of an identity that is stored, a dot, and the secret that
  -- this identity's hash admits.
  pub authenticate_agent_sound :
      (credential : String) (w : World) (i : AgentIdentity)
      → authenticate_agent pf credential w ≡ some i
      → (id secret : String) × (cut b'.' credential ≡ (id, some secret))
        × (get id w.identities ≡ some i)
        × (verify_password pf secret i.secret_hash ≡ true)
  unfolding authenticate_agent
  authenticate_agent_sound credential w i h = of_parts (cut b'.' credential) refl h
    where
      of_found :
          (secret : String) (found : Option AgentIdentity)
          → authenticate_found pf secret found ≡ some i
          → (found ≡ some i) × (verify_password pf secret i.secret_hash ≡ true)
      of_found secret none e = absurd (cc)
      of_found secret (some j) e = elim (Bool-cases (verify_password pf secret j.secret_hash)) [
        | inr fails ↦ absurd (cc (rw fails at e))
        | inl holds ↦
            let same : j ≡ i = some-injective j i (rw holds at e) in
            (ap some same, ap (λ x. verify_password pf secret x.secret_hash) (sym same) ∙ holds)
      ]

      of_parts :
          (parts : String × Option String)
          → cut b'.' credential ≡ parts
          → authenticate_parts pf parts w ≡ some i
          → (id secret : String) × (cut b'.' credential ≡ (id, some secret))
            × (get id w.identities ≡ some i)
            × (verify_password pf secret i.secret_hash ≡ true)
      of_parts (id, none) e a = absurd (cc)
      of_parts (id, some secret) e a = elim (Bool-cases (str_eq id "" || str_eq secret "")) [
        | inl empty ↦ absurd (cc (rw empty at a))
        | inr full ↦
            let (found, holds) = of_found secret (get id w.identities) (rw full at a) in
            (id, secret, e, found, holds)
      ]

  -- What a first segment that returns has drawn.
  register_begin-drawn :
      (subject : String) (d : IdentityDraft) (w : World)
      → (register_begin pf subject w).0 ≡ ok d
      → (n m k : ℕ) × (d ≡ record {
        id = pf.random_uuid n;
        secret = pf.to_hex (pf.random_bytes m 32);
        secret_hash =
            hash_with pf (pf.to_hex (pf.random_bytes m 32)) (pf.random_bytes k salt_bytes);
      })
  unfolding register_begin draw_uuid make_secret draw_bytes
  register_begin-drawn subject d w h =
      let rest : Action IdentityDraft = draw_uuid pf >>= λ id.
      make_secret pf >>= λ made. pure (record { id = id; secret = made.0; secret_hash = made.1 }) in
      let (u, valid, after) = bind-eq-ok (validate subject) (λ _. rest) w d h in
      let v = (validate subject w).1 in
      (
        v.uuids_drawn,
        v.bytes_drawn,
        v.bytes_drawn + 1,
        sym (ok-injective (ap (λ x. x.0) (sym after) ∙ h)),
      )

  -- What the second segment returns is stored.
  register_finish-stores :
      (subject by : String) (now : ℕ) (d : IdentityDraft) (r : RegisteredAgentIdentity) (w : World)
      → (register_finish pf subject by now d w).0 ≡ ok r
      → (r ≡ record {
        identity = identity_of pf subject by now d;
        credential = template (d.id ∷ "." ∷ d.secret ∷ []);
      })
        × (get d.id (register_finish pf subject by now d w).1.identities
            ≡ some (identity_of pf subject by now d))
  unfolding register_finish save_identity put_identity record_entry write_entry get save
  register_finish-stores subject by now d r w h = (
    sym (ok-injective h),
    lookup-insert_self d.id (identity_of pf subject by now d) w.identities.items,
  )

  module _ (hex : HexLaws pf) (draws : DrawLaws pf) where
    authenticate_parts-own :
        (n m k : ℕ) (i : AgentIdentity) (w : World)
        → i.secret_hash
          ≡ hash_with pf (pf.to_hex (pf.random_bytes m 32)) (pf.random_bytes k salt_bytes)
        → get (pf.random_uuid n) w.identities ≡ some i
        → authenticate_parts pf (pf.random_uuid n, some (pf.to_hex (pf.random_bytes m 32))) w
          ≡ some i
    unfolding authenticate_parts authenticate_found get_identity
    authenticate_parts-own n m k i w hash stored =
        let secret = pf.to_hex (pf.random_bytes m 32) in
        let solid =
          hex.solid (pf.random_bytes m 32) (draws.drawn_bytes m 32)
            (omega (arith, draws.drawn_length m 32)) in
        let accepted =
          verify_password-hash_with pf hex secret (pf.random_bytes k salt_bytes)
            (draws.drawn_bytes k salt_bytes) (omega (arith, draws.drawn_length k salt_bytes)) in
        rw (draws.uuid_solid n, solid, stored, hash, accepted) refl

    own-authenticates :
        (n m k : ℕ) (i : AgentIdentity) (w : World)
        → i.secret_hash
          ≡ hash_with pf (pf.to_hex (pf.random_bytes m 32)) (pf.random_bytes k salt_bytes)
        → get (pf.random_uuid n) w.identities ≡ some i
        → authenticate_agent pf
            (template (pf.random_uuid n ∷ "." ∷ pf.to_hex (pf.random_bytes m 32) ∷ []))
            w
          ≡ some i
    unfolding authenticate_agent
    own-authenticates n m k i w hash stored =
        ap (λ parts. authenticate_parts pf parts w)
          (cut-template b'.' (pf.random_uuid n) (pf.to_hex (pf.random_bytes m 32)) "."
            (draws.uuid_plain n) refl)
        ∙ authenticate_parts-own n m k i w hash stored

    -- A registration that returns hands out a credential with which the agent is let in afterwards.
    pub register-authenticates :
        (subject by : String) (now : ℕ) (r : RegisteredAgentIdentity) (w : World)
        → (register_agent_identity pf subject by now w).0 ≡ ok r
        → authenticate_agent pf r.credential (register_agent_identity pf subject by now w).1
          ≡ some r.identity
    unfolding register_agent_identity
    register-authenticates subject by now r w h =
        let m = register_begin pf subject in
        let (d, begun, rest) = bind-eq-ok m (register_finish pf subject by now) w r h in
        let (n, j, k, drawn) = register_begin-drawn subject d w begun in
        let finished = ap (λ x. x.0) (sym rest) ∙ h in
        let (made, stored) = register_finish-stores subject by now d r (m w).1 finished in
        let after = (register_finish pf subject by now d (m w).1).1 in
        let text : r.credential
            ≡ template (pf.random_uuid n ∷ "." ∷ pf.to_hex (pf.random_bytes j 32) ∷ []) =
          ap (λ x. x.credential) made ∙ ap (λ x. template (x.id ∷ "." ∷ x.secret ∷ [])) drawn in
        let own =
          own-authenticates n j k (identity_of pf subject by now d) after
            (ap (λ x. x.secret_hash) drawn)
            (ap (λ x. get x.id after.identities) (sym drawn) ∙ stored) in
        ap (λ x. authenticate_agent pf r.credential x.1) rest
        ∙ ap (λ c. authenticate_agent pf c after) text
        ∙ own
        ∙ ap (λ x. some x.identity) (sym made)
