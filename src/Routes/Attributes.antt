-- ===== src/Routes/Attributes.antt =====
-- Who stands behind a revocation that came in by a route of src/server.ts.
use ambit.Common.{ℕ, ◌+◌, ◌≡◌, refl, sym, ap, ◌∙◌, inl, inr, Option, none, some, String}
use ambit.Records.{Token, RevocationReason}
use ambit.Platform.{Platform}
use ambit.World.{World, Result, Error, ok, throw, pure, ◌>>=◌, read_clock, error_message}
use ambit.World.Frame.{bind-eq-ok}
use ambit.Token.Issue.Bounds.{ok-injective}
use ambit.Token.Revoke.{revoke_token, revocation_fields}
use ambit.Token.Revoke.Recorded.{IsRecorded, revoke_token-records}
use ambit.Sessions.{SessionTokenConfig, valid, verify_session_token}
use ambit.Routes.{
  Response, failed, sent, Handler, bearer_token, answer_errors, PublicToken, without_secret_hash,
  valid_revocation, revocation_statuses,
}
use ambit.Routes.Calls.{Environment, revoke_route, post_revoke}
use ambit.Routes.Guards.{require_session-guards}

-- An answer that is not an error's is the action's own.
answer_errors-sent :
    {A : Type 0} (statuses : Error → Option ℕ) (m : Handler A) (w : World) (n : ℕ) (a : A)
    → (answer_errors statuses m w).0 ≡ ok (sent n a)
    → (m w).0 ≡ ok (sent n a)
unfolding answer_errors
answer_errors-sent {A} statuses m w n a h = go (m w).0 refl h
  where
    of_error :
        (e : Error) (found : Option ℕ)
        → (elim found as (λ _. Result (Response A) × World) [
          | none ↦ (throw e, (m w).1)
          | some k ↦ (ok (failed k (error_message e)), (m w).1)
        ]).0
          ≡ ok (sent n a)
        → ⊥
    of_error e none g = cc
    of_error e (some k) g =
        let same : failed k (error_message e) ≡ sent n a = ok-injective g in cc same

    go :
        (r : Result (Response A))
        → (m w).0 ≡ r
        → (elim r as (λ _. Result (Response A) × World) [
          | ok x ↦ (ok x, (m w).1)
          | throw e ↦ elim (statuses e) as (λ _. Result (Response A) × World) [
            | none ↦ (throw e, (m w).1)
            | some k ↦ (ok (failed k (error_message e)), (m w).1)
          ]
        ]).0
          ≡ ok (sent n a)
        → (m w).0 ≡ ok (sent n a)
    go (ok x) e g = e ∙ g
    go (throw x) e g = absurd (of_error x (statuses x) g)

-- The answer to an error leaves the world that the action left.
answer_errors-world :
    {A : Type 0} (statuses : Error → Option ℕ) (m : Handler A) (w : World)
    → (answer_errors statuses m w).1 ≡ (m w).1
unfolding answer_errors
answer_errors-world {A} statuses m w = go (m w).0
  where
    of_error :
        (e : Error) (found : Option ℕ)
        → (elim found as (λ _. Result (Response A) × World) [
          | none ↦ (throw e, (m w).1)
          | some k ↦ (ok (failed k (error_message e)), (m w).1)
        ]).1
          ≡ (m w).1
    of_error e none = refl
    of_error e (some k) = refl

    go :
        (r : Result (Response A))
        → (elim r as (λ _. Result (Response A) × World) [
          | ok x ↦ (ok x, (m w).1)
          | throw e ↦ elim (statuses e) as (λ _. Result (Response A) × World) [
            | none ↦ (throw e, (m w).1)
            | some k ↦ (ok (failed k (error_message e)), (m w).1)
          ]
        ]).1
          ≡ (m w).1
    go (ok x) = refl
    go (throw x) = of_error x (statuses x)

pairs : {A B : Type 0} (p : A × B) (a : A) (b : B) → p.0 ≡ a → p.1 ≡ b → p ≡ (a, b)
pairs p a b e f = rw (← e, ← f) refl

sent-shown : {A : Type 0} (n m : ℕ) (a b : A) → Response.sent n a ≡ sent m b → b ≡ a
sent-shown n m a b h = cc

module _ (pf : Platform) (env : Environment) (header : Option String) where
  -- A revocation that was carried out for a user: the second reading of the clock is its time, and
  -- the route leaves the world that it leaves.
  pub record Attributed (id reason : String) (w after : World) (n : ℕ) (shown : PublicToken)
      : Type 0 where
    pub settings : SessionTokenConfig
    pub username : String
    pub configured : env.session ≡ some settings
    pub verified :
        verify_session_token pf (bearer_token header) settings (pf.clock w.clock_reads)
        ≡ valid username
    pub given : RevocationReason
    pub allowed : valid_revocation reason ≡ some given
    pub token : Token
    pub revoked :
        revoke_token pf
          (pf.clock (w.clock_reads + 1))
          (some username)
          id
          given
          (record w { clock_reads = w.clock_reads + 1 + 1 })
        ≡ (ok token, after)
    pub recorded : IsRecorded w after (revocation_fields id token.subject given (some username))
    pub public : shown ≡ without_secret_hash token

  revoke_route-sent :
      (id username : String) (reason : Option RevocationReason) (w : World) (n : ℕ)
      (shown : PublicToken)
      → (revoke_route pf env header id reason username w).0 ≡ ok (sent n shown)
      → (given : RevocationReason) × (reason ≡ some given)
        × (token : Token) × (revoke_token pf
              (pf.clock w.clock_reads)
              (some username)
              id
              given
              (record w { clock_reads = w.clock_reads + 1 })
            ≡ (ok token, (revoke_route pf env header id reason username w).1))
        × (shown ≡ without_secret_hash token)
  unfolding revoke_route read_clock
  revoke_route-sent id username none w n shown h =
      let same : failed 400
            "reasonCode must be one of: compromised, no_longer_needed, policy_violation, superseded"
          ≡ sent n shown =
        ok-injective h in
      absurd (cc same)
  revoke_route-sent id username (some reason) w n shown h =
      let v : World = record w { clock_reads = w.clock_reads + 1 } in
      let answer : Token → Handler PublicToken =
        λ token. pure (sent 200 (without_secret_hash token)) in
      let m = revoke_token pf (pf.clock w.clock_reads) (some username) id reason in
      let g = answer_errors-sent revocation_statuses (m >>= answer) v n shown h in
      let (token, revoked, last) = bind-eq-ok m answer v _ g in
      let world = answer_errors-world revocation_statuses (m >>= answer) v ∙ ap (λ x. x.1) last in
      (
        reason,
        refl,
        token,
        pairs (m v) (ok token) _ revoked (sym world),
        sent-shown 200 n (without_secret_hash token) shown
            (ok-injective (ap (λ x. x.0) (sym last) ∙ g)),
      )

  -- A revocation that a route answers with a token was asked for by the user of a session that
  -- verifies, with one of the four reasons that a caller may give. It was carried out at the clock's
  -- second reading, with that user as its actor; the route leaves the world that `revokeToken`
  -- leaves, in whose audit log an entry for it was added, with that user as its actor and that
  -- reason. The answer leaves out the secret's hash.
  pub post_revoke-attributes :
      (id reason : String) (w : World) (n : ℕ) (shown : PublicToken)
      → (post_revoke pf env header id reason w).0 ≡ ok (sent n shown)
      → Attributed id reason w (post_revoke pf env header id reason w).1 n shown
  unfolding post_revoke
  post_revoke-attributes id reason w n shown h =
      elim (require_session-guards pf header w env.session
        (revoke_route pf env header id (valid_revocation reason))) [
          | inr r ↦
              let same : failed r.status r.message ≡ sent n shown =
                ok-injective (sym r.answer ∙ h) in
              absurd (cc same)
          | inl a ↦
              let read : World = record w { clock_reads = w.clock_reads + 1 } in
              let before : World = record w { clock_reads = w.clock_reads + 1 + 1 } in
              let now = pf.clock (w.clock_reads + 1) in
              let (given, allowed, token, revoked, public) =
                revoke_route-sent id a.username (valid_revocation reason) read n shown
                  (ap (λ x. x.0) (sym a.ran) ∙ h) in
              let out = revoked ∙ pairs _ (ok token) _ refl (ap (λ x. x.1) (sym a.ran)) in
              let logged =
                revoke_token-records pf now (some a.username) id given token before
                  (ap (λ x. x.0) out) in
              record {
                settings = a.settings;
                username = a.username;
                configured = a.configured;
                verified = a.verified;
                given = given;
                allowed = allowed;
                token = token;
                revoked = out;
                recorded = record {
                  earlier = logged.earlier;
                  entry = logged.entry;
                  later = logged.later;
                  appended = ap (λ x. x.1.audit.entries) (sym out) ∙ logged.appended;
                  same = logged.same;
                };
                public = public;
              }
        ]
