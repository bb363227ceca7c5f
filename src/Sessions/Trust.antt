-- ===== src/Sessions/Trust.antt =====
-- Which sessions src/sessionToken.ts trusts: the ones that it signed, until they expire.
use ambit.Common.{
  ℕ, ◌+◌, ◌≡◌, ◌<◌, refl, ap, ◌∙◌, inl, inr, true, Option, none, some, List, [], ◌∷◌, String, leb,
  template, if◌then◌else◌, Excludes, cut_whole, cut-template, Bool-cases, arith,
}
use ambit.Records.{SessionPayload, ParsedPayload}
use ambit.Platform.{Platform}
use ambit.Password.{same_bytes}
use ambit.Password.Laws.{same_bytes_refl}
use ambit.Sessions.{
  SessionTokenConfig, ttl_of, valid, invalid, expired, second_part, both_parts, two_parts,
  check_fields, check_payload, timing_safe_string_equal, sign, encoded_payload,
  create_session_token, verify_parts, verify_session_token,
}

-- What Node documents of base64url and of JSON: base64url text holds no dot and reads back, and an
-- object's text and number are parsed as they were written.
pub record SessionLaws (pf : Platform) : Type 0 where
  pub payload_plain : (text : String) → Excludes b'.' (pf.to_base64url text)
  pub signature_plain : (secret text : String) → Excludes b'.' (pf.hmac_sha256 secret text)
  pub decoded : (text : String) → pf.from_base64url (pf.to_base64url text) ≡ text
  pub parsed :
      (p : SessionPayload)
      → pf.parse_session (pf.json_session p)
        ≡ some (record { username = some p.username; expires_at = some p.expires_at })

-- Buffers that `timingSafeEqual` accepts are equal.
pub same_bytes-eq : (as' bs : List ℕ) → same_bytes as' bs ≡ true → as' ≡ bs
unfolding same_bytes
same_bytes-eq [] [] h = refl
same_bytes-eq [] (b ∷ bs) h = absurd (cc)
same_bytes-eq (a ∷ as') [] h = absurd (cc)
same_bytes-eq (a ∷ as') (b ∷ bs) h = let ih = same_bytes-eq as' bs in ground (arith, ih)

-- The payload of a session that is accepted for a user.
pub record Names (payload : Option ParsedPayload) (now : ℕ) (username : String) : Type 0 where
  pub at_most : ℕ
  pub read : payload ≡ some (record { username = some username; expires_at = some at_most })
  pub later : now < at_most

check_fields-Names :
    (now : ℕ) (name : Option String) (at_most : Option ℕ) (username : String)
    → check_fields now name at_most ≡ valid username
    → Names (some (record { username = name; expires_at = at_most })) now username
unfolding check_fields
check_fields-Names now none at_most username h = absurd (cc)
check_fields-Names now (some name) none username h = absurd (cc)
check_fields-Names now (some name) (some e) username h = elim (Bool-cases (leb e now)) [
  | inl past ↦ absurd (cc (rw past at h))
  | inr future ↦ record { at_most = e; read = cc (rw future at h); later = ground (arith, future) }
]

check_payload-Names :
    (now : ℕ) (payload : Option ParsedPayload) (username : String)
    → check_payload now payload ≡ valid username
    → Names payload now username
unfolding check_payload
check_payload-Names now none username h = absurd (cc)
check_payload-Names now (some p) username h =
    check_fields-Names now p.username p.expires_at username h

module _ (pf : Platform) (config : SessionTokenConfig) (now : ℕ) where
  -- What stands behind a session that is accepted.
  pub record Trusted (token username : String) : Type 0 where
    pub payload : String
    pub signature : String
    pub parts : two_parts token ≡ some (payload, signature)
    pub signed : pf.sha256 signature ≡ pf.sha256 (sign pf payload config.signing_secret)
    pub named : Names (pf.parse_session (pf.from_base64url payload)) now username

  verify_parts-Trusted :
      (token username : String) (parts : Option (String × String))
      → two_parts token ≡ parts
      → verify_parts pf config now parts ≡ valid username
      → Trusted token username
  unfolding verify_parts timing_safe_string_equal
  verify_parts-Trusted token username none e h = absurd (cc)
  verify_parts-Trusted token username (some (payload, signature)) e h =
      let own = sign pf payload config.signing_secret in
      elim (Bool-cases (same_bytes (pf.sha256 signature) (pf.sha256 own))) [
        | inr other ↦ absurd (cc (rw other at h))
        | inl same ↦ record {
          payload = payload;
          signature = signature;
          parts = e;
          signed = same_bytes-eq _ _ same;
          named = check_payload-Names now _ username (rw same at h);
        }
      ]

-- A session that is accepted for a user has two parts; its signature hashes like the one that the
-- server's secret gives for the payload, and the payload names the user and an expiry that lies ahead.
pub verify_session_token_sound :
    (pf : Platform) (config : SessionTokenConfig) (now : ℕ) (token username : String)
    → verify_session_token pf token config now ≡ valid username
    → Trusted pf config now token username
unfolding verify_session_token
verify_session_token_sound pf config now token username h =
    verify_parts-Trusted pf config now token username (two_parts token) refl h

module _ (pf : Platform) (laws : SessionLaws pf) where
  two_parts-create :
      (username : String) (config : SessionTokenConfig) (issued : ℕ)
      → two_parts (create_session_token pf username config issued)
        ≡ some (
          encoded_payload pf username config issued,
          sign pf (encoded_payload pf username config issued) config.signing_secret,
        )
  unfolding two_parts create_session_token encoded_payload sign template
  two_parts-create username config issued =
      let payload = encoded_payload pf username config issued in
      let signature = sign pf payload config.signing_secret in
      ap both_parts (cut-template b'.' payload signature "." (laws.payload_plain _) refl)
      ∙ ap (second_part payload)
          (cut_whole b'.' signature (laws.signature_plain config.signing_secret payload))

  verify_parts-create :
      (username : String) (config : SessionTokenConfig) (issued now : ℕ)
      → verify_parts pf config now (
          some (
            encoded_payload pf username config issued,
            sign pf (encoded_payload pf username config issued) config.signing_secret,
          ))
        ≡ (if leb (issued + ttl_of config) now then invalid expired else valid username)
  unfolding verify_parts timing_safe_string_equal check_payload check_fields encoded_payload
  verify_parts-create username config issued now =
      let payload : SessionPayload = record {
        username = username;
        issued_at = issued;
        expires_at = issued + ttl_of config;
      } in
      let own = sign pf (pf.to_base64url (pf.json_session payload)) config.signing_secret in
      rw
        (
          same_bytes_refl (pf.sha256 own),
          laws.decoded (pf.json_session payload),
          laws.parsed payload,
        )
        refl

  -- A session that the server made is accepted, for the user that it was made for, until its lifetime
  -- has passed, and is reported as expired from then on.
  pub verify-create_session_token :
      (username : String) (config : SessionTokenConfig) (issued now : ℕ)
      → verify_session_token pf (create_session_token pf username config issued) config now
        ≡ (if leb (issued + ttl_of config) now then invalid expired else valid username)
  unfolding verify_session_token
  verify-create_session_token username config issued now =
      ap (verify_parts pf config now) (two_parts-create username config issued)
      ∙ verify_parts-create username config issued now
