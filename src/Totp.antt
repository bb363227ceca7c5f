-- ===== src/Totp.antt =====
-- src/totp.ts: one-time codes after RFC 6238, and the verifier that accepts none twice. A call that
-- would throw gives `none`.
pub mod Base32
pub mod Replay
use ambit.Common.{
  ℕ, zero, suc, ◌+◌, ◌-◌, ◌*◌, ◌/◌, ◌%◌, ◌^◌, Bool, true, false, Option, none, some, List, [], ◌∷◌,
  String, ltb, leb, length, if◌then◌else◌, codes, template,
}
use ambit.Common.Int.{pos}
use ambit.Platform.{Platform}
use ambit.Password.{same_bytes}
use ambit.Breaker.{or_default}
use ambit.Totp.Base32.{base32_decode, base32_encode}

-- `hmac[i]`, where a missing byte counts as 0 in the bit operations.
abbrev pub byte_at : List ℕ → ℕ → ℕ
byte_at [] i = 0
byte_at (b ∷ bs) zero = b
byte_at (b ∷ bs) (suc i) = byte_at bs i

-- `text.padStart(size, "0")`, over the zeros that are missing.
abbrev pub zeros : ℕ → String
zeros zero = ""
zeros (suc n) = String.◌∷◌ "0" (zeros n)

-- `writeUInt32BE(0, 0)` and `writeUInt32BE(counter, 4)`, which throws for a larger number.
unfoldable pub counter_buffer : ℕ → Option (List ℕ)
counter_buffer counter =
    if ltb counter (2 ^ 32)
    then some (
        0
        ∷ 0
        ∷ 0
        ∷ 0
        ∷ (counter / 2 ^ 24 % 256)
        ∷ (counter / 2 ^ 16 % 256)
        ∷ (counter / 2 ^ 8 % 256)
        ∷ (counter % 256)
        ∷ [])
    else none

-- The dynamic truncation of RFC 4226.
unfoldable pub truncate : List ℕ → ℕ
truncate hmac =
    let offset = byte_at hmac (length hmac - 1) % 16 in
    byte_at hmac offset % 128 * 2 ^ 24
    + byte_at hmac (offset + 1) % 256 * 2 ^ 16
    + byte_at hmac (offset + 2) % 256 * 2 ^ 8
    + byte_at hmac (offset + 3) % 256

pub record TotpVerifier : Type 0 where
  pub secret : String
  pub step_seconds : ℕ
  pub digits : ℕ
  pub drift_steps : ℕ
  pub last_accepted_timestep : Option ℕ

-- The constructor, over the three optional settings.
unfoldable pub init : String → Option ℕ → Option ℕ → Option ℕ → TotpVerifier
init secret step digits drift = record {
  secret = secret;
  step_seconds = or_default step 30;
  digits = or_default digits 6;
  drift_steps = or_default drift 1;
  last_accepted_timestep = none;
}

-- The step was accepted before, or a later one.
abbrev pub is_used : Option ℕ → ℕ → Bool
is_used none timestep = false
is_used (some last) timestep = leb timestep last

-- A negative step: it is passed over if any step was accepted before, and throws otherwise.
unfoldable pub negative_step :
    Option ℕ → Option (TotpVerifier × Bool) → Option (TotpVerifier × Bool)
negative_step none rest = none
negative_step (some last) rest = rest

module _ (pf : Platform) where
  unfoldable pub pad_start : ℕ → String → String
  unfolding template
  pad_start size text = template (zeros (size - length (codes text)) ∷ text ∷ [])

  -- `generateTotpCode`, from the key and the counter's buffer on.
  unfoldable pub code_of : ℕ → Option (List ℕ) → Option (List ℕ) → Option String
  unfolding truncate pad_start
  code_of digits none buffer = none
  code_of digits (some key) none = none
  code_of digits (some key) (some buffer) =
      some
        (pad_start digits (pf.show_number (pos (truncate (pf.hmac_sha1 key buffer) % 10 ^ digits))))

  -- `generateTotpCode`
  unfoldable pub generate_totp_code : String → ℕ → ℕ → ℕ → Option String
  unfolding code_of counter_buffer base32_decode
  generate_totp_code secret time_ms step digits =
      code_of digits (base32_decode pf secret) (counter_buffer (time_ms / 1000 / step))

  -- `constantTimeEqual`
  unfoldable pub constant_time_equal : String → String → Bool
  unfolding same_bytes
  constant_time_equal a b = same_bytes (pf.utf8 a) (pf.utf8 b)

  -- One round for a code that was generated; `rest` is what the later rounds give.
  unfoldable pub try_candidate :
      String
      → ℕ
      → TotpVerifier
      → Option String
      → Option (TotpVerifier × Bool)
      → Option (TotpVerifier × Bool)
  unfolding constant_time_equal
  try_candidate code timestep v none rest = none
  try_candidate code timestep v (some candidate) rest =
      if constant_time_equal candidate code
      then some (record v { last_accepted_timestep = some timestep }, true)
      else rest

  -- One round of the loop of `verify`, at a step that is not negative.
  unfoldable pub try_step :
      String → ℕ → TotpVerifier → Option (TotpVerifier × Bool) → Option (TotpVerifier × Bool)
  unfolding try_candidate generate_totp_code
  try_step code timestep v rest =
      if is_used v.last_accepted_timestep timestep
      then rest
      else try_candidate code timestep v
          (generate_totp_code v.secret (timestep * v.step_seconds * 1000) v.step_seconds v.digits)
          rest

  -- The loop, with `rounds` left; `ahead` is the current step plus the rounds already made, so the
  -- round's own step is `ahead - driftSteps`.
  unfoldable pub try_steps : ℕ → String → ℕ → TotpVerifier → Option (TotpVerifier × Bool)
  unfolding try_step negative_step
  try_steps zero code ahead v = some (v, false)
  try_steps (suc rounds) code ahead v =
      let rest = try_steps rounds code (ahead + 1) v in
      if ltb ahead v.drift_steps
      then negative_step v.last_accepted_timestep rest
      else try_step code (ahead - v.drift_steps) v rest

  -- `verify`, at the clock's reading.
  unfoldable pub verify : String → ℕ → TotpVerifier → Option (TotpVerifier × Bool)
  unfolding try_steps
  verify code now v = try_steps (v.drift_steps * 2 + 1) code (now / 1000 / v.step_seconds) v

  -- `generateTotpSecret`, over the n-th draw.
  unfoldable pub generate_totp_secret : ℕ → String
  unfolding base32_encode
  generate_totp_secret n = base32_encode (pf.random_bytes n 20)
