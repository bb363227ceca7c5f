-- ===== src/Tests/Lawful.antt =====
-- A platform that keeps what is documented of hexadecimal text, scrypt, the draws, base64url and JSON.
use Prim.Native.Char.{Char, code}
use text.Mathlib.TextEquality.{Char-path}
use ambit.Common.{
  ℕ, zero, suc, ◌+◌, ◌<◌, ◌≡◌, refl, sym, ap, ◌∙◌, inl, inr, false, Option, none, some, List, [],
  ◌∷◌, String, ◌==◌, length, All, Excludes, if◌then◌else◌, str_eq, eq_iff, Bool-cases, arith,
}
use ambit.Records.{ParsedPayload}
use ambit.Platform.{Platform}
use ambit.Password.Laws.{IsByte, HexLaws}
use ambit.Agents.Credentials.{DrawLaws}
use ambit.Sessions.Trust.{SessionLaws}
use ambit.Tests.{platform}

-- A number as that many marks and an end.
unfoldable pub marks : ℕ → String → String
marks zero s = String.◌∷◌ "b" s
marks (suc n) s = String.◌∷◌ "a" (marks n s)

unfoldable pub hex_text : List ℕ → String
unfolding marks
hex_text [] = ""
hex_text (b ∷ bs) = marks b (hex_text bs)

unfoldable pub read_hex : ℕ → String → List ℕ
read_hex n String.[] = []
read_hex n (String.◌∷◌ c s) = if code c == b'a' then read_hex (n + 1) s else n ∷ read_hex 0 s

unfoldable pub zero_bytes : ℕ → List ℕ
zero_bytes zero = []
zero_bytes (suc n) = 0 ∷ zero_bytes n

-- A dot is written as two marks, and any other character after one.
unfoldable pub escape : String → String
escape String.[] = ""
escape (String.◌∷◌ c s) =
    if code c == b'.'
    then String.◌∷◌ "a" (String.◌∷◌ "a" (escape s))
    else String.◌∷◌ "b" (String.◌∷◌ c (escape s))

unfoldable pub unescape : String → String
unescape String.[] = ""
unescape (String.◌∷◌ c String.[]) = ""
unescape (String.◌∷◌ c (String.◌∷◌ d s)) =
    if code c == b'a' then String.◌∷◌ "." (unescape s) else String.◌∷◌ d (unescape s)

-- The expiry as marks, then the name.
unfoldable pub read_session : ℕ → String → Option ParsedPayload
read_session n String.[] = none
read_session n (String.◌∷◌ c s) =
    if code c == b'a'
    then read_session (n + 1) s
    else some (record { username = some s; expires_at = some n })

abbrev pub lawful : Platform
lawful = record platform {
  clock = λ n. n;
  random_uuid = λ n. "u";
  random_bytes = λ n size. zero_bytes size;
  to_hex = hex_text;
  from_hex = read_hex 0;
  scrypt = λ password salt size. zero_bytes size;
  json_session = λ p. marks p.expires_at p.username;
  parse_session = read_session 0;
  to_base64url = escape;
  from_base64url = unescape;
  hmac_sha256 = λ secret text. "s";
}

marks-plain : (n : ℕ) (s : String) → Excludes b':' s → Excludes b':' (marks n s)
unfolding marks
marks-plain zero s h = (refl, h)
marks-plain (suc n) s h = (refl, marks-plain n s h)

hex_text-plain : (bs : List ℕ) → All IsByte bs → Excludes b':' (hex_text bs)
unfolding hex_text
hex_text-plain [] h = tt
hex_text-plain (b ∷ bs) h = marks-plain b (hex_text bs) (hex_text-plain bs h.1)

read_hex-marks : (n m : ℕ) (s : String) → read_hex m (marks n s) ≡ (n + m) ∷ read_hex 0 s
unfolding read_hex marks
read_hex-marks zero m s = ap (λ k. k ∷ read_hex 0 s) (omega arith)
read_hex-marks (suc n) m s = read_hex-marks n (m + 1) s ∙ ap (λ k. k ∷ read_hex 0 s) (omega arith)

read_hex-hex_text : (bs : List ℕ) → All IsByte bs → read_hex 0 (hex_text bs) ≡ bs
unfolding hex_text read_hex
read_hex-hex_text [] h = refl
read_hex-hex_text (b ∷ bs) h =
    read_hex-marks b 0 (hex_text bs)
    ∙ ap (λ k. k ∷ read_hex 0 (hex_text bs)) (omega arith)
    ∙ ap (λ xs. b ∷ xs) (read_hex-hex_text bs h.1)

solid : (c : Char) (s : String) → str_eq (String.◌∷◌ c s) "" ≡ false
solid c s = elim (Bool-cases (str_eq (String.◌∷◌ c s) "")) [
  | inl e ↦ let same : String.◌∷◌ c s ≡ "" = (eq_iff (String.◌∷◌ c s) "").0 e in absurd (cc same)
  | inr e ↦ e
]

hex_text-solid : (bs : List ℕ) → All IsByte bs → 0 < length bs → str_eq (hex_text bs) "" ≡ false
unfolding hex_text marks
hex_text-solid [] h lt = absurd (omega (arith, lt))
hex_text-solid (zero ∷ bs) h lt = solid "b" (hex_text bs)
hex_text-solid (suc b ∷ bs) h lt = solid "a" (marks b (hex_text bs))

zero_bytes-bytes : (n : ℕ) → All IsByte (zero_bytes n)
unfolding zero_bytes
zero_bytes-bytes zero = tt
zero_bytes-bytes (suc n) = (omega arith, zero_bytes-bytes n)

length-zero_bytes : (n : ℕ) → length (zero_bytes n) ≡ n
unfolding zero_bytes
length-zero_bytes zero = refl
length-zero_bytes (suc n) = ap suc (length-zero_bytes n)

pub lawful_hex : HexLaws lawful
lawful_hex = record {
  plain = hex_text-plain;
  back = read_hex-hex_text;
  solid = hex_text-solid;
  derived_bytes = λ p salt n. zero_bytes-bytes n;
  derived_length = λ p salt n. length-zero_bytes n;
}

pub lawful_draws : DrawLaws lawful
lawful_draws = record {
  uuid_plain = λ n. (refl, tt);
  uuid_solid = λ n. refl;
  drawn_bytes = λ n size. zero_bytes-bytes size;
  drawn_length = λ n size. length-zero_bytes size;
}

escape-plain : (s : String) → Excludes b'.' (escape s)
unfolding escape
escape-plain String.[] = tt
escape-plain (String.◌∷◌ c s) = elim (Bool-cases (code c == b'.')) [
  | inl e ↦ rw e (refl, (refl, escape-plain s))
  | inr e ↦ rw e (refl, (e, escape-plain s))
]

unescape-escape : (s : String) → unescape (escape s) ≡ s
unfolding escape unescape
unescape-escape String.[] = refl
unescape-escape (String.◌∷◌ c s) = elim (Bool-cases (code c == b'.')) [
  | inl e ↦
      let dot : c ≡ "." = Char-path c "." (ground (arith, e)) in
      rw e (ap (String.◌∷◌ ".") (unescape-escape s) ∙ ap (λ x. String.◌∷◌ x s) (sym dot))
  | inr e ↦ rw e (ap (String.◌∷◌ c) (unescape-escape s))
]

read_session-marks :
    (n m : ℕ) (s : String)
    → read_session m (marks n s) ≡ some (record { username = some s; expires_at = some (n + m) })
unfolding read_session marks
read_session-marks zero m s =
    ap (λ k. some (record { username = some s; expires_at = some k })) (omega arith)
read_session-marks (suc n) m s =
    read_session-marks n (m + 1) s
    ∙ ap (λ k. some (record { username = some s; expires_at = some k })) (omega arith)

pub lawful_sessions : SessionLaws lawful
lawful_sessions = record {
  payload_plain = escape-plain;
  signature_plain = λ secret text. (refl, tt);
  decoded = unescape-escape;
  parsed = λ p.
      read_session-marks p.expires_at 0 p.username
      ∙ ap (λ k. some (record { username = some p.username; expires_at = some k })) (omega arith);
}
