-- ===== src/Tests/Accounts.antt =====
-- Runs of the agents' registration, the one-time codes, the sessions and the operators' login.
use ambit.Common.{
  ℕ, ◌+◌, ◌*◌, ◌/◌, ◌<◌, ◌≤◌, ◌≡◌, refl, true, false, Option, none, some, List, [], ◌∷◌, String,
  cut, if◌then◌else◌, leb, arith,
}
use ambit.Records.{AgentIdentity}
use ambit.Store.{get}
use ambit.Password.{hash_with, verify_password}
use ambit.Password.Laws.{verify_password-hash_with}
use ambit.World.{World}
use ambit.Agents.{RegisteredAgentIdentity, register_agent_identity, authenticate_agent}
use ambit.Agents.Credentials.{authenticate_agent_sound, register-authenticates}
use ambit.Totp.{TotpVerifier, verify}
use ambit.Totp.Replay.{Accepts, verify-Accepts, verify-once}
use ambit.Sessions.{SessionTokenConfig, valid, create_session_token, verify_session_token}
use ambit.Sessions.Trust.{Trusted, verify_session_token_sound, verify-create_session_token}
use ambit.Operators.{OperatorIdentity, find_authenticated_operator}
use ambit.Operators.Login.{find_authenticated_operator-refuses}
use ambit.Tests.{platform, world}
use ambit.Tests.Lawful.{lawful, lawful_hex, lawful_draws, lawful_sessions, hex_text, zero_bytes}

verify_password-hash_with_example :
    verify_password lawful "pw" (hash_with lawful "pw" (7 ∷ [])) ≡ true
verify_password-hash_with_example =
    verify_password-hash_with lawful lawful_hex "pw" (7 ∷ []) (omega arith, tt) (omega arith)

abbrev agent : AgentIdentity
agent = record {
  id = "i";
  subject = "agent";
  secret_hash = "aa:aa";
  created_by = "admin";
  created_at = 0;
}

abbrev staffed : World
staffed = record world { identities = record { items = ("i", agent) ∷ []; file = none } }

authenticate_agent_sound_example :
    (id secret : String) × (cut b'.' "i.aa" ≡ (id, some secret))
    × (get id staffed.identities ≡ some agent)
    × (verify_password platform secret "aa:aa" ≡ true)
unfolding authenticate_agent get ambit.Common.lookup verify_password
authenticate_agent_sound_example = authenticate_agent_sound platform "i.aa" staffed agent refl

abbrev registered : RegisteredAgentIdentity
registered = record {
  identity = record agent {
    id = "u";
    secret_hash = hash_with lawful (hex_text (zero_bytes 32)) (zero_bytes 16);
  };
  credential = "u.bbbbbbbbbbbbbbbbbbbbbbbbbbbbbbbb";
}

register-authenticates_example :
    authenticate_agent lawful "u.bbbbbbbbbbbbbbbbbbbbbbbbbbbbbbbb"
      (register_agent_identity lawful "agent" "admin" 0 world).1
    ≡ some registered.identity
unfolding register_agent_identity hex_text zero_bytes
register-authenticates_example =
    register-authenticates lawful lawful_hex lawful_draws "agent" "admin" 0 registered world refl

abbrev verifier : TotpVerifier
verifier = record {
  secret = "AA";
  step_seconds = 30;
  digits = 6;
  drift_steps = 1;
  last_accepted_timestep = none;
}

abbrev once : TotpVerifier
once = record verifier { last_accepted_timestep = some 1 }

abbrev twice : TotpVerifier
twice = record verifier { last_accepted_timestep = some 2 }

verify-Accepts_example :
    (t : ℕ) × Accepts platform "00000n" verifier t
    × (once ≡ record verifier { last_accepted_timestep = some t })
    × (60000 / 1000 / 30 ≤ t + 1)
    × (t ≤ 60000 / 1000 / 30 + 1)
unfolding verify
verify-Accepts_example = verify-Accepts platform "00000n" 60000 verifier once refl

verify-once_example :
    (s t : ℕ) × (once.last_accepted_timestep ≡ some s)
    × (twice.last_accepted_timestep ≡ some t)
    × (s < t)
unfolding verify
verify-once_example =
    verify-once platform "00000n" "00000n" 60000 60000 verifier once twice refl refl

abbrev config : SessionTokenConfig
config = record { signing_secret = "k"; ttl_ms = some 100 }

verify_session_token_sound_example : Trusted platform config 5 "ann.k" "ann"
unfolding verify_session_token cut
verify_session_token_sound_example = verify_session_token_sound platform config 5 "ann.k" "ann" refl

verify-create_session_token_example :
    verify_session_token lawful (create_session_token lawful "ann" config 5) config 104
    ≡ valid "ann"
verify-create_session_token_example =
    verify-create_session_token lawful lawful_sessions "ann" config 5 104

abbrev operator : OperatorIdentity
operator = record { username = "ann"; password_hash = "aa:aa"; totp_verifier = verifier }

find_authenticated_operator-refuses_example :
    find_authenticated_operator platform "ann" "bb" "00000n" (λ i. 60000) (operator ∷ [])
    ≡ some (operator ∷ [], none)
unfolding verify_password
find_authenticated_operator-refuses_example =
    find_authenticated_operator-refuses platform "ann" "bb" "00000n" (λ i. 60000) (operator ∷ [])
      (refl, tt)
