-- ===== src/Tests/Routes.antt =====
-- Runs of the guards and of a revocation by its route.
use ambit.Common.{
  ◌+◌, if◌then◌else◌, leb, ℕ, ◌≡◌, refl, ◌⊎◌, Option, none, some, List, [], ◌∷◌, String, lookup,
  length,
}
use ambit.Records.{superseded}
use ambit.World.{World}
use ambit.Token.Revoke.{mark_revoked}
use ambit.Sessions.{
  SessionTokenConfig, ttl_of, valid, invalid, expired, create_session_token, verify_session_token,
}
use ambit.Totp.{TotpVerifier}
use ambit.Routes.Login.{LoginState, OperatorSettings, Credentials, post_login}
use ambit.Routes.Login.Success.{LoggedIn, post_login-opens}
use ambit.Tests.Lawful.{lawful, lawful_sessions}
use ambit.Routes.{sent, Handler, without_secret_hash, require_session, require_agent_credential}
use ambit.Routes.Calls.{Environment, post_revoke}
use ambit.Routes.Guards.{
  Refused, Admitted, Identified, require_session-guards, require_agent_credential-guards,
}
use ambit.Routes.Attributes.{Attributed, post_revoke-attributes}
use ambit.World.{pure}
use ambit.Tests.{platform, world, root}

abbrev settings : SessionTokenConfig
settings = record { signing_secret = "k"; ttl_ms = none }

abbrev environment : Environment
environment = record {
  session = some settings;
  admin_username = some "ann";
  backup_username = none;
  decision_window_ms = none;
  admin_toggle_key = none;
}

-- Answers with the name that it is run for.
abbrev echo : String → Handler String
echo name = pure (sent 200 name)

require_session-guards_example :
    Admitted platform
      (some "Bearer ann.k")
      world
      (some settings)
      echo
      (require_session platform (some settings) (some "Bearer ann.k") echo world)
    ⊎ Refused platform
        (some "Bearer ann.k")
        world
        (require_session platform (some settings) (some "Bearer ann.k") echo world)
require_session-guards_example =
    require_session-guards platform (some "Bearer ann.k") world (some settings) echo

require_agent_credential-guards_example :
    Identified platform
      (some "Bearer i.aa")
      world
      echo
      (require_agent_credential platform (some "Bearer i.aa") echo world)
    ⊎ Refused platform
        (some "Bearer i.aa")
        world
        (require_agent_credential platform (some "Bearer i.aa") echo world)
require_agent_credential-guards_example =
    require_agent_credential-guards platform (some "Bearer i.aa") world echo

post_revoke-attributes_example :
    Attributed platform environment
      (some "Bearer ann.k")
      "p"
      "superseded"
      world
      (post_revoke platform environment (some "Bearer ann.k") "p" "superseded" world).1
      200
      (without_secret_hash (mark_revoked root 1000 superseded))
unfolding post_revoke ambit.Sessions.verify_session_token ambit.Common.cut ambit.World.guarded
    ambit.Breaker.execute ambit.Store.get lookup ambit.World.write_entry
    ambit.Token.Access.put_token ambit.Store.save ambit.Common.insert
post_revoke-attributes_example =
    post_revoke-attributes platform environment (some "Bearer ann.k") "p" "superseded" world 200
      (without_secret_hash (mark_revoked root 1000 superseded)) refl

abbrev used : TotpVerifier
used = record {
  secret = "AA";
  step_seconds = 30;
  digits = 6;
  drift_steps = 1;
  last_accepted_timestep = some 0;
}

abbrev brief : SessionTokenConfig
brief = record { signing_secret = "k"; ttl_ms = some 5 }

abbrev nobody : OperatorSettings
nobody = record { username = none; password_hash = none; totp_secret = none }

abbrev ann : OperatorSettings
ann = record { username = some "ann"; password_hash = some "b:b"; totp_secret = some "AA" }

abbrev body : Credentials
body = record { username = "ann"; password = "pw"; totp_code = "00000n" }

abbrev start : LoginState
start = record {
  world = world;
  limiter = record { window_ms = 60000; max_requests = 5; windows = [] };
  verifiers = ("AA", used) ∷ [];
}

abbrev opened : String
opened = create_session_token lawful "ann" brief 3

post_login-opens_example :
    (l : LoggedIn lawful "127.0.0.1" (some brief) ann nobody (some body) start opened) × ((now : ℕ)
      → verify_session_token lawful opened l.matched.settings now ≡ (
          if leb
            (lawful.clock (start.world.clock_reads + 1 + length l.matched.operators + 1)
              + ttl_of l.matched.settings)
            now
          then invalid expired
          else valid l.matched.operator.username))
unfolding post_login ambit.Tests.Lawful.zero_bytes ambit.Tests.Lawful.read_hex
    ambit.World.write_entry
post_login-opens_example =
    post_login-opens lawful lawful_sessions "127.0.0.1" (some brief) ann nobody (some body) start
      opened refl
