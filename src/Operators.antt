-- ===== src/Operators.antt =====
-- src/operatorDirectory.ts: the operators that may log in. The list is what the caller holds; each
-- identity comes back with its verifier as the call left it. No other login runs in between.
pub mod Login
use ambit.Common.{
  ℕ, ◌+◌, Bool, true, false, ◌&&◌, Option, none, some, List, [], ◌∷◌, String, if◌then◌else◌,
}
use ambit.Platform.{Platform}
use ambit.Password.{verify_password}
use ambit.Sessions.{timing_safe_string_equal}
use ambit.Totp.{TotpVerifier, verify}

pub record OperatorIdentity : Type 0 where
  pub username : String
  pub password_hash : String
  pub totp_verifier : TotpVerifier

-- The identities after the loop, and the one that was found.
abbrev pub Found : Type 0
Found = List OperatorIdentity × Option OperatorIdentity

-- An identity that the loop passed, before what came after it; `none` if that threw.
abbrev pub passed : OperatorIdentity → Option Found → Option Found
passed o none = none
passed o (some (os, found)) = some (o ∷ os, found)

-- What follows the call of the identity's verifier; `rest` is what the later rounds give.
unfoldable pub after_code :
    OperatorIdentity
    → List OperatorIdentity
    → Option (TotpVerifier × Bool)
    → Option Found
    → Option Found
after_code o os none rest = none
after_code o os (some (v, true)) rest =
    some (record o { totp_verifier = v } ∷ os, some (record o { totp_verifier = v }))
after_code o os (some (v, false)) rest = passed (record o { totp_verifier = v }) rest

module _ (pf : Platform) (username password code : String) (now : ℕ → ℕ) where
  -- The loop, from the i-th identity on; `now i` is the clock's reading at its verifier.
  unfoldable pub find_from : ℕ → List OperatorIdentity → Option Found
  unfolding timing_safe_string_equal verify_password verify after_code
  find_from i [] = some ([], none)
  find_from i (o ∷ os) =
      let rest = find_from (i + 1) os in
      if timing_safe_string_equal pf o.username username
        && verify_password pf password o.password_hash
      then after_code o os (verify pf code (now i) o.totp_verifier) rest
      else passed o rest

  -- `findAuthenticatedOperator`
  unfoldable pub find_authenticated_operator : List OperatorIdentity → Option Found
  unfolding find_from
  find_authenticated_operator identities = find_from 0 identities
