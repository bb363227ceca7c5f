-- ===== src/Operators/Login.antt =====
-- Who src/operatorDirectory.ts lets in, and that a login without a password leaves no trace.
use ambit.Common.{
  ℕ, ◌+◌, ◌≡◌, refl, ◌⊎◌, inl, inr, true, false, none, some, List, [], ◌∷◌, String, All, Bool-cases,
}
use ambit.Platform.{Platform}
use ambit.Password.{verify_password}
use ambit.Sessions.{timing_safe_string_equal}
use ambit.Totp.{TotpVerifier, verify}
use ambit.Operators.{OperatorIdentity, find_from, find_authenticated_operator}

-- One of the list's members has the property, at its position, counted from the given one.
abbrev pub SomeAt {ℓ} : {A : Type ℓ} → (ℕ → A → Type 0) → ℕ → List A → Type 0
SomeAt P i [] = ⊥
SomeAt P i (x ∷ xs) = P i x ⊎ SomeAt P (i + 1) xs

module _ (pf : Platform) (username password code : String) (now : ℕ → ℕ) where
  -- Without the password of any identity no verifier is called: none changes, and none throws.
  find_from-refused :
      (i : ℕ) (os : List OperatorIdentity)
      → All (λ o. verify_password pf password o.password_hash ≡ false) os
      → find_from pf username password code now i os ≡ some (os, none)
  unfolding find_from
  find_from-refused i [] h = refl
  find_from-refused i (o ∷ os) (wrong, h) =
      let ih = find_from-refused (i + 1) os h in
      elim (Bool-cases (timing_safe_string_equal pf o.username username)) [
        | inl e ↦ rw (e, wrong, ih) refl
        | inr e ↦ rw (e, ih) refl
      ]

  -- The identity at position `i` gave its name, its password and a code that its verifier accepts at
  -- the clock's reading for that position, and the verifier moved on.
  pub record Admitted (found : OperatorIdentity) (i : ℕ) (before : OperatorIdentity) : Type 0 where
    pub verifier : TotpVerifier
    pub same : found ≡ record before { totp_verifier = verifier }
    pub named : timing_safe_string_equal pf before.username username ≡ true
    pub knows : verify_password pf password before.password_hash ≡ true
    pub accepts : verify pf code (now i) before.totp_verifier ≡ some (verifier, true)

-- With a password that no identity admits, nobody is let in and no verifier is touched, so that a
-- mistyped password uses up no code; no verifier is called that could throw.
pub find_authenticated_operator-refuses :
    (pf : Platform) (username password code : String) (now : ℕ → ℕ)
    (identities : List OperatorIdentity)
    → All (λ o. verify_password pf password o.password_hash ≡ false) identities
    → find_authenticated_operator pf username password code now identities ≡ some (identities, none)
unfolding find_authenticated_operator
find_authenticated_operator-refuses pf username password code now identities h =
    find_from-refused pf username password code now 0 identities h
