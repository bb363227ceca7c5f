-- ===== src/Token/Access/Reads.antt =====
-- What a read and a write of the token store of src/tokenStore.ts do, with and without a breaker.
use ambit.Common.{
  refl, Bool, true, false, Option, none, ◌||◌, Bool-cases, ◌≡◌, ap, ◌∙◌, ◌⊎◌, inl, inr, some,
  String, lookup-insert_self, lookup-insert_ne, ◌≢◌,
}
use ambit.Records.{Token}
use ambit.Platform.{Platform}
use ambit.Breaker.{CircuitBreaker, is_cooling, execute, settle}
use ambit.Store.{get, save}
use ambit.World.{World, Result, ok, throw, circuit_open, guarded, guarded_by}
use ambit.World.Frame.{SameStores, SameStores-trans, guarded-Guarded}
use ambit.Token.Access.{token_get, token_save, policy_get, put_token}

-- The call threw a `CircuitOpenError`.
abbrev pub IsUnavailable {ℓ} : {A : Type ℓ} → Result A → Type ℓ
IsUnavailable r = (m : String) × (r ≡ throw (circuit_open m))

-- A read gives what is stored under the id, or is refused; the stores stay as they are.
pub token_get-reads :
    (pf : Platform) (id : String) (w : World)
    → let (r, w') = token_get pf id w in
      ((r ≡ ok (get id w.tokens)) ⊎ IsUnavailable r) × SameStores w' w
unfolding token_get
token_get-reads pf id w =
    let (read, same, done) = guarded-Guarded pf (λ v. (get id v.tokens, v)) w in
    elim done [
      | inl (e, s) ↦
          (inl (e ∙ ap (λ t. ok (get id t)) same.tokens), SameStores-trans _ read w s same)
      | inr (e, s) ↦ (inr e, SameStores-trans _ read w s same)
    ]

-- A write stores the token under its id and leaves all else, or is refused and writes nothing.
pub token_save-writes :
    (pf : Platform) (t : Token) (w : World)
    → let (r, w') = token_save pf t w in
      ((r ≡ ok tt) × (w'.tokens ≡ (put_token pf t w).tokens))
      ⊎ (IsUnavailable r × (w'.tokens ≡ w.tokens))
unfolding token_save put_token
token_save-writes pf t w =
    let (read, same, done) =
      guarded-Guarded {0} pf {A = Unit {0}} (λ v. (tt, put_token pf t v)) w in
    elim done [
      | inl (e, s) ↦ inl (e, s.tokens ∙ ap (save t.id t (pf.json_token t)) same.tokens)
      | inr (e, s) ↦ inr (e, s.tokens ∙ same.tokens)
    ]

-- What was stored last is what is read.
pub get-put_token :
    (pf : Platform) (t : Token) (w : World) → get t.id (put_token pf t w).tokens ≡ some t
unfolding get put_token save
get-put_token pf t w = lookup-insert_self t.id t w.tokens.items

-- Other ids keep theirs.
pub get-put_token_ne :
    (pf : Platform) (t : Token) (id : String) (w : World)
    → t.id ≢ id
    → get id (put_token pf t w).tokens ≡ get id w.tokens
unfolding get put_token save
get-put_token_ne pf t id w h = lookup-insert_ne t.id id t w.tokens.items h

-- So for a read of the policy store.
pub policy_get-reads :
    (pf : Platform) (id : String) (w : World)
    → let (r, w') = policy_get pf id w in
      ((r ≡ ok (get id w.policies)) ⊎ IsUnavailable r) × SameStores w' w
unfolding policy_get
policy_get-reads pf id w =
    let (read, same, done) = guarded-Guarded pf (λ v. (get id v.policies, v)) w in
    elim done [
      | inl (e, s) ↦
          (inl (e ∙ ap (λ t. ok (get id t)) same.policies), SameStores-trans _ read w s same)
      | inr (e, s) ↦ (inr e, SameStores-trans _ read w s same)
    ]

-- A read that returned has found what is stored.
pub read-eq {ℓ} :
    {A : Type ℓ} (r : Result A) (stored a : A)
    → (r ≡ ok stored) ⊎ IsUnavailable r
    → r ≡ ok a
    → stored ≡ a
read-eq r stored a (inl e) h = cc
read-eq r stored a (inr (m, e)) h = absurd (cc)

-- The breaker in front of the store, if there is one, does not let a call through to it now: the
-- circuit is cooling down, or an outage is simulated.
unfoldable pub is_down : Platform → Option CircuitBreaker → World → Bool
is_down pf none w = false
is_down pf (some b) w = is_cooling (pf.clock w.clock_reads) b || b.simulating_outage

guarded_by-down {ℓ} :
    (pf : Platform) {A : Type ℓ} (b : Option CircuitBreaker) (fn : World → A × World) (w : World)
    → is_down pf b w ≡ true
    → IsUnavailable (guarded_by pf b fn w).0
unfolding is_down guarded_by execute
guarded_by-down pf none fn w h = absurd (cc)
guarded_by-down pf (some b) fn w h = elim (Bool-cases (is_cooling (pf.clock w.clock_reads) b)) [
  | inl e ↦ rw e (_, refl)
  | inr e ↦ let out : b.simulating_outage ≡ true = rw e at h in rw (e, out) (_, refl)
]

guarded_by-up {ℓ} :
    (pf : Platform) {A : Type ℓ} (b : Option CircuitBreaker) (fn : World → A × World) (w : World)
    → is_down pf b w ≡ false
    → (a : A) × ((guarded_by pf b fn w).0 ≡ ok a)
unfolding is_down guarded_by execute settle
guarded_by-up pf none fn w h = (_, refl)
guarded_by-up pf (some b) fn w h = elim (Bool-cases (is_cooling (pf.clock w.clock_reads) b)) [
  | inl e ↦ absurd (cc (rw e at h))
  | inr e ↦ let out : b.simulating_outage ≡ false = rw e at h in rw (e, out) (_, refl)
]

-- A read that returned was let through, and one that was refused was not.
pub read-up :
    (pf : Platform) (id : String) (w : World)
    → (token_get pf id w).0 ≡ ok (get id w.tokens)
    → is_down pf w.breaker w ≡ false
unfolding token_get guarded
read-up pf id w h = elim (Bool-cases (is_down pf w.breaker w)) [
  | inr up ↦ up
  | inl down ↦
      let (m, e) = guarded_by-down pf w.breaker (λ v. (get id v.tokens, v)) w down in absurd (cc)
]

pub refused-down :
    (pf : Platform) (id : String) (w : World)
    → IsUnavailable (token_get pf id w).0
    → is_down pf w.breaker w ≡ true
unfolding token_get guarded
refused-down pf id w (m, h) = elim (Bool-cases (is_down pf w.breaker w)) [
  | inl down ↦ down
  | inr up ↦ let (a, e) = guarded_by-up pf w.breaker (λ v. (get id v.tokens, v)) w up in absurd (cc)
]
