-- ===== src/World/Frame.antt =====
-- What a guarded call of a store does to the state: the operation's own effect, or a
-- `CircuitOpenError` and none; the breaker, the clock and the audit log change besides.
use ambit.Common.{
  ℕ, ◌+◌, ◌≡◌, ◌≢◌, refl, sym, ap, subst, ◌∙◌, ◌⊎◌, inl, inr, Bool, true, false, Option, none, some,
  List, [], ◌∷◌, String, ◌&&◌, if◌then◌else◌, Bool-cases,
}
use ambit.Records.{AuditFields}
use ambit.Platform.{Platform}
use ambit.Audit.{is_denial, lacks_reason}
use ambit.Breaker.{
  CircuitBreaker, CircuitState, CircuitTransitionReason, CircuitStateChange, closed, open_circuit,
  half_open, execute, ran, refused, outage, Outcome,
}
use ambit.Breaker.Machine.{execute-cases}
use ambit.World.{
  World, Action, pure, raise, ◌>>=◌, ◌>>◌, try_open, Error, Result, ok, throw, circuit_open,
  as_operation, outcome_result, guarded, guarded_by, on_state_changes, on_state_change, announce,
  write_entry, record_entry,
}

-- The stores of two worlds are the same.
pub record SameStores (v w : World) : Type 0 where
  pub tokens : v.tokens ≡ w.tokens
  pub policies : v.policies ≡ w.policies
  pub requests : v.requests ≡ w.requests

pub SameStores-trans : (u v w : World) → SameStores u v → SameStores v w → SameStores u w
SameStores-trans u v w a b = record {
  tokens = a.tokens ∙ b.tokens;
  policies = a.policies ∙ b.policies;
  requests = a.requests ∙ b.requests;
}

-- A call that gave the operation's result, or was refused.
abbrev pub Guarded {ℓ} : {A : Type ℓ} → A → World → World → Result A × World → Type ℓ
Guarded a after before (r, w') =
    ((r ≡ ok a) × SameStores w' after)
    ⊎ (((m : String) × (r ≡ throw (circuit_open m))) × SameStores w' before)

module _ (pf : Platform) where
  pub write_entry-SameStores :
      (content : AuditFields) (now : ℕ) (w : World) → SameStores (write_entry pf content now w) w
  unfolding write_entry
  write_entry-SameStores content now w = record { tokens = refl; policies = refl; requests = refl }

  announce-SameStores :
      (to : CircuitState) (r : CircuitTransitionReason) (w : World)
      → SameStores (announce pf to r w) w
  unfolding announce
  announce-SameStores open_circuit r w = record { tokens = refl; policies = refl; requests = refl }
  announce-SameStores closed r w = record { tokens = refl; policies = refl; requests = refl }
  announce-SameStores half_open r w = record { tokens = refl; policies = refl; requests = refl }

  on_state_changes-SameStores :
      (cs : List CircuitStateChange) (w : World) → SameStores (on_state_changes pf cs w) w
  unfolding on_state_changes on_state_change
  on_state_changes-SameStores [] w = record { tokens = refl; policies = refl; requests = refl }
  on_state_changes-SameStores (c ∷ cs) w =
      let next = announce pf c.to c.reason w in
      SameStores-trans (on_state_changes pf cs next) next w (on_state_changes-SameStores cs next)
        (announce-SameStores c.to c.reason w)

  settled {ℓ} :
      {A : Type ℓ} (out : Outcome Error A) (a : A) (after before w' : World)
      → ((out ≡ ran a) × (w' ≡ after)) ⊎ (((out ≡ refused) ⊎ (out ≡ outage)) × (w' ≡ before))
      → (v : World) → SameStores v w'
      → Guarded a after before (outcome_result out, v)
  settled out a after before w' (inl (e, f)) v s =
      inl (ap outcome_result e, subst (SameStores v) f s)
  settled out a after before w' (inr (inl e, f)) v s =
      inr ((_, ap outcome_result e), subst (SameStores v) f s)
  settled out a after before w' (inr (inr e, f)) v s =
      inr ((_, ap outcome_result e), subst (SameStores v) f s)

  guarded_by-Guarded {ℓ} :
      {A : Type ℓ} (b : Option CircuitBreaker) (fn : World → A × World) (w : World)
      → (read : World) × SameStores read w
        × Guarded (fn read).0 (fn read).1 read (guarded_by pf b fn w)
  unfolding guarded_by
  guarded_by-Guarded none fn w = (
    w,
    record { tokens = refl; policies = refl; requests = refl },
    inl (refl, record { tokens = refl; policies = refl; requests = refl }),
  )
  guarded_by-Guarded (some b) fn w =
      let now = pf.clock w.clock_reads in
      let read : World = record w { clock_reads = w.clock_reads + 1 } in
      let (out, b', changes, w') = execute {E = Error} now (as_operation fn) b read in
      let before : World = record w' { breaker = some b' } in
      let s = on_state_changes-SameStores changes before in
      (
        read,
        record { tokens = refl; policies = refl; requests = refl },
        settled out (fn read).0 (fn read).1 read w' (execute-cases {E = Error} now fn b read)
            (on_state_changes pf changes before)
            (record { tokens = s.tokens; policies = s.policies; requests = s.requests }),
      )

  -- A guarded call reads the clock and then runs the operation on a world with the same stores, or
  -- is refused.
  pub guarded-Guarded {ℓ} :
      {A : Type ℓ} (fn : World → A × World) (w : World)
      → (read : World) × SameStores read w × Guarded (fn read).0 (fn read).1 read (guarded pf fn w)
  unfolding guarded
  guarded-Guarded fn w = guarded_by-Guarded w.breaker fn w

  -- `record` touches no store.
  pub record_entry-SameStores :
      (content : AuditFields) (now : ℕ) (w : World) → SameStores (record_entry pf content now w).1 w
  unfolding record_entry
  record_entry-SameStores content now w =
      elim (Bool-cases (is_denial content.decision && lacks_reason content.reason_code)) [
        | inl missing ↦ rw missing (record { tokens = refl; policies = refl; requests = refl })
        | inr given ↦ rw given (write_entry-SameStores content now w)
      ]

  -- An entry that gives its reason, or is no denial, is accepted.
  pub record_entry-accepts :
      (content : AuditFields) (now : ℕ) (w : World)
      → is_denial content.decision && lacks_reason content.reason_code ≡ false
      → record_entry pf content now w ≡ (ok tt, write_entry pf content now w)
  unfolding record_entry
  record_entry-accepts content now w h = rw h

-- A step that returns hands its value and its world to the rest.
pub bind-ok {ℓ κ} :
    {A : Type ℓ} {B : Type κ} (m : Action A) (f : A → Action B) (a : A) (w : World)
    → (m w).0 ≡ ok a
    → (m >>= f) w ≡ f a (m w).1
bind-ok {A} {B} m f a w e =
    ap
      (λ (r : Result A). elim r as (λ _. Result B × World) [
        | ok b ↦ f b (m w).1
        | throw x ↦ (throw x, (m w).1)
      ])
      e

-- A step that throws ends the action.
pub bind-throw {ℓ κ} :
    {A : Type ℓ} {B : Type κ} (m : Action A) (f : A → Action B) (x : Error) (w : World)
    → (m w).0 ≡ throw x
    → (m >>= f) w ≡ (throw x, (m w).1)
bind-throw {A} {B} m f x w e =
    ap
      (λ (r : Result A). elim r as (λ _. Result B × World) [
        | ok b ↦ f b (m w).1
        | throw y ↦ (throw y, (m w).1)
      ])
      e

caught {ℓ} : {A : Type ℓ} → Result A → World → Result (Option A) × World
caught r w = elim r [
  | ok a ↦ (ok (some a), w)
  | throw e ↦ elim e [ circuit_open _ ↦ (ok none, w) | other ↦ (throw other, w) ]
]

pub try_open-ok {ℓ} :
    {A : Type ℓ} (m : Action A) (a : A) (w : World)
    → (m w).0 ≡ ok a
    → try_open m w ≡ (ok (some a), (m w).1)
unfolding try_open caught
try_open-ok m a w e = ap (λ r. caught r (m w).1) e

pub try_open-open {ℓ} :
    {A : Type ℓ} (m : Action A) (x : String) (w : World)
    → (m w).0 ≡ throw (circuit_open x)
    → try_open m w ≡ (ok none, (m w).1)
unfolding try_open caught
try_open-open m x w e = ap (λ r. caught r (m w).1) e

caught-eq-some {ℓ} :
    {A : Type ℓ} (r : Result A) (a : A) (w : World) → (caught r w).0 ≡ ok (some a) → r ≡ ok a
unfolding caught
caught-eq-some (ok b) a w e = cc
caught-eq-some (throw (circuit_open m)) a w e = absurd (cc)
caught-eq-some (throw _) a w e = absurd (cc)

caught-world {ℓ} : {A : Type ℓ} (r : Result A) (w : World) → (caught r w).1 ≡ w
unfolding caught
caught-world (ok b) w = refl
caught-world (throw (circuit_open m)) w = refl
caught-world (throw _) w = refl

-- A catch writes nothing.
pub try_open-world {ℓ} : {A : Type ℓ} (m : Action A) (w : World) → (try_open m w).1 ≡ (m w).1
unfolding try_open caught
try_open-world m w = caught-world (m w).0 (m w).1

-- What was caught as a value was returned.
pub try_open-eq-some {ℓ} :
    {A : Type ℓ} (m : Action A) (a : A) (w : World)
    → (try_open m w).0 ≡ ok (some a)
    → (m w).0 ≡ ok a
unfolding try_open caught
try_open-eq-some m a w e = caught-eq-some (m w).0 a (m w).1 e

-- An action that returns has passed its first step, and the rest has returned from there.
pub bind-eq-ok {ℓ κ} :
    {A : Type ℓ} {B : Type κ} (m : Action A) (f : A → Action B) (w : World) (b : B)
    → ((m >>= f) w).0 ≡ ok b
    → (a : A) × ((m w).0 ≡ ok a) × ((m >>= f) w ≡ f a (m w).1)
bind-eq-ok {A} {B} m f w b h = go (m w).0 refl
  where
    go : (r : Result A) → (m w).0 ≡ r → (a : A) × ((m w).0 ≡ ok a) × ((m >>= f) w ≡ f a (m w).1)
    go (ok a) e = (a, e, bind-ok m f a w e)
    go (throw x) e = absurd (cc (ap (λ r. r.0) (bind-throw m f x w e), h))

pub SameStores-refl : (w : World) → SameStores w w
SameStores-refl w = record { tokens = refl; policies = refl; requests = refl }

-- An action that leaves the stores as they are.
abbrev pub Keeps {ℓ} : {A : Type ℓ} → Action A → Type 0
Keeps m = (w : World) → SameStores (m w).1 w

pub pure-Keeps {ℓ} : {A : Type ℓ} (a : A) → Keeps (pure a)
pure-Keeps a w = SameStores-refl w

pub raise-Keeps {ℓ} : (A : Type ℓ) (e : Error) → Keeps (raise {A = A} e)
raise-Keeps A e w = SameStores-refl w

continue-SameStores {ℓ κ} :
    {A : Type ℓ} {B : Type κ} (r : Result A) (f : A → Action B) (w : World)
    → ((a : A) → Keeps (f a))
    → SameStores (elim r as (λ _. Result B × World) [ ok a ↦ f a w | throw e ↦ (throw e, w) ]).1 w
continue-SameStores (ok a) f w h = h a w
continue-SameStores (throw e) f w h = SameStores-refl w

pub bind-Keeps {ℓ κ} :
    {A : Type ℓ} {B : Type κ} (m : Action A) (f : A → Action B)
    → Keeps m
    → ((a : A) → Keeps (f a))
    → Keeps (m >>= f)
bind-Keeps m f h k w =
    SameStores-trans ((m >>= f) w).1 (m w).1 w (continue-SameStores (m w).0 f (m w).1 k) (h w)

pub if-Keeps {ℓ} :
    {A : Type ℓ} (b : Bool) (m n : Action A) → Keeps m → Keeps n → Keeps (if b then m else n)
if-Keeps true m n h k = h
if-Keeps false m n h k = k

-- An action that never returns.
abbrev pub Fails {ℓ} : {A : Type ℓ} → Action A → Type ℓ
Fails {A = A} m = (w : World) (a : A) → (m w).0 ≢ ok a

pub then_raise-Fails {ℓ κ} :
    {A : Type ℓ} {B : Type κ} (m : Action A) (e : Error) → Fails (m >> raise {A = B} e)
then_raise-Fails {B = B} m e w b h =
    let (a, done, rest) = bind-eq-ok m (λ _. raise {A = B} e) w b h in
    absurd (cc (ap (λ x. x.0) (sym rest) ∙ h))
