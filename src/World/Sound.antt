-- ===== src/World/Sound.antt =====
-- What every method leaves true of the audit log of src/auditLog.ts, whether it returns or throws:
-- entries are only added, at the end, the hash chain stays valid, and no denial is logged without a
-- reason.
use mathlib.Core.List.{append-nil, append_assoc}
use ambit.Common.{
  ℕ, ◌+◌, ◌≡◌, refl, Bool, true, false, ◌&&◌, Option, none, some, List, [], ◌∷◌, ◌++◌, All,
  if◌then◌else◌, Bool-cases, inl, inr,
}
use ambit.Records.{AuditFields, AuditLogEntry, fields, Decision, circuit_opened, circuit_closed}
use ambit.Platform.{Platform}
use ambit.Audit.{is_denial, lacks_reason, new_entry}
use ambit.Audit.Chain.{IsChain, record-IsChain, append_entry-entries}
use ambit.Breaker.{
  CircuitBreaker, CircuitState, CircuitTransitionReason, CircuitStateChange, closed, open_circuit,
  half_open, execute,
}
use ambit.Breaker.Machine.{execute-keeps}
use ambit.World.{
  World, Error, Result, ok, throw, Action, ◌>>=◌, try_open, write_entry, record_entry,
  on_state_change, on_state_changes, guarded, guarded_by, circuit_open, log_transition, announce,
  transition_text, as_operation, pure, raise, read_clock, draw_uuid, draw_bytes,
}

-- The entry is no denial, or it has a reason that is not blank.
abbrev pub HasReason : AuditLogEntry → Type 0
HasReason e =
    is_denial e.covered.content.decision && lacks_reason e.covered.content.reason_code ≡ false

-- From `w` to `w'` the log has only grown, by entries that give their reasons, and its chain is valid
-- if it was.
pub record Extends (pf : Platform) (w w' : World) : Type 0 where
  pub more : List AuditLogEntry
  pub appended : w'.audit.entries ≡ w.audit.entries ++ more
  pub reasoned : All HasReason more
  pub chained : IsChain pf none w.audit.entries → IsChain pf none w'.audit.entries

All-append :
    (xs ys : List AuditLogEntry) → All HasReason xs → All HasReason ys → All HasReason (xs ++ ys)
All-append [] ys h k = k
All-append (x ∷ xs) ys h k = (h.0, All-append xs ys h.1 k)

module _ (pf : Platform) where
  pub Extends-same : (w w' : World) → w'.audit ≡ w.audit → Extends pf w w'
  Extends-same w w' e = record {
    more = [];
    appended = rw (e, append-nil);
    reasoned = tt;
    chained = λ h. rw e h;
  }

  pub Extends-trans : (u v w : World) → Extends pf u v → Extends pf v w → Extends pf u w
  Extends-trans u v w a b = record {
    more = a.more ++ b.more;
    appended = rw (b.appended, a.appended, append_assoc);
    reasoned = All-append a.more b.more a.reasoned b.reasoned;
    chained = λ h. b.chained (a.chained h);
  }

  write_entry-Extends :
      (content : AuditFields) (now : ℕ) (w : World)
      → is_denial content.decision && lacks_reason content.reason_code ≡ false
      → Extends pf w (write_entry pf content now w)
  unfolding write_entry new_entry
  write_entry-Extends content now w h = record {
    more = new_entry pf (pf.random_uuid w.uuids_drawn) content now w.audit ∷ [];
    appended =
        append_entry-entries pf (new_entry pf (pf.random_uuid w.uuids_drawn) content now w.audit)
          w.audit;
    reasoned = (h, tt);
    chained = record-IsChain pf (pf.random_uuid w.uuids_drawn) content now w.audit;
  }

  log_transition-Extends :
      (d : Decision) (r : CircuitTransitionReason) (w : World)
      → is_denial d ≡ false
      → Extends pf w (log_transition pf d r w)
  unfolding log_transition
  log_transition-Extends d r w h =
      let read : World = record w { clock_reads = w.clock_reads + 1 } in
      Extends-trans w read (log_transition pf d r w) (Extends-same w read refl) (
        write_entry-Extends
          (record (fields "system" "policy_token_store" d) {
            reason_code = some (transition_text r);
          })
          (pf.clock w.clock_reads) read (rw h))

  announce-Extends :
      (to : CircuitState) (r : CircuitTransitionReason) (w : World)
      → Extends pf w (announce pf to r w)
  unfolding announce
  announce-Extends open_circuit r w = log_transition-Extends circuit_opened r w refl
  announce-Extends closed r w = log_transition-Extends circuit_closed r w refl
  announce-Extends half_open r w = Extends-same w w refl

  on_state_changes-Extends :
      (cs : List CircuitStateChange) (w : World) → Extends pf w (on_state_changes pf cs w)
  unfolding on_state_changes on_state_change
  on_state_changes-Extends [] w = Extends-same w w refl
  on_state_changes-Extends (c ∷ cs) w =
      Extends-trans w (on_state_change pf c w) (on_state_changes pf cs (on_state_change pf c w))
        (announce-Extends c.to c.reason w) (on_state_changes-Extends cs (on_state_change pf c w))

  -- An action that is sound: it only extends the log.
  abbrev pub IsSound {ℓ} : {A : Type ℓ} → Action A → Type 0
  IsSound m = (w : World) → Extends pf w (m w).1

  pub pure-IsSound {ℓ} : {A : Type ℓ} (a : A) → IsSound (pure a)
  pure-IsSound a w = Extends-same w w refl

  pub raise-IsSound {ℓ} : (A : Type ℓ) (e : Error) → IsSound (raise {A = A} e)
  raise-IsSound A e w = Extends-same w w refl

  continue-Extends {ℓ κ} :
      {A : Type ℓ} {B : Type κ} (r : Result A) (f : A → Action B) (w : World)
      → ((a : A) → IsSound (f a))
      → Extends pf w (elim r as (λ _. Result B × World) [ ok a ↦ f a w | throw e ↦ (throw e, w) ]).1
  continue-Extends (ok a) f w h = h a w
  continue-Extends (throw e) f w h = Extends-same w w refl

  pub bind-IsSound {ℓ κ} :
      {A : Type ℓ} {B : Type κ} (m : Action A) (f : A → Action B)
      → IsSound m
      → ((a : A) → IsSound (f a))
      → IsSound (m >>= f)
  bind-IsSound m f h k w =
      Extends-trans w (m w).1 ((m >>= f) w).1 (h w) (continue-Extends (m w).0 f (m w).1 k)

  caught-audit {ℓ} :
      {A : Type ℓ} (r : Result A) (w : World)
      → (elim r as (λ _. Result (Option A) × World) [
        | ok a ↦ (ok (some a), w)
        | throw e ↦ elim e [ circuit_open _ ↦ (ok none, w) | other ↦ (throw other, w) ]
      ]).1
        ≡ w
  caught-audit (ok a) w = refl
  caught-audit (throw (circuit_open m)) w = refl
  caught-audit (throw _) w = refl

  pub try_open-IsSound {ℓ} : {A : Type ℓ} (m : Action A) → IsSound m → IsSound (try_open m)
  unfolding try_open
  try_open-IsSound m h w = rw (caught-audit (m w).0 (m w).1) (h w)

  pub if-IsSound {ℓ} :
      {A : Type ℓ} (b : Bool) (m n : Action A)
      → IsSound m
      → IsSound n
      → IsSound (if b then m else n)
  if-IsSound true m n h k = h
  if-IsSound false m n h k = k

  guarded_by-Extends {ℓ} :
      {A : Type ℓ} (b : Option CircuitBreaker) (fn : World → A × World) (w : World)
      → ((v : World) → (fn v).1.audit ≡ v.audit)
      → Extends pf w (guarded_by pf b fn w).1
  unfolding guarded_by
  guarded_by-Extends none fn w h = Extends-same w (fn w).1 (h w)
  guarded_by-Extends (some b) fn w h =
      let now = pf.clock w.clock_reads in
      let read : World = record w { clock_reads = w.clock_reads + 1 } in
      let same : (execute now (as_operation fn) b read).3.audit ≡ w.audit =
        execute-keeps now (as_operation fn) (λ v. v.audit ≡ w.audit) b read refl (h read) in
      let (out, b', changes, w') = execute now (as_operation fn) b read in
      let before : World = record w' { breaker = some b' } in
      Extends-trans w before (on_state_changes pf changes before) (Extends-same w before same)
        (on_state_changes-Extends changes before)

  pub guarded-IsSound {ℓ} :
      {A : Type ℓ} (fn : World → A × World)
      → ((v : World) → (fn v).1.audit ≡ v.audit)
      → IsSound (guarded pf fn)
  unfolding guarded
  guarded-IsSound fn h w = guarded_by-Extends w.breaker fn w h

  pub record_entry-IsSound :
      (content : AuditFields) (now : ℕ) → IsSound (record_entry pf content now)
  unfolding record_entry
  record_entry-IsSound content now w =
      elim (Bool-cases (is_denial content.decision && lacks_reason content.reason_code)) [
        | inl missing ↦ rw missing (Extends-same w w refl)
        | inr given ↦ rw given (write_entry-Extends content now w given)
      ]

  pub read_clock-IsSound : IsSound (read_clock pf)
  unfolding read_clock
  read_clock-IsSound w = Extends-same w _ refl

  pub draw_uuid-IsSound : IsSound (draw_uuid pf)
  unfolding draw_uuid
  draw_uuid-IsSound w = Extends-same w _ refl

  pub draw_bytes-IsSound : (size : ℕ) → IsSound (draw_bytes pf size)
  unfolding draw_bytes
  draw_bytes-IsSound size w = Extends-same w _ refl
