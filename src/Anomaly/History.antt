-- ===== src/Anomaly/History.antt =====
-- The velocity signal of src/anomalyDetector.ts against the whole history of submissions: pruning
-- old times on every call loses nothing, as long as the clock does not run backwards.
use ambit.Common.{
  ℕ, ◌+◌, ◌≤◌, ◌≡◌, refl, ap, subst, length-append, inl, inr, Bool, List, [], ◌∷◌, ◌++◌, String,
  arith, lookup, lookup-insert, eq_iff, length, filter, ltb, if◌then◌else◌, str_eq, Bool-cases,
}
use mathlib.Core.List.{append-nil, append_assoc}
use ambit.Anomaly.{AnomalyDetector, or_empty, still_recent, recent_at, check}

-- One submission: its subject, its scope and its time.
pub record Submission : Type 0 where
  pub subject : String
  pub scope : List String
  pub time : ℕ

-- The detector after the submissions, oldest first.
unfoldable pub replay : List Submission → AnomalyDetector → AnomalyDetector
replay [] d = d
replay (e ∷ es) d = replay es (check e.subject e.scope e.time d).0

-- The times at which a subject submitted.
unfoldable pub times_of : String → List Submission → List ℕ
times_of subject [] = []
times_of subject (e ∷ es) =
    if str_eq e.subject subject then e.time ∷ times_of subject es else times_of subject es

-- The times do not decrease, from `from` on and up to `until`.
abbrev pub IsOrdered : ℕ → List Submission → ℕ → Type 0
IsOrdered from [] until = from ≤ until
IsOrdered from (e ∷ es) until = (from ≤ e.time) × IsOrdered e.time es until

filter-append : (p : ℕ → Bool) (xs ys : List ℕ) → filter p (xs ++ ys) ≡ filter p xs ++ filter p ys
filter-append p [] ys = refl
filter-append p (x ∷ xs) ys = ground (arith, filter-append p xs ys)

-- A later filter sees no difference if an earlier one has been applied before.
still_recent-again :
    (window early late : ℕ) (ts : List ℕ)
    → early ≤ late
    → still_recent window late (still_recent window early ts) ≡ still_recent window late ts
still_recent-again window early late [] h = refl
still_recent-again window early late (t ∷ ts) h =
    ground (arith, still_recent-again window early late ts h)

-- What the detector remembers of a subject, to which it has added `seen` since, is as good as the
-- whole history of that subject for every filter from `now` on.
abbrev Remembers : AnomalyDetector → String → ℕ → List ℕ → Type 0
Remembers d subject now seen =
    (late : ℕ)
    → now ≤ late
    → still_recent d.config.velocity_window_ms late (or_empty (lookup subject d.recent_by_subject))
      ≡ still_recent d.config.velocity_window_ms late seen

-- A filter keeps whole what an earlier one has kept, and the new time.
recent_at-again :
    (d : AnomalyDetector) (e : Submission) (late : ℕ)
    → e.time ≤ late
    → still_recent d.config.velocity_window_ms late (recent_at e.subject e.time d)
      ≡ still_recent d.config.velocity_window_ms late
          (or_empty (lookup e.subject d.recent_by_subject))
        ++ still_recent d.config.velocity_window_ms late (e.time ∷ [])
unfolding recent_at
recent_at-again d e late l =
    let w = d.config.velocity_window_ms in
    let old = or_empty (lookup e.subject d.recent_by_subject) in
    rw (filter-append (λ t. ltb late (t + w)) (still_recent w e.time old) (e.time ∷ []))
      (rw (still_recent-again w e.time late old l))

check-Remembers :
    (d : AnomalyDetector) (e : Submission) (subject : String) (now : ℕ) (seen : List ℕ)
    → now ≤ e.time
    → Remembers d subject now seen
    → Remembers
        (check e.subject e.scope e.time d).0
        subject
        e.time
        (seen ++ times_of subject (e ∷ []))
unfolding check times_of
check-Remembers d e subject now seen h r late l =
    let w = d.config.velocity_window_ms in
    let p = λ (t : ℕ). ltb late (t + w) in
    elim (Bool-cases (str_eq e.subject subject)) [
      | inl same ↦
          let at_late = r late (omega arith) in
          let eq : e.subject ≡ subject = (eq_iff e.subject subject).0 same in
          rw
            (
              lookup-insert,
              same,
              filter-append p seen (e.time ∷ []),
              recent_at-again d e late l,
              eq,
            )
            (rw at_late)
      | inr other ↦ rw (lookup-insert, other, append-nil) (r late (omega arith))
    ]

times_of-split :
    (e : Submission) (es : List Submission) (subject : String) (seen : List ℕ)
    → (seen ++ times_of subject (e ∷ [])) ++ times_of subject es ≡ seen ++ times_of subject (e ∷ es)
unfolding times_of
times_of-split e es subject seen = elim (Bool-cases (str_eq e.subject subject)) [
  | inl same ↦ rw same (append_assoc seen (e.time ∷ []) (times_of subject es))
  | inr other ↦ rw (other, append-nil)
]

replay-Remembers :
    (d : AnomalyDetector) (es : List Submission) (subject : String) (from until : ℕ) (seen : List ℕ)
    → IsOrdered from es until
    → Remembers d subject from seen
    → Remembers (replay es d) subject until (seen ++ times_of subject es)
unfolding replay times_of
replay-Remembers d [] subject from until seen o r = λ late l. rw append-nil (r late (omega arith))
replay-Remembers d (e ∷ es) subject from until seen o r =
    let d' = (check e.subject e.scope e.time d).0 in
    let seen' = seen ++ times_of subject (e ∷ []) in
    let ih =
      replay-Remembers d' es subject e.time until seen' o.1
        (check-Remembers d e subject from seen o.0 r) in
    subst (Remembers (replay es d') subject until) (times_of-split e es subject seen) ih

replay-config : (d : AnomalyDetector) (es : List Submission) → (replay es d).config ≡ d.config
unfolding replay check
replay-config d [] = refl
replay-config d (e ∷ es) = replay-config (check e.subject e.scope e.time d).0 es

-- How often the subject has submitted within the window that ends at `now`, this time included.
unfoldable pub recent_count : ℕ → String → ℕ → List Submission → ℕ
recent_count window subject now es = length (still_recent window now (times_of subject es)) + 1

length-recent_at :
    (d : AnomalyDetector) (es : List Submission) (subject : String) (now : ℕ)
    → d.recent_by_subject ≡ []
    → IsOrdered 0 es now
    → length (recent_at subject now (replay es d))
      ≡ recent_count d.config.velocity_window_ms subject now es
unfolding recent_at recent_count lookup
length-recent_at d es subject now e o =
    let start : Remembers d subject 0 [] = λ late l. rw e refl in
    let r = replay-Remembers d es subject 0 now [] o start now (omega arith) in
    let w = d.config.velocity_window_ms in
    rw (replay-config d es, length-append, ap length (rw (replay-config d es) at r)) (omega arith)

-- Whatever came before, in any order of subjects and as long as time did not run backwards, a
-- submission is flagged for velocity exactly if its subject's submissions within the window, this
-- one included, exceed the limit; and for breadth exactly if its scope is longer than the limit.
pub check_signals :
    (d : AnomalyDetector) (es : List Submission) (subject : String) (scope : List String) (now : ℕ)
    → d.recent_by_subject ≡ []
    → IsOrdered 0 es now
    → (check subject scope now (replay es d)).1.signals
      ≡ (if ltb d.config.max_scope_breadth (length scope) then "scope_too_broad" ∷ [] else [])
        ++ (if ltb d.config.max_requests_per_window
              (recent_count d.config.velocity_window_ms subject now es)
            then "high_velocity" ∷ []
            else [])
unfolding check
check_signals d es subject scope now e o =
    rw (← length-recent_at d es subject now e o, replay-config d es)
