-- ===== src/Anomaly.antt =====
-- src/anomalyDetector.ts: two signals on a submitted token request, its breadth of scope and the
-- subject's velocity. Times are milliseconds since the epoch.
pub mod History
use ambit.Common.{
  ℕ, ◌+◌, Bool, true, false, Option, none, some, List, [], ◌∷◌, ◌++◌, String, ltb, if◌then◌else◌,
  length, filter, Dict, lookup, insert,
}
use ambit.Breaker.{or_default}

pub record AnomalyDetectorConfig : Type 0 where
  pub max_scope_breadth : ℕ
  pub velocity_window_ms : ℕ
  pub max_requests_per_window : ℕ

abbrev pub default_anomaly_config : AnomalyDetectorConfig
default_anomaly_config = record {
  max_scope_breadth = 3;
  velocity_window_ms = 60000;
  max_requests_per_window = 3;
}

pub record AnomalyResult : Type 0 where
  pub anomalous : Bool
  pub signals : List String

pub record AnomalyDetector : Type 0 where
  pub config : AnomalyDetectorConfig
  pub recent_by_subject : Dict (List ℕ)

-- The constructor, over the three optional thresholds.
unfoldable pub init : Option ℕ → Option ℕ → Option ℕ → AnomalyDetector
init breadth window requests = record {
  config = record {
    max_scope_breadth = or_default breadth default_anomaly_config.max_scope_breadth;
    velocity_window_ms = or_default window default_anomaly_config.velocity_window_ms;
    max_requests_per_window = or_default requests default_anomaly_config.max_requests_per_window;
  };
  recent_by_subject = [];
}

abbrev pub or_empty : Option (List ℕ) → List ℕ
or_empty none = []
or_empty (some ts) = ts

-- The times that a filter of `check` at `now` keeps: `now - t < velocityWindowMs`.
abbrev pub still_recent : ℕ → ℕ → List ℕ → List ℕ
still_recent window now = filter (λ t. ltb now (t + window))

-- `recent` after the filter and the `push`.
unfoldable pub recent_at : String → ℕ → AnomalyDetector → List ℕ
recent_at subject now d =
    still_recent d.config.velocity_window_ms now (or_empty (lookup subject d.recent_by_subject))
    ++ now ∷ []

abbrev is_empty : List String → Bool
is_empty [] = true
is_empty (x ∷ xs) = false

unfoldable pub check : String → List String → ℕ → AnomalyDetector → AnomalyDetector × AnomalyResult
unfolding recent_at
check subject scope now d =
    let breadth : List String =
      if ltb d.config.max_scope_breadth (length scope) then "scope_too_broad" ∷ [] else [] in
    let recent = recent_at subject now d in
    let signals : List String =
      breadth
      ++ (if ltb d.config.max_requests_per_window (length recent)
          then "high_velocity" ∷ []
          else []) in
    (
      record d { recent_by_subject = insert subject recent d.recent_by_subject },
      record { anomalous = if is_empty signals then false else true; signals = signals },
    )
