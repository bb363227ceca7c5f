-- ===== src/Audit.antt =====
-- src/auditLog.ts, and the line mechanics of src/jsonlStore.ts: the hash-chained audit log, kept in
-- memory and, where a path is configured, in a file of one JSON object per line that is rotated into
-- numbered archives. A file is the list of its lines (`JSON.stringify` writes no line break), and the
-- archives stand in the order of their numbers, as `scanArchivedSegments` sorts them.
pub mod Chain
pub mod Tamper
pub mod Files
pub mod Rotation
use ambit.Common.{
  ℕ, ◌+◌, Bool, true, false, not, ◌||◌, Option, none, some, List, [], ◌∷◌, ◌++◌, String, ltb,
  if◌then◌else◌, length, filter, str_eq, is_blank,
}
use ambit.Records.{
  Decision, denied, request_denied, request_decision_rejected, AuditFields, UnhashedEntry,
  AuditLogEntry,
}
use ambit.Platform.{Platform}

-- The files of one log: its archives by number, and the active file, if it exists.
pub record AuditFiles : Type 0 where
  pub archives : List (ℕ × List String)
  pub active : Option (List String)

pub record AuditLog : Type 0 where
  pub entries : List AuditLogEntry
  pub files : Option AuditFiles
  pub max_lines_per_segment : ℕ
  pub current_segment_lines : ℕ

-- `DENIAL_DECISIONS.has`
abbrev pub is_denial : Decision → Bool
is_denial denied = true
is_denial request_denied = true
is_denial request_decision_rejected = true
is_denial _ = false

-- `!entry.reasonCode || entry.reasonCode.trim().length === 0`
unfoldable pub lacks_reason : Option String → Bool
lacks_reason none = true
lacks_reason (some code) = is_blank code

-- The hash of the last entry, or `null`.
unfoldable pub last_hash : List AuditLogEntry → Option String
last_hash [] = none
last_hash (e ∷ []) = some e.hash
last_hash (e ∷ f ∷ es) = last_hash (f ∷ es)

-- Whether two hashes, or absent ones, are the same.
abbrev pub same_hash : Option String → Option String → Bool
same_hash none none = true
same_hash (some a) (some b) = str_eq a b
same_hash _ _ = false

-- `segments[segments.length - 1]!.index + 1`, or 1
unfoldable pub next_index : List (ℕ × List String) → ℕ
next_index [] = 1
next_index ((n, _) ∷ []) = n + 1
next_index ((_, _) ∷ s ∷ segments) = next_index (s ∷ segments)

-- `appendJsonLine`: the file is made if it is not there.
abbrev pub append_line : Option (List String) → String → List String
append_line none line = line ∷ []
append_line (some lines) line = lines ++ line ∷ []

-- The lines of a file that hold something, of a file that may not exist.
abbrev pub physical_lines : Option (List String) → List String
physical_lines none = []
physical_lines (some lines) = filter (λ l. not (is_blank l)) lines

-- `#rotateIfNeeded`, on the files and the count of lines.
unfoldable pub rotate_if_needed : ℕ → AuditFiles → ℕ → AuditFiles × ℕ
rotate_if_needed limit files count = if ltb count limit then (files, count) else elim files.active [
  | none ↦ (files, 0)
  | some lines ↦ (
    record { archives = files.archives ++ (next_index files.archives, lines) ∷ []; active = none },
    0,
  )
]

-- The persistent half of `record`: rotate, append the line, count it.
unfoldable pub persist_line : String → AuditLog → AuditLog
unfolding rotate_if_needed next_index
persist_line line log = elim log.files [
  | none ↦ log
  | some files ↦
      let (files', count) =
        rotate_if_needed log.max_lines_per_segment files log.current_segment_lines in
      record log {
        files = some (record files' { active = some (append_line files'.active line) });
        current_segment_lines = count + 1;
      }
]

module _ (pf : Platform) where
  unfoldable pub compute_entry_hash : UnhashedEntry → String
  compute_entry_hash entry = pf.sha256_hex (pf.json_unhashed entry)

  -- The loop of `verifyAuditChain`: the id of the entry at which the chain breaks.
  unfoldable pub broken_at : Option String → List AuditLogEntry → Option String
  broken_at expected [] = none
  broken_at expected (e ∷ es) =
      if not (same_hash e.covered.previous_hash expected)
        || not (str_eq (compute_entry_hash e.covered) e.hash)
      then some e.covered.id
      else broken_at (some e.hash) es

  -- The entry that `record` builds, with a drawn `id`.
  unfoldable pub new_entry : String → AuditFields → ℕ → AuditLog → AuditLogEntry
  unfolding compute_entry_hash last_hash
  new_entry id entry now log =
      let covered : UnhashedEntry = record {
        id = id;
        occurred_at = now;
        previous_hash = last_hash log.entries;
        content = entry;
      } in
      record { covered = covered; hash = compute_entry_hash covered }

  -- `record`, past its guard: the log with the entry.
  unfoldable pub append_entry : AuditLogEntry → AuditLog → AuditLog
  unfolding persist_line
  append_entry entry log =
      persist_line (pf.json_entry entry) (record log { entries = log.entries ++ entry ∷ [] })

  -- `rehydrateJsonLines`: a line that does not parse is skipped.
  unfoldable pub rehydrate_entries : List String → List AuditLogEntry
  rehydrate_entries [] = []
  rehydrate_entries (line ∷ lines) = elim (pf.parse_entry line) [
    | none ↦ rehydrate_entries lines
    | some e ↦ e ∷ rehydrate_entries lines
  ]

  unfoldable pub rehydrate_archives : List (ℕ × List String) → List AuditLogEntry
  rehydrate_archives [] = []
  rehydrate_archives ((_, lines) ∷ segments) =
      rehydrate_entries (physical_lines (some lines)) ++ rehydrate_archives segments

  -- The constructor, over the files found at `persistTo`.
  unfoldable pub init : Option AuditFiles → Option ℕ → AuditLog
  unfolding rehydrate_entries rehydrate_archives
  init none limit = record {
    entries = [];
    files = none;
    max_lines_per_segment = elim limit [ none ↦ 5000 | some n ↦ n ];
    current_segment_lines = 0;
  }
  init (some files) limit = record {
    entries = rehydrate_archives files.archives ++ rehydrate_entries (physical_lines files.active);
    files = some files;
    max_lines_per_segment = elim limit [ none ↦ 5000 | some n ↦ n ];
    current_segment_lines = length (physical_lines files.active);
  }

-- What `verifyAuditChain` reports.
pub record ChainVerification : Type 0 where
  pub valid : Bool
  pub broken_at_id : Option String
  pub entries_checked : ℕ

unfoldable pub verify_audit_chain : Platform → List AuditLogEntry → ChainVerification
unfolding broken_at compute_entry_hash
verify_audit_chain pf entries = elim (broken_at pf none entries) [
  | none ↦ record { valid = true; broken_at_id = none; entries_checked = length entries }
  | some id ↦ record { valid = false; broken_at_id = some id; entries_checked = length entries }
]
