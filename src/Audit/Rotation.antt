-- ===== src/Audit/Rotation.antt =====
-- The files of src/auditLog.ts: rotation bounds every file and loses nothing, and a restart reads
-- back the log that was in memory.
use mathlib.Core.List.{append-nil, append_assoc}
use ambit.Common.{
  ℕ, ◌+◌, ◌≤◌, ◌<◌, ◌≡◌, refl, sym, ap, subst, ◌∙◌, inl, inr, Option, none, some, List, [], ◌∷◌,
  ◌++◌, String, arith, length, All, ltb, Bool-cases, ltb→lt, Option-cases,
}
use ambit.Records.{AuditLogEntry}
use ambit.Platform.{Platform}
use ambit.Audit.Chain.{append_entry-entries}
use ambit.Audit.{
  AuditFiles, AuditLog, physical_lines, append_line, next_index, rotate_if_needed, append_entry,
  rehydrate_entries, init,
}
use ambit.Audit.Files.{
  AreSegments, AreSegments-append, IsFiled, IsWritable, active_lines, length-append_line,
  ltb-false→le, next_index-length, physical_lines-append, rehydrate_archives-append,
  rehydrate_entries-append, restored,
}

module _ (pf : Platform) where
  rehydrate-line :
      (e : AuditLogEntry) → IsWritable pf e → rehydrate_entries pf (pf.json_entry e ∷ []) ≡ e ∷ []
  unfolding rehydrate_entries
  rehydrate-line e w = rw (w.parsed, rehydrate_entries)

  rehydrate-append_line :
      (active : Option (List String)) (e : AuditLogEntry)
      → IsWritable pf e
      → rehydrate_entries pf (physical_lines (some (append_line active (pf.json_entry e))))
        ≡ rehydrate_entries pf (physical_lines active) ++ e ∷ []
  unfolding rehydrate_entries
  rehydrate-append_line none e w = rw w.solid (rehydrate-line e w)
  rehydrate-append_line (some lines) e w = rw (
    physical_lines-append lines (pf.json_entry e) w.solid,
    rehydrate_entries-append,
    rehydrate-line e w,
  )

  solid-append_line :
      (active : Option (List String)) (e : AuditLogEntry)
      → IsWritable pf e
      → physical_lines active ≡ (elim active [ none ↦ [] | some lines ↦ lines ])
      → physical_lines (some (append_line active (pf.json_entry e)))
        ≡ append_line active (pf.json_entry e)
  solid-append_line none e w h = rw w.solid
  solid-append_line (some lines) e w h =
      rw (physical_lines-append lines (pf.json_entry e) w.solid, h)

  restored-active :
      (files : AuditFiles) (e : AuditLogEntry)
      → IsWritable pf e
      → restored pf (record files { active = some (append_line files.active (pf.json_entry e)) })
        ≡ restored pf files ++ e ∷ []
  unfolding restored init
  restored-active files e w = rw (rehydrate-append_line files.active e w, append_assoc)

  restored-rotated :
      (files : AuditFiles) (lines : List String) (k : ℕ)
      → files.active ≡ some lines
      → restored pf (record { archives = files.archives ++ (k, lines) ∷ []; active = none })
        ≡ restored pf files
  unfolding restored init rehydrate_entries
  restored-rotated files lines k e =
      rw (rehydrate_archives-append pf files.archives k lines, e, append-nil)

  IsFiled-append_line :
      (limit : ℕ) (files : AuditFiles) (count : ℕ) (entries : List AuditLogEntry)
      (e : AuditLogEntry)
      → IsWritable pf e
      → IsFiled pf limit files count entries
      → IsFiled pf limit
          (record files { active = some (append_line files.active (pf.json_entry e)) })
          (count + 1)
          (entries ++ e ∷ [])
  IsFiled-append_line limit files count entries e w f = record {
    restores = restored-active files e w ∙ ap (λ es. es ++ e ∷ []) f.restores;
    archived = f.archived;
    counted = length-append_line files.active (pf.json_entry e) ∙ ap (λ n. n + 1) f.counted;
    solid = solid-append_line files.active e w f.solid;
  }

  IsFiled-rotate :
      (limit : ℕ) (files : AuditFiles) (count : ℕ) (entries : List AuditLogEntry)
      → IsFiled pf limit files count entries
      → count ≤ limit
      → 0 < limit
      → let (files', count') = rotate_if_needed limit files count in
        IsFiled pf limit files' count' entries × (count' < limit)
  unfolding rotate_if_needed
  IsFiled-rotate limit files count entries f bounded positive =
      elim (Bool-cases (ltb count limit)) [
        | inl room ↦ rw room (f, ltb→lt count limit room)
        | inr full ↦ elim (Option-cases files.active) [
          | inl missing ↦
              absurd (omega (arith, rw missing at f.counted, ltb-false→le count limit full))
          | inr (lines, found) ↦
              rw (full, found)
                (
                  record {
                    restores =
                        restored-rotated files lines (next_index files.archives) found ∙ f.restores;
                    archived =
                        AreSegments-append limit 1 files.archives (next_index files.archives) lines
                          f.archived (next_index-length limit files.archives f.archived)
                          (omega (arith, rw found at f.counted, ltb-false→le count limit full));
                    counted = refl;
                    solid = refl;
                  },
                  positive,
                )
        ]
      ]

  -- A log whose files are up to date, with no more than a full segment in the active one.
  record IsStored (log : AuditLog) : Type 0 where
    files : AuditFiles
    kept : log.files ≡ some files
    filed : IsFiled pf log.max_lines_per_segment files log.current_segment_lines log.entries
    bounded : log.current_segment_lines ≤ log.max_lines_per_segment

  append_entry-IsStored :
      (e : AuditLogEntry) (log : AuditLog)
      → IsWritable pf e
      → 0 < log.max_lines_per_segment
      → IsStored log
      → IsStored (append_entry pf e log)
  unfolding append_entry
  append_entry-IsStored e log w positive s =
      let limit = log.max_lines_per_segment in
      let (files', count') = rotate_if_needed limit s.files log.current_segment_lines in
      let (filed, room) =
        IsFiled-rotate limit s.files log.current_segment_lines log.entries s.filed s.bounded
          positive in
      rw s.kept (record {
        files = record files' { active = some (append_line files'.active (pf.json_entry e)) };
        kept = refl;
        filed = IsFiled-append_line limit files' count' log.entries e w filed;
        bounded = omega arith;
      })

  reopen :
      (log : AuditLog) → IsStored log → init pf log.files (some log.max_lines_per_segment) ≡ log
  unfolding init restored
  reopen log s = rw s.kept (λ i. record {
    entries = s.filed.restores i;
    files = some s.files;
    max_lines_per_segment = log.max_lines_per_segment;
    current_segment_lines = (ap length s.filed.solid ∙ s.filed.counted) i;
  })

  -- The log after the entries have been appended to it, in order.
  unfoldable pub append_all : List AuditLogEntry → AuditLog → AuditLog
  append_all [] log = log
  append_all (e ∷ es) log = append_all es (append_entry pf e log)

  append_entry-limit :
      (e : AuditLogEntry) (log : AuditLog)
      → (append_entry pf e log).max_lines_per_segment ≡ log.max_lines_per_segment
  unfolding append_entry
  append_entry-limit e log = ground arith

  append_all-IsStored :
      (es : List AuditLogEntry) (log : AuditLog)
      → All (IsWritable pf) es
      → 0 < log.max_lines_per_segment
      → IsStored log
      → IsStored (append_all es log)
        × ((append_all es log).entries ≡ log.entries ++ es)
        × ((append_all es log).max_lines_per_segment ≡ log.max_lines_per_segment)
  unfolding append_all
  append_all-IsStored [] log w positive s = (s, sym (append-nil log.entries), refl)
  append_all-IsStored (e ∷ es) log w positive s =
      let log' = append_entry pf e log in
      let (stored, all_entries, limit) =
        append_all-IsStored es log' w.1 (rw (append_entry-limit e log) positive)
          (append_entry-IsStored e log w.0 positive s) in
      (
        stored,
        rw (all_entries, append_entry-entries pf e log, append_assoc),
        limit ∙ append_entry-limit e log,
      )

-- A log that is started on an empty directory, with a limit of at least one line, and to which any
-- entries are appended holds just these entries; every archive has exactly `limit` lines, the
-- archives are numbered 1, 2, … in the order in which they were written, the active file has at most
-- `limit` lines, and opening the files again, as a restart does, gives back the same log.
pub restart_restores :
    (pf : Platform) (limit : ℕ) (es : List AuditLogEntry)
    → 0 < limit
    → All (IsWritable pf) es
    → let log =
        append_all pf es (init pf (some (record { archives = []; active = none })) (some limit)) in
      (log.entries ≡ es)
      × (init pf log.files (some limit) ≡ log)
      × ((files : AuditFiles) × (log.files ≡ some files)
          × AreSegments limit 1 files.archives
          × (length (active_lines files) ≤ limit))
unfolding init restored
restart_restores pf limit es positive w =
    let none_yet : AuditFiles = record { archives = []; active = none } in
    let start = init pf (some none_yet) (some limit) in
    let log = append_all pf es start in
    let (s, same, limit_kept) = append_all-IsStored pf es start w positive (record {
      files = none_yet;
      kept = refl;
      filed = record { restores = refl; archived = tt; counted = refl; solid = refl };
      bounded = omega arith;
    }) in
    (
      same,
      subst (λ n. init pf log.files (some n) ≡ log) limit_kept (reopen pf log s),
      (
        s.files,
        s.kept,
        subst (λ n. AreSegments n 1 s.files.archives) limit_kept s.filed.archived,
        omega (arith, s.filed.counted, s.bounded, limit_kept),
      ),
    )
