-- ===== src/Audit/Files.antt =====
-- The files of src/auditLog.ts, lines and archives: how they are numbered, and what reading them back
-- gives.
use mathlib.Core.List.{append-nil, append_assoc}
use ambit.Common.{
  ℕ, suc, ◌+◌, ◌≤◌, ◌≡◌, refl, Bool, false, not, Option, none, some, List, [], ◌∷◌, ◌++◌, String,
  arith, length, length-append, filter, is_blank, ltb,
}
use ambit.Records.{AuditLogEntry}
use ambit.Platform.{Platform}
use ambit.Audit.{
  AuditFiles, physical_lines, append_line, next_index, rehydrate_entries, rehydrate_archives, init,
}

-- The archives are numbered n, n + 1, … in their order, and each holds `limit` lines.
abbrev pub AreSegments : ℕ → ℕ → List (ℕ × List String) → Type 0
AreSegments limit n [] = Unit
AreSegments limit n ((k, lines) ∷ segments) =
    (k ≡ n) × (length lines ≡ limit) × AreSegments limit (suc n) segments

next_index-lem :
    (limit n : ℕ) (segment : ℕ × List String) (segments : List (ℕ × List String))
    → AreSegments limit n (segment ∷ segments)
    → next_index (segment ∷ segments) ≡ n + length segments + 1
unfolding next_index
next_index-lem limit n s [] h = omega arith
next_index-lem limit n s (t ∷ segments) h =
    omega (arith, next_index-lem limit (suc n) t segments h.2)

pub next_index-length :
    (limit : ℕ) (segments : List (ℕ × List String))
    → AreSegments limit 1 segments
    → next_index segments ≡ 1 + length segments
unfolding next_index
next_index-length limit [] h = omega arith
next_index-length limit (s ∷ segments) h = omega (arith, next_index-lem limit 1 s segments h)

pub AreSegments-append :
    (limit n : ℕ) (segments : List (ℕ × List String)) (k : ℕ) (lines : List String)
    → AreSegments limit n segments
    → k ≡ n + length segments
    → length lines ≡ limit
    → AreSegments limit n (segments ++ (k, lines) ∷ [])
AreSegments-append limit n [] k lines h e l = (omega arith, l, tt)
AreSegments-append limit n ((j, ls) ∷ segments) k lines h e l =
    (h.0, h.1, AreSegments-append limit (suc n) segments k lines h.2 (omega arith) l)

-- The lines of the active file.
abbrev pub active_lines : AuditFiles → List String
active_lines files = elim files.active [ none ↦ [] | some lines ↦ lines ]

pub length-append_line :
    (active : Option (List String)) (line : String)
    → length (append_line active line) ≡ length (elim active [ none ↦ [] | some lines ↦ lines ]) + 1
length-append_line none line = omega arith
length-append_line (some lines) line = length-append lines (line ∷ [])

pub ltb-false→le : (a b : ℕ) → ltb a b ≡ false → b ≤ a
ltb-false→le a b h = ground arith

module _ (pf : Platform) where
  -- What the constructor would read back from the files.
  unfoldable pub restored : AuditFiles → List AuditLogEntry
  restored files = (init pf (some files) none).entries

  pub rehydrate_entries-append :
      (xs ys : List String)
      → rehydrate_entries pf (xs ++ ys) ≡ rehydrate_entries pf xs ++ rehydrate_entries pf ys
  unfolding rehydrate_entries
  rehydrate_entries-append [] ys = refl
  rehydrate_entries-append (x ∷ xs) ys = ground (arith, rehydrate_entries-append xs ys)

  pub rehydrate_archives-append :
      (segments : List (ℕ × List String)) (k : ℕ) (lines : List String)
      → rehydrate_archives pf (segments ++ (k, lines) ∷ [])
        ≡ rehydrate_archives pf segments ++ rehydrate_entries pf (physical_lines (some lines))
  unfolding rehydrate_archives
  rehydrate_archives-append [] k lines = append-nil _
  rehydrate_archives-append ((j, ls) ∷ segments) k lines =
      rw (rehydrate_archives-append segments k lines, append_assoc)

filter-append :
    (p : String → Bool) (xs ys : List String) → filter p (xs ++ ys) ≡ filter p xs ++ filter p ys
filter-append p [] ys = refl
filter-append p (x ∷ xs) ys = ground (arith, filter-append p xs ys)

pub physical_lines-append :
    (lines : List String) (line : String)
    → is_blank line ≡ false
    → physical_lines (some (lines ++ line ∷ [])) ≡ physical_lines (some lines) ++ line ∷ []
physical_lines-append lines line h = rw (filter-append (λ l. not (is_blank l)) lines (line ∷ []), h)

-- Files that are up to date: a restart would read `entries` back, every archive is full, the archives
-- are numbered from 1, and the active file holds `count` lines.
pub record IsFiled (pf : Platform) (limit : ℕ) (files : AuditFiles) (count : ℕ)
    (entries : List AuditLogEntry) : Type 0 where
  pub restores : restored pf files ≡ entries
  pub archived : AreSegments limit 1 files.archives
  pub counted : length (active_lines files) ≡ count
  pub solid : physical_lines files.active ≡ active_lines files

-- What JSON does for an entry: its line is not blank, and reads back as the entry.
pub record IsWritable (pf : Platform) (e : AuditLogEntry) : Type 0 where
  pub solid : is_blank (pf.json_entry e) ≡ false
  pub parsed : pf.parse_entry (pf.json_entry e) ≡ some e
