-- ===== src/Tests/Logs.antt =====
-- Runs of the audit log and of the file-backed stores.
use ambit.Common.{
  ◌≡◌, ◌≤◌, refl, ◌⊎◌, ◌↔◌, true, Option, none, some, List, [], ◌∷◌, String, All, length, str_eq,
  is_blank, if◌then◌else◌, arith,
}
use ambit.Records.{AuditLogEntry, Token}
use ambit.Platform.{Platform}
use ambit.Audit.{verify_audit_chain, init, AuditFiles, compute_entry_hash, broken_at}
use ambit.Audit.Chain.{IsChain, verify_audit_chain_iff}
use ambit.Audit.Tamper.{Collision, tamper_evident}
use ambit.Audit.Files.{IsWritable, AreSegments, active_lines}
use ambit.Audit.Rotation.{append_all, restart_restores}
use ambit.Store.Replay.{map_values, save_all, restart_items}
use ambit.Tests.{platform, entries, entry, root, child}

verify_audit_chain_iff_example :
    ((verify_audit_chain platform entries).valid ≡ true) ↔ IsChain platform none entries
verify_audit_chain_iff_example = verify_audit_chain_iff platform entries

tamper_evident_example : (entries ≡ entries) ⊎ Collision platform
unfolding verify_audit_chain broken_at compute_entry_hash
tamper_evident_example = tamper_evident platform entries entries refl refl refl refl

-- A platform that reads back the three entries it writes.
abbrev parse_entry : String → Option AuditLogEntry
parse_entry line =
    if str_eq line "e0"
    then some (entry "e0" none)
    else (if str_eq line "e1"
        then some (entry "e1" (some "e0"))
        else (if str_eq line "e2" then some (entry "e2" (some "e1")) else none))

abbrev reading : Platform
reading = record platform { parse_entry = parse_entry }

abbrev three : List AuditLogEntry
three = entry "e0" none ∷ entry "e1" (some "e0") ∷ entry "e2" (some "e1") ∷ []

three-IsWritable : All (IsWritable reading) three
unfolding is_blank
three-IsWritable = (
  record { solid = refl; parsed = refl },
  (record { solid = refl; parsed = refl }, (record { solid = refl; parsed = refl }, tt)),
)

restart_restores_example :
    let log =
      append_all reading three
        (init reading (some (record { archives = []; active = none })) (some 2)) in
    (log.entries ≡ three)
    × (init reading log.files (some 2) ≡ log)
    × ((files : AuditFiles) × (log.files ≡ some files)
        × AreSegments 2 1 files.archives
        × (length (active_lines files) ≤ 2))
restart_restores_example = restart_restores reading 2 three (omega arith) three-IsWritable

abbrev revive : String → Option Token
revive line = if str_eq line "p" then some root else (if str_eq line "c" then some child else none)

saved-IsWritable :
    All
      (ambit.Store.Replay.IsWritable (λ t. t.id) (λ (t : Token). t.id) revive (λ t. t))
      (root ∷ child ∷ root ∷ [])
unfolding is_blank
saved-IsWritable = (
  record { solid = refl; parsed = refl; same_id = refl },
  (
    record { solid = refl; parsed = refl; same_id = refl },
    (record { solid = refl; parsed = refl; same_id = refl }, tt),
  ),
)

restart_items_example :
    let s =
      save_all
        (λ (t : Token). t.id)
        (λ t. t.id)
        revive
        (λ t. t)
        (root ∷ child ∷ root ∷ [])
        (ambit.Store.init (λ t. t.id) revive (some [])) in
    (ambit.Store.init (λ t. t.id) revive s.file).items ≡ map_values (λ t. t) s.items
restart_items_example =
    restart_items (λ t. t.id) (λ t. t.id) revive (λ t. t) (root ∷ child ∷ root ∷ [])
      saved-IsWritable
