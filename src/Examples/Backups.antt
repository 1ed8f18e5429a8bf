-- ===== src/Examples/Backups.antt =====
-- The theorems on backups at concrete inputs.
use gengis_mimi.Shared.{◌≡◌, refl, [], arith, true, all, ltb}
use gengis_mimi.Shared.Bytes.{Bytes, bytes_eq, bytes_lt}
use gengis_mimi.Shared.Word.{to_le_bytes, length-to_le_bytes}
use gengis_mimi.Error.{ok}
use gengis_mimi.Slate.Action.{Ends}
use gengis_mimi.Slate.Entries.{lookup}
use gengis_mimi.Backup.{verify, export, export_bytes, records, record_bytes}
use gengis_mimi.Backup.Sound.{IsBackup, IsExport, export_bytes-verify}
use gengis_mimi.Backup.Accepts.{verify-export_bytes, verify-export}
use gengis_mimi.Backup.Restore.{restore}
use gengis_mimi.Backup.Restore.Whole.{IsRestored, FailedSafely, restore-Ends}
use gengis_mimi.Engine.Read.{check_ready}
use gengis_mimi.Examples.{memory, checksum, all-IsByte}
use gengis_mimi.Examples.Runs.{start_entries}

-- Thirty-two bytes.
abbrev sum32 : Bytes → Bytes
sum32 bytes = to_le_bytes 32 (checksum bytes)

start-IsBackup : IsBackup start_entries
unfolding lookup bytes_eq bytes_lt
start-IsBackup = record {
  sorted = ((refl, tt), (tt, tt));
  all_records = (
    record { key_positive = omega arith; key_bounded = omega arith; value_bounded = omega arith },
    (
      record { key_positive = omega arith; key_bounded = omega arith; value_bounded = omega arith },
      tt,
    ),
  );
  has_format = refl;
}

abbrev file_example : Bytes
file_example = export_bytes sum32 start_entries

verify-export_bytes_example : verify sum32 (export_bytes sum32 start_entries) ≡ ok tt
verify-export_bytes_example =
    verify-export_bytes sum32 (λ bytes. length-to_le_bytes 32 (checksum bytes)) start_entries
      start-IsBackup (omega arith)

file_verifies : verify sum32 file_example ≡ ok tt
file_verifies =
    verify-export_bytes sum32 (λ bytes. length-to_le_bytes 32 (checksum bytes)) start_entries
      start-IsBackup (omega arith)

file_bytes : all (λ b. ltb b 256) file_example ≡ true
unfolding export_bytes records record_bytes to_le_bytes
file_bytes = refl

export_bytes-verify_example : IsExport sum32 file_example
export_bytes-verify_example =
    export_bytes-verify sum32 file_example (all-IsByte file_example file_bytes) file_verifies

restore-Ends_example :
    Ends
      (IsRestored memory sum32 file_example)
      (FailedSafely memory sum32 file_example [])
      (restore memory sum32 file_example [])
restore-Ends_example =
    restore-Ends memory sum32 file_example [] (all-IsByte file_example file_bytes) tt

export_runs : export sum32 memory 1 start_entries ≡ ok file_example
unfolding export check_ready lookup bytes_eq
export_runs = refl

verify-export_example : verify sum32 file_example ≡ ok tt
verify-export_example =
    verify-export memory start_entries sum32 (λ bytes. length-to_le_bytes 32 (checksum bytes)) 1
      start-IsBackup.sorted start-IsBackup.all_records (omega arith) export_runs
