-- ===== src/Protocol/Codes/Files.antt =====
-- The enumerations of crates/pam-desktop-protocol/src/lib.rs for files, clipboard, databases and
-- secrets, with the discriminants that `serde_repr` writes on the wire.
use pam_desktop.Prelude.{Bool, true, false, [], ◌∷◌}
use pam_desktop.Protocol.Codes.Wire.{Wire}

pub data FileAccess : Type 0 where
  read write read_write : FileAccess

instance abbrev pub file_access_wire : Wire FileAccess
file_access_wire = record {
  code = elim [ FileAccess.read ↦ 1 | FileAccess.write ↦ 2 | FileAccess.read_write ↦ 3 ];
  variants = FileAccess.read ∷ FileAccess.write ∷ FileAccess.read_write ∷ [];
}

pub data FileEntryKind : Type 0 where
  file directory : FileEntryKind

instance abbrev pub file_entry_kind_wire : Wire FileEntryKind
file_entry_kind_wire = record {
  code = elim [ FileEntryKind.file ↦ 1 | FileEntryKind.directory ↦ 2 ];
  variants = FileEntryKind.file ∷ FileEntryKind.directory ∷ [];
}

pub data DialogKind : Type 0 where
  open_file open_files save_file open_directory : DialogKind

instance abbrev pub dialog_kind_wire : Wire DialogKind
dialog_kind_wire = record {
  code = elim [
    | DialogKind.open_file ↦ 1
    | DialogKind.open_files ↦ 2
    | DialogKind.save_file ↦ 3
    | DialogKind.open_directory ↦ 4
  ];
  variants =
      DialogKind.open_file ∷ DialogKind.open_files ∷ DialogKind.save_file
      ∷ DialogKind.open_directory ∷ [];
}

pub data FileOperation : Type 0 where
  read_text write_text list metadata create_directory : FileOperation

instance abbrev pub file_operation_wire : Wire FileOperation
file_operation_wire = record {
  code = elim [
    | FileOperation.read_text ↦ 1
    | FileOperation.write_text ↦ 2
    | FileOperation.list ↦ 3
    | FileOperation.metadata ↦ 4
    | FileOperation.create_directory ↦ 5
  ];
  variants =
      FileOperation.read_text ∷ FileOperation.write_text ∷ FileOperation.list
      ∷ FileOperation.metadata ∷ FileOperation.create_directory ∷ [];
}

pub data ClipboardOperation : Type 0 where
  read_text write_text clear write_html read_image write_image read_files write_files read_custom
        write_custom available_formats :
      ClipboardOperation

instance abbrev pub clipboard_operation_wire : Wire ClipboardOperation
clipboard_operation_wire = record {
  code = elim [
    | ClipboardOperation.read_text ↦ 1
    | ClipboardOperation.write_text ↦ 2
    | ClipboardOperation.clear ↦ 3
    | ClipboardOperation.write_html ↦ 4
    | ClipboardOperation.read_image ↦ 5
    | ClipboardOperation.write_image ↦ 6
    | ClipboardOperation.read_files ↦ 7
    | ClipboardOperation.write_files ↦ 8
    | ClipboardOperation.read_custom ↦ 9
    | ClipboardOperation.write_custom ↦ 10
    | ClipboardOperation.available_formats ↦ 11
  ];
  variants =
      ClipboardOperation.read_text ∷ ClipboardOperation.write_text ∷ ClipboardOperation.clear
      ∷ ClipboardOperation.write_html ∷ ClipboardOperation.read_image
      ∷ ClipboardOperation.write_image ∷ ClipboardOperation.read_files
      ∷ ClipboardOperation.write_files ∷ ClipboardOperation.read_custom
      ∷ ClipboardOperation.write_custom ∷ ClipboardOperation.available_formats ∷ [];
}

pub data DatabaseAccess : Type 0 where
  read read_write : DatabaseAccess

instance abbrev pub database_access_wire : Wire DatabaseAccess
database_access_wire = record {
  code = elim [ DatabaseAccess.read ↦ 1 | DatabaseAccess.read_write ↦ 2 ];
  variants = DatabaseAccess.read ∷ DatabaseAccess.read_write ∷ [];
}

pub data DatabaseOperation : Type 0 where
  query execute transaction : DatabaseOperation

instance abbrev pub database_operation_wire : Wire DatabaseOperation
database_operation_wire = record {
  code = elim [
    | DatabaseOperation.query ↦ 1
    | DatabaseOperation.execute ↦ 2
    | DatabaseOperation.transaction ↦ 3
  ];
  variants =
      DatabaseOperation.query ∷ DatabaseOperation.execute ∷ DatabaseOperation.transaction ∷ [];
}

pub data FileWatchOperation : Type 0 where
  start stop : FileWatchOperation

instance abbrev pub file_watch_operation_wire : Wire FileWatchOperation
file_watch_operation_wire = record {
  code = elim [ FileWatchOperation.start ↦ 1 | FileWatchOperation.stop ↦ 2 ];
  variants = FileWatchOperation.start ∷ FileWatchOperation.stop ∷ [];
}

pub data SecretOperation : Type 0 where
  read write delete : SecretOperation

instance abbrev pub secret_operation_wire : Wire SecretOperation
secret_operation_wire = record {
  code = elim [ SecretOperation.read ↦ 1 | SecretOperation.write ↦ 2 | SecretOperation.delete ↦ 3 ];
  variants = SecretOperation.read ∷ SecretOperation.write ∷ SecretOperation.delete ∷ [];
}

-- `FileAccess::can_read` and `FileAccess::can_write`.
unfoldable pub can_read : FileAccess → Bool
can_read FileAccess.read = true
can_read FileAccess.write = false
can_read FileAccess.read_write = true

unfoldable pub can_write : FileAccess → Bool
can_write FileAccess.read = false
can_write FileAccess.write = true
can_write FileAccess.read_write = true
