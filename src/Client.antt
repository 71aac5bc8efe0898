-- ===== src/Client.antt =====
-- A client that others browse: the handlers of `BrowserHost::incoming_msg` (src/client.cpp). The file
-- system is a parameter, with a state of its own.
pub mod Deletion
pub mod Host
pub mod Net
use remy.Base.{
  ℕ, ◌+◌, ◌%◌, ◌^◌, Bool, true, false, List, [], ◌∷◌, ◌++◌, Option, none, some, ◌==◌, if◌then◌else◌,
  length,
}
use remy.Wire.{Text, Dentry, FileMetainfo, RemoteDentries}
use remy.Protocol.Browser.{HostMsg, path_dents, delete_response, mkdir_response}
use remy.Copy.Files.{join_path}
use remy.Utils.Duration.{codes, decimal}

-- `remove_all` gives the number of removed files, or a number and the message of an error;
-- `create_directory` whether it made one, or a message; `list_directory` nothing on any failure.
pub record FileSystem (S : Type 0) : Type 0 where
  pub remove_all : Text → S → (ℕ × Option Text) × S
  pub create_directory : Text → S → (Bool × Option Text) × S
  pub list_directory : Text → S → Option (List Dentry)
  pub current_path : Text

module _ {S : Type 0} (fs : FileSystem S) where
  open fs use {remove_all, create_directory, list_directory, current_path}

  unfoldable pub handle_get_dents : Text → S → HostMsg × S
  handle_get_dents [] s = (path_dents ([], list_directory current_path s), s)
  handle_get_dents (c ∷ dir) s = (path_dents (c ∷ dir, list_directory (c ∷ dir) s), s)

  abbrev pub error_line : Text → Option Text → Text
  error_line name none = []
  error_line name (some message) = codes "\n" ++ name ++ codes ": " ++ message

  -- The loop over the entries: `removed_count`, a std::uintmax_t, and `error_msg`.
  unfoldable pub delete_each : Text → List Text → ℕ × Text → S → (ℕ × Text) × S
  delete_each base [] (removed_count, error_msg) s = ((removed_count, error_msg), s)
  delete_each base (name ∷ names) (removed_count, error_msg) s =
      let ((removed, ec), t) = remove_all (join_path base name) s in
      delete_each base names ((removed_count + removed) % 2 ^ 64, error_msg ++ error_line name ec) t

  unfoldable pub delete_result : ℕ × Text → Text
  delete_result (removed_count, []) = codes "Removed " ++ decimal removed_count ++ codes " items."
  delete_result (removed_count, c ∷ error_msg) =
      (codes "Removed " ++ decimal removed_count ++ codes " items.")
      ++ codes " Errors:"
      ++ c ∷ error_msg

  unfoldable pub handle_delete : RemoteDentries → S → HostMsg × S
  handle_delete entries s =
      let (result, t) = delete_each entries.basedir entries.dentries (0, []) s in
      (delete_response (delete_result result), t)

  unfoldable pub mkdir_result : Text → Bool × Option Text → Text
  mkdir_result name (true, ec) = codes "Directory '" ++ name ++ codes "' created successfully."
  mkdir_result name (false, none) = codes "Directory '" ++ name ++ codes "' already exists."
  mkdir_result name (false, some message) =
      codes "Failed to create directory '" ++ name ++ codes "': " ++ message

  unfoldable pub handle_mkdir : Text → Text → S → HostMsg × S
  handle_mkdir basedir name s =
      let (created, t) = create_directory (join_path basedir name) s in
      (mkdir_response (mkdir_result name created), t)
