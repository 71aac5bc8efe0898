-- ===== src/Copy/Receiver.antt =====
-- `CopyReceiver::process` (src/client.cpp): the bytes that come in, and what it asks of the file
-- system. `none` is an exception of a read.
pub mod Faithful
use remy.Base.{
  ℕ, zero, suc, ◌+◌, ◌-◌, ◌≡◌, Bool, true, false, List, [], ◌∷◌, ◌++◌, Option, none, some, leb, min,
  if◌then◌else◌, length,
}
use remy.Wire.{Text, FileMetainfo}
use remy.Serde.Bytes.{Bytes, Recv, ◌>>=◌, pure, async_read, recv_pod}
use remy.Serde.Containers.{recv_string}
use remy.Serde.Structs.{recv_metainfo}
use remy.Copy.Files.{
  FsOp, write_file, create_symlink, create_directory, apply_attrs, join_path, is_reg, is_lnk,
  is_dir, buf_size,
}

-- for (progress = 0; progress < meta.size;) { read; write; progress += read_size }, on fuel.
unfoldable pub recv_content : ℕ → ℕ → ℕ → Recv Bytes
recv_content zero size progress = if leb size progress then pure [] else λ bs. none
recv_content (suc fuel) size progress =
    let wanted = min buf_size (size - progress) in
    let more = recv_content fuel size (progress + wanted) in
    if leb size progress
    then pure []
    else (do chunk ← async_read wanted; others ← more; pure (chunk ++ others))

unfoldable pub recv_payload : Text → FileMetainfo → Recv (List FsOp)
recv_payload path meta =
    if is_reg meta.mode
    then (do content ← recv_content meta.size meta.size 0; pure (write_file path content ∷ []))
    else if is_lnk meta.mode
    then (do target ← recv_string; pure (create_symlink target path ∷ []))
    else if is_dir meta.mode
    then pure (create_directory path ∷ [])
    else pure []

unfoldable pub recv_file : Text → Recv (List FsOp)
recv_file base = do
  meta ← recv_metainfo
  rel_path ← recv_string
  ops ← recv_payload (join_path base rel_path) meta
  pure (ops ++ apply_attrs (join_path base rel_path) meta ∷ [])

unfoldable pub recv_files : Text → ℕ → Recv (List FsOp)
recv_files base zero = pure []
recv_files base (suc n) =
    let others = recv_files base n in do ops ← recv_file base; more ← others; pure (ops ++ more)

unfoldable pub recv_copy : Text → Recv (List FsOp)
recv_copy base = do files_amount ← recv_pod 8; total_size ← recv_pod 8; recv_files base files_amount
