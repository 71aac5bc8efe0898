-- ===== src/Tests/Copying.antt =====
-- A directory, a link and a small file, copied (src/client.cpp, src/server.cpp).
use remy.Base.{
  ℕ, ◌+◌, ◌*◌, ◌^◌, ◌≤◌, ◌<◌, ◌≡◌, ◌⊎◌, refl, true, List, [], ◌∷◌, ◌++◌, none, some, arith, All,
}
use remy.Wire.{Text, FileMetainfo}
use remy.Serde.Bytes.{Bytes}
use remy.Serde.Structs.{FitsMetainfo}
use remy.Server.Exec.{ok, crashed}
use remy.Copy.Files.{SourceFile, IsSteady}
use remy.Copy.Files.{join_path}
use remy.Copy.Collect.{FileTree, Dentries}
use remy.Copy.Sender.{send_copy, send_content}
use remy.Copy.Sender.Loop.{send_content_short}
use remy.Copy.Receiver.{recv_copy}
use remy.Copy.Receiver.Faithful.{rebuild, copy_received}
use remy.Copy.Proxy.{Environment, Proxy, new_proxy, forward_content, forward_copy}
use remy.Copy.Delivery.{copy_delivered}
use remy.Copy.Proxy.Crash.{early_chunk_crashes}
use remy.Copy.Proxy.Forward.Clock.{SkipsFirstMs}
use remy.Copy.Proxy.Forward.Content.{Arrives}
use remy.Copy.Proxy.Forward.Files.{payload_sizes}
use remy.Copy.Proxy.Forward.Whole.{forward_copy_lem}

abbrev pub meta_of : ℕ → ℕ → FileMetainfo
meta_of size mode = record {
  size = size;
  uid = 0;
  gid = 0;
  mode = mode;
  padding = 0;
  atime = record { tv_sec = 0; tv_nsec = 0; reserved = 0 };
  mtime = record { tv_sec = 0; tv_nsec = 0; reserved = 0 };
}

-- Modes 040755, 0120777 and 0100644.
abbrev files : List SourceFile
files =
    record { rel_path = b'd' ∷ []; meta = meta_of 4096 16877; content = []; target = [] }
    ∷ record { rel_path = b'l' ∷ []; meta = meta_of 1 41471; content = []; target = b'f' ∷ [] }
    ∷ record { rel_path = b'f' ∷ []; meta = meta_of 3 33188; content = 1 ∷ 2 ∷ 3 ∷ []; target = [] }
    ∷ []

fits_meta : (size mode : ℕ) → size < 2 ^ 64 → mode < 2 ^ 16 → FitsMetainfo (meta_of size mode)
fits_meta size mode h k = record {
  size = h;
  uid = omega arith;
  gid = omega arith;
  mode = k;
  padding = omega arith;
  atime = (omega arith, omega arith, omega arith);
  mtime = (omega arith, omega arith, omega arith);
}

files-IsSteady : All IsSteady files
files-IsSteady = (
  record {
    fits = fits_meta 4096 16877 (omega arith) (omega arith);
    path_fits = omega arith;
    target_fits = omega arith;
    same_size = λ reg. cc;
  },
  (
    record {
      fits = fits_meta 1 41471 (omega arith) (omega arith);
      path_fits = omega arith;
      target_fits = omega arith;
      same_size = λ reg. cc;
    },
    (
      record {
        fits = fits_meta 3 33188 (omega arith) (omega arith);
        path_fits = omega arith;
        target_fits = omega arith;
        same_size = λ reg. refl;
      },
      tt,
    ),
  ),
)

copy_received_example :
    (bs : Bytes) × (send_copy files ≡ some bs)
    × (recv_copy (b'/' ∷ []) (bs ++ 0 ∷ []) ≡ some (rebuild (b'/' ∷ []) files, 0 ∷ []))
copy_received_example = copy_received (b'/' ∷ []) files (0 ∷ []) files-IsSteady (omega arith)

-- A clock that ticks every 2 ms, and reads of one byte.
abbrev slow : Environment
slow = record { now = λ n. n * 2_000_000; arrived = λ n wanted. 1; is_alive = λ n. true }

slow-Arrives : Arrives slow
slow-Arrives = record { at = λ n wanted h. (omega arith, omega arith) }

slow-SkipsFirstMs : SkipsFirstMs slow 2_000_000
slow-SkipsFirstMs = record { at = ticks }
  where
    ticks : (n : ℕ) → (n * 2_000_000 ≤ 2_000_000) ⊎ (2_000_000 + 1_000_000 ≤ n * 2_000_000)
    ticks n = omega arith

forward_copy_lem_example :
    (bs : Bytes) × (send_copy files ≡ some bs)
    × (t : Proxy) × (forward_copy slow (new_proxy (bs ++ [])) ≡ (ok tt, t))
    × (t.output ≡ bs)
    × (t.input ≡ [])
    × (t.info.files_all ≡ 3)
    × (t.info.files_completed ≡ t.info.files_all)
    × (t.info.total_size ≡ payload_sizes files)
    × (t.info.total_progress ≡ t.info.total_size)
forward_copy_lem_example =
    forward_copy_lem slow files [] slow-Arrives slow-SkipsFirstMs files-IsSteady (omega arith)
      (omega arith)

-- A clock that ticks every 10 us.
abbrev quick : Environment
quick = record slow { now = λ n. n * 10_000 }

abbrev at_third_reading : Proxy
at_third_reading = record (new_proxy (5 ∷ 6 ∷ [])) { readings = 2 }

early_chunk_crashes_example : (forward_content quick 2 10_000 2 0 at_third_reading).0 ≡ crashed
early_chunk_crashes_example =
    early_chunk_crashes quick 1 10_000 2 0 5 at_third_reading (6 ∷ []) (omega arith) refl
      (omega arith) (omega arith)

send_content_short_example : send_content 9 4 0 (1 ∷ 2 ∷ []) ≡ none
send_content_short_example = send_content_short 9 4 0 (1 ∷ 2 ∷ []) (omega arith)

-- A directory with one file in it.
abbrev tree : FileTree
tree = record {
  statx = λ path. some (meta_of 3 33188);
  is_directory = λ path. true;
  below = λ path. join_path path (b'f' ∷ []) ∷ [];
}

abbrev home : Text
home = b'/' ∷ b'h' ∷ b'/' ∷ []

abbrev collected : Dentries
collected =
    (b'/' ∷ b'h' ∷ b'/' ∷ b'd' ∷ [], meta_of 3 33188)
    ∷ (b'/' ∷ b'h' ∷ b'/' ∷ b'd' ∷ b'/' ∷ b'f' ∷ [], meta_of 3 33188)
    ∷ []

copy_delivered_example :
    (bs : Bytes) × (send_copy files ≡ some bs)
    × (t : Proxy) × (forward_copy slow (new_proxy bs) ≡ (ok tt, t))
    × (recv_copy (b'/' ∷ []) t.output ≡ some (rebuild (b'/' ∷ []) files, []))
copy_delivered_example =
    copy_delivered slow (b'/' ∷ []) files slow-Arrives slow-SkipsFirstMs files-IsSteady
      (omega arith) (omega arith)
