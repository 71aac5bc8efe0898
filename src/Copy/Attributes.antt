-- ===== src/Copy/Attributes.antt =====
-- `statx_to_metainfo` and `apply_attrs` of src/client.cpp: what the sender reads of a file, and what
-- the receiver sets. The calls of the system are a parameter.
pub mod Restored
use remy.Base.{ℕ, ◌%◌, List, [], ◌∷◌, ◌++◌, Option, none, some, inl, inr, ◌⊎◌}
use remy.Wire.{Text, Timestamp, FileMetainfo}
use remy.Utils.Duration.{codes}

-- `struct statx`: the fields of STATX_MASK.
pub record Statx : Type 0 where
  pub stx_size : ℕ
  pub stx_uid : ℕ
  pub stx_gid : ℕ
  pub stx_mode : ℕ
  pub stx_atime : Timestamp
  pub stx_mtime : Timestamp

-- The callers clear the struct first, its padding too.
unfoldable pub metainfo : Statx → FileMetainfo
metainfo statx_info = record {
  size = statx_info.stx_size;
  uid = statx_info.stx_uid;
  gid = statx_info.stx_gid;
  mode = statx_info.stx_mode;
  padding = 0;
  atime = statx_info.stx_atime;
  mtime = statx_info.stx_mtime;
}

-- What `statx` gave for the path, a description of an error or a struct. On the left is an exception.
unfoldable pub statx_to_metainfo : Text → Text ⊎ Statx → Text ⊎ FileMetainfo
statx_to_metainfo path (inl err_desc) = inl (path ++ codes ": statx: " ++ err_desc)
statx_to_metainfo path (inr statx_info) = inr (metainfo statx_info)

-- timespec: seconds and nanoseconds.
abbrev pub timespec : Timestamp → ℕ × ℕ
timespec t = (t.tv_sec, t.tv_nsec)

-- A call gives the description of an error, or nothing, and the next state.
pub record Calls (S : Type 0) : Type 0 where
  pub chmod : Text → ℕ → S → Option Text × S
  pub utimensat : Text → ℕ × ℕ → ℕ × ℕ → S → Option Text × S
  pub lchown : Text → ℕ → ℕ → S → Option Text × S

-- What is logged about a call.
abbrev pub complaint : Text → Text → Option Text → List Text
complaint path call none = []
complaint path call (some err_desc) =
    (codes "'" ++ path ++ codes "' " ++ call ++ codes ": " ++ err_desc) ∷ []

-- `metainfo.mode & ~S_IFMT` for a mode of 16 bits.
abbrev pub without_type : ℕ → ℕ
without_type mode = mode % 4096

-- Each call is made, whatever became of those before; what is logged comes first in the result.
unfoldable pub apply_attrs : {S : Type 0} → Calls S → Text → FileMetainfo → S → List Text × S
apply_attrs calls path metainfo s =
    let (chmod_error, t) = calls.chmod path (without_type metainfo.mode) s in
    let (times_error, u) =
      calls.utimensat path (timespec metainfo.atime) (timespec metainfo.mtime) t in
    let (chown_error, v) = calls.lchown path metainfo.uid metainfo.gid u in
    (
      complaint path (codes "chmod") chmod_error
          ++ (complaint path (codes "utimensat") times_error
              ++ complaint path (codes "lchown") chown_error),
      v,
    )
