-- ===== src/Copy/Attributes/Restored.antt =====
-- What a copied file has of the attributes of its source (src/client.cpp, `apply_attrs`).
use remy.Base.{ℕ, ◌/◌, ◌%◌, ◌<◌, ◌≡◌, ◌≢◌, Bool, false, [], none, ◌⊎◌}
use remy.Wire.{Text}
use remy.Copy.Attributes.{Statx, metainfo, Calls, timespec, apply_attrs}

-- The attributes of an inode that the three calls set; `permissions` are the twelve bits of a mode
-- that are not its type.
pub record Inode : Type 0 where
  pub is_directory : Bool
  pub permissions : ℕ
  pub uid : ℕ
  pub gid : ℕ
  pub atime : ℕ × ℕ
  pub mtime : ℕ × ℕ

-- S_IXUSR, S_IXGRP or S_IXOTH, and S_ISUID.
abbrev pub IsExecutable : ℕ → Type 0
IsExecutable mode = (mode / 64 % 2 ≡ 1) ⊎ ((mode / 8 % 2 ≡ 1) ⊎ (mode % 2 ≡ 1))

abbrev pub set_uid : ℕ → ℕ
set_uid mode = mode / 2048 % 2

-- A time that utimensat takes for a time, and neither for UTIME_NOW nor for UTIME_OMIT.
abbrev pub IsTime : ℕ × ℕ → Type 0
IsTime t = t.1 < 1_000_000_000

-- What the manual says of the calls that succeed. `node` is the inode of a path, `target` that to
-- which it leads if it is a link: chmod follows links, the two others are told or made not to.
-- chmod may clear S_ISGID, lchown S_ISUID and S_ISGID, and the first one of an executable file it
-- does clear; -1 would leave an owner or a group as it is. `stored` is what the file system keeps
-- of a time, which may be less than nanoseconds.
pub record IsPosix {S : Type 0} (calls : Calls S) (node : Text → ℕ) (target : Text → ℕ)
    (inode : ℕ → S → Inode) (stored : ℕ × ℕ → ℕ × ℕ) : Type 0 where
  pub chmod_mode : Text → ℕ → S → ℕ
  pub chmod_sets :
      (path : Text) (mode : ℕ) (s : S)
      → (calls.chmod path mode s).0 ≡ none
      → inode (target path) (calls.chmod path mode s).1
        ≡ record (inode (target path) s) { permissions = chmod_mode path mode s }
  pub chmod_mode_rest :
      (path : Text) (mode : ℕ) (s : S)
      → (chmod_mode path mode s % 1024 ≡ mode % 1024)
        × (set_uid (chmod_mode path mode s) ≡ set_uid mode)
  pub utimensat_sets :
      (path : Text) (a m : ℕ × ℕ) (s : S)
      → IsTime a
      → IsTime m
      → (calls.utimensat path a m s).0 ≡ none
      → inode (node path) (calls.utimensat path a m s).1
        ≡ record (inode (node path) s) { atime = stored a; mtime = stored m }
  pub utimensat_keeps :
      (path : Text) (a m : ℕ × ℕ) (s : S) (n : ℕ)
      → n ≢ node path
      → inode n (calls.utimensat path a m s).1 ≡ inode n s
  pub lchown_mode : Text → ℕ → ℕ → S → ℕ
  pub lchown_sets :
      (path : Text) (u g : ℕ) (s : S)
      → u < 4294967295
      → g < 4294967295
      → (calls.lchown path u g s).0 ≡ none
      → inode (node path) (calls.lchown path u g s).1
        ≡ record (inode (node path) s) { permissions = lchown_mode path u g s; uid = u; gid = g }
  pub lchown_mode_rest :
      (path : Text) (u g : ℕ) (s : S)
      → lchown_mode path u g s % 1024 ≡ (inode (node path) s).permissions % 1024
  pub lchown_clears :
      (path : Text) (u g : ℕ) (s : S)
      → (inode (node path) s).is_directory ≡ false
      → IsExecutable (inode (node path) s).permissions
      → set_uid (lchown_mode path u g s) ≡ 0
  pub lchown_keeps :
      (path : Text) (u g : ℕ) (s : S) (n : ℕ)
      → n ≢ node path
      → inode n (calls.lchown path u g s).1 ≡ inode n s

-- The source's owner, group and times are values that the calls take.
pub record IsOrdinary (info : Statx) : Type 0 where
  pub owner : info.stx_uid < 4294967295
  pub group : info.stx_gid < 4294967295
  pub atime : IsTime (timespec info.stx_atime)
  pub mtime : IsTime (timespec info.stx_mtime)

module _ {S : Type 0} {calls : Calls S} {node target : Text → ℕ} {inode : ℕ → S → Inode}
    {stored : ℕ × ℕ → ℕ × ℕ} (posix : IsPosix calls node target inode stored) (path : Text)
    (info : Statx) (s : S) (ordinary : IsOrdinary info)
    (quiet : (apply_attrs calls path (metainfo info) s).0 ≡ []) where
  after : S
  after = (apply_attrs calls path (metainfo info) s).1
