-- ===== src/Wire.antt =====
-- include/remy/common.hpp: the values that travel between the programs. A `std::string` is the list
-- of its bytes; an unsigned field is a number, whose range is a condition of the theorems.
use remy.Base.{ℕ, List, Option}

abbrev pub Text : Type 0
Text = List ℕ

-- `statx_timestamp` of linux/stat.h; `tv_sec` is the bit pattern of an `__s64`.
pub record Timestamp : Type 0 where
  pub tv_sec : ℕ
  pub tv_nsec : ℕ
  pub reserved : ℕ

-- The object is sent as it lies in memory, so the six bytes that align `atime` travel too.
pub record FileMetainfo : Type 0 where
  pub size : ℕ
  pub uid : ℕ
  pub gid : ℕ
  pub mode : ℕ
  pub padding : ℕ
  pub atime : Timestamp
  pub mtime : Timestamp

pub record Dentry : Type 0 where
  pub basename : Text
  pub metainfo : FileMetainfo

pub record RemoteDentries : Type 0 where
  pub id : ℕ
  pub basedir : Text
  pub dentries : List Text

-- `RemoteDentry`, `PathDentsPayload` and `ClientsListPayload` are pairs and lists in the source too.
abbrev pub RemoteDentry : Type 0
RemoteDentry = ℕ × Text

abbrev pub PathDentsPayload : Type 0
PathDentsPayload = Text × Option (List Dentry)

abbrev pub ClientsListPayload : Type 0
ClientsListPayload = List (ℕ × Text)

pub record WatcherInfo : Type 0 where
  pub files_all : ℕ
  pub files_completed : ℕ
  pub total_size : ℕ
  pub total_progress : ℕ
  pub cur_size : ℕ
  pub cur_progress : ℕ
  pub cur_file : Text
  pub speed : ℕ

pub data CopyRole : Type 0 where
  source destination : CopyRole
