-- ===== src/Tests/Attributes.antt =====
-- The attributes of a copied file and of a copied link (src/client.cpp), on a table of inodes.
use remy.Base.{ℕ, ◌%◌, false, [], ◌∷◌, none, ◌==◌, if◌then◌else◌}
use remy.Wire.{Text, Timestamp}
use remy.Copy.Attributes.{Statx, Calls}
use remy.Copy.Attributes.Restored.{Inode}

abbrev Table : Type 0
Table = ℕ → Inode

abbrev set : ℕ → Inode → Table → Table
set n i s k = if k == n then i else s k

-- The path `l` is a link to the file that all other paths name.
abbrev node_of : Text → ℕ
node_of (c ∷ []) = if c == b'l' then 1 else 0
node_of path = 0

abbrev target_of : Text → ℕ
target_of path = 0

abbrev cleared : Inode → ℕ
cleared i = if i.is_directory then i.permissions else i.permissions % 1024

abbrev calls : Calls Table
calls = record {
  chmod = λ path mode s.
      (none, set (target_of path) (record (s (target_of path)) { permissions = mode }) s);
  utimensat = λ path a m s.
      (none, set (node_of path) (record (s (node_of path)) { atime = a; mtime = m }) s);
  lchown = λ path u g s. (
    none,
    set (node_of path)
        (record (s (node_of path)) { permissions = cleared (s (node_of path)); uid = u; gid = g })
        s,
  );
}

abbrev at : ℕ → Timestamp
at seconds = record { tv_sec = seconds; tv_nsec = 5; reserved = 0 }

abbrev fresh : Table
fresh n = record {
  is_directory = false;
  permissions = 384;
  uid = 0;
  gid = 0;
  atime = (0, 0);
  mtime = (0, 0);
}

-- A program of mode 0104755, and a link, of mode 0120777.
abbrev program : Statx
program = record {
  stx_size = 3;
  stx_uid = 7;
  stx_gid = 8;
  stx_mode = 35309;
  stx_atime = at 1;
  stx_mtime = at 2;
}

abbrev link : Statx
link = record program { stx_mode = 41471 }
