-- ===== src/Serde/Structs.antt =====
-- serde.hpp: the specialisations for the structs of common.hpp, and `FileMetainfo`, which is plain
-- data: `sizeof` is 56, the members in their order with six bytes of padding before `atime`.
use remy.Base.{ℕ, ◌^◌, ◌<◌, refl, ◌++◌, append_assoc}
use remy.Wire.{Timestamp, FileMetainfo, Dentry, RemoteDentries, WatcherInfo}
use remy.Serde.Bytes.{
  Bytes, Recv, RoundTrips, ◌>>=◌, pure, send_pod, recv_pod, pod-RoundTrips, recv_then,
}
use remy.Serde.Containers.{
  send_string, recv_string, send_vector, recv_vector, FitsText, FitsVector, string-RoundTrips,
  vector-RoundTrips,
}

abbrev pub FitsU64 : ℕ → Type 0
FitsU64 n = n < 2 ^ 64

unfoldable pub send_timestamp : Timestamp → Bytes
send_timestamp t = send_pod 8 t.tv_sec ++ send_pod 4 t.tv_nsec ++ send_pod 4 t.reserved

unfoldable pub recv_timestamp : Recv Timestamp
recv_timestamp = do
  tv_sec ← recv_pod 8
  tv_nsec ← recv_pod 4
  reserved ← recv_pod 4
  pure (record { tv_sec = tv_sec; tv_nsec = tv_nsec; reserved = reserved })

abbrev pub FitsTimestamp : Timestamp → Type 0
FitsTimestamp t = (t.tv_sec < 2 ^ 64) × (t.tv_nsec < 2 ^ 32) × (t.reserved < 2 ^ 32)

timestamp-RoundTrips : RoundTrips send_timestamp recv_timestamp FitsTimestamp
unfolding send_timestamp recv_timestamp
timestamp-RoundTrips = record {
  at = λ t rest h. simp append_assoc (
      recv_then (pod-RoundTrips 8) _ t.tv_sec _ h.0 (
        recv_then (pod-RoundTrips 4) _ t.tv_nsec _ h.1
          (recv_then (pod-RoundTrips 4) _ t.reserved rest h.2 refl)));
}

unfoldable pub send_metainfo : FileMetainfo → Bytes
send_metainfo m =
    send_pod 8 m.size
    ++ send_pod 4 m.uid
    ++ send_pod 4 m.gid
    ++ send_pod 2 m.mode
    ++ send_pod 6 m.padding
    ++ send_timestamp m.atime
    ++ send_timestamp m.mtime

unfoldable pub recv_metainfo : Recv FileMetainfo
recv_metainfo = do
  size ← recv_pod 8
  uid ← recv_pod 4
  gid ← recv_pod 4
  mode ← recv_pod 2
  padding ← recv_pod 6
  atime ← recv_timestamp
  mtime ← recv_timestamp
  pure (record {
    size = size;
    uid = uid;
    gid = gid;
    mode = mode;
    padding = padding;
    atime = atime;
    mtime = mtime;
  })

pub record FitsMetainfo (m : FileMetainfo) : Type 0 where
  pub size : m.size < 2 ^ 64
  pub uid : m.uid < 2 ^ 32
  pub gid : m.gid < 2 ^ 32
  pub mode : m.mode < 2 ^ 16
  pub padding : m.padding < 2 ^ 48
  pub atime : FitsTimestamp m.atime
  pub mtime : FitsTimestamp m.mtime

pub metainfo-RoundTrips : RoundTrips send_metainfo recv_metainfo FitsMetainfo
unfolding send_metainfo recv_metainfo
metainfo-RoundTrips = record {
  at = λ m rest h. simp append_assoc (
      recv_then (pod-RoundTrips 8) _ m.size _ h.size (
        recv_then (pod-RoundTrips 4) _ m.uid _ h.uid (
          recv_then (pod-RoundTrips 4) _ m.gid _ h.gid (
            recv_then (pod-RoundTrips 2) _ m.mode _ h.mode (
              recv_then (pod-RoundTrips 6) _ m.padding _ h.padding (
                recv_then timestamp-RoundTrips _ m.atime _ h.atime
                  (recv_then timestamp-RoundTrips _ m.mtime rest h.mtime refl)))))));
}

unfoldable pub send_dentry : Dentry → Bytes
send_dentry d = send_string d.basename ++ send_metainfo d.metainfo

unfoldable pub recv_dentry : Recv Dentry
recv_dentry = do
  basename ← recv_string
  metainfo ← recv_metainfo
  pure (record { basename = basename; metainfo = metainfo })

abbrev pub FitsDentry : Dentry → Type 0
FitsDentry d = FitsText d.basename × FitsMetainfo d.metainfo

pub dentry-RoundTrips : RoundTrips send_dentry recv_dentry FitsDentry
unfolding send_dentry recv_dentry
dentry-RoundTrips = record {
  at = λ d rest h. simp append_assoc (
      recv_then string-RoundTrips _ d.basename _ h.0
        (recv_then metainfo-RoundTrips _ d.metainfo rest h.1 refl));
}

unfoldable pub send_dentries : RemoteDentries → Bytes
send_dentries r = send_pod 8 r.id ++ send_string r.basedir ++ send_vector send_string r.dentries

unfoldable pub recv_dentries : Recv RemoteDentries
recv_dentries = do
  id ← recv_pod 8
  basedir ← recv_string
  dentries ← recv_vector recv_string
  pure (record { id = id; basedir = basedir; dentries = dentries })

abbrev pub FitsDentries : RemoteDentries → Type 0
FitsDentries r = FitsU64 r.id × FitsText r.basedir × FitsVector FitsText r.dentries

pub dentries-RoundTrips : RoundTrips send_dentries recv_dentries FitsDentries
unfolding send_dentries recv_dentries
dentries-RoundTrips = record {
  at = λ r rest h. simp append_assoc (
      recv_then (pod-RoundTrips 8) _ r.id _ h.0 (
        recv_then string-RoundTrips _ r.basedir _ h.1
          (recv_then (vector-RoundTrips string-RoundTrips) _ r.dentries rest h.2 refl)));
}

unfoldable pub send_watcher : WatcherInfo → Bytes
send_watcher w =
    send_pod 8 w.files_all
    ++ send_pod 8 w.files_completed
    ++ send_pod 8 w.total_size
    ++ send_pod 8 w.total_progress
    ++ send_pod 8 w.cur_size
    ++ send_pod 8 w.cur_progress
    ++ send_string w.cur_file
    ++ send_pod 8 w.speed

unfoldable pub recv_watcher : Recv WatcherInfo
recv_watcher = do
  files_all ← recv_pod 8
  files_completed ← recv_pod 8
  total_size ← recv_pod 8
  total_progress ← recv_pod 8
  cur_size ← recv_pod 8
  cur_progress ← recv_pod 8
  cur_file ← recv_string
  speed ← recv_pod 8
  pure (record {
    files_all = files_all;
    files_completed = files_completed;
    total_size = total_size;
    total_progress = total_progress;
    cur_size = cur_size;
    cur_progress = cur_progress;
    cur_file = cur_file;
    speed = speed;
  })

pub record FitsWatcher (w : WatcherInfo) : Type 0 where
  pub files_all : FitsU64 w.files_all
  pub files_completed : FitsU64 w.files_completed
  pub total_size : FitsU64 w.total_size
  pub total_progress : FitsU64 w.total_progress
  pub cur_size : FitsU64 w.cur_size
  pub cur_progress : FitsU64 w.cur_progress
  pub cur_file : FitsText w.cur_file
  pub speed : FitsU64 w.speed

pub watcher-RoundTrips : RoundTrips send_watcher recv_watcher FitsWatcher
unfolding send_watcher recv_watcher
watcher-RoundTrips = record {
  at = λ w rest h. simp append_assoc (
      recv_then (pod-RoundTrips 8) _ w.files_all _ h.files_all (
        recv_then (pod-RoundTrips 8) _ w.files_completed _ h.files_completed (
          recv_then (pod-RoundTrips 8) _ w.total_size _ h.total_size (
            recv_then (pod-RoundTrips 8) _ w.total_progress _ h.total_progress (
              recv_then (pod-RoundTrips 8) _ w.cur_size _ h.cur_size (
                recv_then (pod-RoundTrips 8) _ w.cur_progress _ h.cur_progress (
                  recv_then string-RoundTrips _ w.cur_file _ h.cur_file
                    (recv_then (pod-RoundTrips 8) _ w.speed rest h.speed refl))))))));
}
