-- ===== src/Protocol/Browser.antt =====
-- The two directions of a Browser connection, which the server only forwards: the requests of
-- `BrowserReader` and the answers of `BrowserHost` (src/client.cpp).
use remy.Base.{ℕ, ◌<◌, ◌≡◌, refl, ◌++◌, Option, none, some, arith, ◌==◌, if◌then◌else◌}
use remy.Wire.{Text, RemoteDentries, PathDentsPayload}
use remy.Serde.Bytes.{Bytes, Recv, RoundTrips, ◌>>=◌, pure, recv_then}
use remy.Serde.Containers.{
  send_string, recv_string, send_pair, recv_pair, send_vector, recv_vector, send_optional,
  recv_optional, FitsText, FitsPair, FitsVector, FitsOptional, string-RoundTrips, pair-RoundTrips,
  vector-RoundTrips, optional-RoundTrips,
}
use remy.Serde.Structs.{
  send_dentry, recv_dentry, FitsDentry, dentry-RoundTrips, send_dentries, recv_dentries,
  FitsDentries, dentries-RoundTrips,
}
use remy.Serde.Shrinks.{
  Shrinks, Shrinks-bind, Shrinks-pure, Shrinks-if, recv_string-Shrinks, pair-Shrinks,
  vector-Shrinks, optional-Shrinks, dentry-Shrinks, dentries-Shrinks,
}
use remy.Protocol.Loop.{Protocol}

pub data ReaderMsg : Type 0 where
  get_dents : Text → ReaderMsg
  delete : RemoteDentries → ReaderMsg
  mkdir : Text → Text → ReaderMsg

pub data HostMsg : Type 0 where
  path_dents : PathDentsPayload → HostMsg
  delete_response : Text → HostMsg
  mkdir_response : Text → HostMsg

unfoldable pub reader_msg_type : ReaderMsg → ℕ
reader_msg_type (get_dents dir) = 0
reader_msg_type (delete entries) = 1
reader_msg_type (mkdir basedir name) = 2

unfoldable pub host_msg_type : HostMsg → ℕ
host_msg_type (path_dents payload) = 0
host_msg_type (delete_response msg) = 1
host_msg_type (mkdir_response msg) = 2

unfoldable pub send_reader_msg : ReaderMsg → Bytes
send_reader_msg (get_dents dir) = send_string dir
send_reader_msg (delete entries) = send_dentries entries
send_reader_msg (mkdir basedir name) = send_pair send_string send_string (basedir, name)

unfoldable pub send_payload : PathDentsPayload → Bytes
send_payload = send_pair send_string (send_optional (send_vector send_dentry))

unfoldable pub recv_payload : Recv PathDentsPayload
recv_payload = recv_pair recv_string (recv_optional (recv_vector recv_dentry))

unfoldable pub send_host_msg : HostMsg → Bytes
send_host_msg (path_dents payload) = send_payload payload
send_host_msg (delete_response msg) = send_string msg
send_host_msg (mkdir_response msg) = send_string msg

unfoldable pub recv_reader_msg : ℕ → Recv (Option ReaderMsg)
recv_reader_msg type =
    if type == 0
    then (do dir ← recv_string; pure (some (get_dents dir)))
    else if type == 1
    then (do entries ← recv_dentries; pure (some (delete entries)))
    else if type == 2
    then (do (basedir, name) ← recv_pair recv_string recv_string; pure (some (mkdir basedir name)))
    else pure none

unfoldable pub recv_host_msg : ℕ → Recv (Option HostMsg)
recv_host_msg type =
    if type == 0
    then (do payload ← recv_payload; pure (some (path_dents payload)))
    else if type == 1
    then (do msg ← recv_string; pure (some (delete_response msg)))
    else if type == 2
    then (do msg ← recv_string; pure (some (mkdir_response msg)))
    else pure none

abbrev pub FitsReaderMsg : ReaderMsg → Type 0
FitsReaderMsg (get_dents dir) = FitsText dir
FitsReaderMsg (delete entries) = FitsDentries entries
FitsReaderMsg (mkdir basedir name) = FitsText basedir × FitsText name

abbrev pub FitsPayload : PathDentsPayload → Type 0
FitsPayload = FitsPair FitsText (FitsOptional (FitsVector FitsDentry))

abbrev pub FitsHostMsg : HostMsg → Type 0
FitsHostMsg (path_dents payload) = FitsPayload payload
FitsHostMsg (delete_response msg) = FitsText msg
FitsHostMsg (mkdir_response msg) = FitsText msg

payload-RoundTrips : RoundTrips send_payload recv_payload FitsPayload
unfolding send_payload recv_payload
payload-RoundTrips =
    pair-RoundTrips string-RoundTrips (optional-RoundTrips (vector-RoundTrips dentry-RoundTrips))

pub reader_msg_roundtrip :
    (m : ReaderMsg) (rest : Bytes)
    → FitsReaderMsg m
    → recv_reader_msg (reader_msg_type m) (send_reader_msg m ++ rest) ≡ some (some m, rest)
unfolding recv_reader_msg reader_msg_type send_reader_msg
reader_msg_roundtrip (get_dents dir) rest h = recv_then string-RoundTrips _ dir rest h refl
reader_msg_roundtrip (delete entries) rest h = recv_then dentries-RoundTrips _ entries rest h refl
reader_msg_roundtrip (mkdir basedir name) rest h =
    recv_then (pair-RoundTrips string-RoundTrips string-RoundTrips) _ (basedir, name) rest h refl

pub host_msg_roundtrip :
    (m : HostMsg) (rest : Bytes)
    → FitsHostMsg m
    → recv_host_msg (host_msg_type m) (send_host_msg m ++ rest) ≡ some (some m, rest)
unfolding recv_host_msg host_msg_type send_host_msg
host_msg_roundtrip (path_dents payload) rest h = recv_then payload-RoundTrips _ payload rest h refl
host_msg_roundtrip (delete_response msg) rest h = recv_then string-RoundTrips _ msg rest h refl
host_msg_roundtrip (mkdir_response msg) rest h = recv_then string-RoundTrips _ msg rest h refl

-- Both ways of a Browser connection: every request of the browsing side, and every answer of the
-- browsed side, a listing, a failed one or a result, whose fields fit their types is read as it was
-- sent, by the case of its kind, and what comes after it is left.
pub browser_roundtrip :
    (request : ReaderMsg) (answer : HostMsg) (rest : Bytes)
    → FitsReaderMsg request
    → FitsHostMsg answer
    → (recv_reader_msg (reader_msg_type request) (send_reader_msg request ++ rest)
        ≡ some (some request, rest))
      × (recv_host_msg (host_msg_type answer) (send_host_msg answer ++ rest)
          ≡ some (some answer, rest))
browser_roundtrip request answer rest h k =
    (reader_msg_roundtrip request rest h, host_msg_roundtrip answer rest k)

pub reader_msg_type_fits : (m : ReaderMsg) → reader_msg_type m < 256
unfolding reader_msg_type
reader_msg_type_fits m = ground arith

pub host_msg_type_fits : (m : HostMsg) → host_msg_type m < 256
unfolding host_msg_type
host_msg_type_fits m = ground arith

pub reader_msg-Shrinks : (type : ℕ) → Shrinks (recv_reader_msg type)
unfolding recv_reader_msg
reader_msg-Shrinks type =
    Shrinks-if (type == 0) _ _ (Shrinks-bind recv_string _ recv_string-Shrinks λ a. Shrinks-pure _)
      (Shrinks-if (type == 1) _ _
        (Shrinks-bind recv_dentries _ dentries-Shrinks λ a. Shrinks-pure _)
        (Shrinks-if (type == 2) _ _
          (Shrinks-bind (recv_pair recv_string recv_string) _
            (pair-Shrinks recv_string recv_string recv_string-Shrinks recv_string-Shrinks)
            λ a. Shrinks-pure _)
          (Shrinks-pure _)))

payload-Shrinks : Shrinks recv_payload
unfolding recv_payload
payload-Shrinks =
    pair-Shrinks recv_string _ recv_string-Shrinks
      (optional-Shrinks (recv_vector recv_dentry) (vector-Shrinks recv_dentry dentry-Shrinks))

pub host_msg-Shrinks : (type : ℕ) → Shrinks (recv_host_msg type)
unfolding recv_host_msg
host_msg-Shrinks type =
    Shrinks-if (type == 0) _ _ (Shrinks-bind recv_payload _ payload-Shrinks λ a. Shrinks-pure _) (
      Shrinks-if (type == 1) _ _
        (Shrinks-bind recv_string _ recv_string-Shrinks λ a. Shrinks-pure _)
        (Shrinks-if (type == 2) _ _
          (Shrinks-bind recv_string _ recv_string-Shrinks λ a. Shrinks-pure _) (Shrinks-pure _)))

-- What `Protocol.Loop` needs to know of these messages.
abbrev pub reader_msgs : Protocol ReaderMsg
reader_msgs = record {
  kind = reader_msg_type;
  body = send_reader_msg;
  recv_body = recv_reader_msg;
  Fits = FitsReaderMsg;
  kind_fits = reader_msg_type_fits;
  body_roundtrip = reader_msg_roundtrip;
  recv_body-Shrinks = reader_msg-Shrinks;
}

abbrev pub host_msgs : Protocol HostMsg
host_msgs = record {
  kind = host_msg_type;
  body = send_host_msg;
  recv_body = recv_host_msg;
  Fits = FitsHostMsg;
  kind_fits = host_msg_type_fits;
  body_roundtrip = host_msg_roundtrip;
  recv_body-Shrinks = host_msg-Shrinks;
}
