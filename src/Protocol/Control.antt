-- ===== src/Protocol/Control.antt =====
-- From the server to a client: the `SendAction`s of `ClientCtrl` (src/server.cpp) write, and the
-- switch of `ClientNet::incoming_control_msg` (src/client.cpp) reads.
use remy.Base.{
  ℕ, ◌<◌, ◌≡◌, refl, List, ◌++◌, append_assoc, Option, none, some, arith, ◌==◌, if◌then◌else◌,
}
use remy.Wire.{Text, ClientsListPayload, WatcherInfo, CopyRole, source, destination}
use remy.Serde.Bytes.{
  Bytes, Recv, RoundTrips, ◌>>=◌, pure, send_pod, recv_pod, pod-RoundTrips, recv_then,
}
use remy.Serde.Containers.{
  send_string, recv_string, send_pair, recv_pair, send_vector, recv_vector, send_optional,
  recv_optional, FitsText, FitsVector, FitsOptional, FitsPair, string-RoundTrips, pair-RoundTrips,
  vector-RoundTrips, optional-RoundTrips,
}
use remy.Serde.Structs.{FitsU64, send_watcher, recv_watcher, FitsWatcher, watcher-RoundTrips}
use remy.Serde.Shrinks.{
  Shrinks, Shrinks-bind, Shrinks-pure, Shrinks-if, recv_pod-Shrinks, recv_string-Shrinks,
  vector-Shrinks, pair-Shrinks, optional-Shrinks, watcher-Shrinks,
}
use remy.Protocol.Loop.{Protocol}

pub data ServerMsg : Type 0 where
  client_id : ℕ → ServerMsg
  client_name : Text → ServerMsg
  clients_list : ClientsListPayload → ServerMsg
  browser_connected : ℕ → Option ℕ → ServerMsg
  connect_browser_request : ℕ → ServerMsg
  copy_source : ℕ → Text → List Text → ServerMsg
  copy_destination : ℕ → Text → ServerMsg
  watcher_info : Option WatcherInfo → ServerMsg

unfoldable pub server_msg_type : ServerMsg → ℕ
server_msg_type (client_id id) = 0
server_msg_type (client_name name) = 1
server_msg_type (clients_list list) = 2
server_msg_type (browser_connected client_token server_token) = 3
server_msg_type (connect_browser_request server_token) = 4
server_msg_type (copy_source token path dentries) = 5
server_msg_type (copy_destination token path) = 5
server_msg_type (watcher_info info) = 6

unfoldable pub send_role : CopyRole → Bytes
send_role source = send_pod 1 0
send_role destination = send_pod 1 1

unfoldable pub send_clients_list : ClientsListPayload → Bytes
send_clients_list = send_vector (send_pair (send_pod 8) send_string)

unfoldable pub recv_clients_list : Recv ClientsListPayload
recv_clients_list = recv_vector (recv_pair (recv_pod 8) recv_string)

unfoldable pub send_server_msg : ServerMsg → Bytes
send_server_msg (client_id id) = send_pod 8 id
send_server_msg (client_name name) = send_string name
send_server_msg (clients_list list) = send_clients_list list
send_server_msg (browser_connected client_token server_token) =
    send_pod 8 client_token ++ send_optional (send_pod 8) server_token
send_server_msg (connect_browser_request server_token) = send_pod 8 server_token
send_server_msg (copy_source token path dentries) =
    send_pod 8 token ++ send_role source ++ send_string path ++ send_vector send_string dentries
send_server_msg (copy_destination token path) =
    send_pod 8 token ++ send_role destination ++ send_string path
send_server_msg (watcher_info info) = send_optional send_watcher info

-- Any role but `Source` is read as `Destination`.
unfoldable pub recv_copy_request : Recv (Option ServerMsg)
recv_copy_request = do
  token ← recv_pod 8
  role ← recv_pod 1
  path ← recv_string
  if role == 0
      then (do dentries ← recv_vector recv_string; pure (some (copy_source token path dentries)))
      else pure (some (copy_destination token path))

unfoldable pub recv_browser_connected : Recv (Option ServerMsg)
recv_browser_connected = do
  client_token ← recv_pod 8
  server_token ← recv_optional (recv_pod 8)
  pure (some (browser_connected client_token server_token))

unfoldable pub recv_server_msg : ℕ → Recv (Option ServerMsg)
recv_server_msg type =
    if type == 0
    then (do id ← recv_pod 8; pure (some (client_id id)))
    else if type == 1
    then (do name ← recv_string; pure (some (client_name name)))
    else if type == 2
    then (do clients ← recv_clients_list; pure (some (clients_list clients)))
    else if type == 3
    then recv_browser_connected
    else if type == 4
    then (do server_token ← recv_pod 8; pure (some (connect_browser_request server_token)))
    else if type == 5
    then recv_copy_request
    else if type == 6
    then (do info ← recv_optional recv_watcher; pure (some (watcher_info info)))
    else pure none

abbrev pub FitsServerMsg : ServerMsg → Type 0
FitsServerMsg (client_id id) = FitsU64 id
FitsServerMsg (client_name name) = FitsText name
FitsServerMsg (clients_list list) = FitsVector (FitsPair FitsU64 FitsText) list
FitsServerMsg (browser_connected client_token server_token) =
    FitsU64 client_token × FitsOptional FitsU64 server_token
FitsServerMsg (connect_browser_request server_token) = FitsU64 server_token
FitsServerMsg (copy_source token path dentries) =
    FitsU64 token × FitsText path × FitsVector FitsText dentries
FitsServerMsg (copy_destination token path) = FitsU64 token × FitsText path
FitsServerMsg (watcher_info info) = FitsOptional FitsWatcher info

u64-RoundTrips : RoundTrips (send_pod 8) (recv_pod 8) FitsU64
u64-RoundTrips = pod-RoundTrips 8

clients_list-RoundTrips :
    RoundTrips send_clients_list recv_clients_list (FitsVector (FitsPair FitsU64 FitsText))
unfolding send_clients_list recv_clients_list
clients_list-RoundTrips = vector-RoundTrips (pair-RoundTrips u64-RoundTrips string-RoundTrips)

-- Every message of the server whose fields fit their types is read as it was sent, by the case of its
-- kind, and what comes after it is left.
pub server_msg_roundtrip :
    (m : ServerMsg) (rest : Bytes)
    → FitsServerMsg m
    → recv_server_msg (server_msg_type m) (send_server_msg m ++ rest) ≡ some (some m, rest)
unfolding recv_server_msg server_msg_type send_server_msg recv_copy_request recv_browser_connected
    send_role
server_msg_roundtrip (client_id id) rest h = recv_then u64-RoundTrips _ id rest h refl
server_msg_roundtrip (client_name name) rest h = recv_then string-RoundTrips _ name rest h refl
server_msg_roundtrip (clients_list list) rest h =
    recv_then clients_list-RoundTrips _ list rest h refl
server_msg_roundtrip (browser_connected client_token server_token) rest h = simp append_assoc (
    recv_then u64-RoundTrips _ client_token _ h.0
      (recv_then (optional-RoundTrips u64-RoundTrips) _ server_token rest h.1 refl))
server_msg_roundtrip (connect_browser_request server_token) rest h =
    recv_then u64-RoundTrips _ server_token rest h refl
server_msg_roundtrip (copy_source token path dentries) rest h = simp append_assoc (
    recv_then u64-RoundTrips _ token _ h.0 (
      recv_then (pod-RoundTrips 1) _ 0 _ (omega arith) (
        recv_then string-RoundTrips _ path _ h.1
          (recv_then (vector-RoundTrips string-RoundTrips) _ dentries rest h.2 refl))))
server_msg_roundtrip (copy_destination token path) rest h = simp append_assoc (
    recv_then u64-RoundTrips _ token _ h.0 (
      recv_then (pod-RoundTrips 1) _ 1 _ (omega arith)
        (recv_then string-RoundTrips _ path rest h.1 refl)))
server_msg_roundtrip (watcher_info info) rest h =
    recv_then (optional-RoundTrips watcher-RoundTrips) _ info rest h refl

pub server_msg_type_fits : (m : ServerMsg) → server_msg_type m < 256
unfolding server_msg_type
server_msg_type_fits m = ground arith

copy_request-Shrinks : Shrinks recv_copy_request
unfolding recv_copy_request
copy_request-Shrinks = Shrinks-bind (recv_pod 8) _ (recv_pod-Shrinks 8) λ token.
    Shrinks-bind (recv_pod 1) _ (recv_pod-Shrinks 1) λ role.
      Shrinks-bind recv_string _ recv_string-Shrinks λ path.
        Shrinks-if (role == 0) _ _
          (Shrinks-bind (recv_vector recv_string) _ (vector-Shrinks recv_string recv_string-Shrinks)
            λ dentries. Shrinks-pure _)
          (Shrinks-pure _)

browser_connected-Shrinks : Shrinks recv_browser_connected
unfolding recv_browser_connected
browser_connected-Shrinks = Shrinks-bind (recv_pod 8) _ (recv_pod-Shrinks 8) λ a.
    Shrinks-bind (recv_optional (recv_pod 8)) _ (optional-Shrinks (recv_pod 8) (recv_pod-Shrinks 8))
      λ b. Shrinks-pure _

clients_list-Shrinks : Shrinks recv_clients_list
unfolding recv_clients_list
clients_list-Shrinks =
    vector-Shrinks (recv_pair (recv_pod 8) recv_string)
      (pair-Shrinks (recv_pod 8) recv_string (recv_pod-Shrinks 8) recv_string-Shrinks)

pub server_msg-Shrinks : (type : ℕ) → Shrinks (recv_server_msg type)
unfolding recv_server_msg
server_msg-Shrinks type =
    Shrinks-if (type == 0) _ _
      (Shrinks-bind (recv_pod 8) _ (recv_pod-Shrinks 8) λ a. Shrinks-pure _)
      (Shrinks-if (type == 1) _ _
        (Shrinks-bind recv_string _ recv_string-Shrinks λ a. Shrinks-pure _)
        (Shrinks-if (type == 2) _ _
          (Shrinks-bind recv_clients_list _ clients_list-Shrinks λ a. Shrinks-pure _)
          (Shrinks-if (type == 3) _ _ browser_connected-Shrinks (
            Shrinks-if (type == 4) _ _
              (Shrinks-bind (recv_pod 8) _ (recv_pod-Shrinks 8) λ a. Shrinks-pure _)
              (Shrinks-if (type == 5) _ _ copy_request-Shrinks (
                Shrinks-if (type == 6) _ _
                  (Shrinks-bind (recv_optional recv_watcher) _
                    (optional-Shrinks recv_watcher watcher-Shrinks) λ a. Shrinks-pure _)
                  (Shrinks-pure _)))))))

-- What `Protocol.Loop` needs to know of these messages.
abbrev pub server_msgs : Protocol ServerMsg
server_msgs = record {
  kind = server_msg_type;
  body = send_server_msg;
  recv_body = recv_server_msg;
  Fits = FitsServerMsg;
  kind_fits = server_msg_type_fits;
  body_roundtrip = server_msg_roundtrip;
  recv_body-Shrinks = server_msg-Shrinks;
}
