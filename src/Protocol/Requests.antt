-- ===== src/Protocol/Requests.antt =====
-- From a client to the server: the requests of `ClientNet` (src/client.cpp) write, and the switch of
-- `ClientCtrl::incoming_messages` (src/server.cpp) reads.
use remy.Base.{
  ℕ, ◌<◌, ◌≡◌, refl, [], ◌++◌, append_assoc, Option, none, some, arith, ◌==◌, if◌then◌else◌,
}
use remy.Wire.{Text, RemoteDentries, RemoteDentry}
use remy.Serde.Bytes.{Bytes, Recv, ◌>>=◌, pure, send_pod, recv_pod, pod-RoundTrips, recv_then}
use remy.Serde.Containers.{
  send_string, recv_string, send_pair, recv_pair, FitsText, FitsPair, string-RoundTrips,
  pair-RoundTrips,
}
use remy.Serde.Structs.{FitsU64, send_dentries, recv_dentries, FitsDentries, dentries-RoundTrips}
use remy.Serde.Shrinks.{
  Shrinks, Shrinks-bind, Shrinks-pure, Shrinks-if, recv_pod-Shrinks, recv_string-Shrinks,
  pair-Shrinks, dentries-Shrinks,
}
use remy.Protocol.Loop.{Protocol}

pub data ClientMsg : Type 0 where
  set_name : Text → ClientMsg
  get_clients_list : ClientMsg
  connect_browser : ℕ → ℕ → ClientMsg
  copy : RemoteDentries → RemoteDentry → ClientMsg

unfoldable pub client_msg_type : ClientMsg → ℕ
client_msg_type (set_name name) = 0
client_msg_type get_clients_list = 1
client_msg_type (connect_browser client_token host_id) = 2
client_msg_type (copy from to) = 3

unfoldable pub send_client_msg : ClientMsg → Bytes
send_client_msg (set_name name) = send_string name
send_client_msg get_clients_list = []
send_client_msg (connect_browser client_token host_id) =
    send_pod 8 client_token ++ send_pod 8 host_id
send_client_msg (copy from to) = send_dentries from ++ send_pair (send_pod 8) send_string to

unfoldable pub recv_connect_browser : Recv (Option ClientMsg)
recv_connect_browser = do
  client_token ← recv_pod 8
  browser_host_id ← recv_pod 8
  pure (some (connect_browser client_token browser_host_id))

unfoldable pub recv_copy : Recv (Option ClientMsg)
recv_copy = do
  src ← recv_dentries
  dst ← recv_pair (recv_pod 8) recv_string
  pure (some (copy src dst))

unfoldable pub recv_client_msg : ℕ → Recv (Option ClientMsg)
recv_client_msg type =
    if type == 0
    then (do new_name ← recv_string; pure (some (set_name new_name)))
    else if type == 1
    then pure (some get_clients_list)
    else if type == 2
    then recv_connect_browser
    else if type == 3
    then recv_copy
    else pure none

abbrev pub FitsClientMsg : ClientMsg → Type 0
FitsClientMsg (set_name name) = FitsText name
FitsClientMsg get_clients_list = Unit
FitsClientMsg (connect_browser client_token host_id) = FitsU64 client_token × FitsU64 host_id
FitsClientMsg (copy from to) = FitsDentries from × FitsPair FitsU64 FitsText to

-- Every request of a client whose fields fit their types is read as it was sent, by the case of its
-- kind, and what comes after it is left.
pub client_msg_roundtrip :
    (m : ClientMsg) (rest : Bytes)
    → FitsClientMsg m
    → recv_client_msg (client_msg_type m) (send_client_msg m ++ rest) ≡ some (some m, rest)
unfolding recv_client_msg client_msg_type send_client_msg recv_connect_browser recv_copy
client_msg_roundtrip (set_name name) rest h = recv_then string-RoundTrips _ name rest h refl
client_msg_roundtrip get_clients_list rest h = refl
client_msg_roundtrip (connect_browser client_token host_id) rest h = simp append_assoc (
    recv_then (pod-RoundTrips 8) _ client_token _ h.0
      (recv_then (pod-RoundTrips 8) _ host_id rest h.1 refl))
client_msg_roundtrip (copy from to) rest h = simp append_assoc (
    recv_then dentries-RoundTrips _ from _ h.0
      (recv_then (pair-RoundTrips (pod-RoundTrips 8) string-RoundTrips) _ to rest h.1 refl))

pub client_msg_type_fits : (m : ClientMsg) → client_msg_type m < 256
unfolding client_msg_type
client_msg_type_fits m = ground arith

connect_browser-Shrinks : Shrinks recv_connect_browser
unfolding recv_connect_browser
connect_browser-Shrinks =
    Shrinks-bind (recv_pod 8) _ (recv_pod-Shrinks 8)
      λ a. Shrinks-bind (recv_pod 8) _ (recv_pod-Shrinks 8) λ b. Shrinks-pure _

copy-Shrinks : Shrinks recv_copy
unfolding recv_copy
copy-Shrinks = Shrinks-bind recv_dentries _ dentries-Shrinks λ a.
    Shrinks-bind (recv_pair (recv_pod 8) recv_string) _
      (pair-Shrinks (recv_pod 8) recv_string (recv_pod-Shrinks 8) recv_string-Shrinks)
      λ b. Shrinks-pure _

pub client_msg-Shrinks : (type : ℕ) → Shrinks (recv_client_msg type)
unfolding recv_client_msg
client_msg-Shrinks type =
    Shrinks-if (type == 0) _ _ (Shrinks-bind recv_string _ recv_string-Shrinks λ a. Shrinks-pure _)
      (Shrinks-if (type == 1) _ _ (Shrinks-pure _) (
        Shrinks-if (type == 2) _ _ connect_browser-Shrinks
          (Shrinks-if (type == 3) _ _ copy-Shrinks (Shrinks-pure _))))

-- What `Protocol.Loop` needs to know of these messages.
abbrev pub client_msgs : Protocol ClientMsg
client_msgs = record {
  kind = client_msg_type;
  body = send_client_msg;
  recv_body = recv_client_msg;
  Fits = FitsClientMsg;
  kind_fits = client_msg_type_fits;
  body_roundtrip = client_msg_roundtrip;
  recv_body-Shrinks = client_msg-Shrinks;
}
