-- ===== src/Tests/Messages.antt =====
-- Messages of each kind, sent and read (src/server.cpp, src/client.cpp).
use remy.Base.{◌≡◌, ◌≢◌, List, [], ◌∷◌, ◌++◌, map, some, arith}
use remy.Wire.{Text}
use remy.Serde.Bytes.{Bytes}
use remy.Protocol.Loop.{
  closed, out_of_fuel, send_messages, read_loop, read_loop-send_messages, read_loop_ends,
}
use remy.Protocol.Control.{
  ServerMsg, client_id, client_name, browser_connected, server_msg_type, send_server_msg,
  recv_server_msg, server_msg_roundtrip, server_msgs,
}

abbrev name : Text
name = b'p' ∷ b'c' ∷ []

abbrev greeting : List ServerMsg
greeting = client_id 3 ∷ client_name name ∷ []

read_loop-send_messages_example :
    read_loop server_msgs 3 (send_messages server_msgs greeting) ≡ (map some greeting, closed)
read_loop-send_messages_example =
    read_loop-send_messages server_msgs 3 greeting (omega arith, (omega arith, tt)) (omega arith)

abbrev cut_short : Bytes
cut_short = 0 ∷ 1 ∷ 2 ∷ []

read_loop_ends_example : (read_loop server_msgs 4 cut_short).1 ≢ out_of_fuel
read_loop_ends_example = read_loop_ends server_msgs 4 cut_short (omega arith)

server_msg_roundtrip_example :
    recv_server_msg
      (server_msg_type (browser_connected 1 (some 2)))
      (send_server_msg (browser_connected 1 (some 2)) ++ 9 ∷ [])
    ≡ some (some (browser_connected 1 (some 2)), 9 ∷ [])
server_msg_roundtrip_example =
    server_msg_roundtrip (browser_connected 1 (some 2)) (9 ∷ []) (omega arith, omega arith)
