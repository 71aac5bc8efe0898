-- ===== src/Server/Channels/Announce.antt =====
-- The hello of a new connection, as src/client.cpp sends it and src/server.cpp reads it.
use remy.Base.{ℕ, ◌^◌, ◌≤◌, ◌<◌, ◌≡◌, refl, ◌++◌, append_assoc, some, arith}
use remy.Serde.Bytes.{Bytes, send_pod, pod-RoundTrips}
use remy.Server.Channels.{
  Hello, control_conn, browser_conn, copy_conn, other_conn, send_hello, recv_token, recv_hello,
}

abbrev pub FitsHello : Hello → Type 0
FitsHello control_conn = Unit {0}
FitsHello (browser_conn token) = token < 2 ^ 64
FitsHello (copy_conn token) = token < 2 ^ 64
FitsHello (other_conn type) = (3 ≤ type) × (type < 256)

token_read :
    (conn : ℕ → Hello) (token : ℕ) (rest : Bytes)
    → token < 2 ^ 64
    → recv_token conn (send_pod 8 token ++ rest) ≡ some (conn token, rest)
unfolding recv_token
token_read conn token rest h = rw ((pod-RoundTrips 8).at token rest (omega arith), recv_token) refl

-- The server reads what a peer announces, whatever follows it on the connection: a Control
-- connection, a Browser or Copy connection with its token, or a byte of another kind.
pub recv_hello-send_hello :
    (hello : Hello) (rest : Bytes)
    → FitsHello hello
    → recv_hello (send_hello hello ++ rest) ≡ some (hello, rest)
unfolding send_hello recv_hello
recv_hello-send_hello control_conn rest h =
    rw ((pod-RoundTrips 1).at 0 rest (omega arith), recv_hello) refl
recv_hello-send_hello (browser_conn token) rest h =
    rw (append_assoc (send_pod 1 1) (send_pod 8 token) rest) (
      rw ((pod-RoundTrips 1).at 1 (send_pod 8 token ++ rest) (omega arith), recv_hello)
        (token_read browser_conn token rest h))
recv_hello-send_hello (copy_conn token) rest h =
    rw (append_assoc (send_pod 1 2) (send_pod 8 token) rest) (
      rw ((pod-RoundTrips 1).at 2 (send_pod 8 token ++ rest) (omega arith), recv_hello)
        (token_read copy_conn token rest h))
recv_hello-send_hello (other_conn type) rest (low, high) =
    rw ((pod-RoundTrips 1).at type rest (omega arith), recv_hello) (ground arith)
