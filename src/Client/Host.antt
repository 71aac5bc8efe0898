-- ===== src/Client/Host.antt =====
-- `BrowserHost` of src/client.cpp from its connection to its end: `incoming_msg || outcoming_msg`.
-- The first reads a request and hands a callback over, the second runs the callbacks and writes the
-- answers. The two coroutines and the peer interleave, so it is a step relation.
pub mod Answers
pub mod Stuck
use remy.Base.{
  ℕ, ◌≡◌, Bool, true, false, not, List, [], ◌∷◌, ◌++◌, Option, none, some, ◌&&◌, ◌||◌, take,
}
use remy.Serde.Bytes.{Bytes, Recv, ◌>>=◌, recv_pod}
use remy.Protocol.Loop.{send_message}
use remy.Protocol.Browser.{
  ReaderMsg, get_dents, delete, mkdir, HostMsg, FitsReaderMsg, recv_reader_msg, reader_msgs,
  host_msgs,
}
use remy.Client.{FileSystem, handle_get_dents, handle_delete, handle_mkdir}

-- The callback of a request: what it does to the files, and what it sends.
unfoldable pub handle : {S : Type 0} → FileSystem S → ReaderMsg → S → HostMsg × S
handle fs (get_dents dir) s = handle_get_dents fs dir s
handle fs (delete entries) s = handle_delete fs entries s
handle fs (mkdir basedir name) s = handle_mkdir fs basedir name s

-- One turn of the loop of `incoming_msg`: the byte of the kind, and the payload of its case.
unfoldable pub recv_request : Recv (Option ReaderMsg)
recv_request = do type ← recv_pod 1; recv_reader_msg type

-- How a coroutine stands: at work, or returned, or ended by an exception.
pub data Run : Type 0 where
  running returned threw : Run

-- `m_send_requests` has no buffer: `offered` waits in `async_send` until `async_receive` takes it.
-- `taken` is the callback that runs. `sent` is all that the peer has asked, `handled` the requests
-- whose callbacks have done their work on the files, `written` the bytes of the answers.
pub record Host (S : Type 0) : Type 0 where
  pub peer_open : Bool
  pub sent : List ReaderMsg
  pub arrived : Bytes
  pub offered : Option ReaderMsg
  pub taken : Option ReaderMsg
  pub handled : List ReaderMsg
  pub files : S
  pub written : Bytes
  pub incoming : Run
  pub outcoming : Run

abbrev pub new_host : {S : Type 0} → S → Host S
new_host files = record {
  peer_open = true;
  sent = [];
  arrived = [];
  offered = none;
  taken = none;
  handled = [];
  files = files;
  written = [];
  incoming = running;
  outcoming = running;
}

-- The peer sends whole requests.
abbrev pub ask : {S : Type 0} → ReaderMsg → Host S → Host S
ask m h = record h { sent = h.sent ++ m ∷ []; arrived = h.arrived ++ send_message reader_msgs m }

abbrev pub offer : {S : Type 0} → Option ReaderMsg → Bytes → Host S → Host S
offer request rest h = record h { arrived = rest; offered = request }

abbrev pub hand_over : {S : Type 0} → ReaderMsg → Host S → Host S
hand_over m h = record h { offered = none; taken = some m }

-- The callback works on the files and then sends. `bs` is what has been written of the answer.
abbrev pub answer : {S : Type 0} → FileSystem S → ReaderMsg → Bytes → Run → Host S → Host S
answer fs m bs run h = record h {
  taken = none;
  handled = h.handled ++ m ∷ [];
  files = (handle fs m h.files).1;
  written = h.written ++ bs;
  outcoming = run;
}

abbrev pub answer_bytes : {S : Type 0} → FileSystem S → ReaderMsg → S → Bytes
answer_bytes fs m files = send_message host_msgs (handle fs m files).0

-- `||` waits for one of the two to return, and cancels the other; an exception of one does not
-- cancel the other.
abbrev pub is_returned : Run → Bool
is_returned returned = true
is_returned run = false

abbrev pub is_running : Run → Bool
is_running running = true
is_running run = false

abbrev pub has_ended : {S : Type 0} → Host S → Bool
has_ended h =
    is_returned h.incoming
    || (is_returned h.outcoming || (not (is_running h.incoming) && not (is_running h.outcoming)))

-- A read ends only with the peer's closing, a write fails only after it. When `incoming_msg` returns,
-- the other coroutine is cancelled, so no step is left to the host.
pub data Step {S : Type 0} (fs : FileSystem S) (h : Host S) (k : Host S) : Type 0 where
  asks : (m : ReaderMsg) → h.peer_open ≡ true → FitsReaderMsg m → k ≡ ask m h → Step fs h k
  closes : k ≡ record h { peer_open = false } → Step fs h k
  reads :
      (request : Option ReaderMsg) (rest : Bytes)
      → h.incoming ≡ running
      → h.offered ≡ none
      → recv_request h.arrived ≡ some (request, rest)
      → k ≡ offer request rest h
      → Step fs h k
  hands_over :
      (m : ReaderMsg)
      → h.incoming ≡ running
      → h.outcoming ≡ running
      → h.offered ≡ some m
      → h.taken ≡ none
      → k ≡ hand_over m h
      → Step fs h k
  answers :
      (m : ReaderMsg)
      → h.incoming ≡ running
      → h.outcoming ≡ running
      → h.taken ≡ some m
      → k ≡ answer fs m (answer_bytes fs m h.files) running h
      → Step fs h k
  answer_fails :
      (m : ReaderMsg) (n : ℕ)
      → h.incoming ≡ running
      → h.outcoming ≡ running
      → h.peer_open ≡ false
      → h.taken ≡ some m
      → k ≡ answer fs m (take n (answer_bytes fs m h.files)) threw h
      → Step fs h k
  incoming_returns :
      h.incoming ≡ running
      → h.offered ≡ none
      → h.peer_open ≡ false
      → h.arrived ≡ []
      → k ≡ record h { incoming = returned }
      → Step fs h k

pub data Reach {S : Type 0} (fs : FileSystem S) (h : Host S) : Host S → Type 0 where
  here : Reach fs h h
  next : {k l : Host S} → Reach fs h k → Step fs k l → Reach fs h l
