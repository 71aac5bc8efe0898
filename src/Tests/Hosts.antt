-- ===== src/Tests/Hosts.antt =====
-- A browsed host (src/client.cpp) that is asked to make a directory, and to list one.
use remy.Base.{◌≡◌, refl, ℕ, ◌+◌, true, false, [], ◌∷◌, none, some, arith}
use remy.Serde.Bytes.{recv_pod, send_pod, bytes_le, from_le, async_read}
use remy.Serde.Containers.{send_string, recv_string}
use remy.Protocol.Loop.{read_loop, closed, send_message}
use remy.Protocol.Browser.{
  mkdir, get_dents, mkdir_response, host_msgs, recv_reader_msg, send_reader_msg, reader_msg_type,
}
use remy.Utils.Duration.{codes}
use remy.Client.{FileSystem, handle_mkdir, mkdir_result}
use remy.Client.Host.{
  Host, running, threw, new_host, ask, handle, answer, recv_request, asks, closes, reads,
  hands_over, offer, hand_over, answer_bytes, answer_fails, Reach, here, next, has_ended,
}
use remy.Client.Host.Answers.{every_answer}
use remy.Client.Host.Stuck.{unwritten_answer_hangs}

-- Its state is the number of directories that were made.
abbrev makes_all : FileSystem ℕ
makes_all = record {
  remove_all = λ path n. ((0, none), n);
  create_directory = λ path n. ((true, none), n + 1);
  list_directory = λ path n. none;
  current_path = codes "/";
}

abbrev asked : Host ℕ
asked = ask (mkdir (codes "/") (codes "a")) (new_host 0)

abbrev was_asked : Reach makes_all (new_host 0) asked
was_asked = next here (asks (mkdir (codes "/") (codes "a")) refl (omega arith, omega arith) refl)

every_answer_example :
    (k : Host ℕ) × Reach makes_all asked k
    × (k.sent ≡ mkdir (codes "/") (codes "a") ∷ [])
    × (k.peer_open ≡ true)
    × (k.files ≡ 1)
    × (read_loop host_msgs 2 k.written
        ≡ (some (mkdir_response (codes "Directory 'a' created successfully.")) ∷ [], closed))
unfolding handle handle_mkdir mkdir_result
every_answer_example = every_answer makes_all 2 was_asked refl refl (omega arith, tt) (omega arith)

-- The host when it has answered.
abbrev made : Host ℕ
made =
    let m = mkdir (codes "/") (codes "a") in
    let taken = hand_over m (offer (some m) [] asked) in
    answer makes_all m (answer_bytes makes_all m 0) running taken

-- The answer to the first request is being written when the peer goes, and the second one waits.
abbrev busy : Host ℕ
busy = record (new_host 0) {
  peer_open = false;
  sent = get_dents [] ∷ get_dents [] ∷ [];
  offered = some (get_dents []);
  taken = some (get_dents []);
}

is_busy : Reach makes_all (new_host 0) busy
unfolding recv_request recv_reader_msg recv_pod async_read from_le send_message send_reader_msg
    reader_msg_type send_pod bytes_le send_string recv_string
is_busy =
    next
      (next
        (next
          (next
            (next (next here (asks (get_dents []) refl (omega arith) refl))
              (asks (get_dents []) refl (omega arith) refl))
            (reads (some (get_dents [])) _ refl refl refl refl))
          (hands_over (get_dents []) refl refl refl refl refl))
        (reads (some (get_dents [])) _ refl refl refl refl))
      (closes refl)

abbrev cut_off : Host ℕ
cut_off = answer makes_all (get_dents []) [] threw busy

unwritten_answer_hangs_example :
    (cut_off.incoming ≡ running)
    × (cut_off.offered ≡ some (get_dents []))
    × (has_ended cut_off ≡ false)
unwritten_answer_hangs_example =
    unwritten_answer_hangs makes_all {h = busy} {k = cut_off}
      (answer_fails (get_dents []) 0 refl refl refl refl refl) refl refl refl here
