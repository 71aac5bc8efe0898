-- ===== src/Copy/Sender.antt =====
-- `CopySender::process` (src/client.cpp).
pub mod Loop
use remy.Base.{
  ◌<◌, arith, ℕ, zero, suc, ◌+◌, ◌%◌, ◌^◌, ◌≡◌, Bool, true, false, List, [], ◌∷◌, ◌++◌, Option,
  none, some, leb, if◌then◌else◌, length, take, drop,
}
use remy.Wire.{Text, FileMetainfo}
use remy.Serde.Bytes.{Bytes, send_pod}
use remy.Serde.Containers.{send_string}
use remy.Serde.Structs.{send_metainfo}
use remy.Copy.Files.{SourceFile, is_reg, is_lnk, buf_size}

abbrev pub prepend : Bytes → Option Bytes → Option Bytes
prepend bs none = none
prepend bs (some more) = some (bs ++ more)

-- for (progress = 0; progress < meta.size;) { read; write; progress += read_size }, on fuel, where
-- `content` is what is left of the file. A read takes as much as the buffer holds. `none` means that
-- the fuel ran out.
unfoldable pub send_content : ℕ → ℕ → ℕ → Bytes → Option Bytes
send_content zero size progress content = if leb size progress then some [] else none
send_content (suc fuel) size progress content =
    let chunk = take buf_size content in
    let more = send_content fuel size (progress + length chunk) (drop buf_size content) in
    if leb size progress then some [] else prepend chunk more

-- A turn for each byte that was announced is enough (`Loop.send_content_lem`).
unfoldable pub send_payload : SourceFile → Option Bytes
send_payload f =
    if is_reg f.meta.mode
    then send_content f.meta.size f.meta.size 0 f.content
    else if is_lnk f.meta.mode
    then some (send_string f.target)
    else some []

unfoldable pub send_file : SourceFile → Option Bytes
send_file f = prepend (send_metainfo f.meta ++ send_string f.rel_path) (send_payload f)

unfoldable pub send_files : List SourceFile → Option Bytes
send_files [] = some []
send_files (f ∷ fs) = elim (send_file f) [ none ↦ none | some bs ↦ prepend bs (send_files fs) ]

-- The sum wraps like a `uint64_t`.
unfoldable pub total_size : List SourceFile → ℕ
total_size [] = 0
total_size (f ∷ fs) = ((if is_reg f.meta.mode then f.meta.size else 0) + total_size fs) % 2 ^ 64

-- All that a sender writes after its `Copy` hello.
unfoldable pub send_copy : List SourceFile → Option Bytes
send_copy fs = prepend (send_pod 8 (length fs) ++ send_pod 8 (total_size fs)) (send_files fs)

pub total_size-lt : (fs : List SourceFile) → total_size fs < 2 ^ 64
unfolding total_size
total_size-lt [] = omega arith
total_size-lt (f ∷ fs) = omega arith
