-- ===== src/Copy/Sender/Loop.antt =====
-- What the sender's loop sends, by the length of the file at that time against the size that was
-- announced.
use remy.Base.{
  ℕ, zero, suc, ◌+◌, ◌≤◌, ◌<◌, ◌≡◌, ap, ◌∙◌, false, [], ◌∷◌, ◌++◌, none, some, arith, leb, le→leb,
  length, take, drop, take-append-drop, length-take, length-drop, append-nil, Bool-cases, inl, inr,
  leb→le,
}
use remy.Serde.Bytes.{Bytes}
use remy.Copy.Files.{buf_size}
use remy.Copy.Sender.{send_content, prepend}

taken :
    (content : Bytes)
    → length (take buf_size content) + length (drop buf_size content) ≡ length content
taken content = omega (arith, length-take buf_size content, length-drop buf_size content)

-- A file of the announced size is sent as it is, and the loop ends: with fuel for each byte left.
pub send_content_lem :
    (fuel size progress : ℕ) (content : Bytes)
    → progress + length content ≡ size
    → length content ≤ fuel
    → send_content fuel size progress content ≡ some content
unfolding send_content
send_content_lem zero size progress [] e h = rw (le→leb size progress (omega arith))
send_content_lem zero size progress (b ∷ content) e h = absurd (omega arith)
send_content_lem (suc fuel) size progress [] e h = rw (le→leb size progress (omega arith))
send_content_lem (suc fuel) size progress (b ∷ content) e h =
    elim (Bool-cases (leb size progress)) [
      | inl done ↦ absurd (omega (arith, leb→le size progress done))
      | inr more ↦ rw more (
          ap (prepend (take buf_size (b ∷ content))) (
            send_content_lem fuel size (progress + length (take buf_size (b ∷ content)))
              (drop buf_size (b ∷ content)) (omega (arith, taken (b ∷ content)))
              (omega (arith, taken (b ∷ content), length-drop buf_size (b ∷ content))))
          ∙ ap some (take-append-drop buf_size (b ∷ content)))
    ]

-- A file that has become shorter than announced is never finished: at its end each read gives no
-- bytes, and no amount of fuel is enough.
pub send_content_short :
    (fuel size progress : ℕ) (content : Bytes)
    → progress + length content < size
    → send_content fuel size progress content ≡ none
unfolding send_content
send_content_short zero size progress content h = ground arith
send_content_short (suc fuel) size progress content h = elim (Bool-cases (leb size progress)) [
  | inl done ↦ absurd (omega (arith, leb→le size progress done))
  | inr more ↦ rw more (
      ap (prepend (take buf_size content)) (
        send_content_short fuel size (progress + length (take buf_size content))
          (drop buf_size content) (omega (arith, taken content))))
]

-- A file that has become longer than announced, and was announced to fit the buffer: the sender
-- writes more bytes than the receiver expects, which takes the rest for the next file's metadata.
send_content_long :
    (fuel size : ℕ) (content : Bytes)
    → 0 < size
    → size < buf_size
    → size < length content
    → 0 < fuel
    → (bs : Bytes) × (send_content fuel size 0 content ≡ some bs) × (size < length bs)
unfolding send_content
send_content_long zero size content pos small long h = absurd (omega arith)
send_content_long (suc fuel) size content pos small long h =
    let chunk = take buf_size content in
    let got : size ≤ length chunk = omega (arith, length-take buf_size content) in
    (
      chunk ++ [],
      rw (size_above_zero size pos) (
          ap (prepend chunk)
            (sent_all fuel size (0 + length chunk) (drop buf_size content) (omega arith))),
      longer,
    )
  where
    size_above_zero : (size : ℕ) → 0 < size → leb size 0 ≡ false
    size_above_zero size pos = ground arith

    sent_all :
        (fuel size progress : ℕ) (content : Bytes)
        → size ≤ progress
        → send_content fuel size progress content ≡ some []
    sent_all zero size progress content h = rw (le→leb size progress h)
    sent_all (suc fuel) size progress content h = rw (le→leb size progress h)

    longer : size < length (take buf_size content ++ [])
    longer = rw append-nil (omega (arith, length-take buf_size content))
