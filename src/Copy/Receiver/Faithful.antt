-- ===== src/Copy/Receiver/Faithful.antt =====
-- What the receiver rebuilds from what the sender wrote.
use remy.Base.{
  ℕ, zero, suc, ◌+◌, ◌-◌, ◌^◌, ◌≤◌, ◌<◌, ◌≡◌, refl, ap, sym, ◌∙◌, subst, Bool, true, false, List,
  [], ◌∷◌, ◌++◌, append_assoc, some, arith, leb, le→leb, if◌then◌else◌, length, take, drop,
  take-append-drop, length-take, length-drop, min, Bool-cases, inl, inr, All,
}
use remy.Wire.{Text}
use remy.Serde.Bytes.{
  Bytes, pure, async_read, async_read_append, send_pod, pod-RoundTrips, read_then, recv_then,
}
use remy.Serde.Containers.{send_string, string-RoundTrips}
use remy.Serde.Structs.{send_metainfo, metainfo-RoundTrips}
use remy.Copy.Files.{
  SourceFile, FsOp, write_file, create_symlink, create_directory, apply_attrs, join_path, is_reg,
  is_lnk, is_dir, buf_size, IsSteady,
}
use remy.Copy.Sender.{
  total_size-lt, send_payload, send_file, send_files, send_copy, total_size, prepend,
}
use remy.Copy.Sender.Loop.{send_content_lem}
use remy.Copy.Receiver.{recv_content, recv_payload, recv_file, recv_files, recv_copy}

-- The operations that rebuild a file under the destination's directory.
abbrev pub payload_ops : Text → SourceFile → List FsOp
payload_ops path f =
    if is_reg f.meta.mode
    then write_file path f.content ∷ []
    else if is_lnk f.meta.mode
    then create_symlink f.target path ∷ []
    else if is_dir f.meta.mode
    then create_directory path ∷ []
    else []

abbrev pub rebuild : Text → List SourceFile → List FsOp
rebuild base [] = []
rebuild base (f ∷ fs) =
    (payload_ops (join_path base f.rel_path) f
      ++ apply_attrs (join_path base f.rel_path) f.meta ∷ [])
    ++ rebuild base fs

-- A read of a part of what is there.
read_part :
    (n : ℕ) (xs rest : Bytes)
    → n ≤ length xs
    → async_read n (xs ++ rest) ≡ some (take n xs, drop n xs ++ rest)
read_part n xs rest h =
    ap (λ (bs : Bytes). async_read n (bs ++ rest)) (sym (take-append-drop n xs))
    ∙ rw append_assoc (
        subst
          (λ k.
            async_read k (take n xs ++ (drop n xs ++ rest)) ≡ some (take n xs, drop n xs ++ rest))
          (length-part n xs h) (async_read_append (take n xs) (drop n xs ++ rest)))
  where
    length-part : (n : ℕ) (xs : Bytes) → n ≤ length xs → length (take n xs) ≡ n
    length-part n xs h = omega (arith, length-take n xs)

-- The receiver's loop takes the content off the front, in pieces of the size of its buffer.
recv_content_lem :
    (fuel size progress : ℕ) (content rest : Bytes)
    → progress + length content ≡ size
    → length content ≤ fuel
    → recv_content fuel size progress (content ++ rest) ≡ some (content, rest)
unfolding recv_content
recv_content_lem zero size progress [] rest e h = rw (le→leb size progress (omega arith))
recv_content_lem zero size progress (b ∷ content) rest e h = absurd (omega arith)
recv_content_lem (suc fuel) size progress [] rest e h = rw (le→leb size progress (omega arith))
recv_content_lem (suc fuel) size progress (b ∷ content) rest e h =
    let all = b ∷ content in
    let wanted = min buf_size (size - progress) in
    rw (unfinished size progress (omega arith)) (
      read_then (async_read wanted) _ (read_part wanted all rest (omega arith)) (
        read_then (recv_content fuel size (progress + wanted)) _
          (recv_content_lem fuel size (progress + wanted) (drop wanted all) rest
            (omega (arith, length-drop wanted all)) (omega (arith, length-drop wanted all)))
          (ap (λ (c : Bytes). some (c, rest)) (take-append-drop wanted all))))
  where
    unfinished : (size progress : ℕ) → progress < size → leb size progress ≡ false
    unfinished size progress h = ground arith

payload_received :
    (path : Text) (f : SourceFile) (rest : Bytes)
    → IsSteady f
    → (bs : Bytes) × (send_payload f ≡ some bs)
      × (recv_payload path f.meta (bs ++ rest) ≡ some (payload_ops path f, rest))
unfolding send_payload recv_payload
payload_received path f rest steady = elim (Bool-cases (is_reg f.meta.mode)) [
  | inl reg ↦ (
    f.content,
    rw reg (
        rw (← steady.same_size reg) (
          send_content_lem (length f.content) (length f.content) 0 f.content (omega arith)
            (omega arith))),
    rw reg (
        read_then (recv_content f.meta.size f.meta.size 0) _
          (recv_content_lem f.meta.size f.meta.size 0 f.content rest
            (omega (arith, steady.same_size reg)) (omega (arith, steady.same_size reg)))
          refl),
  )
  | inr other ↦ elim (Bool-cases (is_lnk f.meta.mode)) [
    | inl link ↦ (
      send_string f.target,
      rw other (rw link),
      rw other (rw link (recv_then string-RoundTrips _ f.target rest steady.target_fits refl)),
    )
    | inr plain ↦ ([], rw other (rw plain), rw other (rw plain (no_payload (is_dir f.meta.mode))))
  ]
]
  where
    no_payload :
        (dir : Bool)
        → (if dir then pure (create_directory path ∷ []) else pure []) rest
          ≡ some (if dir then create_directory path ∷ [] else [], rest)
    no_payload true = refl
    no_payload false = refl

file_received :
    (base : Text) (f : SourceFile) (rest : Bytes)
    → IsSteady f
    → (bs : Bytes) × (send_file f ≡ some bs)
      × (recv_file base (bs ++ rest)
          ≡ some (
            payload_ops (join_path base f.rel_path) f
                ++ apply_attrs (join_path base f.rel_path) f.meta ∷ [],
            rest,
          ))
unfolding send_file recv_file
file_received base f rest steady =
    let (bs, sent, received) = payload_received (join_path base f.rel_path) f rest steady in
    (
      (send_metainfo f.meta ++ send_string f.rel_path) ++ bs,
      ap (prepend (send_metainfo f.meta ++ send_string f.rel_path)) sent,
      simp append_assoc (
          recv_then metainfo-RoundTrips _ f.meta _ steady.fits (
            recv_then string-RoundTrips _ f.rel_path _ steady.path_fits
              (read_then (recv_payload (join_path base f.rel_path) f.meta) _ received refl))),
    )

files_received :
    (base : Text) (fs : List SourceFile) (rest : Bytes)
    → All IsSteady fs
    → (bs : Bytes) × (send_files fs ≡ some bs)
      × (recv_files base (length fs) (bs ++ rest) ≡ some (rebuild base fs, rest))
unfolding send_files recv_files
files_received base [] rest steady = ([], refl, refl)
files_received base (f ∷ fs) rest (steady, others) =
    let (cs, sent_others, received_others) = files_received base fs rest others in
    let (bs, sent, received) = file_received base f (cs ++ rest) steady in
    (
      bs ++ cs,
      rw (sent, send_files) (ap (prepend bs) sent_others),
      rw append_assoc (
          read_then (recv_file base) _ received
            (read_then (recv_files base (length fs)) _ received_others refl)),
    )

-- If no file changes while it is sent, and there are fewer than 2 ^ 64 files, the sender ends, and
-- the receiver makes of its bytes exactly the files: each regular file with its content, each link
-- with its target, each directory, in order, each followed by its attributes, under the path in the
-- destination's directory.
pub copy_received :
    (base : Text) (fs : List SourceFile) (rest : Bytes)
    → All IsSteady fs
    → length fs < 2 ^ 64
    → (bs : Bytes) × (send_copy fs ≡ some bs)
      × (recv_copy base (bs ++ rest) ≡ some (rebuild base fs, rest))
unfolding send_copy recv_copy
copy_received base fs rest steady few =
    let (bs, sent, received) = files_received base fs rest steady in
    (
      (send_pod 8 (length fs) ++ send_pod 8 (total_size fs)) ++ bs,
      ap (prepend (send_pod 8 (length fs) ++ send_pod 8 (total_size fs))) sent,
      simp append_assoc (
          recv_then (pod-RoundTrips 8) _ (length fs) _ few
            (recv_then (pod-RoundTrips 8) _ (total_size fs) _ (total_size-lt fs) received)),
    )
