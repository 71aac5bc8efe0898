-- ===== src/Serde/Shrinks.antt =====
-- A read never lengthens what is left on the socket, so that a loop of reads ends. The rules follow
-- the `do` blocks, and `search` applies them.
use remy.Base.{
  ℕ, zero, suc, ◌≤◌, ◌≡◌, Bool, true, false, [], none, some, arith, if◌then◌else◌, ◌==◌, length,
  length-drop, Option-cases, inl, inr,
}
use remy.Serde.Bytes.{Bytes, Recv, ◌>>=◌, pure, async_read, recv_pod}
use remy.Serde.Containers.{recv_string, recv_pair, recv_items, recv_vector, recv_optional}
use remy.Serde.Structs.{recv_timestamp, recv_metainfo, recv_dentry, recv_dentries, recv_watcher}

pub record Shrinks {ℓ} {A : Type ℓ} (recv : Recv A) : Type ℓ where
  pub at : (bs rest : Bytes) (a : A) → recv bs ≡ some (a, rest) → length rest ≤ length bs

module _ {ℓ} {A : Type ℓ} where
  pub Shrinks-pure : (a : A) → Shrinks (pure a)
  Shrinks-pure a = record { at = λ bs rest b e. ground arith }

  pub Shrinks-if : (b : Bool) (m n : Recv A) → Shrinks m → Shrinks n → Shrinks (if b then m else n)
  Shrinks-if true m n hm hn = hm
  Shrinks-if false m n hm hn = hn

  pub Shrinks-bind {κ} :
      {B : Type κ} (m : Recv B) (f : B → Recv A)
      → Shrinks m
      → ((b : B) → Shrinks (f b))
      → Shrinks (m >>= f)
  Shrinks-bind m f hm hf = record { at = at }
    where
      at : (bs rest : Bytes) (a : A) → (m >>= f) bs ≡ some (a, rest) → length rest ≤ length bs
      at bs rest a e = elim (Option-cases (m bs)) [
        | inl failed ↦ absurd (ground (arith, failed))
        | inr ((b, mid), read) ↦
            omega (arith, hm.at bs mid b read, (hf b).at mid rest a (ground (arith, read)))
      ]

pub async_read-Shrinks : (n : ℕ) → Shrinks (async_read n)
unfolding async_read
async_read-Shrinks n = record { at = λ bs rest b e. ground (arith, length-drop n bs) }

pub recv_pod-Shrinks : (w : ℕ) → Shrinks (recv_pod w)
unfolding recv_pod
recv_pod-Shrinks w = Shrinks-bind (async_read w) _ (async_read-Shrinks w) λ bs. Shrinks-pure _

read_byte_shrinks :
    (bs rest a : Bytes) → async_read 1 bs ≡ some (a, rest) → suc (length rest) ≤ length bs
unfolding async_read
read_byte_shrinks bs rest a e = ground (arith, length-drop 1 bs)

-- A read of one byte takes it.
pub recv_byte_shrinks :
    (bs rest : Bytes) (k : ℕ) → recv_pod 1 bs ≡ some (k, rest) → suc (length rest) ≤ length bs
unfolding recv_pod
recv_byte_shrinks bs rest k e = elim (Option-cases (async_read 1 bs)) [
  | inl failed ↦ absurd (ground (arith, failed))
  | inr ((a, mid), read) ↦ omega (arith, read_byte_shrinks bs mid a read, same a mid read)
]
  where
    same : (a mid : Bytes) → async_read 1 bs ≡ some (a, mid) → length rest ≡ length mid
    same a mid read = ground arith

pub recv_string-Shrinks : Shrinks recv_string
unfolding recv_string
recv_string-Shrinks = Shrinks-bind (recv_pod 8) _ (recv_pod-Shrinks 8) async_read-Shrinks

module _ {ℓ} {A : Type ℓ} (recv : Recv A) (item : Shrinks recv) where
  items-Shrinks : (n : ℕ) → Shrinks (recv_items recv n)
  unfolding recv_items
  items-Shrinks zero = Shrinks-pure []
  items-Shrinks (suc n) =
      Shrinks-bind recv _ item
        λ x. Shrinks-bind (recv_items recv n) _ (items-Shrinks n) λ xs. Shrinks-pure _

  pub vector-Shrinks : Shrinks (recv_vector recv)
  unfolding recv_vector
  vector-Shrinks = Shrinks-bind (recv_pod 8) _ (recv_pod-Shrinks 8) items-Shrinks

  pub optional-Shrinks : Shrinks (recv_optional recv)
  unfolding recv_optional
  optional-Shrinks = Shrinks-bind (recv_pod 1) _ (recv_pod-Shrinks 1) λ k.
      Shrinks-if (k == 0) _ _ (Shrinks-pure none) (Shrinks-bind recv _ item λ a. Shrinks-pure _)

pub pair-Shrinks {ℓ κ} :
    {A : Type ℓ} {B : Type κ} (first : Recv A) (second : Recv B)
    → Shrinks first
    → Shrinks second
    → Shrinks (recv_pair first second)
unfolding recv_pair
pair-Shrinks first second hf hs =
    Shrinks-bind first _ hf λ a. Shrinks-bind second _ hs λ b. Shrinks-pure _

timestamp-Shrinks : Shrinks recv_timestamp
unfolding recv_timestamp
timestamp-Shrinks = Shrinks-bind (recv_pod 8) _ (recv_pod-Shrinks 8) λ a.
    Shrinks-bind (recv_pod 4) _ (recv_pod-Shrinks 4)
      λ b. Shrinks-bind (recv_pod 4) _ (recv_pod-Shrinks 4) λ c. Shrinks-pure _

pub metainfo-Shrinks : Shrinks recv_metainfo
unfolding recv_metainfo
metainfo-Shrinks = Shrinks-bind (recv_pod 8) _ (recv_pod-Shrinks 8) λ a.
    Shrinks-bind (recv_pod 4) _ (recv_pod-Shrinks 4) λ b.
      Shrinks-bind (recv_pod 4) _ (recv_pod-Shrinks 4) λ c.
        Shrinks-bind (recv_pod 2) _ (recv_pod-Shrinks 2) λ d.
          Shrinks-bind (recv_pod 6) _ (recv_pod-Shrinks 6) λ e.
            Shrinks-bind recv_timestamp _ timestamp-Shrinks
              λ f. Shrinks-bind recv_timestamp _ timestamp-Shrinks λ g. Shrinks-pure _

pub dentry-Shrinks : Shrinks recv_dentry
unfolding recv_dentry
dentry-Shrinks =
    Shrinks-bind recv_string _ recv_string-Shrinks
      λ a. Shrinks-bind recv_metainfo _ metainfo-Shrinks λ b. Shrinks-pure _

pub dentries-Shrinks : Shrinks recv_dentries
unfolding recv_dentries
dentries-Shrinks = Shrinks-bind (recv_pod 8) _ (recv_pod-Shrinks 8) λ a.
    Shrinks-bind recv_string _ recv_string-Shrinks λ b.
      Shrinks-bind (recv_vector recv_string) _ (vector-Shrinks recv_string recv_string-Shrinks)
        λ c. Shrinks-pure _

pub watcher-Shrinks : Shrinks recv_watcher
unfolding recv_watcher
watcher-Shrinks = Shrinks-bind (recv_pod 8) _ (recv_pod-Shrinks 8) λ a.
    Shrinks-bind (recv_pod 8) _ (recv_pod-Shrinks 8) λ b.
      Shrinks-bind (recv_pod 8) _ (recv_pod-Shrinks 8) λ c.
        Shrinks-bind (recv_pod 8) _ (recv_pod-Shrinks 8) λ d.
          Shrinks-bind (recv_pod 8) _ (recv_pod-Shrinks 8) λ e.
            Shrinks-bind (recv_pod 8) _ (recv_pod-Shrinks 8) λ f.
              Shrinks-bind recv_string _ recv_string-Shrinks
                λ g. Shrinks-bind (recv_pod 8) _ (recv_pod-Shrinks 8) λ h. Shrinks-pure _
