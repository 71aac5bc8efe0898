-- ===== src/Client/Deletion.antt =====
-- What a deletion reports (src/client.cpp, `BrowserHost::incoming_msg`).
use remy.Base.{
  ℕ, ◌+◌, ◌%◌, ◌^◌, ◌<◌, ◌≡◌, refl, ap, sym, ◌∙◌, List, [], ◌∷◌, ◌++◌, append_assoc, append-nil,
  Option, some, arith,
}
use remy.Wire.{Text, RemoteDentries}
use remy.Protocol.Browser.{delete_response}
use remy.Copy.Files.{join_path}
use remy.Utils.Duration.{codes, decimal}
use remy.Client.{FileSystem, error_line, delete_each, delete_result, handle_delete}

same_report {ℓ} :
    {S : Type ℓ} (n m : ℕ) (a b : Text) (u : S)
    → n ≡ m
    → a ≡ b
    → ◌≡◌ {A = (ℕ × Text) × S} ((n, a), u) ((m, b), u)
same_report n m a b u p q = rw (p, q) refl

module _ {S : Type 0} (fs : FileSystem S) where
  -- The results of the calls of `remove_all`, one for each entry in its turn, and the last state.
  abbrev pub removals : Text → List Text → S → List (ℕ × Option Text) × S
  removals base [] s = ([], s)
  removals base (name ∷ names) s =
      let (result, t) = fs.remove_all (join_path base name) s in
      let (others, u) = removals base names t in (result ∷ others, u)

  abbrev pub sum : List (ℕ × Option Text) → ℕ
  sum [] = 0
  sum ((removed, ec) ∷ results) = removed + sum results

  abbrev pub errors : List Text → List (ℕ × Option Text) → Text
  errors (name ∷ names) ((removed, ec) ∷ results) = error_line fs name ec ++ errors names results
  errors names results = []

  delete_each_lem :
      (base : Text) (names : List Text) (count : ℕ) (msg : Text) (s : S)
      → count < 2 ^ 64
      → delete_each fs base names (count, msg) s ≡ (
        (
          (count + sum (removals base names s).0) % 2 ^ 64,
          msg ++ errors names (removals base names s).0,
        ),
        (removals base names s).1,
      )
  unfolding delete_each
  delete_each_lem base [] count msg s fits =
      same_report count ((count + 0) % 2 ^ 64) msg (msg ++ []) s (omega (arith, fits))
        (sym (append-nil msg))
  delete_each_lem base (name ∷ names) count msg s fits =
      let ((removed, ec), t) = fs.remove_all (join_path base name) s in
      let (results, u) = removals base names t in
      let line = error_line fs name ec in
      delete_each_lem base names ((count + removed) % 2 ^ 64) (msg ++ line) t (omega arith)
      ∙ same_report _ ((count + (removed + sum results)) % 2 ^ 64) _
          (msg ++ (line ++ errors names results)) u (omega arith)
          (append_assoc msg line (errors names results))

  -- Every entry is passed to `remove_all`, once and in order, also behind one that failed; the
  -- answer has the sum of what the calls returned, as 64 bits, and a line for each call that
  -- failed.
  pub handle_delete_lem :
      (entries : RemoteDentries) (s : S)
      → let (results, t) = removals entries.basedir entries.dentries s in
        handle_delete fs entries s ≡ (
          delete_response
              (delete_result fs (sum results % 2 ^ 64, errors entries.dentries results)),
          t,
        )
  unfolding handle_delete
  handle_delete_lem entries s =
      let (results, t) = removals entries.basedir entries.dentries s in
      let messages = errors entries.dentries results in
      ap (λ (r : (ℕ × Text) × S). (delete_response (delete_result fs r.0), r.1))
        (delete_each_lem entries.basedir entries.dentries 0 [] s (omega arith)
          ∙ same_report ((0 + sum results) % 2 ^ 64) (sum results % 2 ^ 64) messages messages t
              (omega arith) refl)

  -- On an error `remove_all` returns the largest number, which is added to the count: an entry that
  -- could not be removed is reported as 18446744073709551615 removed items.
  failed_deletion :
      (id : ℕ) (base name message : Text) (s t : S)
      → fs.remove_all (join_path base name) s ≡ ((18446744073709551615, some message), t)
      → handle_delete fs (record { id = id; basedir = base; dentries = name ∷ [] }) s ≡ (
        delete_response (
            codes "Removed 18446744073709551615 items. Errors:\n" ++ name ++ codes ": " ++ message),
        t,
      )
  unfolding handle_delete delete_each delete_result decimal
  failed_deletion id base name message s t failed = rw failed refl
