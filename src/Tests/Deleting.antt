-- ===== src/Tests/Deleting.antt =====
-- A deletion on a file system that removes nothing (src/client.cpp).
use remy.Base.{ℕ, ◌+◌, ◌%◌, ◌^◌, ◌≡◌, false, [], ◌∷◌, none, some}
use remy.Wire.{RemoteDentries}
use remy.Protocol.Browser.{delete_response}
use remy.Utils.Duration.{codes}
use remy.Client.{FileSystem, delete_result, handle_delete}
use remy.Client.Deletion.{removals, sum, errors, handle_delete_lem}

-- Its state is the number of calls.
abbrev read_only : FileSystem ℕ
read_only = record {
  remove_all = λ path n. ((18446744073709551615, some (codes "read-only")), n + 1);
  create_directory = λ path n. ((false, some (codes "read-only")), n + 1);
  list_directory = λ path n. none;
  current_path = codes "/";
}

abbrev doomed : RemoteDentries
doomed = record { id = 0; basedir = codes "/"; dentries = codes "a" ∷ codes "b" ∷ [] }

handle_delete_lem_example :
    let (results, t) = removals read_only (codes "/") (codes "a" ∷ codes "b" ∷ []) 0 in
    handle_delete read_only doomed 0 ≡ (
      delete_response (
          delete_result read_only (
            sum read_only results % 2 ^ 64,
            errors read_only (codes "a" ∷ codes "b" ∷ []) results,
          )),
      t,
    )
handle_delete_lem_example = handle_delete_lem read_only doomed 0
