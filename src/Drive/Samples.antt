-- ===== src/Drive/Samples.antt =====
-- Runs of the store of files.
use faisalaffan_design_syste.Base.{
  ℕ, zero, suc, String, ◌≡◌, refl, some, List, [], ◌∷◌, length, none-ne-some, nat_key, string_key,
  lookup, insert, remove, str_append,
}
use faisalaffan_design_syste.Drive.{
  File, new_store, Call, create, update, delete, make_folder, share, perform, perform_all,
  update_file, get_file_versions, get_file_content, get_folder_children, children_of, link,
  create_file, update_found, delete_file, delete_found, create_folder, share_file, share_found,
}
use faisalaffan_design_syste.Drive.History.{HasHistory, perform_all-IsVersioned}

abbrev digits : ℕ → String
digits zero = "0"
digits (suc n) = str_append "1" (digits n)

abbrev calls : List Call
calls =
    make_folder "docs" "" "ana" 1
    ∷ create "a.txt" "text" "folder_10" "ana" (104 ∷ 105 ∷ []) 2
    ∷ update "file_110" (1 ∷ []) 3
    ∷ share "file_110" "bob" "read"
    ∷ create "b.txt" "text" "folder_10" "ana" [] 4
    ∷ delete "file_1110"
    ∷ []

read_back : get_file_content "file_110" (perform_all digits calls new_store) ≡ some (1 ∷ [])
unfolding perform_all perform create_file update_file update_found delete_file delete_found
    create_folder share_file share_found link get_file_content get_file_versions insert lookup
    remove
read_back = refl

one_child : length (get_folder_children "folder_10" (perform_all digits calls new_store)) ≡ 1
unfolding perform_all perform create_file update_file update_found delete_file delete_found
    create_folder share_file share_found link get_folder_children children_of insert lookup remove
one_child = refl

abbrev shared_file : File
shared_file = record {
  id = "file_110";
  name = "a.txt";
  mime_type = "text";
  size = 1;
  parent_id = "folder_10";
  owner_id = "ana";
  shared_with = ("bob", "read") ∷ [];
  created_at = 2;
  updated_at = 3;
}

perform_all-IsVersioned_example :
    HasHistory shared_file (lookup "file_110" (perform_all digits calls new_store).file_data)
unfolding perform_all perform create_file update_file update_found delete_file delete_found
    create_folder share_file share_found link insert lookup remove
perform_all-IsVersioned_example =
    perform_all-IsVersioned digits calls new_store (λ id f e. absurd (none-ne-some e)) "file_110"
      shared_file refl
