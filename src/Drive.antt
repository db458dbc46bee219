-- ===== src/Drive.antt =====
-- services/google-drive/store: the store of files, versions and folders. The maps of pointers are
-- association lists of records, so a method that writes through a pointer returns the store with the
-- record replaced. `itoa` prints a number and the clock is an argument.
pub mod History
mod Samples
use faisalaffan_design_syste.Base.{
  ℕ, ◌+◌, String, Bool, true, false, Option, none, some, List, [], ◌∷◌, ◌++◌, if◌then◌else◌, length,
  ◌==◌, nat_key, string_key, lookup, insert, remove, get_or, str_append,
}

pub record File : Type 0 where
  pub id : String
  pub name : String
  pub mime_type : String
  pub size : ℕ
  pub parent_id : String
  pub owner_id : String
  pub shared_with : List (String × String)
  pub created_at : ℕ
  pub updated_at : ℕ

pub record FileVersion : Type 0 where
  pub version : ℕ
  pub content : List ℕ
  pub size : ℕ
  pub created_at : ℕ

pub record Folder : Type 0 where
  pub id : String
  pub name : String
  pub parent_id : String
  pub owner_id : String
  pub created_at : ℕ

pub record MemoryStore : Type 0 where
  pub files : List (String × File)
  pub file_data : List (String × List FileVersion)
  pub folders : List (String × Folder)
  pub folder_children : List (String × List String)
  pub seq : ℕ

-- What `GetFolderChildren` lists.
pub data Child : Type 0 where
  file : File → Child
  folder : Folder → Child

abbrev pub new_store : MemoryStore
new_store = record { files = []; file_data = []; folders = []; folder_children = []; seq = 0 }

abbrev pub file_id : (ℕ → String) → ℕ → String
file_id itoa n = str_append "file_" (itoa n)

abbrev pub folder_id : (ℕ → String) → ℕ → String
folder_id itoa n = str_append "folder_" (itoa n)

-- `if parentID != ""`, the append to the parent's list.
unfoldable pub link : String → String → List (String × List String) → List (String × List String)
link parent child m =
    if parent == "" then m else insert parent (get_or (lookup parent m) [] ++ child ∷ []) m

abbrev pub first_version : List ℕ → ℕ → FileVersion
first_version content now = record {
  version = 1;
  content = content;
  size = length content;
  created_at = now;
}

-- `CreateFile`
unfoldable pub create_file :
    (ℕ → String) → String → String → String → String → List ℕ → ℕ → MemoryStore → MemoryStore × File
unfolding link
create_file itoa name mime_type parent owner content now s =
    let id = file_id itoa (s.seq + 1) in
    let f : File = record {
      id = id;
      name = name;
      mime_type = mime_type;
      size = length content;
      parent_id = parent;
      owner_id = owner;
      shared_with = [];
      created_at = now;
      updated_at = now;
    } in
    (
      record s {
        seq = s.seq + 1;
        files = insert id f s.files;
        file_data = insert id (first_version content now ∷ []) s.file_data;
        folder_children = link parent id s.folder_children;
      },
      f,
    )

-- `UpdateFile` on the file it has looked up; none is the error, file not found.
unfoldable pub update_found :
    String → List ℕ → ℕ → Option File → MemoryStore → MemoryStore × Option File
update_found id content now none s = (s, none)
update_found id content now (some f) s =
    let versions = get_or (lookup id s.file_data) [] in
    let v : FileVersion = record {
      version = length versions + 1;
      content = content;
      size = length content;
      created_at = now;
    } in
    let f' : File = record f { size = length content; updated_at = now } in
    (
      record s {
        files = insert id f' s.files;
        file_data = insert id (versions ++ v ∷ []) s.file_data;
      },
      some f',
    )

unfoldable pub update_file : String → List ℕ → ℕ → MemoryStore → MemoryStore × Option File
unfolding update_found
update_file id content now s = update_found id content now (lookup id s.files) s

-- `GetFile`
unfoldable pub get_file : String → MemoryStore → Option File
get_file id s = lookup id s.files

-- `versions[len(versions)-1]`
abbrev pub last_version : List FileVersion → Option FileVersion
last_version [] = none
last_version (v ∷ []) = some v
last_version (v ∷ w ∷ vs) = last_version (w ∷ vs)

abbrev pub content_of : Option FileVersion → Option (List ℕ)
content_of none = none
content_of (some v) = some v.content

-- `GetFileVersions`
unfoldable pub get_file_versions : String → MemoryStore → List FileVersion
get_file_versions id s = get_or (lookup id s.file_data) []

-- `GetFileContent`; none is the error.
unfoldable pub get_file_content : String → MemoryStore → Option (List ℕ)
unfolding get_file_versions
get_file_content id s = content_of (last_version (get_file_versions id s))

-- `DeleteFile`; false is the error.
unfoldable pub delete_found : String → Option File → MemoryStore → MemoryStore × Bool
delete_found id none s = (s, false)
delete_found id (some f) s =
    (record s { files = remove id s.files; file_data = remove id s.file_data }, true)

unfoldable pub delete_file : String → MemoryStore → MemoryStore × Bool
unfolding delete_found
delete_file id s = delete_found id (lookup id s.files) s

-- `CreateFolder`
unfoldable pub create_folder :
    (ℕ → String) → String → String → String → ℕ → MemoryStore → MemoryStore × Folder
unfolding link
create_folder itoa name parent owner now s =
    let id = folder_id itoa (s.seq + 1) in
    let f : Folder = record {
      id = id;
      name = name;
      parent_id = parent;
      owner_id = owner;
      created_at = now;
    } in
    (
      record s {
        seq = s.seq + 1;
        folders = insert id f s.folders;
        folder_children = link parent id s.folder_children;
      },
      f,
    )

-- One child id, and the loop of `GetFolderChildren`.
abbrev pub child_of : Option File → Option Folder → List Child → List Child
child_of (some f) g rest = file f ∷ rest
child_of none (some g) rest = folder g ∷ rest
child_of none none rest = rest

unfoldable pub children_of : MemoryStore → List String → List Child
children_of s [] = []
children_of s (id ∷ ids) = child_of (lookup id s.files) (lookup id s.folders) (children_of s ids)

unfoldable pub get_folder_children : String → MemoryStore → List Child
unfolding children_of
get_folder_children id s = children_of s (get_or (lookup id s.folder_children) [])

-- `ShareFile`; false is the error.
unfoldable pub share_found :
    String → String → String → Option File → MemoryStore → MemoryStore × Bool
share_found id user permission none s = (s, false)
share_found id user permission (some f) s = (
  record s {
    files = insert id (record f { shared_with = insert user permission f.shared_with }) s.files;
  },
  true,
)

unfoldable pub share_file : String → String → String → MemoryStore → MemoryStore × Bool
unfolding share_found
share_file id user permission s = share_found id user permission (lookup id s.files) s

-- A call of a method that writes.
pub data Call : Type 0 where
  create : String → String → String → String → List ℕ → ℕ → Call
  update : String → List ℕ → ℕ → Call
  delete : String → Call
  make_folder : String → String → String → ℕ → Call
  share : String → String → String → Call

unfoldable pub perform : (ℕ → String) → Call → MemoryStore → MemoryStore
unfolding create_file update_file delete_file create_folder share_file
perform itoa (create name mime parent owner content now) s =
    (create_file itoa name mime parent owner content now s).0
perform itoa (update id content now) s = (update_file id content now s).0
perform itoa (delete id) s = (delete_file id s).0
perform itoa (make_folder name parent owner now) s = (create_folder itoa name parent owner now s).0
perform itoa (share id user permission) s = (share_file id user permission s).0

unfoldable pub perform_all : (ℕ → String) → List Call → MemoryStore → MemoryStore
unfolding perform
perform_all itoa [] s = s
perform_all itoa (c ∷ cs) s = perform_all itoa cs (perform itoa c s)
