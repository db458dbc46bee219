-- ===== src/Drive/History.antt =====
-- services/google-drive/store: the versions of a file.
use faisalaffan_design_syste.Base.{
  ℕ, ◌+◌, String, ◌≡◌, refl, sym, ap, ◌∙◌, subst, ◌≢◌, ◌⊎◌, inl, inr, Option, none, some, List, [],
  ◌∷◌, ◌++◌, arith, Bool-cases, length, none-ne-some, ◌==◌, nat_key, string_key, lookup, insert,
  lookup-insert, lookup-remove, lookup-insert_self, lookup-insert_ne, get_or,
}
use faisalaffan_design_syste.Drive.{
  File, FileVersion, MemoryStore, file_id, first_version, create_file, update_found, update_file,
  get_file, last_version, content_of, get_file_versions, get_file_content, delete_found,
  delete_file, create_folder, share_found, share_file, Call, create, update, delete, make_folder,
  share, perform, perform_all,
}

-- Versions that are numbered from `n` on, each with the size of its content.
abbrev pub IsHistory : ℕ → List FileVersion → Type 0
IsHistory n [] = Unit
IsHistory n (v ∷ vs) = (v.version ≡ n) × (v.size ≡ length v.content) × IsHistory (n + 1) vs

IsHistory-append :
    (n : ℕ) (vs : List FileVersion) (v : FileVersion)
    → IsHistory n vs
    → v.version ≡ n + length vs
    → v.size ≡ length v.content
    → IsHistory n (vs ++ v ∷ [])
IsHistory-append n [] v h e e' = (omega (arith, e), e', tt)
IsHistory-append n (w ∷ vs) v h e e' =
    (h.0, h.1, IsHistory-append (n + 1) vs v h.2 (omega (arith, e)) e')

last_version-append :
    (vs : List FileVersion) (v : FileVersion) → last_version (vs ++ v ∷ []) ≡ some v
last_version-append [] v = refl
last_version-append (w ∷ []) v = refl
last_version-append (w ∷ x ∷ vs) v = last_version-append (x ∷ vs) v

-- The versions that are stored for a file: numbered from 1, the last of the file's size.
abbrev pub HasHistory : File → Option (List FileVersion) → Type 0
HasHistory f stored =
    (vs : List FileVersion) × (v : FileVersion) × (stored ≡ some vs)
    × IsHistory 1 vs
    × (last_version vs ≡ some v)
    × (v.size ≡ f.size)

abbrev pub IsVersioned : MemoryStore → Type 0
IsVersioned s =
    (id : String) (f : File) → lookup id s.files ≡ some f → HasHistory f (lookup id s.file_data)

some-inj {ℓ} : {A : Type ℓ} {a b : A} → some a ≡ some b → a ≡ b
some-inj {a = a} e = ap (λ o. get_or o a) e

-- One file and its versions written together.
written :
    (id : String) (f : File) (vs : List FileVersion) (v : FileVersion) (s : MemoryStore)
    → IsVersioned s
    → IsHistory 1 vs
    → last_version vs ≡ some v
    → v.size ≡ f.size
    → (j : String) (g : File) → lookup j (insert id f s.files) ≡ some g
    → HasHistory g (lookup j (insert id vs s.file_data))
written id f vs v s ok h last size j g found = elim (Bool-cases (id == j)) [
  | inl t ↦
      let e : f ≡ g = some-inj (sym (lookup-insert id j f s.files ∙ rw t refl) ∙ found) in
      (vs, v, lookup-insert id j vs s.file_data ∙ rw t refl, h, last, size ∙ ap (λ x. x.size) e)
  | inr t ↦
      let e : lookup j s.files ≡ some g = sym (lookup-insert id j f s.files ∙ rw t refl) ∙ found in
      subst (HasHistory g) (sym (lookup-insert id j vs s.file_data ∙ rw t refl)) (ok j g e)
]

update-IsVersioned :
    (id : String) (content : List ℕ) (now : ℕ) (o : Option File) (s : MemoryStore)
    → lookup id s.files ≡ o
    → IsVersioned s
    → IsVersioned (update_found id content now o s).0
unfolding update_found
update-IsVersioned id content now none s e ok = ok
update-IsVersioned id content now (some f) s e ok =
    let old = ok id f e in
    let versions = get_or (lookup id s.file_data) [] in
    let same : versions ≡ old.0 = ap (λ x. get_or x []) old.2 in
    let v : FileVersion = record {
      version = length versions + 1;
      content = content;
      size = length content;
      created_at = now;
    } in
    written id (record f { size = length content; updated_at = now }) (versions ++ v ∷ []) v s ok
      (IsHistory-append 1 versions v (subst (IsHistory 1) (sym same) old.3) (omega arith) refl)
      (last_version-append versions v) refl

delete-IsVersioned :
    (id : String) (o : Option File) (s : MemoryStore)
    → IsVersioned s
    → IsVersioned (delete_found id o s).0
unfolding delete_found
delete-IsVersioned id none s ok = ok
delete-IsVersioned id (some f) s ok = λ j g found. elim (Bool-cases (id == j)) [
  | inl t ↦ absurd (none-ne-some (sym (lookup-remove id j s.files ∙ rw t refl) ∙ found))
  | inr t ↦
      let e : lookup j s.files ≡ some g = sym (lookup-remove id j s.files ∙ rw t refl) ∙ found in
      subst (HasHistory g) (sym (lookup-remove id j s.file_data ∙ rw t refl)) (ok j g e)
]

share-IsVersioned :
    (id user permission : String) (o : Option File) (s : MemoryStore)
    → lookup id s.files ≡ o
    → IsVersioned s
    → IsVersioned (share_found id user permission o s).0
unfolding share_found
share-IsVersioned id user permission none s e ok = ok
share-IsVersioned id user permission (some f) s e ok = λ j g found.
    let f' : File = record f { shared_with = insert user permission f.shared_with } in
    elim (Bool-cases (id == j)) [
      | inl t ↦
          let e' : f' ≡ g = some-inj (sym (lookup-insert id j f' s.files ∙ rw t refl) ∙ found) in
          let old : HasHistory f (lookup j s.file_data) =
            ok j f (ap (λ x. lookup x s.files) (sym ((string_key.test_iff id j).0 t)) ∙ e) in
          (old.0, old.1, old.2, old.3, old.4, old.5 ∙ ap (λ x. x.size) e')
      | inr t ↦ ok j g (sym (lookup-insert id j f' s.files ∙ rw t refl) ∙ found)
    ]

perform-IsVersioned :
    (itoa : ℕ → String) (c : Call) (s : MemoryStore)
    → IsVersioned s
    → IsVersioned (perform itoa c s)
unfolding perform create_file update_file delete_file create_folder share_file
perform-IsVersioned itoa (create name mime parent owner content now) s ok =
    let v = first_version content now in
    written (file_id itoa (s.seq + 1)) _ (v ∷ []) v s ok (refl, refl, tt) refl refl
perform-IsVersioned itoa (update id content now) s ok =
    update-IsVersioned id content now (lookup id s.files) s refl ok
perform-IsVersioned itoa (delete id) s ok = delete-IsVersioned id (lookup id s.files) s ok
perform-IsVersioned itoa (make_folder name parent owner now) s ok = ok
perform-IsVersioned itoa (share id user permission) s ok =
    share-IsVersioned id user permission (lookup id s.files) s refl ok

-- After any calls on a store whose files have their histories, each stored file has versions, which
-- are numbered 1, 2, 3 and so on, each with the size of its content, and the last has the file's size.
pub perform_all-IsVersioned :
    (itoa : ℕ → String) (cs : List Call) (s : MemoryStore)
    → IsVersioned s
    → IsVersioned (perform_all itoa cs s)
unfolding perform_all
perform_all-IsVersioned itoa [] s ok = ok
perform_all-IsVersioned itoa (c ∷ cs) s ok =
    perform_all-IsVersioned itoa cs (perform itoa c s) (perform-IsVersioned itoa c s ok)

updated-content :
    (id : String) (content : List ℕ) (now : ℕ) (o : Option File) (s : MemoryStore)
    → lookup id s.files ≡ o
    → ((o ≡ none) × (update_found id content now o s ≡ (s, none)))
      ⊎ ((v : FileVersion) × (get_file_versions id (update_found id content now o s).0
            ≡ get_file_versions id s ++ v ∷ [])
          × (get_file_content id (update_found id content now o s).0 ≡ some content)
          × ((j : String)
              → id ≢ j
              → get_file_versions j (update_found id content now o s).0 ≡ get_file_versions j s))
unfolding update_found get_file_versions get_file_content
updated-content id content now none s e = inl (refl, refl)
updated-content id content now (some f) s e =
    let versions = get_or (lookup id s.file_data) [] in
    let v : FileVersion = record {
      version = length versions + 1;
      content = content;
      size = length content;
      created_at = now;
    } in
    let stored : lookup id (insert id (versions ++ v ∷ []) s.file_data)
        ≡ some (versions ++ v ∷ []) =
      lookup-insert_self id (versions ++ v ∷ []) s.file_data in
    inr (
      v,
      ap (λ x. get_or x []) stored,
      ap (λ x. content_of (last_version (get_or x []))) stored
          ∙ ap content_of (last_version-append versions v),
      λ j ne. ap (λ x. get_or x []) (lookup-insert_ne id j (versions ++ v ∷ []) s.file_data ne),
    )

-- UpdateFile fails and writes nothing when the file is not there; otherwise it keeps every earlier
-- version of the file, adds one, which is what GetFileContent then reads, and leaves the versions of
-- the other files alone.
pub update_file-content :
    (id : String) (content : List ℕ) (now : ℕ) (s : MemoryStore)
    → ((get_file id s ≡ none) × (update_file id content now s ≡ (s, none)))
      ⊎ ((v : FileVersion) × (get_file_versions id (update_file id content now s).0
            ≡ get_file_versions id s ++ v ∷ [])
          × (get_file_content id (update_file id content now s).0 ≡ some content)
          × ((j : String)
              → id ≢ j
              → get_file_versions j (update_file id content now s).0 ≡ get_file_versions j s))
unfolding update_file get_file
update_file-content id content now s = updated-content id content now (lookup id s.files) s refl
