-- ===== src/FileTransfer/Chunks.antt =====
-- Reading a file and taking a path apart in src/file_sender.cpp and src/file_receiver.cpp.
use miptp_cpp.Prelude.{
  ℕ, zero, suc, ◌+◌, ◌<◌, ◌≡◌, refl, ap, ◌∙◌, false, List, [], ◌∷◌, ◌++◌, length, take, drop,
  length-drop, take_all, take-append-drop, append_assoc, ltb, Bool-cases, inl, inr, ltb→lt,
  ltb-false→le, arith,
}
use miptp_cpp.FileTransfer.{
  has_slash, extract_path_leaf, chunk_size, read_chunks, read_file, directory, storage_path,
}

read_chunks_lem :
    (fuel chunk : ℕ) (stream buffer : List ℕ)
    → 0 < chunk
    → length stream < fuel
    → read_chunks fuel chunk stream buffer ≡ buffer ++ stream
unfolding read_chunks
read_chunks_lem zero chunk stream buffer pos h = absurd (omega arith)
read_chunks_lem (suc fuel) chunk stream buffer pos h =
    elim (Bool-cases (ltb (length stream) chunk)) [
      | inl last ↦
          rw last (ap (λ bs. buffer ++ bs) (take_all chunk stream (omega (arith, ltb→lt _ _ last))))
      | inr more ↦ rw more (
          read_chunks_lem fuel chunk (drop chunk stream) (buffer ++ take chunk stream) pos
            (omega (arith, length-drop chunk stream, ltb-false→le _ _ more))
          ∙ append_assoc buffer (take chunk stream) (drop chunk stream)
          ∙ ap (λ bs. buffer ++ bs) (take-append-drop chunk stream))
    ]

-- The loop of the sender ends and reads the whole file, whatever its size.
pub read_file_lem : (stream : List ℕ) → read_file stream ≡ stream
unfolding read_file
read_file_lem stream =
    read_chunks_lem (length stream + 1) chunk_size stream [] (omega arith) (omega arith)

directory_nil : (path : List ℕ) → has_slash path ≡ false → directory path ≡ []
unfolding directory has_slash
directory_nil [] h = refl
directory_nil (c ∷ path) h = ground arith

-- A path is its directory, up to and with the last slash, and then its leaf, which has no slash.
pub path_parts :
    (path : List ℕ)
    → (directory path ++ extract_path_leaf path ≡ path)
      × (has_slash (extract_path_leaf path) ≡ false)
unfolding directory extract_path_leaf has_slash
path_parts [] = (refl, refl)
path_parts (c ∷ path) = ground (arith, path_parts path, directory_nil path)

storage_of :
    (filepath filename : List ℕ) → storage_path filepath filename ≡ directory filepath ++ filename
unfolding storage_path
storage_of filepath filename = ground (arith, directory_nil filepath)

leaf_of_leaf : (n : List ℕ) → has_slash n ≡ false → extract_path_leaf n ≡ n
unfolding extract_path_leaf has_slash
leaf_of_leaf [] h = refl
leaf_of_leaf (c ∷ n) h = ground arith

has_slash-directory :
    (d n : List ℕ) → has_slash n ≡ false → has_slash (directory d ++ n) ≡ has_slash d
unfolding directory has_slash
has_slash-directory [] n h = h
has_slash-directory (c ∷ d) n h = ground (arith, has_slash-directory d n h)

leaf_of_append : (d n : List ℕ) → has_slash n ≡ false → extract_path_leaf (directory d ++ n) ≡ n
unfolding directory extract_path_leaf has_slash
leaf_of_append [] n h = leaf_of_leaf n h
leaf_of_append (c ∷ d) n h =
    ground
      (arith, leaf_of_append d n h, leaf_of_leaf n h, has_slash-directory d n h, directory_nil d)

-- A file that is sent by the leaf of its path is stored under that leaf in the directory that the
-- receiver was given: the path of the file stored has the same leaf.
pub storage_path_lem :
    (filepath sent_path : List ℕ)
    → let leaf = extract_path_leaf sent_path in
      (storage_path filepath leaf ≡ directory filepath ++ leaf)
      × (extract_path_leaf (storage_path filepath leaf) ≡ leaf)
storage_path_lem filepath sent_path =
    let leaf = extract_path_leaf sent_path in
    let e = storage_of filepath leaf in
    (e, ap extract_path_leaf e ∙ leaf_of_append filepath leaf (path_parts sent_path).1)
