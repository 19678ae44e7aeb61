-- ===== src/FileTransfer.antt =====
-- src/file_sender.cpp and src/file_receiver.cpp: the two applications that send a file over a
-- connection. Files are lists of bytes; that they open is left out. What is printed is left out too.
pub mod Chunks
pub mod RoundTrip
use miptp_cpp.Prelude.{
  ℕ, zero, suc, ◌+◌, Bool, true, false, Option, none, some, List, [], ◌∷◌, ◌++◌, length, take, drop,
  ltb, ◌==◌, ◌||◌, if◌then◌else◌,
}
use miptp_cpp.Outcome.{M, ok, ◌>>=◌, return}
use miptp_cpp.CrossIpc.{AnonymousSocket, read_until, write, le_value, size_bytes}

abbrev pub slash : ℕ
slash = b'/'

-- `path.find('/') != path.npos`
unfoldable pub has_slash : List ℕ → Bool
has_slash [] = false
has_slash (c ∷ path) = c == slash || has_slash path

-- `path.substr(path.find_last_of('/') + 1)`: what follows the last slash, or the whole path.
unfoldable pub extract_path_leaf : List ℕ → List ℕ
unfolding has_slash
extract_path_leaf [] = []
extract_path_leaf (c ∷ path) = elim (has_slash path) [
  | true ↦ extract_path_leaf path
  | false ↦ if c == slash then path else c ∷ path
]

-- `chunk_buffer.size()`
abbrev pub chunk_size : ℕ
chunk_size = 14960

-- The loop that reads the file: a `read` that finds fewer bytes than asked for sets `eof`. Each round
-- but the last takes `chunk` bytes, so one round more than there are bytes is enough.
unfoldable pub read_chunks : ℕ → ℕ → List ℕ → List ℕ → List ℕ
read_chunks zero chunk stream buffer = buffer
read_chunks (suc fuel) chunk stream buffer =
    let rest = read_chunks fuel chunk (drop chunk stream) (buffer ++ take chunk stream) in
    if ltb (length stream) chunk then buffer ++ take chunk stream else rest

unfoldable pub read_file : List ℕ → List ℕ
unfolding read_chunks
read_file stream = read_chunks (length stream + 1) chunk_size stream []

-- What `main` of the sender writes, once it is connected; the result is `total_bytes_sendt`.
unfoldable pub send_file : List ℕ → List ℕ → M AnonymousSocket ℕ
send_file filename buffer = do
  a ← write (size_bytes 8 (length filename))
  b ← write filename
  c ← write (size_bytes 8 (length buffer))
  d ← write buffer
  return (a + b + c + d)

-- A size and as many bytes; the loop of the receiver for the file is that of `readUntil`.
unfoldable pub receive_sized : M AnonymousSocket (List ℕ)
receive_sized = do size ← read_until 8; read_until (le_value size)

-- What `main` of the receiver reads: the name and the file.
unfoldable pub receive_file : M AnonymousSocket (List ℕ × List ℕ)
receive_file = do filename ← receive_sized; buffer ← receive_sized; return (filename, buffer)

-- Where the file is stored: `filepath.substr(0, filepath.find_last_of('/') + 1) + filename`.
unfoldable pub directory : List ℕ → List ℕ
unfolding has_slash
directory [] = []
directory (c ∷ path) =
    let rest = directory path in if c == slash || has_slash path then c ∷ rest else []

unfoldable pub storage_path : List ℕ → List ℕ → List ℕ
unfolding directory
storage_path filepath filename =
    if has_slash filepath then directory filepath ++ filename else filename
