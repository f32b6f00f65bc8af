-- ===== src/DiskKv.antt =====
-- src/diskv/server.go: the files of a server, one directory for each shard. A file name is given by
-- its prefix and the encoded key; base32 is the parameter `Base32` with its round trip. Which system
-- calls fail is an argument. log.Fatal is `none`.

pub mod Dirs
pub mod Files
pub mod Shards
pub mod Replace
pub mod Server
mod Tests
use Prim.Native.String.{String}
use text.Mathlib.Text.{◌==◌ as str_eq}
use code2go.Prelude.{
  ℕ, ◌≡◌, Bool, true, false, ◌&&◌, Option, none, some, List, [], ◌∷◌, ◌==◌, if◌then◌else◌, ◌>>=◌,
}

pub record Base32 : Type 0 where
  pub encode_to_string : String → String
  pub decode_string : String → Option String

-- What encoding/base32 documents: decoding gives back what was encoded.
pub record IsBase32 (b : Base32) : Type 0 where
  pub back : (key : String) → b.decode_string (b.encode_to_string key) ≡ some key

unfoldable pub encode_key : Base32 → String → String
encode_key b key = b.encode_to_string key

unfoldable pub decode_key : Base32 → String → Option String
decode_key b filename = b.decode_string filename

pub data FileName : Type 0 where
  key_file : String → FileName
  temp_file : String → FileName

unfoldable pub same_name : FileName → FileName → Bool
same_name (key_file a) (key_file b) = str_eq a b
same_name (temp_file a) (temp_file b) = str_eq a b
same_name (key_file a) (temp_file b) = false
same_name (temp_file a) (key_file b) = false

-- The names of a directory with their contents.
abbrev pub Dir : Type 0
Dir = List (FileName × String)

unfoldable pub read_file : FileName → Dir → Option String
unfolding same_name
read_file n [] = none
read_file n ((m, content) ∷ files) = if same_name n m then some content else read_file n files

unfoldable pub remove_file : FileName → Dir → Dir
unfolding same_name
remove_file n [] = []
remove_file n ((m, content) ∷ files) =
    let rest = remove_file n files in if same_name n m then rest else (m, content) ∷ rest

unfoldable pub write_file : FileName → String → Dir → Dir
unfolding remove_file
write_file n content files = (n, content) ∷ remove_file n files

-- The file of the first name takes the place of that of the second.
unfoldable pub rename : (from to : FileName) → Dir → Option Dir
unfolding read_file write_file
rename from to files = do
  content ← read_file from files
  some (write_file to content (remove_file from files))

-- The shard directories that exist.
abbrev pub Disk : Type 0
Disk = ℕ → Option Dir

abbrev pub set_dir : Disk → ℕ → Option Dir → Disk
set_dir disk shard dir s = if shard == s then dir else disk s

-- The directory of the shard, made where there is none. `made` says that Stat finds it if it is there, and that Mkdir makes
-- it if not. Where Stat fails on a directory that is there, Mkdir fails on it, which is fatal too.
unfoldable pub shard_dir : (made : Bool) → (shard : ℕ) → Disk → Option (Dir × Disk)
shard_dir made shard disk =
    if made
    then elim (disk shard) [
      | some dir ↦ some (dir, disk)
      | none ↦ some ([], set_dir disk shard (some []))
    ]
    else none

-- `none` inside the result is an error of ReadFile.
unfoldable pub file_get :
    Base32 → (made : Bool) → (shard : ℕ) → (key : String) → Disk → Option (Option String × Disk)
unfolding shard_dir read_file encode_key
file_get b made shard key disk = do
  (dir, disk') ← shard_dir made shard disk
  some (read_file (key_file (encode_key b key)) dir, disk')

-- How WriteFile ends: with an error, or a crash, it may leave a file with any content.
pub data Written : Type 0 where
  all : Written
  nothing : Written
  partly : String → Written

pub record Io : Type 0 where
  pub made : Bool
  pub written : Written
  pub renamed : Bool

-- The directory after WriteFile, and whether it succeeded.
unfoldable pub write_temp : Written → FileName → String → Dir → Dir × Bool
unfolding write_file
write_temp all n content dir = (write_file n content dir, true)
write_temp nothing n content dir = (dir, false)
write_temp (partly left) n content dir = (write_file n left dir, false)

-- The last part says that there was no error. A crash before or in a system call leaves the disk
-- that an error of that call leaves.
unfoldable pub file_put :
    Base32 → Io → (shard : ℕ) → (key content : String) → Disk → Option (Disk × Bool)
unfolding shard_dir encode_key write_temp rename
file_put b io shard key content disk = do
  (dir, disk') ← shard_dir io.made shard disk
  let fullname = key_file (encode_key b key)
  let tempname = temp_file (encode_key b key)
  let (dir', ok) = write_temp io.written tempname content dir
  let stays = set_dir disk' shard (some dir')
  if ok && io.renamed
      then (do dir'' ← rename tempname fullname dir'; some (set_dir disk' shard (some dir''), true))
      else some (stays, false)

-- A map from keys to contents.
abbrev pub Contents : Type 0
Contents = String → Option String

-- for _, fi := range files; a bad name and a failed read are fatal.
unfoldable pub read_files :
    Base32 → (made : Bool) → (shard : ℕ) → Disk → (files : Dir) → Contents → Option Contents
unfolding decode_key file_get
read_files b made shard disk [] m = some m
read_files b made shard disk ((temp_file e, _) ∷ files) m = read_files b made shard disk files m
read_files b made shard disk ((key_file e, _) ∷ files) m =
    let rest = λ (m' : Contents). read_files b made shard disk files m' in
    do
      key ← decode_key b e
      (found, disk') ← file_get b made shard key disk
      content ← found
      rest (λ k. if str_eq key k then some content else m k)

unfoldable pub file_read_shard :
    Base32 → (made : Bool) → (shard : ℕ) → Disk → Option (Contents × Disk)
unfolding read_files shard_dir
file_read_shard b made shard disk = do
  (dir, disk') ← shard_dir made shard disk
  m ← read_files b made shard disk' dir (λ k. none)
  some (m, disk')

-- for k, v := range m, in some order of the keys. Errors of `filePut` are dropped; `ios` gives the
-- system calls of each round.
unfoldable pub put_all : Base32 → (shard : ℕ) → List (Io × String × String) → Disk → Option Disk
unfolding file_put
put_all b shard [] disk = some disk
put_all b shard ((io, key, content) ∷ m) disk =
    let rest = λ (d : Disk). put_all b shard m d in
    do (disk', ok) ← file_put b io shard key content disk; rest disk'

-- How os.RemoveAll ends: with an error, it may leave any of the files.
pub data Removal : Type 0 where
  cleared : Removal
  stuck : (keep : FileName → Bool) → Removal

unfoldable pub keep_files : (FileName → Bool) → Dir → Dir
keep_files keep [] = []
keep_files keep ((n, content) ∷ files) =
    let rest = keep_files keep files in if keep n then (n, content) ∷ rest else rest

unfoldable pub remove_all : Removal → Dir → Option Dir
unfolding keep_files
remove_all cleared dir = none
remove_all (stuck keep) dir = some (keep_files keep dir)

-- The error of os.RemoveAll is dropped.
unfoldable pub file_replace_shard :
    Base32
    → (made : Bool) → Removal
    → (shard : ℕ) → List (Io × String × String)
    → Disk
    → Option Disk
unfolding shard_dir remove_all put_all
file_replace_shard b made removal shard m disk = do
  (dir, disk') ← shard_dir made shard disk
  put_all b shard m (set_dir disk' shard (remove_all removal dir))
