-- ===== src/DiskKv/Shards.antt =====
-- A whole shard of src/diskv/server.go: `fileReadShard` and `fileReplaceShard`.
use Prim.Native.String.{String}
use text.Mathlib.Text.{◌==◌ as str_eq}
use text.Mathlib.TextEquality.{eq_iff}
use code2go.Prelude.{
  ℕ, ◌≡◌, ◌≢◌, inl, inr, refl, sym, ◌∙◌, ap, Bool, true, false, Option, none, some, [], ◌∷◌,
  if◌then◌else◌, arith, Bool-cases, Option-cases,
}
use code2go.DiskKv.{
  Base32, IsBase32, encode_key, FileName, key_file, temp_file, same_name, Dir, read_file, Disk,
  Contents, shard_dir, file_get, read_files, file_read_shard,
}
use code2go.DiskKv.Dirs.{encode_same, kept, IsOurs}
use code2go.DiskKv.Files.{contents, contents-dir_of, shard_dir_made, dir_of}

module _ (b : Base32) where
  -- Whether the key has a file.
  abbrev pub has : Dir → String → Bool
  has [] k = false
  has ((n, c) ∷ files) k =
      if same_name (key_file (b.encode_to_string k)) n then true else has files k

put_cases :
    (same h : Bool) (x y z : Option String)
    → (same ≡ true → x ≡ y)
    → (if h then x else if same then y else z) ≡ (if (if same then true else h) then x else z)
put_cases true true x y z e = refl
put_cases true false x y z e = sym (e refl)
put_cases false h x y z e = refl

has_kept :
    (b : Base32) (dir : Dir) (k : String)
    → (if has b dir k then kept b dir k else none) ≡ kept b dir k
unfolding read_file encode_key
has_kept b [] k = refl
has_kept b ((n, c) ∷ dir) k = elim (Bool-cases (same_name (key_file (b.encode_to_string k)) n)) [
  | inl same ↦ rw same refl
  | inr other ↦ rw other (has_kept b dir k)
]

module _ (b : Base32) (ok : IsBase32 b) (disk : Disk) (shard : ℕ) (dir : Dir)
    (at : disk shard ≡ some dir) where
  -- Every file of the list is a file of the directory.
  abbrev AllIn : Dir → Type 0
  AllIn files = (n : FileName) → read_file n files ≢ none → read_file n dir ≢ none

  AllIn-tail : (n : FileName) (c : String) (files : Dir) → AllIn ((n, c) ∷ files) → AllIn files
  unfolding read_file
  AllIn-tail n c files all m there = all m (ground (arith, there))

  listed : (e c : String) (files : Dir) → read_file (key_file e) ((key_file e, c) ∷ files) ≢ none
  unfolding read_file
  listed e c files = ground (arith, eq_iff e e)

  kept_name : (key : String) → read_file (key_file (b.encode_to_string key)) dir ≡ kept b dir key
  unfolding encode_key
  kept_name key = refl

  file_get_kept : (key : String) → file_get b true shard key disk ≡ some (kept b dir key, disk)
  unfolding file_get shard_dir
  file_get_kept key = rw (shard_dir, at) refl

  kept_at :
      (key k content : String)
      → kept b dir key ≡ some content
      → str_eq key k ≡ true
      → kept b dir k ≡ some content
  kept_at key k content there same = sym (ap (λ x. kept b dir x) ((eq_iff key k).0 same)) ∙ there

  read_files_kept :
      (files : Dir) (m : Contents)
      → IsOurs b files
      → AllIn files
      → (m' : Contents) × (read_files b true shard disk files m ≡ some m')
        × ((k : String) → m' k ≡ (if has b files k then kept b dir k else m k))
  unfolding read_files
  read_files_kept [] m ours all = (m, refl, λ k. refl)
  read_files_kept ((temp_file e, c) ∷ files) m ours all =
      let (m', done, holds) = read_files_kept files m ours (AllIn-tail _ c files all) in
      (m', done, holds)
  read_files_kept ((key_file e, c) ∷ files) m ours all =
      let ((key, is), more) = ours in
      let name = ap b.decode_string is ∙ ok.back key in
      elim (Option-cases (kept b dir key)) [
        | inl gone ↦ absurd (
            all (key_file e) (listed e c files)
              (ap (λ x. read_file (key_file x) dir) is ∙ kept_name key ∙ gone))
        | inr (content, there) ↦
            let (m', done, holds) =
              read_files_kept files (λ k. if str_eq key k then some content else m k) more
                (AllIn-tail _ c files all) in
            let got = file_get_kept key ∙ ap (λ x. some (x, disk)) there in
            (
              m',
              rw (name, got) done,
              λ k.
                  holds k
                  ∙ put_cases (str_eq key k) (has b files k) (kept b dir k) (some content) (m k)
                      (λ same. kept_at key k content there same)
                  ∙ sym (
                      ap (λ x. if (if x then true else has b files k) then kept b dir k else m k)
                        (ap (λ x. str_eq (b.encode_to_string k) x) is ∙ encode_same b ok k key)),
            )
      ]

module _ (b : Base32) (ok : IsBase32 b) where
  -- `fileReadShard` of a directory whose key files have encoded names does not fail, and its map holds for each key what
  -- `fileGet` reads.
  pub file_read_shard-contents :
      (disk : Disk) (shard : ℕ)
      → IsOurs b (dir_of (disk shard))
      → (m : Contents) × (disk' : Disk) × (file_read_shard b true shard disk ≡ some (m, disk'))
        × ((k : String) → m k ≡ contents b disk shard k)
  unfolding file_read_shard
  file_read_shard-contents disk shard ours =
      let dir = dir_of (disk shard) in
      let (disk', made, at, same) = shard_dir_made b ok disk shard in
      let (m, done, holds) =
        read_files_kept b ok disk' shard dir at dir (λ k. none) ours (λ n there. there) in
      (
        m,
        disk',
        rw (made, done) refl,
        λ k. holds k ∙ has_kept b dir k ∙ sym (contents-dir_of b ok disk shard k),
      )
