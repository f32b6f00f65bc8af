-- ===== src/DiskKv/Replace.antt =====
-- `fileReplaceShard` of src/diskv/server.go, and what `fileReadShard` reads afterwards.
use Prim.Native.String.{String}
use text.Mathlib.Text.{◌==◌ as str_eq}
use code2go.Prelude.{
  ℕ, ◌≡◌, refl, sym, ◌∙◌, ap, Bool, true, ◌&&◌, none, some, List, [], ◌∷◌, if◌then◌else◌, ==_iff,
}
use mathlib.Core.Path.{subst}
use code2go.DiskKv.{
  Base32, IsBase32, read_file, Disk, Contents, set_dir, Io, file_put, file_read_shard, put_all,
  file_replace_shard, Removal, cleared, stuck, remove_all, key_file, encode_key,
}
use code2go.DiskKv.Dirs.{kept, IsOurs, read_file-keep_files}
use code2go.DiskKv.Files.{
  pick_here, contents, contents-dir_of, shard_dir_made, dir_of, whole, file_put_step,
}
use code2go.DiskKv.Shards.{file_read_shard-contents}

abbrev pub Puts : Type 0
Puts = List (Io × String × String)

-- Every directory can be made.
abbrev pub AllMade : Puts → Type 0
AllMade [] = Unit
AllMade ((io, key, content) ∷ m) = (io.made ≡ true) × AllMade m

-- Both system calls succeed.
abbrev pub succeeds : Io → Bool
succeeds io = whole io.written && io.renamed

-- The last value that was put under the key without an error.
unfoldable pub latest : Puts → Contents → Contents
latest [] before k = before k
latest ((io, key, content) ∷ m) before k =
    latest m (λ j. if succeeds io && str_eq key j then some content else before j) k

-- What a key has after RemoveAll.
abbrev pub left_over : Base32 → Removal → Contents → Contents
left_over b cleared before k = none
left_over b (stuck keep) before k =
    if keep (key_file (b.encode_to_string k)) then before k else none

module _ (b : Base32) (ok : IsBase32 b) (shard : ℕ) where
  -- One round of the loop, which drops the error.
  put_one :
      (io : Io) (key content : String) (disk : Disk)
      → io.made ≡ true
      → (disk' : Disk) × (file_put b io shard key content disk ≡ some (disk', succeeds io))
        × ((k : String)
            → contents b disk' shard k
              ≡ (if succeeds io && str_eq key k then some content else contents b disk shard k))
        × (IsOurs b (dir_of (disk shard)) → IsOurs b (dir_of (disk' shard)))
  put_one io key content disk made =
      let (disk', put, reads, ours) =
        file_put_step b ok io.written io.renamed shard key content disk in
      (
        disk',
        ap (λ x. file_put b (record io { made = x }) shard key content disk) made ∙ put,
        λ k.
            reads shard k
            ∙ ap
                (λ x.
                  if succeeds io && x && str_eq key k
                  then some content
                  else contents b disk shard k)
                ((==_iff shard shard).1 refl)
            ∙ sym (pick_here (succeeds io) (str_eq key k) _ _),
        ours,
      )

  latest_same :
      (m : Puts) (f g : Contents)
      → ((k : String) → f k ≡ g k)
      → (k : String) → latest m f k ≡ latest m g k
  unfolding latest
  latest_same [] f g same k = same k
  latest_same ((io, key, content) ∷ m) f g same k =
      latest_same m _ _
        (λ j. ap (λ x. if succeeds io && str_eq key j then some content else x) (same j)) k

  put_all-latest :
      (m : Puts) (disk : Disk)
      → AllMade m
      → IsOurs b (dir_of (disk shard))
      → (disk' : Disk) × (put_all b shard m disk ≡ some disk')
        × ((k : String) → contents b disk' shard k ≡ latest m (contents b disk shard) k)
        × IsOurs b (dir_of (disk' shard))
  unfolding put_all latest
  put_all-latest [] disk made ours = (disk, refl, λ k. refl, ours)
  put_all-latest ((io, key, content) ∷ m) disk (first, made) ours =
      let (disk1, put, reads, kept_ours) = put_one io key content disk first in
      let (disk', done, holds, still) = put_all-latest m disk1 made (kept_ours ours) in
      (disk', rw (put, done) refl, λ k. holds k ∙ latest_same m _ _ reads k, still)

  -- What the files that are left hold.
  contents-remove_all :
      (removal : Removal) (disk : Disk) (k : String)
      → kept b (dir_of (remove_all removal (dir_of (disk shard)))) k
        ≡ left_over b removal (contents b disk shard) k
  unfolding remove_all read_file encode_key
  contents-remove_all cleared disk k = refl
  contents-remove_all (stuck keep) disk k =
      read_file-keep_files keep (key_file (encode_key b k)) (dir_of (disk shard))
      ∙ ap (λ x. if keep (key_file (encode_key b k)) then x else none)
          (sym (contents-dir_of b ok disk shard k))

  -- Where the directory can be made and read each time, after `fileReplaceShard` `fileReadShard` gives for each key
  -- the value that was last put under it without an error. A key for which there was none is missing if RemoveAll succeeded; if it
  -- failed, such a key has what it had before, where its file was left. What RemoveAll leaves must have names that `encodeKey`
  -- gives. In every case no error is reported.
  pub file_read_shard-file_replace_shard :
      (removal : Removal) (m : Puts) (disk : Disk)
      → AllMade m
      → IsOurs b (dir_of (remove_all removal (dir_of (disk shard))))
      → (disk' : Disk) × (later : Disk) × (found : Contents) × (file_replace_shard b true removal
            shard m disk
          ≡ some disk')
        × (file_read_shard b true shard disk' ≡ some (found, later))
        × ((k : String) → found k ≡ latest m (left_over b removal (contents b disk shard)) k)
  unfolding file_replace_shard
  file_read_shard-file_replace_shard removal m disk made ours_left =
      let (disk1, there, at, same) = shard_dir_made b ok disk shard in
      let left = remove_all removal (dir_of (disk shard)) in
      let emptied = set_dir disk1 shard left in
      let now : emptied shard ≡ left = rw ((==_iff shard shard).1 refl) refl in
      let (disk', done, holds, ours) =
        put_all-latest m emptied made (subst (λ d. IsOurs b (dir_of d)) (sym now) ours_left) in
      let (found, later, read, reads) = file_read_shard-contents b ok disk' shard ours in
      (
        disk',
        later,
        found,
        rw (there, done) refl,
        read,
        λ k.
            reads k
            ∙ holds k
            ∙ latest_same m _ _
                (λ j.
                  contents-dir_of b ok emptied shard j
                  ∙ ap (λ d. kept b (dir_of d) j) now
                  ∙ contents-remove_all removal disk j)
                k,
      )
