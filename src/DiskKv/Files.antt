-- ===== src/DiskKv/Files.antt =====
-- A single file of src/diskv/server.go: `fileGet` after `filePut`.
use Prim.Native.String.{String}
use text.Mathlib.Text.{◌==◌ as str_eq}
use code2go.Prelude.{
  ℕ, ◌≡◌, inl, inr, refl, ◌∙◌, ap, ==_iff, Bool, true, false, ◌&&◌, Option, none, some, [], ◌==◌,
  if◌then◌else◌, arith, Bool-cases, Option-cases,
}
use code2go.DiskKv.{
  Base32, IsBase32, encode_key, temp_file, Dir, read_file, write_file, Disk, set_dir, shard_dir,
  file_get, Written, all, nothing, partly, write_temp, file_put,
}
use code2go.DiskKv.Dirs.{kept, IsOurs, IsOurs-write_temp, kept-write_temp, rename_written}

pub pick_here :
    {A : Type 0} (c d : Bool) (x y : A)
    → (if c && d then x else y) ≡ (if c && true && d then x else y)
pick_here true d x y = refl
pick_here false d x y = refl

pick_there : {A : Type 0} (c d : Bool) (x y : A) → y ≡ (if c && false && d then x else y)
pick_there true d x y = refl
pick_there false d x y = refl

-- Whether WriteFile succeeds.
abbrev pub whole : Written → Bool
whole all = true
whole nothing = false
whole (partly left) = false

-- The directory of a shard once it is made.
abbrev pub dir_of : Option Dir → Dir
dir_of none = []
dir_of (some dir) = dir

module _ (b : Base32) where
  -- What `fileGet` reads, where its directory can be made.
  abbrev pub contents : Disk → ℕ → String → Option String
  contents disk s k = elim (file_get b true s k disk) [ none ↦ none | some (r, later) ↦ r ]

module _ (b : Base32) (ok : IsBase32 b) where
  pub contents-dir_of :
      (disk : Disk) (s : ℕ) (k : String) → contents b disk s k ≡ kept b (dir_of (disk s)) k
  unfolding file_get shard_dir read_file
  contents-dir_of disk s k = elim (Option-cases (disk s)) [
    | inl gone ↦ rw (contents, gone) refl
    | inr (dir, there) ↦ rw (contents, there) refl
  ]

  pub shard_dir_made :
      (disk : Disk) (shard : ℕ)
      → (disk' : Disk) × (shard_dir true shard disk ≡ some (dir_of (disk shard), disk'))
        × (disk' shard ≡ some (dir_of (disk shard)))
        × ((s : ℕ) → dir_of (disk' s) ≡ dir_of (disk s))
  unfolding shard_dir
  shard_dir_made disk shard = elim (Option-cases (disk shard)) [
    | inl gone ↦
        rw gone (set_dir disk shard (some []), refl, ground arith, λ s. ground (arith, gone))
    | inr (dir, there) ↦ rw there (disk, refl, there, λ s. refl)
  ]

  set_dir_dir :
      (disk disk' : Disk) (shard : ℕ) (dir : Dir) (c : Bool) (key content : String)
      → ((s : ℕ) → dir_of (disk' s) ≡ dir_of (disk s))
      → ((k : String)
          → kept b dir k
            ≡ (if c && str_eq key k then some content else kept b (dir_of (disk shard)) k))
      → (s : ℕ) (k : String)
      → contents b (set_dir disk' shard (some dir)) s k
        ≡ (if c && shard == s && str_eq key k then some content else contents b disk s k)
  set_dir_dir disk disk' shard dir c key content same put s k =
      rw (contents-dir_of (set_dir disk' shard (some dir)) s k, contents-dir_of disk s k)
        (elim (Bool-cases (shard == s)) [
          | inl here ↦
              let at = (==_iff shard s).0 here in
              rw here (
                put k
                ∙ pick_here c (str_eq key k) _ _
                ∙ ap
                    (λ x.
                      if c && true && str_eq key k
                      then some content
                      else kept b (dir_of (disk x)) k)
                    at)
          | inr there ↦ rw there (ap (λ d. kept b d k) (same s) ∙ pick_there c (str_eq key k) _ _)
        ])

  own : (s : ℕ) → (s == s) ≡ true
  own s = (==_iff s s).1 refl

  pub file_put_step :
      (written : Written) (renamed : Bool) (shard : ℕ) (key content : String) (disk : Disk)
      → (disk' : Disk) × (file_put b
            (record { made = true; written = written; renamed = renamed })
            shard
            key
            content
            disk
          ≡ some (disk', whole written && renamed))
        × ((s : ℕ) (k : String)
            → contents b disk' s k ≡ (
                if (whole written && renamed) && shard == s && str_eq key k
                then some content
                else contents b disk s k))
        × (IsOurs b (dir_of (disk shard)) → IsOurs b (dir_of (disk' shard)))
  unfolding file_put write_temp
  file_put_step all true shard key content disk =
      let (disk', made, at, same) = shard_dir_made disk shard in
      let (dir, named, put, ours) =
        rename_written b ok (dir_of (disk shard)) (encode_key b key) key content in
      (
        set_dir disk' shard (some dir),
        rw (made, named) refl,
        set_dir_dir disk disk' shard dir true key content same put,
        λ o. rw (own shard) (ours o),
      )
  file_put_step all false shard key content disk =
      let (disk', made, at, same) = shard_dir_made disk shard in
      let dir = write_file (temp_file (encode_key b key)) content (dir_of (disk shard)) in
      (
        set_dir disk' shard (some dir),
        rw made refl,
        set_dir_dir disk disk' shard dir false key content same
            (λ k. kept-write_temp b ok (dir_of (disk shard)) (encode_key b key) content k),
        λ o. rw (own shard) (IsOurs-write_temp b _ content (dir_of (disk shard)) o),
      )
  file_put_step nothing renamed shard key content disk =
      let (disk', made, at, same) = shard_dir_made disk shard in
      (
        set_dir disk' shard (some (dir_of (disk shard))),
        rw made refl,
        set_dir_dir disk disk' shard _ false key content same (λ k. refl),
        λ o. rw (own shard) o,
      )
  file_put_step (partly left) renamed shard key content disk =
      let (disk', made, at, same) = shard_dir_made disk shard in
      let dir = write_file (temp_file (encode_key b key)) left (dir_of (disk shard)) in
      (
        set_dir disk' shard (some dir),
        rw made refl,
        set_dir_dir disk disk' shard dir false key content same
            (λ k. kept-write_temp b ok (dir_of (disk shard)) (encode_key b key) left k),
        λ o. rw (own shard) (IsOurs-write_temp b _ left (dir_of (disk shard)) o),
      )

  -- `filePut` never fails halfway: whatever system call fails or is cut off by a crash, `fileGet` of any key of any shard
  -- then reads what it read before, but for the key that was put, which has the new content if both the write and the
  -- rename succeeded. It says that there was no error exactly then.
  pub file_put-atomic :
      (written : Written) (renamed : Bool) (shard : ℕ) (key content : String) (disk : Disk)
      → (disk' : Disk) × (file_put b
            (record { made = true; written = written; renamed = renamed })
            shard
            key
            content
            disk
          ≡ some (disk', whole written && renamed))
        × ((s : ℕ) (k : String)
            → contents b disk' s k ≡ (
                if (whole written && renamed) && shard == s && str_eq key k
                then some content
                else contents b disk s k))
  file_put-atomic written renamed shard key content disk =
      let (disk', put, reads, ours) = file_put_step written renamed shard key content disk in
      (disk', put, reads)
