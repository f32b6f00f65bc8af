-- ===== src/DiskKv/Dirs.antt =====
-- One directory of src/diskv/server.go, and the key files in it.
use Prim.Native.String.{String}
use text.Mathlib.Text.{◌==◌ as str_eq}
use text.Mathlib.TextEquality.{eq_iff}
use code2go.Prelude.{
  ◌≡◌, ◌↔◌, inl, inr, refl, sym, ap, Bool, true, false, Option, none, some, [], ◌∷◌, if◌then◌else◌,
  arith, Bool-cases,
}
use code2go.DiskKv.{
  Base32, IsBase32, encode_key, FileName, key_file, temp_file, same_name, Dir, read_file,
  remove_file, write_file, rename, keep_files,
}

same_name_iff : (a b : FileName) → (same_name a b ≡ true) ↔ (a ≡ b)
unfolding same_name
same_name_iff (key_file a) (key_file b) = ground (arith, eq_iff a b)
same_name_iff (temp_file a) (temp_file b) = ground (arith, eq_iff a b)
same_name_iff (key_file a) (temp_file b) = ground arith
same_name_iff (temp_file a) (key_file b) = ground arith

pub read_file-remove_file :
    (n m : FileName) (dir : Dir)
    → read_file m (remove_file n dir) ≡ (if same_name m n then none else read_file m dir)
unfolding read_file remove_file
read_file-remove_file n m [] = ground arith
read_file-remove_file n m ((x, c) ∷ dir) =
    ground (
      arith,
      read_file-remove_file n m dir,
      same_name_iff n x,
      same_name_iff m x,
      same_name_iff m n,
    )

pub read_file-keep_files :
    (keep : FileName → Bool) (m : FileName) (dir : Dir)
    → read_file m (keep_files keep dir) ≡ (if keep m then read_file m dir else none)
unfolding read_file keep_files
read_file-keep_files keep m [] = ground arith
read_file-keep_files keep m ((x, c) ∷ dir) = elim (Bool-cases (same_name m x)) [
  | inl same ↦
      let at : m ≡ x = (same_name_iff m x).0 same in
      let kept_too : keep m ≡ keep x = ap keep at in
      ground (arith, read_file-keep_files keep m dir, same, kept_too)
  | inr other ↦ ground (arith, read_file-keep_files keep m dir, other)
]

pub read_file-write_file :
    (n m : FileName) (c : String) (dir : Dir)
    → read_file m (write_file n c dir) ≡ (if same_name m n then some c else read_file m dir)
unfolding read_file write_file
read_file-write_file n m c dir = ground (arith, read_file-remove_file n m dir)

not_true : (x : Bool) → ¬ (x ≡ true) → x ≡ false
not_true x h = ground arith

module _ (b : Base32) where
  -- What a directory holds for a key.
  abbrev pub kept : Dir → String → Option String
  kept dir key = read_file (key_file (encode_key b key)) dir

module _ (b : Base32) where
  -- The key files of the directory have names that `encodeKey` gives.
  abbrev pub IsOurs : Dir → Type 0
  IsOurs [] = Unit
  IsOurs ((key_file e, c) ∷ files) = ((k : String) × (e ≡ b.encode_to_string k)) × IsOurs files
  IsOurs ((temp_file e, c) ∷ files) = IsOurs files

  IsOurs-remove_file : (n : FileName) (dir : Dir) → IsOurs dir → IsOurs (remove_file n dir)
  unfolding remove_file
  IsOurs-remove_file n [] ours = tt
  IsOurs-remove_file n ((key_file e, c) ∷ dir) ours = elim (Bool-cases (same_name n (key_file e))) [
    | inl same ↦ rw same (IsOurs-remove_file n dir ours.1)
    | inr other ↦ rw other (ours.0, IsOurs-remove_file n dir ours.1)
  ]
  IsOurs-remove_file n ((temp_file e, c) ∷ dir) ours =
      elim (Bool-cases (same_name n (temp_file e))) [
        | inl same ↦ rw same (IsOurs-remove_file n dir ours)
        | inr other ↦ rw other (IsOurs-remove_file n dir ours)
      ]

  pub IsOurs-write_temp :
      (e c : String) (dir : Dir) → IsOurs dir → IsOurs (write_file (temp_file e) c dir)
  unfolding write_file
  IsOurs-write_temp e c dir ours = IsOurs-remove_file (temp_file e) dir ours

  IsOurs-write_key :
      (key c : String) (dir : Dir)
      → IsOurs dir
      → IsOurs (write_file (key_file (encode_key b key)) c dir)
  unfolding write_file encode_key
  IsOurs-write_key key c dir ours =
      ((key, refl), IsOurs-remove_file (key_file (encode_key b key)) dir ours)

module _ (b : Base32) (ok : IsBase32 b) where
  pub encode_same :
      (k key : String) → str_eq (b.encode_to_string k) (b.encode_to_string key) ≡ str_eq key k
  encode_same k key = elim (Bool-cases (str_eq key k)) [
    | inl same ↦ rw same ((eq_iff _ _).1 (ap b.encode_to_string (sym ((eq_iff key k).0 same))))
    | inr other ↦
        rw other (not_true _ (λ same. cc (other, (eq_iff key k).1 (one ((eq_iff _ _).0 same)))))
  ]
    where
      one : b.encode_to_string k ≡ b.encode_to_string key → key ≡ k
      one same = let x = ok.back k in let y = ok.back key in cc (x, y, ap b.decode_string same)

  kept-write_key :
      (dir : Dir) (key content k : String)
      → kept b (write_file (key_file (encode_key b key)) content dir) k
        ≡ (if str_eq key k then some content else kept b dir k)
  unfolding encode_key same_name
  kept-write_key dir key content k = rw (read_file-write_file, sym (encode_same k key)) refl

  pub kept-write_temp :
      (dir : Dir) (e content k : String)
      → kept b (write_file (temp_file e) content dir) k ≡ kept b dir k
  unfolding encode_key same_name
  kept-write_temp dir e content k = rw read_file-write_file refl

  kept-remove_temp :
      (dir : Dir) (e k : String) → kept b (remove_file (temp_file e) dir) k ≡ kept b dir k
  unfolding encode_key same_name
  kept-remove_temp dir e k = rw read_file-remove_file refl

  read-write_temp :
      (dir : Dir) (e c : String) → read_file (temp_file e) (write_file (temp_file e) c dir) ≡ some c
  unfolding same_name
  read-write_temp dir e c = rw read_file-write_file (ground (arith, eq_iff e e))

  pub rename_written :
      (dir : Dir) (e key content : String)
      → (dir' : Dir) × (rename
            (temp_file e)
            (key_file (encode_key b key))
            (write_file (temp_file e) content dir)
          ≡ some dir')
        × ((k : String) → kept b dir' k ≡ (if str_eq key k then some content else kept b dir k))
        × (IsOurs b dir → IsOurs b dir')
  unfolding rename
  rename_written dir e key content =
      let dir1 = write_file (temp_file e) content dir in
      rw (read-write_temp dir e content) (
        write_file (key_file (encode_key b key)) content (remove_file (temp_file e) dir1),
        refl,
        λ k. rw (kept-write_key, kept-remove_temp, kept-write_temp) refl,
        λ ours.
            IsOurs-write_key b key content (remove_file (temp_file e) dir1)
              (IsOurs-remove_file b (temp_file e) dir1 (IsOurs-write_temp b e content dir ours)),
      )
