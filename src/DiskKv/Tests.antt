-- ===== src/DiskKv/Tests.antt =====
-- Tests of the files of src/diskv/server.go, and the theorems at concrete inputs.
use Prim.Native.String.{String}
use text.Mathlib.Text.{◌==◌ as str_eq}
use code2go.Prelude.{ℕ, ◌≡◌, refl, true, false, ◌&&◌, none, some, [], ◌∷◌, ◌==◌, if◌then◌else◌}
use code2go.DiskKv.{
  Base32, IsBase32, key_file, temp_file, Disk, Contents, all, partly, Io, file_put, file_read_shard,
  file_replace_shard, Removal, cleared, stuck, same_name, remove_all, keep_files, file_get,
  read_file, encode_key, shard_dir,
}
use code2go.DiskKv.Files.{contents, file_put-atomic}
use code2go.DiskKv.Replace.{Puts, latest, file_read_shard-file_replace_shard, left_over}

abbrev plain : Base32
plain = record { encode_to_string = λ key. key; decode_string = λ name. some name }

plain-IsBase32 : IsBase32 plain
plain-IsBase32 = record { back = λ key. refl }

-- One shard with a key, and a file that a crash left.
abbrev used : Disk
used s = if s == 3 then some ((temp_file "b", "ha") ∷ (key_file "a", "old") ∷ []) else none

abbrev good : Io
good = record { made = true; written = all; renamed = true }

abbrev torn : Io
torn = record { made = true; written = partly "ne"; renamed = false }

abbrev two_puts : Puts
two_puts = (good, "a", "one") ∷ (torn, "b", "two") ∷ []

file_put-atomic_example :
    (disk' : Disk) × (file_put plain torn 3 "a" "new" used ≡ some (disk', false))
    × ((s : ℕ) (k : String)
        → contents plain disk' s k
          ≡ (if false && 3 == s && str_eq "a" k then some "new" else contents plain used s k))
file_put-atomic_example = file_put-atomic plain plain-IsBase32 (partly "ne") false 3 "a" "new" used

-- Another key, whose file RemoveAll may not remove.
abbrev two_keys : Disk
two_keys s = if s == 3 then some ((key_file "c", "old") ∷ (key_file "a", "old") ∷ []) else none

abbrev only_c : Removal
only_c = stuck (same_name (key_file "c"))

file_read_shard-file_replace_shard_example :
    (disk' : Disk) × (later : Disk) × (found : Contents) × (file_replace_shard plain true only_c 3
        two_puts two_keys
      ≡ some disk')
    × (file_read_shard plain true 3 disk' ≡ some (found, later))
    × ((k : String)
        → found k ≡ latest two_puts (left_over plain only_c (contents plain two_keys 3)) k)
unfolding remove_all keep_files same_name
file_read_shard-file_replace_shard_example =
    file_read_shard-file_replace_shard plain plain-IsBase32 3 only_c two_puts two_keys
      (refl, (refl, tt)) (("c", refl), tt)

-- The old value of "c" is still there.
latest_c : latest two_puts (left_over plain only_c (contents plain two_keys 3)) "c" ≡ some "old"
unfolding latest same_name file_get read_file encode_key shard_dir
latest_c = refl

-- The put of "b" failed.
latest_b : latest two_puts (λ j. none) "b" ≡ none
unfolding latest
latest_b = refl

-- It is gone if RemoveAll succeeds.
cleared_c : latest two_puts (left_over plain cleared (contents plain two_keys 3)) "c" ≡ none
unfolding latest
cleared_c = refl
