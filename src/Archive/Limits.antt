-- ===== src/Archive/Limits.antt =====
-- internal/archiveidl/fetcher.go: what an unpacked archive holds.
use xuandu_gateway.Prelude.{
  ℕ, suc, ◌+◌, ◌≤◌, ◌<◌, ◌≡◌, inl, inr, true, List, [], ◌∷◌, Text, bytes, has_prefix, has_suffix,
  trim_suffix, Dict, remove, put, ok, length, sum, All, Result-cases, Bool-cases, Option-cases,
  >>=-eq-ok, arith,
}
use xuandu_gateway.Platform.{Platform, ZipEntry}
use xuandu_gateway.Archive.{
  Unpacked, max_file_bytes, max_expanded_bytes, max_files, not_thrift_file, read_entry, unpack_file,
  unpack_entry, unpack_entries, unpack,
}

-- A file of the archive: its name is below idl/ and ends in .thrift, and its size is bounded.
abbrev pub GoodFile : Text × Text → Type 0
GoodFile (name, body) =
    (has_prefix name (bytes "idl/") ≡ true)
    × (has_suffix name (bytes ".thrift") ≡ true)
    × (length body ≤ max_file_bytes)

abbrev pub file_size : Text × Text → ℕ
file_size (name, body) = length body

record Inv (n : ℕ) (u : Unpacked) : Type 0 where
  good : All GoodFile u.files
  sized : sum file_size u.files ≤ u.total
  bounded : u.total ≤ max_expanded_bytes
  counted : length u.files ≤ n

All-remove : (k : Text) (m : Dict Text) → All GoodFile m → All GoodFile (remove k m)
unfolding remove
All-remove k [] h = tt
All-remove k ((j, b) ∷ m) h = ground (arith, All-remove k m h.1)

sum-remove-le : (k : Text) (m : Dict Text) → sum file_size (remove k m) ≤ sum file_size m
unfolding remove
sum-remove-le k [] = omega arith
sum-remove-le k ((j, b) ∷ m) = ground (arith, sum-remove-le k m)

length-remove-le : (k : Text) (m : Dict Text) → length (remove k m) ≤ length m
unfolding remove
length-remove-le k [] = omega arith
length-remove-le k ((j, b) ∷ m) = ground (arith, length-remove-le k m)

-- What is read has the announced size, within the limit of a file.
read_entry-length :
    (f : ZipEntry) (b : Text)
    → read_entry f ≡ ok b
    → (length b ≡ f.size) × (length b ≤ max_file_bytes)
unfolding read_entry
read_entry-length f b e = ground arith

unpack_file-Inv :
    (n : ℕ) (f : ZipEntry) (u u' : Unpacked) → Inv n u → unpack_file f u ≡ ok u' → Inv (suc n) u'
unfolding unpack_file put not_thrift_file
unpack_file-Inv n f u u' v e = elim (Result-cases (read_entry f)) [
  | inr (x, r) ↦ ground arith
  | inl (b, r) ↦
      let sized = read_entry-length f b r in
      record {
        good = ground (arith, v.good, sized, All-remove f.name u.files v.good);
        sized = ground (arith, v.sized, sized, sum-remove-le f.name u.files);
        bounded = ground (arith, v.bounded);
        counted = ground (arith, v.counted, length-remove-le f.name u.files);
      }
]

unpack_entry-Inv :
    (n : ℕ) (f : ZipEntry) (u u' : Unpacked) → Inv n u → unpack_entry f u ≡ ok u' → Inv (suc n) u'
unfolding unpack_entry
unpack_entry-Inv n f u u' v e =
    let file =
      unpack_file-Inv n f (record u { seen = trim_suffix f.name (bytes "/") ∷ u.seen }) u'
        (record { good = v.good; sized = v.sized; bounded = v.bounded; counted = v.counted }) in
    elim (Bool-cases f.is_dir) [
      | inl d ↦ record {
        good = ground (arith, v.good);
        sized = ground (arith, v.sized);
        bounded = ground (arith, v.bounded);
        counted = ground (arith, v.counted);
      }
      | inr d ↦ file (ground arith)
    ]

unpack_entries-Inv :
    (n : ℕ) (fs : List ZipEntry) (u u' : Unpacked)
    → Inv n u
    → unpack_entries fs u ≡ ok u'
    → Inv (length fs + n) u'
unfolding unpack_entries
unpack_entries-Inv n [] u u' v e = record {
  good = ground (arith, v.good);
  sized = ground (arith, v.sized);
  bounded = ground (arith, v.bounded);
  counted = ground (arith, v.counted);
}
unpack_entries-Inv n (f ∷ fs) u u' v e =
    let (m, first, rest) = >>=-eq-ok (unpack_entry f u) (unpack_entries fs) e in
    let w = unpack_entries-Inv (suc n) fs m u' (unpack_entry-Inv n f u m v first) rest in
    record {
      good = w.good;
      sized = w.sized;
      bounded = w.bounded;
      counted = omega (arith, w.counted);
    }

empty-Inv : Inv 0 (record { files = []; seen = []; total = 0 })
empty-Inv = record { good = tt; sized = omega arith; bounded = omega arith; counted = omega arith }

-- Every archive that Unpack accepts has at least one file and at most `max_files`; each file is
-- named below idl/ with the suffix .thrift and holds at most `max_file_bytes`, and all of them
-- together hold at most `max_expanded_bytes`.
pub unpack_bounds :
    (p : Platform) (d : Text) (files : Dict Text)
    → unpack p d ≡ ok files
    → All GoodFile files
      × (sum file_size files ≤ max_expanded_bytes)
      × (0 < length files)
      × (length files ≤ max_files)
unfolding unpack
unpack_bounds p d files e = elim (Option-cases (p.read_zip d)) [
  | inl none_read ↦ ground arith
  | inr (entries, r) ↦
      elim (Result-cases (unpack_entries entries (record { files = []; seen = []; total = 0 }))) [
        | inr (x, q) ↦ ground arith
        | inl (u, q) ↦
            let v = unpack_entries-Inv 0 entries _ u empty-Inv q in
            (
              ground (arith, v.good),
              ground (arith, v.sized, v.bounded),
              ground arith,
              ground (arith, v.counted),
            )
      ]
]
