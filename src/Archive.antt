-- ===== src/Archive.antt =====
-- internal/archiveidl/fetcher.go: the limits on a downloaded archive and the checks on its entries.
pub mod Limits
use xuandu_gateway.Prelude.{
  ℕ, zero, suc, ◌+◌, ◌-◌, ◌*◌, ◌^◌, Bool, true, false, not, ◌&&◌, ◌||◌, Option, none, some, is_some,
  List, [], ◌∷◌, Text, bytes, ◌==◌, has_prefix, has_suffix, trim_suffix, contains_any, mem_text,
  Dict, lookup, put, keys, Result, ok, err, ◌>>=◌, ◌>>◌, refuse, if◌then◌else◌, ltb, leb, eqb,
  length, take, any, clean, dir, is_abs,
}
use xuandu_gateway.Platform.{Platform, ZipEntry, Url}

pub data ArchiveError : Type 0 where
  not_zip invalid_zip too_many_entries outside_idl duplicate_entry special_entry : ArchiveError
  invalid_directory not_thrift expanded_too_large cannot_read corrupt_entry path_conflict :
      ArchiveError
  no_files : ArchiveError
  invalid_url http_required download_failed bad_status too_large interrupted digest_differs :
      ArchiveError

-- The sizes in bytes are shut: a proof reads them through their lemmas.
unfoldable pub max_archive_bytes : ℕ
max_archive_bytes = 32 * 2 ^ 20

unfoldable pub max_expanded_bytes : ℕ
max_expanded_bytes = 64 * 2 ^ 20

unfoldable pub max_file_bytes : ℕ
max_file_bytes = 8 * 2 ^ 20

unfoldable pub max_files : ℕ
max_files = 1024

pub record Revision : Type 0 where
  pub archive : Text
  pub digest : Text
  pub files : Dict Text

-- The variables of the loop over the entries.
pub record Unpacked : Type 0 where
  pub files : Dict Text
  pub seen : List Text
  pub total : ℕ

unfoldable pub bad_name : Text → Bool
bad_name name =
    let plain = trim_suffix name (bytes "/") in
    plain == []
    || not (clean plain == plain)
    || contains_any plain (b'\\' ∷ 0 ∷ [])
    || is_abs plain
    || (not (plain == bytes "idl") && not (has_prefix plain (bytes "idl/")))

unfoldable pub not_thrift_file : ZipEntry → Bool
not_thrift_file f =
    not f.is_regular
    || not (has_prefix f.name (bytes "idl/"))
    || not (has_suffix f.name (bytes ".thrift"))

-- The content of an entry, read up to one byte beyond the limit of a file.
unfoldable pub read_entry : ZipEntry → Result ArchiveError Text
read_entry f = elim f.content [
  | none ↦ err cannot_read
  | some none ↦ err corrupt_entry
  | some (some body) ↦
      let b = take (suc max_file_bytes) body in
      if ltb max_file_bytes (length b) || not (eqb (length b) f.size)
      then err corrupt_entry
      else ok b
]

unfoldable pub unpack_file : ZipEntry → Unpacked → Result ArchiveError Unpacked
unpack_file f u = do
  refuse (not_thrift_file f) not_thrift
  refuse (ltb max_file_bytes f.size || ltb (max_expanded_bytes - u.total) f.size) expanded_too_large
  b ← read_entry f
  ok (record u { files = put f.name b u.files; total = u.total + f.size })

unfoldable pub unpack_entry : ZipEntry → Unpacked → Result ArchiveError Unpacked
unpack_entry f u = do
  let plain = trim_suffix f.name (bytes "/")
  refuse (bad_name f.name) outside_idl
  refuse (mem_text plain u.seen) duplicate_entry
  refuse f.special special_entry
  (if f.is_dir
      then (refuse (not (has_suffix f.name (bytes "/")) || not (eqb f.size 0)) invalid_directory
          >>= λ _. ok (record u { seen = plain ∷ u.seen }))
      else unpack_file f (record u { seen = plain ∷ u.seen }))

unfoldable pub unpack_entries : List ZipEntry → Unpacked → Result ArchiveError Unpacked
unpack_entries [] u = ok u
unpack_entries (f ∷ fs) u = unpack_entry f u >>= unpack_entries fs

-- `for parent := path.Dir(name); parent != "."; parent = path.Dir(parent)`: a parent is shorter
-- than its child, so that the length of the name is enough fuel.
unfoldable pub parent_in : ℕ → Dict Text → Text → Bool
parent_in zero files parent = false
parent_in (suc fuel) files parent =
    let rest = parent_in fuel files (dir parent) in
    if parent == bytes "." then false else is_some (lookup parent files) || rest

unfoldable pub any_conflict : Dict Text → List Text → Bool
any_conflict files names = any (λ name. parent_in (length name) files (dir name)) names

unfoldable pub is_zip_header : Text → Bool
is_zip_header d = take 4 d == (b'P' ∷ b'K' ∷ 3 ∷ 4 ∷ [])

unfoldable pub unpack : Platform → Text → Result ArchiveError (Dict Text)
unpack p d = do
  refuse (ltb max_archive_bytes (length d) || ltb (length d) 4 || not (is_zip_header d)) not_zip
  elim (p.read_zip d) [
    | none ↦ err invalid_zip
    | some entries ↦ (do
      refuse (ltb max_files (length entries)) too_many_entries
      u ← unpack_entries entries (record { files = []; seen = []; total = 0 })
      refuse (any_conflict u.files (keys u.files)) path_conflict
      refuse (eqb (length u.files) 0) no_files
      ok u.files)
  ]

-- The answer to a download: status, announced length (0 for none), and the body if it arrives.
pub record Download : Type 0 where
  pub status : ℕ
  pub content_length : ℕ
  pub body : Option Text

-- HTTPFetcher.Resolve; `fetch` is the HTTP client, `none` for a failed request. The caller passes
-- an empty digest for any.
unfoldable pub resolve :
    Platform → (Text → Option Download) → Text → Text → Result ArchiveError Revision
resolve p fetch url expected = do
  scheme ← elim (p.parse_url url) [ none ↦ err invalid_url | some u ↦ ok u.scheme ]
  refuse (not (scheme == bytes "http") && not (scheme == bytes "https")) http_required
  resp ← elim (fetch url) [ none ↦ err download_failed | some r ↦ ok r ]
  refuse (not (eqb resp.status 200)) bad_status
  refuse (ltb max_archive_bytes resp.content_length) too_large
  all_of ← elim resp.body [ none ↦ err interrupted | some b ↦ ok b ]
  let d = take (suc max_archive_bytes) all_of
  refuse (ltb max_archive_bytes (length d)) too_large
  refuse (not (expected == []) && not (p.sha256_hex d == expected)) digest_differs
  files ← unpack p d
  ok (record { archive = d; digest = p.sha256_hex d; files = files })
