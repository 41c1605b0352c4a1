-- ===== src/Platform.antt =====
-- The functions of Go's standard library that the program calls on texts and whose results it only
-- reads through the fields below: net.ParseIP with IP.String, time.ParseDuration, url.Parse,
-- crypto/sha256 and archive/zip. Every component that calls them takes a `Platform` as a parameter.
use xuandu_gateway.Prelude.{ℕ, ◌≡◌, Bool, Option, some, List, Text}

-- The fields of url.URL that the program reads.
pub record Url : Type 0 where
  pub scheme : Text
  pub host : Text
  pub path : Text
  pub raw_path : Text
  pub escaped_path : Text
  pub raw_query : Text
  pub fragment : Text
  pub opaque_part : Text
  pub has_user : Bool
  pub force_query : Bool

-- An entry of a ZIP archive: whether its mode has a type bit other than the directory's, and its
-- content, where opening it (outer) and reading it to the end (inner) succeed.
pub record ZipEntry : Type 0 where
  pub name : Text
  pub special : Bool
  pub is_dir : Bool
  pub is_regular : Bool
  pub size : ℕ
  pub content : Option (Option Text)

pub record Platform : Type 0 where
  -- The canonical text of an IP literal.
  pub parse_ip : Text → Option Text
  -- Nanoseconds; `none` for an error and for a duration that is not positive.
  pub parse_duration : Text → Option ℕ
  pub parse_url : Text → Option Url
  -- The digest in lower-case hexadecimal.
  pub sha256_hex : Text → Text
  -- zip.NewReader
  pub read_zip : Text → Option (List ZipEntry)

-- The canonical text of an address is read back as that address.
pub record IsCanonicalIp (p : Platform) : Type 0 where
  pub canonical : (s t : Text) → p.parse_ip s ≡ some t → p.parse_ip t ≡ some t
