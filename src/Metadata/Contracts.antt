-- ===== src/Metadata/Contracts.antt =====
-- internal/metadata/contracts.go: contracts as immutable chunks with a completion marker.
pub mod RoundTrip
use xuandu_gateway.Prelude.{
  ℕ, zero, suc, ◌+◌, ◌-◌, ◌*◌, ◌^◌, min, Bool, true, false, not, ◌&&◌, ◌||◌, Option, none, some,
  List, [], ◌∷◌, ◌++◌, Text, bytes, ◌==◌, trim_suffix, itoa, pad6, atoi, Result, ok, err, ◌>>=◌,
  ◌>>◌, refuse, map_err, if◌then◌else◌, ltb, eqb, length, take, drop,
}
use xuandu_gateway.Platform.{Platform}
use xuandu_gateway.Archive.{Revision, ArchiveError, unpack, max_archive_bytes}
use xuandu_gateway.Metadata.Model.{revision_pattern}
use xuandu_gateway.Metadata.Consul.{Pair, Consul}

pub data ContractError : Type 0 where
  invalid_revision invalid_archive persistence_failed content_conflict : ContractError
  unavailable missing invalid_size invalid_chunk digest_mismatch out_of_fuel : ContractError
  unpacking : ArchiveError → ContractError

-- contractChunkSize
unfoldable pub chunk_size : ℕ
chunk_size = 256 * 2 ^ 10

unfoldable pub contract_key : Text → Text → Result ContractError Text
contract_key prefix digest = do
  refuse (not (revision_pattern digest)) invalid_revision
  ok (trim_suffix prefix (bytes "/") ++ (bytes "-contracts/" ++ (digest ++ bytes "/")))

unfoldable pub chunk_key : Text → ℕ → Text
chunk_key key i = key ++ pad6 i

unfoldable pub marker_key : Text → Text
marker_key key = key ++ bytes "complete"

unfoldable pub invalid_contract : Platform → Revision → Bool
invalid_contract p r =
    eqb (length r.archive) 0
    || ltb max_archive_bytes (length r.archive)
    || not (p.sha256_hex r.archive == r.digest)

module _ {W : Type 0} (c : Consul W) where
  unfoldable pub compare_stored : Text → Text → W → Result ContractError (Unit {0})
  compare_stored key content w = elim (c.get key w) [
    | none ↦ err content_conflict
    | some none ↦ err content_conflict
    | some (some p) ↦ refuse (not (p.value == content)) content_conflict
  ]

  unfoldable pub settle : Text → Text → W → Option Bool → Result ContractError (Unit {0})
  settle key content w none = err persistence_failed
  settle key content w (some true) = ok tt
  settle key content w (some false) = compare_stored key content w

  -- putImmutable
  unfoldable pub put_immutable : Text → Text → W → W × Result ContractError (Unit {0})
  put_immutable key content w =
      let (w', answer) = c.put_cas key content 0 w in (w', settle key content w' answer)

  -- The loop of PutContract over the chunks from the i-th on, `rest` being what is left of the
  -- archive. Each round takes a byte or more, so that its length is enough fuel.
  unfoldable pub put_chunks : ℕ → Text → ℕ → Text → W → W × Result ContractError (Unit {0})
  put_chunks zero key i rest w = (w, if rest == [] then ok tt else err out_of_fuel)
  put_chunks (suc fuel) key i rest w =
      let (w', r) = put_immutable (chunk_key key i) (take chunk_size rest) w in
      let go_on = put_chunks fuel key (i + 1) (drop chunk_size rest) w' in
      if rest == [] then (w, ok tt) else elim r [ err e ↦ (w', err e) | ok x ↦ go_on ]

  unfoldable pub put_archive : Text → Text → W → W × Result ContractError (Unit {0})
  put_archive key content w =
      let (w', r) = put_chunks (length content) key 0 content w in
      elim r [
        | err e ↦ (w', err e)
        | ok x ↦ put_immutable (marker_key key) (itoa (length content)) w'
      ]

  unfoldable pub put_contract : Platform → Text → Revision → W → W × Result ContractError (Unit {0})
  put_contract p prefix r w = elim (contract_key prefix r.digest) [
    | err e ↦ (w, err e)
    | ok key ↦
        if invalid_contract p r then (w, err invalid_archive) else put_archive key r.archive w
  ]

  -- The closure `get` of GetContract.
  unfoldable pub get_value : Text → W → Result ContractError Text
  get_value key w = elim (c.get key w) [
    | none ↦ err unavailable
    | some none ↦ err missing
    | some (some p) ↦ ok p.value
  ]

  unfoldable pub stored_size : Text → W → Result ContractError ℕ
  stored_size key w = do
    marker ← get_value (marker_key key) w
    elim (atoi marker) [
      | none ↦ err invalid_size
      | some n ↦ if eqb n 0 || ltb max_archive_bytes n then err invalid_size else ok n
    ]

  -- The loop of GetContract, with `content` read so far; each round reads a byte or more.
  unfoldable pub get_chunks : ℕ → Text → ℕ → ℕ → Text → W → Result ContractError Text
  get_chunks zero key i size content w =
      if ltb (length content) size then err out_of_fuel else ok content
  get_chunks (suc fuel) key i size content w =
      let next_round = λ (part : Text). get_chunks fuel key (i + 1) size (content ++ part) w in
      if ltb (length content) size
      then (do
        part ← get_value (chunk_key key i) w
        refuse (not (eqb (length part) (min chunk_size (size - length content)))) invalid_chunk
        next_round part)
      else ok content

  unfoldable pub get_contract : Platform → Text → Text → W → Result ContractError Revision
  get_contract p prefix digest w = do
    key ← contract_key prefix digest
    size ← stored_size key w
    content ← get_chunks size key 0 size [] w
    refuse (not (p.sha256_hex content == digest)) digest_mismatch
    files ← map_err unpacking (unpack p content)
    ok (record { archive = content; digest = digest; files = files })
