-- ===== src/Metadata/Store.antt =====
-- internal/metadata/consul_store.go: applications in Consul. `W` is the state of Consul; the waiting
-- of a blocking query is left out.
pub mod Fence
pub mod Listing
use xuandu_gateway.Prelude.{
  ℕ, ◌+◌, Bool, true, false, not, ◌&&◌, ◌||◌, Option, none, some, List, [], ◌∷◌, ◌++◌, Text, bytes,
  ◌==◌, itoa, text_le, Result, ok, err, ◌>>=◌, ◌>>◌, refuse, map_err, if◌then◌else◌,
}
use xuandu_gateway.Platform.{Platform}
use xuandu_gateway.Metadata.Consul.{Pair, Verb, cas, delete_cas, Consul}
use xuandu_gateway.Metadata.Model.{
  App, ModelError, name_pattern, revision_pattern, validate, validate_stored,
}

-- encoding/json on applications; Marshal does not fail on this type.
pub record AppCodec : Type 0 where
  pub encode : App → Text
  pub decode : Text → Option App

pub data StoreError : Type 0 where
  invalid_app_name invalid_json invalid_legacy_name revision_missing not_found : StoreError
  key_mismatch unavailable conflict : StoreError
  invalid_app : ModelError → StoreError

-- ConsulStore.key
unfoldable pub app_key : Text → Text → Result StoreError Text
app_key prefix name = do refuse (not (name_pattern name)) invalid_app_name; ok (prefix ++ name)

unfoldable pub epoch_key : Text → Text
epoch_key prefix = prefix ++ bytes "_catalog"

unfoldable pub with_index : ℕ → App → App
with_index i a = record a { modify_index = i }

unfoldable pub check_app : Platform → App → Result StoreError (Unit {0})
check_app p a =
    if a.idl.kind == bytes "git"
    then refuse (not (name_pattern a.name)) invalid_legacy_name
    else (do
      map_err invalid_app (validate_stored p a)
      refuse (not (revision_pattern a.idl.resolved_revision)) revision_missing)

-- decode
unfoldable pub decode_app : Platform → AppCodec → Pair → Result StoreError App
decode_app p j pair = elim (j.decode pair.value) [
  | none ↦ err invalid_json
  | some a ↦ check_app p a >>= λ u. ok (with_index pair.modify_index a)
]

-- The epoch: the index of the last pair with the marker's key, 0 without one.
unfoldable pub find_epoch : Text → List Pair → ℕ → ℕ
find_epoch key [] epoch = epoch
find_epoch key (pair ∷ pairs) epoch =
    find_epoch key pairs (if pair.key == key then pair.modify_index else epoch)

unfoldable pub app_of_pair : Platform → AppCodec → Text → ℕ → Pair → Result StoreError App
app_of_pair p j prefix epoch pair = do
  a ← decode_app p j pair
  refuse (not (pair.key == prefix ++ a.name)) key_mismatch
  ok (record a { catalog_index = epoch })

unfoldable pub app_loop : Platform → AppCodec → Text → ℕ → List Pair → Result StoreError (List App)
app_loop p j prefix epoch [] = ok []
app_loop p j prefix epoch (pair ∷ pairs) = elim (pair.key == epoch_key prefix) [
  | true ↦ app_loop p j prefix epoch pairs
  | false ↦ app_of_pair p j prefix epoch pair >>= λ a.
      app_loop p j prefix epoch pairs >>= λ more. ok (a ∷ more)
]

unfoldable pub insert_app : App → List App → List App
insert_app a [] = a ∷ []
insert_app a (b ∷ bs) =
    let rest = insert_app a bs in if text_le a.name b.name then a ∷ b ∷ bs else b ∷ rest

-- sort.Slice by name
unfoldable pub sort_apps : List App → List App
sort_apps [] = []
sort_apps (a ∷ more) = insert_app a (sort_apps more)

module _ {W : Type 0} (p : Platform) (c : Consul W) (j : AppCodec) (prefix : Text) where
  -- Get
  unfoldable pub get_app : Text → W → Result StoreError App
  get_app name w = do
    key ← app_key prefix name
    elim (c.get key w) [
      | none ↦ err unavailable
      | some none ↦ err not_found
      | some (some pair) ↦ (do
        a ← decode_app p j pair
        refuse (not (a.name == name)) key_mismatch
        ok a)
    ]

  -- Catalog: the applications by name, and the epoch.
  unfoldable pub catalog : W → Result StoreError (List App × ℕ)
  catalog w = elim (c.list prefix w) [
    | none ↦ err unavailable
    | some pairs ↦
        let epoch = find_epoch (epoch_key prefix) pairs 0 in
        app_loop p j prefix epoch pairs >>= λ apps. ok (sort_apps apps, epoch)
  ]

  unfoldable pub transact : Verb → Text → ℕ → ℕ → W → W × Result StoreError (Unit {0})
  transact verb key index epoch w =
      let (w', answer) = c.transact (epoch_key prefix) epoch (itoa (epoch + 1)) verb key index w in
      (
        w',
        elim answer [ none ↦ err unavailable | some done ↦ if done then ok tt else err conflict ],
      )

  -- CompareAndSwap before the transaction: the key of the application.
  unfoldable pub check_write : App → Result StoreError Text
  check_write a = do
    map_err invalid_app (validate p a)
    refuse (not (revision_pattern a.idl.resolved_revision)) revision_missing
    app_key prefix a.name

  unfoldable pub compare_and_swap : App → ℕ → W → W × Result StoreError (Unit {0})
  compare_and_swap a index w = elim (check_write a) [
    | err e ↦ (w, err e)
    | ok key ↦ transact (cas (j.encode a)) key index a.catalog_index w
  ]

  unfoldable pub create : App → W → W × Result StoreError (Unit {0})
  create a w = compare_and_swap a 0 w

  -- Delete before the transaction: the key and the epoch.
  unfoldable pub check_delete : Text → W → Result StoreError (Text × ℕ)
  check_delete name w = do key ← app_key prefix name; (apps, epoch) ← catalog w; ok (key, epoch)

  unfoldable pub delete : Text → ℕ → W → W × Result StoreError (Unit {0})
  delete name index w = elim (check_delete name w) [
    | err e ↦ (w, err e)
    | ok (key, epoch) ↦ transact delete_cas key index epoch w
  ]
