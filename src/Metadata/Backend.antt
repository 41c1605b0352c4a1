-- ===== src/Metadata/Backend.antt =====
-- internal/metadata/model.go: the interfaces Store and CatalogStore, through which the
-- administration service uses the metadata, and ConsulStore as one of them. Watch stands in
-- Metadata.Watch.
use xuandu_gateway.Prelude.{ℕ, Option, some, List, Text, ok, Result, ◌>>=◌}
use xuandu_gateway.Platform.{Platform}
use xuandu_gateway.Archive.{Revision}
use xuandu_gateway.Metadata.Consul.{Consul}
use xuandu_gateway.Metadata.Contracts.{ContractError, put_contract, get_contract}
use xuandu_gateway.Metadata.Model.{App}
use xuandu_gateway.Metadata.Store.{
  AppCodec, StoreError, get_app, catalog, create, compare_and_swap, delete,
}

-- `W` is the state of the store. `catalog` is there if the store is a CatalogStore.
pub record Store (W : Type 0) : Type 0 where
  pub put_contract : Revision → W → W × Result ContractError (Unit {0})
  pub get_contract : Text → W → Result ContractError Revision
  pub get : Text → W → Result StoreError App
  pub list : W → Result StoreError (List App)
  pub create : App → W → W × Result StoreError (Unit {0})
  pub compare_and_swap : App → ℕ → W → W × Result StoreError (Unit {0})
  pub delete : Text → ℕ → W → W × Result StoreError (Unit {0})
  pub catalog : Option (W → Result StoreError (List App × ℕ))

-- ConsulStore with the keys under `prefix`.
unfoldable pub consul_store : {W : Type 0} → Platform → Consul W → AppCodec → Text → Store W
consul_store p c j prefix = record {
  put_contract = put_contract c p prefix;
  get_contract = get_contract c p prefix;
  get = get_app p c j prefix;
  list = λ w. catalog p c j prefix w >>= λ (apps, epoch). ok apps;
  create = create p c j prefix;
  compare_and_swap = compare_and_swap p c j prefix;
  delete = delete p c j prefix;
  catalog = some (catalog p c j prefix);
}
