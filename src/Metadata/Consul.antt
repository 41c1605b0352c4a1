-- ===== src/Metadata/Consul.antt =====
-- The Consul KV store as internal/metadata and internal/mcp use it. `W` is the state of the store;
-- a call that fails returns `none` for its answer, and what it then has done is open.
use xuandu_gateway.Prelude.{ℕ, ◌≡◌, Bool, true, Option, some, List, Text}

pub record Pair : Type 0 where
  pub key : Text
  pub value : Text
  pub modify_index : ℕ

-- The write of a transaction: KVCAS with its value, or KVDeleteCAS.
pub data Verb : Type 0 where
  cas : Text → Verb
  delete_cas : Verb

-- `transact` is the transaction of ConsulStore.transact: the marker's key, the index that it must
-- have (0: it must not exist), the value to set it to, and one write with its key and index.
pub record Consul (W : Type 0) : Type 0 where
  pub get : Text → W → Option (Option Pair)
  pub list : Text → W → Option (List Pair)
  pub put_cas : Text → Text → ℕ → W → W × Option Bool
  pub transact : Text → ℕ → Text → Verb → Text → ℕ → W → W × Option Bool

abbrev pub Holds : {W : Type 0} → Consul W → W → Text → Text → Type 0
Holds c w k v = (p : Pair) × (c.get k w ≡ some (some p)) × (p.value ≡ v)

-- A check-and-set with index 0 creates a key, or finds it there and changes nothing.
pub record CreatesOnly {W : Type 0} (c : Consul W) : Type 0 where
  -- What is read back after a creation is the value that was written.
  pub created :
      (k v : Text) (w : W) → (c.put_cas k v 0 w).1 ≡ some true → Holds c (c.put_cas k v 0 w).0 k v
  -- A key that holds a value goes on to hold it, whatever key is created and whatever the answer.
  pub kept : (k v j u : Text) (w : W) → Holds c w j u → Holds c (c.put_cas k v 0 w).0 j u
