-- ===== src/Examples/Stores.antt =====
-- Witnesses for internal/metadata/consul_store.go: a store that keeps the marker and one pair.
use xuandu_gateway.Metadata.Domain.{normalize_domain}
use xuandu_gateway.Prelude.{
  ℕ, suc, ap, inl, inr, Bool-cases, Text, eq_of_==, ◌≡◌, ◌≢◌, refl, Bool, true, false, ◌==◌,
  if◌then◌else◌, Option, none, some, List, [], ◌∷◌, bytes, ok, arith, eqb, All, trim_suffix,
  to_lower, trim_space, split,
}
use xuandu_gateway.Metadata.Consul.{Pair, Consul}
use xuandu_gateway.Metadata.Model.{App, validate, validate_stored}
use xuandu_gateway.Metadata.Store.{
  AppCodec, epoch_key, find_epoch, compare_and_swap, catalog, check_write, app_key, transact,
  app_loop, app_of_pair, decode_app, check_app, with_index, sort_apps, insert_app,
}
use xuandu_gateway.Metadata.Store.Fence.{Fences, Sets, now, stale_write_refused}
use xuandu_gateway.Metadata.Store.Listing.{IsListed, catalog-IsListed}
use xuandu_gateway.Examples.World.{platform, app}

abbrev pair : Pair
pair = record { key = bytes "x/app"; value = []; modify_index = 3 }

-- The state is the index and the value of the marker.
abbrev Marker : Type 0
Marker = ℕ × Option Text

abbrev has_value : Option Text → Text → Bool
has_value none v = false
has_value (some u) v = u == v

-- A marker that is set to the value that it has keeps its index.
abbrev step : ℕ → Text → Marker → Marker × Option Bool
step i v (n, o) =
    if eqb i n
    then ((if has_value o v then n else suc n, some v), some true)
    else ((n, o), some false)

abbrev store : Consul Marker
store = record {
  get = λ k w. some none;
  list =
      λ k w. some (pair ∷ record { key = bytes "x/_catalog"; value = []; modify_index = w.0 } ∷ []);
  put_cas = λ k v i w. (w, none);
  transact = λ k i v verb key n w. step i v w;
}

abbrev marker_index : Text → Marker → ℕ
marker_index k w = w.0

abbrev marker_value : Text → Marker → Option Text
marker_value k w = w.1

has_value-eq : (o : Option Text) (v : Text) → has_value o v ≡ true → o ≡ some v
has_value-eq none v e = cc
has_value-eq (some u) v e = ap some (eq_of_== u v e)

step-Sets :
    (k v : Text) (i : ℕ) (w : Marker)
    → eqb i w.0 ≡ true
    → Sets marker_index marker_value k v i w (step i v w).0
step-Sets k v i (n, o) hit = record {
  was = ground arith;
  set = ground arith;
  no_lower = ground arith;
  higher = λ differs. elim (Bool-cases (has_value o v)) [
    | inl held ↦ absurd (differs (has_value-eq o v held))
    | inr other ↦ ground arith
  ];
}

abbrev store-Fences : Fences store
store-Fences = record {
  index = marker_index;
  value = marker_value;
  decided = λ k v key i n verb w apart. elim (Bool-cases (eqb i w.0)) [
    | inl hit ↦ inr (step-Sets k v i w hit)
    | inr miss ↦ inl (ground arith, ground arith)
  ];
  done = λ k v key i n verb w apart e. elim (Bool-cases (eqb i w.0)) [
    | inl hit ↦ step-Sets k v i w hit
    | inr miss ↦ absurd (ground arith)
  ];
}

abbrev codec : AppCodec
codec = record { encode = λ a. []; decode = λ s. some (record app { modify_index = 0 }) }

-- Two changes on the basis of the catalog with epoch 0.
abbrev change : App
change = record app { catalog_index = 0 }

abbrev empty : Marker
empty = (0, none)

writes : (compare_and_swap platform store codec (bytes "x/") change 3 empty).1 ≡ ok tt
unfolding compare_and_swap check_write validate normalize_domain trim_suffix to_lower trim_space
    split app_key transact ◌==◌ bytes app_loop app_of_pair decode_app check_app validate_stored
    with_index sort_apps insert_app epoch_key find_epoch catalog
writes = refl

stale_write_refused_example :
    (compare_and_swap platform store codec
      (bytes "x/")
      change
      3
      (compare_and_swap platform store codec (bytes "x/") change 3 empty).0).1
    ≢ ok tt
stale_write_refused_example =
    stale_write_refused platform store codec (bytes "x/") store-Fences change change 3 3 empty empty
      (compare_and_swap platform store codec (bytes "x/") change 3 empty).0 refl now writes now
      (omega arith)

abbrev listed_pairs : List Pair
listed_pairs = pair ∷ record { key = bytes "x/_catalog"; value = []; modify_index = 4 } ∷ []

abbrev listed : App
listed = record app { catalog_index = 4; modify_index = 3 }

lists : catalog platform store codec (bytes "x/") (4, none) ≡ ok (listed ∷ [], 4)
unfolding catalog app_loop ◌==◌ bytes epoch_key app_of_pair decode_app check_app validate_stored
    normalize_domain trim_suffix to_lower trim_space split with_index sort_apps find_epoch
    insert_app
lists = refl

catalog-IsListed_example :
    (4 ≡ find_epoch (epoch_key (bytes "x/")) listed_pairs 0)
    × All (IsListed platform codec (bytes "x/") 4 listed_pairs) (listed ∷ [])
catalog-IsListed_example =
    catalog-IsListed platform store codec (bytes "x/") (4, none) listed_pairs (listed ∷ []) 4 refl
      lists
