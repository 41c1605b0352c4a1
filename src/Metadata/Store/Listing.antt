-- ===== src/Metadata/Store/Listing.antt =====
-- internal/metadata/consul_store.go: the applications that Catalog returns.
use xuandu_gateway.Prelude.{
  ℕ, ◌≡◌, sym, subst, inl, inr, not, some, List, [], ◌∷◌, ◌++◌, Text, ◌==◌, eq_iff, text_le, ok,
  ◌>>=◌, refuse-ok, All, All-mono, Some, Bool-cases, Option-cases, Result-cases, >>=-eq-ok, arith,
}
use xuandu_gateway.Platform.{Platform}
use xuandu_gateway.Metadata.Consul.{Pair, Consul}
use xuandu_gateway.Metadata.Model.{App}
use xuandu_gateway.Metadata.Store.{
  AppCodec, key_mismatch, epoch_key, with_index, check_app, decode_app, find_epoch, app_of_pair,
  app_loop, insert_app, sort_apps, catalog,
}

-- The pair from which an application comes: it has the application's key, and its value is that of
-- an application that is allowed, up to the two indices, which are the pair's and the epoch.
abbrev pub ComesFrom : Platform → AppCodec → Text → ℕ → App → Pair → Type 0
ComesFrom p j prefix epoch a pair =
    (pair.key ≡ prefix ++ a.name)
    × ((stored : App) × (j.decode pair.value ≡ some stored)
        × (check_app p stored ≡ ok tt)
        × (a ≡ record stored { catalog_index = epoch; modify_index = pair.modify_index }))

abbrev pub IsListed : Platform → AppCodec → Text → ℕ → List Pair → App → Type 0
IsListed p j prefix epoch pairs a = Some (ComesFrom p j prefix epoch a) pairs

app_of_pair-ComesFrom :
    (p : Platform) (j : AppCodec) (prefix : Text) (epoch : ℕ) (pair : Pair) (a : App)
    → app_of_pair p j prefix epoch pair ≡ ok a
    → ComesFrom p j prefix epoch a pair
unfolding app_of_pair decode_app with_index
app_of_pair-ComesFrom p j prefix epoch pair a e =
    let (b, decoded, e1) = >>=-eq-ok (decode_app p j pair) _ e in
    let (same, e2) = refuse-ok (not (pair.key == prefix ++ b.name)) key_mismatch _ e1 in
    elim (Option-cases (j.decode pair.value)) [
      | inl broken ↦ absurd (ground arith)
      | inr (stored, found) ↦
          let checked : (check_app p stored >>= λ u. ok (with_index pair.modify_index stored))
              ≡ ok b =
            ground arith in
          let (u, allowed, is_b) = >>=-eq-ok (check_app p stored) _ checked in
          (
            ground (arith, eq_iff pair.key (prefix ++ b.name)),
            (stored, found, allowed, ground arith),
          )
    ]

app_loop-IsListed :
    (p : Platform) (j : AppCodec) (prefix : Text) (epoch : ℕ) (pairs : List Pair) (apps : List App)
    → app_loop p j prefix epoch pairs ≡ ok apps
    → All (IsListed p j prefix epoch pairs) apps
unfolding app_loop
app_loop-IsListed p j prefix epoch [] apps e =
    subst (All (IsListed p j prefix epoch [])) {x = []} {y = apps} (ground arith) tt
app_loop-IsListed p j prefix epoch (pair ∷ pairs) apps e =
    elim (Bool-cases (pair.key == epoch_key prefix)) [
      | inl marker ↦
          All-mono (IsListed p j prefix epoch pairs) (λ a h. inr h) apps
            (app_loop-IsListed p j prefix epoch pairs apps (ground arith))
      | inr other ↦
          let whole : (app_of_pair p j prefix epoch pair >>= λ a.
          app_loop p j prefix epoch pairs >>= λ more. ok (a ∷ more))
              ≡ ok apps =
            ground arith in
          let (a, first, e1) = >>=-eq-ok (app_of_pair p j prefix epoch pair) _ whole in
          let (more, rest, e2) = >>=-eq-ok (app_loop p j prefix epoch pairs) _ e1 in
          subst (All (IsListed p j prefix epoch (pair ∷ pairs))) {x = a ∷ more} {y = apps}
            (ground arith)
            (
              inl (app_of_pair-ComesFrom p j prefix epoch pair a first),
              All-mono (IsListed p j prefix epoch pairs) (λ b h. inr h) more
                  (app_loop-IsListed p j prefix epoch pairs more rest),
            )
    ]

insert_app-All :
    (P : App → Type 0) (a : App) (bs : List App) → P a → All P bs → All P (insert_app a bs)
unfolding insert_app
insert_app-All P a [] h g = (h, tt)
insert_app-All P a (b ∷ bs) h g = elim (Bool-cases (text_le a.name b.name)) [
  | inl before ↦ rw before (h, g)
  | inr after ↦ rw after (g.0, insert_app-All P a bs h g.1)
]

sort_apps-All : (P : App → Type 0) (apps' : List App) → All P apps' → All P (sort_apps apps')
unfolding sort_apps
sort_apps-All P [] h = tt
sort_apps-All P (a ∷ more) h = insert_app-All P a (sort_apps more) h.0 (sort_apps-All P more h.1)

-- Every application that Catalog returns comes from a pair that the store lists: the pair has the
-- key of its name, its value decodes to an allowed application, and the application has the index of
-- the pair and the epoch of the marker.
pub catalog-IsListed :
    {W : Type 0} (p : Platform) (c : Consul W) (j : AppCodec) (prefix : Text) (w : W)
    (pairs : List Pair) (apps : List App) (epoch : ℕ)
    → c.list prefix w ≡ some pairs
    → catalog p c j prefix w ≡ ok (apps, epoch)
    → (epoch ≡ find_epoch (epoch_key prefix) pairs 0) × All (IsListed p j prefix epoch pairs) apps
unfolding catalog
catalog-IsListed p c j prefix w pairs apps epoch listed e =
    let found = find_epoch (epoch_key prefix) pairs 0 in
    elim (Result-cases (app_loop p j prefix found pairs)) [
      | inr (f, bad) ↦ absurd (ground arith)
      | inl (unsorted, looped) ↦
          let is_epoch : found ≡ epoch = ground arith in
          let is_apps : sort_apps unsorted ≡ apps = ground arith in
          (
            sym is_epoch,
            subst (λ o. All (IsListed p j prefix o pairs) apps) is_epoch
                (subst (All (IsListed p j prefix found pairs)) is_apps (
                  sort_apps-All (IsListed p j prefix found pairs) unsorted
                    (app_loop-IsListed p j prefix found pairs unsorted looped))),
          )
    ]
