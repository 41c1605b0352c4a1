-- ===== src/Admin/Desired/Refresh.antt =====
-- internal/admin/service.go: a refresh that succeeds has brought the published runtimes to the
-- catalog.
use xuandu_gateway.Prelude.{
  ℕ, ◌≡◌, sym, subst, ◌↔◌, inl, inr, true, false, some, is_some, List, [], ◌∷◌, Text, bytes, ◌==◌,
  Result, ok, is_ok, All, Some, Option-cases, arith,
}
use xuandu_gateway.Metadata.Model.{App}
use xuandu_gateway.Metadata.Store.{StoreError}
use xuandu_gateway.Admin.{Deps, State, runtime_of}
use xuandu_gateway.Admin.Reconcile.{is_behind, is_current, check_converged, reconcile, refresh}
use xuandu_gateway.Admin.Protocol.Sound.{IsSound}
use xuandu_gateway.Admin.Desired.{IsOwner, IsWanted, BuildsConfig, Only}
use xuandu_gateway.Admin.Desired.Reconcile.{reconcile-IsWanted, Some-mono}

-- An application that a runtime can be built for.
abbrev pub IsConfigured : App → Type 0
IsConfigured a = ((a.domain == []) ≡ false) × ((a.idl.kind == bytes "zip") ≡ true)

-- The abstract state that the service keeps: the names of the enabled applications.
abbrev pub IsEnabled : List App → Text → Type 0
IsEnabled apps name = Some (λ a. (a.name ≡ name) × (a.enabled ≡ true)) apps

-- Apart from the application that is being replaced, the service serves the enabled applications and
-- no other, each with the configuration of the list.
pub record Implements {W : Type 0} (d : Deps W) (replacing : Text) (apps : List App) (s : State W)
    : Type 0 where
  pub serves :
      (name : Text)
      → (name == replacing) ≡ false
      → (is_some (runtime_of s name) ≡ true) ↔ IsEnabled apps name
  pub currents :
      All (λ a. a.enabled ≡ true → (a.name == replacing) ≡ false → is_current d a s ≡ true) apps

module _ {W : Type 0} (d : Deps W) (replacing : Text) where
  abbrev IsUpToDate : State W → App → Type 0
  IsUpToDate s a = a.enabled ≡ true → (a.name == replacing) ≡ false → is_current d a s ≡ true

  check_converged-IsUpToDate :
      (s : State W) (apps : List App)
      → All IsConfigured apps
      → is_ok (check_converged d replacing s apps) ≡ true
      → All (IsUpToDate s) apps
  unfolding check_converged is_behind
  check_converged-IsUpToDate s [] configured passed = tt
  check_converged-IsUpToDate s (a ∷ more) (conf, configured) passed =
      (λ on other. ground arith, check_converged-IsUpToDate s more configured (ground arith))

  current-serves :
      (s : State W) (a : App) → is_current d a s ≡ true → is_some (runtime_of s a.name) ≡ true
  unfolding is_current
  current-serves s a current = ground arith

  IsEnabled-serves :
      (s : State W) (apps : List App) (name : Text)
      → (name == replacing) ≡ false
      → All (IsUpToDate s) apps
      → IsEnabled apps name
      → is_some (runtime_of s name) ≡ true
  IsEnabled-serves s [] name other upto nobody = absurd nobody
  IsEnabled-serves s (a ∷ more) name other (this, upto) (inl (same_name, on)) =
      let other_a = subst (λ n. (n == replacing) ≡ false) (sym same_name) other in
      subst (λ n. is_some (runtime_of s n) ≡ true) same_name (current-serves s a (this on other_a))
  IsEnabled-serves s (a ∷ more) name other (this, upto) (inr later) =
      IsEnabled-serves s more name other upto later

  serves-IsEnabled :
      (s : State W) (apps : List App) (name : Text)
      → Only (IsWanted apps) s.manager
      → is_some (runtime_of s name) ≡ true
      → IsEnabled apps name
  serves-IsEnabled s apps name only served = elim (Option-cases (runtime_of s name)) [
    | inl gone ↦ absurd (ground arith)
    | inr (r, found) ↦
        let domain = (s.manager.heap r).info.config.domain in
        Some-mono (IsOwner name domain) (λ a. (a.name ≡ name) × (a.enabled ≡ true))
          (λ a h. (h.0, h.1)) apps (only name r found)
  ]

  -- A refresh that succeeds, of a service that is not stopping and whose manager is open, leaves the
  -- service serving the catalog: apart from the application that is being replaced, a name has a
  -- runtime exactly if the catalog has an enabled application of that name, and each enabled
  -- application has a runtime of its configuration. The catalog must hold only ZIP applications with
  -- a domain; the builder is assumed to keep the application in the runtime.
  pub refresh-Implements :
      BuildsConfig d
      → (s : State W) (catalog : W → Result StoreError (List App × ℕ)) (apps : List App) (epoch : ℕ)
      → IsSound d s.fresh s.manager
      → s.manager.closed ≡ false
      → s.stopping ≡ false
      → d.store.catalog ≡ some catalog
      → catalog s.world ≡ ok (apps, epoch)
      → All IsConfigured apps
      → (refresh d replacing s).1 ≡ ok epoch
      → Implements d replacing apps (refresh d replacing s).0
  unfolding refresh
  refresh-Implements keeps s catalog apps epoch sound was working is read configured fine =
      let s1 = reconcile d apps s in
      let only = reconcile-IsWanted d keeps apps s sound was working in
      let passed : is_ok (check_converged d replacing s1 apps) ≡ true = ground arith in
      let upto = check_converged-IsUpToDate s1 apps configured passed in
      subst (Implements d replacing apps) {x = s1} {y = (refresh d replacing s).0} (ground arith)
        (record {
          serves = λ name other. (
            λ served. serves-IsEnabled s1 apps name only served,
            λ on. IsEnabled-serves s1 apps name other upto on,
          );
          currents = upto;
        })
