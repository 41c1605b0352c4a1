-- ===== src/Admin/Desired.antt =====
-- internal/admin/service.go: what the names and domains of the published runtimes are, and how the
-- steps of the service change that.
pub mod Settle
pub mod Reconcile
pub mod Refresh
use xuandu_gateway.Prelude.{
  ℕ, suc, ◌<◌, ◌≡◌, refl, sym, ap, subst, ◌∙◌, ◌⊎◌, inl, inr, Bool, true, false, Option, none, some,
  List, [], ◌∷◌, Text, ◌==◌, eq_iff, Dict, lookup, ok, err, is_ok, All, Some, Bool-cases,
  Result-cases, arith, eqb, if◌then◌else◌,
}
use xuandu_gateway.Prelude.Maps.{All-lookup}
use xuandu_gateway.Idl.Ast.{Bundle, Route}
use xuandu_gateway.Archive.{Revision}
use xuandu_gateway.Metadata.Model.{App}
use xuandu_gateway.Runtime.Heap.{Address, Heap, Info, update, close_cell}
use xuandu_gateway.Runtime.Manager.{Manager, replace_runtime, close_runtime, publish}
use xuandu_gateway.Runtime.Manager.Effect.{Publishes, Extends, publish-IsDecided}
use xuandu_gateway.Runtime.Manager.Fits.{removal-ok}
use xuandu_gateway.Admin.{
  Deps, State, runtime_of, info_of, allocate, discard, publish_app, republish, note,
}
use xuandu_gateway.Admin.Accounts.{lookup-replace_runtime}
use xuandu_gateway.Admin.Protocol.Sound.{IsSound}

-- The application of the list that a runtime of a name and a domain belongs to.
abbrev pub IsOwner : Text → Text → App → Type 0
IsOwner name domain a = (a.name ≡ name) × (a.enabled ≡ true) × (a.domain ≡ domain)

-- An enabled application of the list has the name and the domain.
abbrev pub IsWanted : List App → Text → Text → Type 0
IsWanted apps name domain = Some (IsOwner name domain) apps

-- What Builder.Build documents: the runtime keeps the application that it has been built for.
abbrev pub BuildsConfig : {W : Type 0} → Deps W → Type 0
BuildsConfig {W = W} d =
    (a : App) (r : Revision) (bundles : List Bundle) (routes : List Route) (w : W) (info : Info)
    → d.build a r bundles routes w ≡ some info
    → info.config ≡ a

-- `P` holds for the name and the domain of every published runtime.
abbrev pub Only : (Text → Text → Type 0) → Manager → Type 0
Only P m =
    (name : Text) (r : Address)
    → lookup name m.current.runtimes ≡ some r
    → P name (m.heap r).info.config.domain

abbrev pub CandidateHas : (Text → Text → Type 0) → Text → Manager → Option Address → Type 0
CandidateHas P name m none = Unit
CandidateHas P name m (some c) = P name (m.heap c).info.config.domain

module _ (P : Text → Text → Type 0) {W : Type 0} (d : Deps W) where
  Publishes-Only :
      (name : Text) (next : Option Address) (m m' : Manager)
      → Publishes d.platform d.router name next m m'
      → CandidateHas P name m next
      → Only P m
      → Only P m'
  Publishes-Only name next m m' done candidate only n r found =
      let before : (if name == n then next else lookup n m.current.runtimes) ≡ some r =
        sym (ap (lookup n) done.runtimes ∙ lookup-replace_runtime name n next m.current.runtimes)
        ∙ found in
      let same_domain = ap (λ (i : Info). i.config.domain) (sym (done.extends.infos r)) in
      subst (P n) same_domain (elim (Bool-cases (name == n)) [
        | inr other ↦ only n r (ground arith)
        | inl hit ↦
            let at_n : name ≡ n = ground (arith, eq_iff name n) in
            let is_next : next ≡ some r = ground arith in
            subst (λ x. P x (m.heap r).info.config.domain) at_n
              (subst (CandidateHas P name m) is_next candidate)
      ])

  pub publish_app-Only :
      (persist : W → W × Bool) (name : Text) (next : Option Address) (s : State W)
      → CandidateHas P name s.manager next
      → Only P s.manager
      → Only P (publish_app d persist name next s).0.manager
  unfolding publish_app
  publish_app-Only persist name next s candidate only =
      let m' = (publish_app d persist name next s).0.manager in
      elim (publish-IsDecided d.platform d.router persist name next s.world s.manager) [
        | inl (failed, same_manager) ↦ subst (Only P) (sym same_manager) only
        | inr (fine, w, saved, done) ↦ Publishes-Only name next s.manager m' done candidate only
      ]

  pub republish-Only :
      (name : Text) (s : State W) → Only P s.manager → Only P (republish d name none s).0.manager
  unfolding republish
  republish-Only name s only = publish_app-Only (λ w. (w, true)) name none s tt only

  pub allocate-Only :
      (info : Info) (s : State W)
      → IsSound d s.fresh s.manager
      → Only P s.manager
      → Only P (allocate info s).0.manager
  unfolding allocate update
  allocate-Only info s sound only name r found =
      let lt : r < s.fresh =
        All-lookup (λ e. e.1 < s.fresh) s.manager.current.runtimes name r sound.below found in
      let same_domain : (s.manager.heap r).info.config.domain
          ≡ ((allocate info s).0.manager.heap r).info.config.domain =
        ground arith in
      subst (P name) same_domain (only name r found)

  pub discard-Only : (c : Address) (s : State W) → Only P s.manager → Only P (discard c s).manager
  unfolding discard close_runtime close_cell update
  discard-Only c s only name r found =
      let same_domain : (s.manager.heap r).info.config.domain
          ≡ ((discard c s).manager.heap r).info.config.domain =
        ground arith in
      subst (P name) same_domain (only name r found)

-- What the removal of a sound runtime from an open manager does.
pub record IsRemoved {W : Type 0} (d : Deps W) (name : Text) (s s' : State W) : Type 0 where
  pub still_open : s'.manager.closed ≡ false
  pub gone : s'.manager.current.runtimes ≡ replace_runtime name none s.manager.current.runtimes
  pub infos : (a : Address) → (s'.manager.heap a).info ≡ (s.manager.heap a).info

pub republish-IsRemoved :
    {W : Type 0} (d : Deps W) (name : Text) (s : State W)
    → IsSound d s.fresh s.manager
    → s.manager.closed ≡ false
    → IsRemoved d name s (republish d name none s).0
unfolding republish publish_app
republish-IsRemoved {W = W} d name s sound was =
    let keep : W → W × Bool = λ w. (w, true) in
    elim (publish-IsDecided d.platform d.router keep name none s.world s.manager) [
      | inl (failed, same_manager) ↦
          absurd
            (ground (arith, removal-ok d.platform d.router name s.world s.manager was sound.fits))
      | inr (fine, w, saved, done) ↦ record {
        still_open = ground (arith, done.extends.shuts);
        gone = done.runtimes;
        infos = done.extends.infos;
      }
    ]
