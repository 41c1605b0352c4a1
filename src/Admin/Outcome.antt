-- ===== src/Admin/Outcome.antt =====
-- internal/admin/service.go: what is stored and published when an operation returns.
pub mod Build
pub mod Create
pub mod Install
pub mod Update
pub mod Delete
use xuandu_gateway.Prelude.{
  ℕ, ◌≡◌, refl, sym, ap, ◌∙◌, subst, inl, inr, ◌⊎◌, Bool, true, false, Option, none, some, Text,
  ◌==◌, ==_refl, lookup, Result, ok, err, is_ok, Bool-cases, Result-cases, arith, eqb,
  if◌then◌else◌,
}
use xuandu_gateway.Archive.{Revision}
use xuandu_gateway.Idl.Ast.{Route}
use xuandu_gateway.Metadata.Model.{App}
use xuandu_gateway.Runtime.Heap.{Address, Info, update, close_cell}
use xuandu_gateway.Runtime.Manager.{Manager, close_runtime}
use xuandu_gateway.Runtime.Manager.Effect.{publish-IsDecided}
use xuandu_gateway.Admin.{
  AdminError, Deps, State, runtime_of, info_of, discard, publish_app, next_of, build, compile,
  keep_contract, revision_for, pinned_app, allocate,
}
use xuandu_gateway.Admin.Accounts.{lookup-replace_runtime}
use xuandu_gateway.Admin.Desired.{BuildsConfig}
use xuandu_gateway.Admin.Desired.Settle.{compile-config}

-- An enabled application has a runtime of exactly its configuration under its name; a disabled one
-- has none.
pub data IsServed {W : Type 0} (name : Text) (a : App) (s : State W) : Type 0 where
  serves :
      (c : Address)
      → a.enabled ≡ true
      → runtime_of s name ≡ some c
      → (info_of s c).config ≡ a
      → IsServed name a s
  hidden : a.enabled ≡ false → runtime_of s name ≡ none → IsServed name a s

module _ {W : Type 0} (d : Deps W) where
  -- A candidate for an application.
  abbrev pub IsFor : App → State W → Address → Type 0
  IsFor a s c = (info_of s c).config ≡ a

  -- A publication of a candidate, or of nothing for a disabled application, that has succeeded.
  pub record IsDone (write : W → W × Bool) (name : Text) (a : App) (s s' : State W) : Type 0 where
    pub written : (write s.world).1 ≡ true
    pub world : s'.world ≡ (write s.world).0
    pub served : IsServed name a s'

  published-served :
      (write : W → W × Bool) (name : Text) (a : App) (c : Address) (s : State W)
      → IsFor a s c
      → let out = publish_app d write name (next_of a c) s in
        out.1 ≡ ok tt → IsDone write name a s out.0
  unfolding publish_app
  published-served write name a c s is_for fine =
      let out = publish_app d write name (next_of a c) s in
      elim (publish-IsDecided d.platform d.router write name (next_of a c) s.world s.manager) [
        | inl (failed, same_manager) ↦ absurd (ground arith)
        | inr (good, world, saved, done) ↦
            let after : runtime_of out.0 name ≡ next_of a c =
              ap (lookup name) done.runtimes
              ∙ lookup-replace_runtime name name (next_of a c) s.manager.current.runtimes
              ∙ ground (arith, ==_refl name) in
            record {
              written = saved;
              world = world;
              served = elim (Bool-cases a.enabled) [
                | inl on ↦
                    serves c on (ground (arith, after))
                      (ap (λ (i : Info). i.config) (done.extends.infos c) ∙ is_for)
                | inr off ↦ hidden off (ground (arith, after))
              ];
            }
      ]

  -- Closing a candidate changes nothing that is served.
  discard-IsServed :
      (name : Text) (a : App) (c : Address) (s : State W)
      → IsServed name a s
      → IsServed name a (discard c s)
  unfolding discard close_runtime close_cell update
  discard-IsServed name a c s (serves r on found is_for) =
      serves r on found (ground (arith, is_for))
  discard-IsServed name a c s (hidden off gone) = hidden off gone

  -- The candidate is closed if it is not published.
  pub settled-IsDone :
      (write : W → W × Bool) (name : Text) (a : App) (c : Address) (s : State W)
      → IsFor a s c
      → let out = publish_app d write name (next_of a c) s in
        out.1 ≡ ok tt → IsDone write name a s (if a.enabled then out.0 else discard c out.0)
  unfolding discard
  settled-IsDone write name a c s is_for fine =
      let out = publish_app d write name (next_of a c) s in
      let done = published-served write name a c s is_for fine in
      let last = if a.enabled then out.0 else discard c out.0 in
      record {
        written = done.written;
        world = ground (arith, done.world);
        served = elim (Bool-cases a.enabled) [
          | inl on ↦ subst (IsServed name a) {x = out.0} {y = last} (ground arith) done.served
          | inr off ↦
              subst (IsServed name a) {x = discard c out.0} {y = last} (ground arith)
                (discard-IsServed name a c out.0 done.served)
        ];
      }

  -- A failed Publish leaves the manager, and then closing a candidate leaves the snapshot.
  pub failed-current :
      (write : W → W × Bool) (name : Text) (next : Option Address) (c : Address) (s : State W)
      → is_ok (publish_app d write name next s).1 ≡ false
      → let out = publish_app d write name next s in
        (discard c out.0).manager.current ≡ s.manager.current
  unfolding publish_app discard close_runtime
  failed-current write name next c s bad =
      elim (publish-IsDecided d.platform d.router write name next s.world s.manager) [
        | inl (failed, same_manager) ↦ ap (λ (m : Manager). m.current) same_manager
        | inr (good, world, saved, done) ↦ absurd (ground arith)
      ]
