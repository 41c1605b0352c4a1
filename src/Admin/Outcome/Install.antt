-- ===== src/Admin/Outcome/Install.antt =====
-- internal/admin/service.go: how UpdateAppWithRequest installs a changed application.
use xuandu_gateway.Prelude.{
  ◌≡◌, refl, ◌∙◌, subst, inl, inr, true, Text, Result, ok, err, is_ok, ◌>>=◌, Result-cases, arith,
  if◌then◌else◌,
}
use xuandu_gateway.Archive.{Revision}
use xuandu_gateway.Metadata.Model.{App}
use xuandu_gateway.Runtime.Heap.{Address, update}
use xuandu_gateway.Runtime.Manager.{close_runtime}
use xuandu_gateway.Admin.{
  AdminError, Deps, State, discard, publish_app, next_of, compile, allocate, with_world,
}
use xuandu_gateway.Admin.Requests.{UpdateRequest}
use xuandu_gateway.Admin.Operations.{persist, publish_change, store_source, install}
use xuandu_gateway.Admin.Desired.{BuildsConfig}
use xuandu_gateway.Admin.Desired.Settle.{compile-config}
use xuandu_gateway.Admin.Outcome.{IsServed, IsFor, settled-IsDone, failed-current}
use xuandu_gateway.Admin.Outcome.Build.{SameCurrent}

module _ {W : Type 0} (d : Deps W) where
  -- The change has been written over the version that it was made from, and is served.
  pub record IsWritten (name : Text) (a : App) (s' : State W) : Type 0 where
    pub written :
        (w : W) × (is_ok (d.store.compare_and_swap a a.modify_index w).1 ≡ true)
        × (s'.world ≡ (d.store.compare_and_swap a a.modify_index w).0)
    pub served : IsServed name a s'

  abbrev pub Changed : {A : Type 0} → Text → App → State W → State W × Result AdminError A → Type 0
  Changed name a s (s', err e) = SameCurrent s s'
  Changed name a s (s', ok x) = IsWritten name a s'

  publish_change-Changed :
      (name : Text) (a : App) (c : Address) (s0 s : State W)
      → SameCurrent s0 s
      → IsFor d a s c
      → Changed name a s0 (publish_change d name a c s)
  unfolding publish_change
  publish_change-Changed name a c s0 s same_current is_for =
      let write = persist (d.store.compare_and_swap a a.modify_index) in
      let out = publish_app d write name (next_of a c) s in
      let after = publish_change d name a c s in
      elim (Result-cases out.1) [
        | inr (e, bad) ↦
            let left = failed-current d write name (next_of a c) c s (ground (arith, bad)) in
            subst (Changed name a s0) {x = (discard c out.0, err e)} {y = after} (ground arith)
              (left ∙ same_current)
        | inl (u, fine) ↦
            let last = if a.enabled then out.0 else discard c out.0 in
            let done = settled-IsDone d write name a c s is_for fine in
            subst (Changed name a s0) {x = (last, ok tt)} {y = after} (ground arith)
              (record { written = (s.world, done.written, done.world); served = done.served })
      ]

  then-Changed :
      {A B : Type 0} (name : Text) (a : App) (s : State W) (out : State W × Result AdminError A)
      (b : B)
      → Changed name a s out
      → Changed name a s (out.0, out.1 >>= λ x. ok b)
  then-Changed name a s (s', err e) b h = h
  then-Changed name a s (s', ok x) b h = h

  pub install-Changed :
      BuildsConfig d
      → (name : Text) (req : UpdateRequest) (a : App) (r : Revision) (s : State W)
      → Changed name a s (install d name req a r s)
  unfolding install allocate update discard close_runtime
  install-Changed keeps name req a r s =
      let after = install d name req a r s in
      elim (Result-cases (compile d a r s.world)) [
        | inr (e, bad) ↦ subst (Changed name a s) {x = (s, err e)} {y = after} (ground arith) refl
        | inl ((info, routes), compiled) ↦
            let s1 = (allocate info s).0 in
            let out = store_source d req r s1.world in
            let s2 : State W = with_world out.0 s1 in
            let is_for : IsFor d a s2 s.fresh =
              ground (arith, compile-config d keeps a r s.world info routes compiled) in
            elim (Result-cases out.1) [
              | inr (e, lost) ↦
                  subst (Changed name a s) {x = (discard s.fresh s2, err e)} {y = after}
                    (ground arith) refl
              | inl (u, stored) ↦
                  let done = publish_change d name a s.fresh s2 in
                  let changed = publish_change-Changed name a s.fresh s s2 refl is_for in
                  subst (Changed name a s) {x = (done.0, done.1 >>= λ v. ok routes)} {y = after}
                    (ground arith) (then-Changed name a s done routes changed)
            ]
      ]
