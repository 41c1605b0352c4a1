-- ===== src/Admin/Outcome/Build.antt =====
-- internal/admin/service.go: the candidate that `build` makes.
use xuandu_gateway.Prelude.{
  ◌≡◌, refl, ◌∙◌, subst, inl, inr, [], Text, ◌==◌, Result, ok, err, Bool-cases, Result-cases, arith,
}
use xuandu_gateway.Archive.{Revision}
use xuandu_gateway.Metadata.Model.{App}
use xuandu_gateway.Runtime.Heap.{Address, update}
use xuandu_gateway.Runtime.Manager.{close_runtime}
use xuandu_gateway.Admin.{
  AdminError, Deps, State, discard, build, compile, keep_contract, revision_for, pinned_app,
  allocate, contract,
}
use xuandu_gateway.Admin.Desired.{BuildsConfig}
use xuandu_gateway.Admin.Desired.Settle.{compile-config}
use xuandu_gateway.Admin.Outcome.{IsFor}

-- The snapshot is the same.
abbrev pub SameCurrent : {W : Type 0} → State W → State W → Type 0
SameCurrent s s' = s'.manager.current ≡ s.manager.current

module _ {W : Type 0} (d : Deps W) where
  abbrev KeptFor : App → State W → State W × Result AdminError Address → Type 0
  KeptFor a s (s', err e) = SameCurrent s s'
  KeptFor a s (s', ok c) = SameCurrent s s' × IsFor d a s' c

  keep_contract-KeptFor :
      (digest : Text) (r : Revision) (a : App) (c : Address) (s : State W)
      → IsFor d a s c
      → KeptFor a s (keep_contract d digest r c s)
  unfolding keep_contract discard close_runtime
  keep_contract-KeptFor digest r a c s is_for = elim (Bool-cases (digest == [])) [
    | inr stored ↦ rw stored (refl, is_for)
    | inl fetched ↦ elim (Result-cases (d.store.put_contract r s.world).1) [
      | inl (u, saved) ↦ rw (fetched, saved) (refl, is_for)
      | inr (e, lost) ↦
          let s1 : State W = record s { world = (d.store.put_contract r s.world).0 } in
          subst (KeptFor a s) {x = (discard c s1, err (contract e))}
            {y = keep_contract d digest r c s} (ground arith) refl
    ]
  ]

  -- The revision that is built: the one of the URL, or the stored one with the digest.
  abbrev pub HasRevision : App → Text → W → App → Type 0
  HasRevision a digest w a' =
      (r : Revision) × (revision_for d a digest w ≡ ok r) × (a' ≡ pinned_app a r.digest)

  -- What a build leaves: the snapshot, and a candidate of the application with its revision.
  abbrev pub BuiltFor : App → Text → State W → State W × (App × Result AdminError Address) → Type 0
  BuiltFor a digest s (s', (a', err e)) = SameCurrent s s'
  BuiltFor a digest s (s', (a', ok c)) =
      SameCurrent s s' × (IsFor d a' s' c × HasRevision a digest s.world a')

  kept-BuiltFor :
      (a : App) (digest : Text) (r : Revision) (s s1 : State W)
      (kept : State W × Result AdminError Address)
      → SameCurrent s s1
      → revision_for d a digest s.world ≡ ok r
      → KeptFor (pinned_app a r.digest) s1 kept
      → BuiltFor a digest s (kept.0, (pinned_app a r.digest, kept.1))
  kept-BuiltFor a digest r s s1 (s', err e) same_current found h = h ∙ same_current
  kept-BuiltFor a digest r s s1 (s', ok c) same_current found (h, is_for) =
      (h ∙ same_current, (is_for, (r, found, refl)))

  pub build-BuiltFor :
      BuildsConfig d
      → (a : App) (digest : Text) (s : State W) → BuiltFor a digest s (build d a digest s)
  unfolding build allocate update
  build-BuiltFor keeps a digest s =
      let after = build d a digest s in
      elim (Result-cases (revision_for d a digest s.world)) [
        | inr (e, lost) ↦
            subst (BuiltFor a digest s) {x = (s, (a, err e))} {y = after} (ground arith) refl
        | inl (r, found) ↦
            let a' = pinned_app a r.digest in
            elim (Result-cases (compile d a' r s.world)) [
              | inr (e, bad) ↦
                  subst (BuiltFor a digest s) {x = (s, (a', err e))} {y = after} (ground arith) refl
              | inl ((info, routes), compiled) ↦
                  let s1 = (allocate info s).0 in
                  let is_for : IsFor d a' s1 s.fresh =
                    ground (arith, compile-config d keeps a' r s.world info routes compiled) in
                  let kept = keep_contract d digest r s.fresh s1 in
                  let built =
                    kept-BuiltFor a digest r s s1 kept refl found
                      (keep_contract-KeptFor digest r a' s.fresh s1 is_for) in
                  subst (BuiltFor a digest s) {x = (kept.0, (a', kept.1))} {y = after}
                    (ground arith) built
            ]
      ]
