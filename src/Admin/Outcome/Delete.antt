-- ===== src/Admin/Outcome/Delete.antt =====
-- internal/admin/service.go: what is stored and published when DeleteApp returns.
use xuandu_gateway.Prelude.{
  ◌≡◌, refl, ap, ◌∙◌, subst, inl, inr, true, false, none, Text, ◌==◌, ==_refl, lookup,
  lookup-remove, remove, Result, ok, err, is_ok, Bool-cases, Result-cases, arith,
}
use xuandu_gateway.Metadata.Model.{App}
use xuandu_gateway.Runtime.Manager.{Manager}
use xuandu_gateway.Runtime.Manager.Effect.{publish-IsDecided}
use xuandu_gateway.Admin.{AdminError, Deps, State, runtime_of, publish_app, shutting_down, store}
use xuandu_gateway.Admin.Accounts.{lookup-replace_runtime}
use xuandu_gateway.Admin.Operations.{persist, delete_app}
use xuandu_gateway.Admin.Outcome.Build.{SameCurrent}

module _ {W : Type 0} (d : Deps W) where
  -- The application is neither stored nor served nor listed any more, and the others are as they were.
  pub record IsGone (name : Text) (s s' : State W) : Type 0 where
    pub original : App
    pub was_stored : d.store.get name s.world ≡ ok original
    pub deleted : is_ok (d.store.delete name original.modify_index s.world).1 ≡ true
    pub world : s'.world ≡ (d.store.delete name original.modify_index s.world).0
    pub unserved : runtime_of s' name ≡ none
    pub unlisted : lookup name s'.status ≡ none
    pub statuses : (n : Text) → (name == n) ≡ false → lookup n s'.status ≡ lookup n s.status
    pub others : (n : Text) → (name == n) ≡ false → runtime_of s' n ≡ runtime_of s n

  abbrev pub IsDeleted : Text → State W → State W × Result AdminError (Unit {0}) → Type 0
  IsDeleted name s (s', err e) = SameCurrent s s' × (s'.status ≡ s.status)
  IsDeleted name s (s', ok u) = IsGone name s s'

  -- DeleteApp that fails leaves the snapshot and the statuses. If it succeeds, the store held the
  -- application and has deleted that version; the name has no runtime and no status any more, and
  -- every other name has the runtime and the status that it had.
  pub delete_app-IsDeleted : (name : Text) (s : State W) → IsDeleted name s (delete_app d name s)
  unfolding delete_app publish_app
  delete_app-IsDeleted name s =
      let Ends = IsDeleted name s in
      let after = delete_app d name s in
      elim (Bool-cases s.stopping) [
        | inl stopped ↦
            subst Ends {x = (s, err shutting_down)} {y = after} (ground arith) (refl, refl)
        | inr working ↦ elim (Result-cases (d.store.get name s.world)) [
          | inr (e, lost) ↦
              subst Ends {x = (s, err (store e))} {y = after} (ground arith) (refl, refl)
          | inl (a, found) ↦
              let write = persist (d.store.delete name a.modify_index) in
              let out = publish_app d write name none s in
              elim (publish-IsDecided d.platform d.router write name none s.world s.manager) [
                | inl (bad, same_manager) ↦ elim (Result-cases out.1) [
                  | inl (u, fine) ↦ absurd (ground arith)
                  | inr (e, lost) ↦
                      subst Ends {x = (out.0, err e)} {y = after} (ground arith)
                        (ap (λ (m : Manager). m.current) same_manager, refl)
                ]
                | inr (good, world, saved, done) ↦
                    let last : State W = record out.0 { status = remove name out.0.status } in
                    let at = λ (n : Text).
                      ap (lookup n) done.runtimes
                      ∙ lookup-replace_runtime name n none s.manager.current.runtimes in
                    subst Ends {x = (last, ok tt)} {y = after} (ground arith) (record {
                      original = a;
                      was_stored = found;
                      deleted = saved;
                      world = world;
                      unserved = at name ∙ ground (arith, ==_refl name);
                      unlisted =
                          lookup-remove name name out.0.status ∙ ground (arith, ==_refl name);
                      statuses =
                          λ n other. lookup-remove name n out.0.status ∙ ground (arith, other);
                      others = λ n other. at n ∙ ground (arith, other);
                    })
              ]
        ]
      ]
