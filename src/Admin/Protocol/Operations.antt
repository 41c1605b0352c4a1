-- ===== src/Admin/Protocol/Operations.antt =====
-- internal/admin/service.go: every operation is a run that leaves no candidate.
use xuandu_gateway.Prelude.{
  remove, subst, refl, inl, inr, true, false, not, none, some, [], Text, is_ok, Bool-cases,
  Result-cases, arith,
}
use xuandu_gateway.Archive.{Revision}
use xuandu_gateway.Metadata.Model.{App}
use xuandu_gateway.Runtime.Heap.{Address}
use xuandu_gateway.Admin.{
  Deps, State, allocate, publish_app, build, compile, pinned_app, next_of, with_world,
}
use xuandu_gateway.Admin.Requests.{CreateRequest, UpdateRequest, requested_app, changed_app}
use xuandu_gateway.Admin.Reconcile.{refresh}
use xuandu_gateway.Admin.Operations.{
  persist, publish_new, create_absent, create_app, check_absent, source_revision, nothing_new,
  publish_change, store_source, install, apply_change, update_found, update_app, delete_app,
}
use xuandu_gateway.Admin.Protocol.{Run, aside, built, discarded, taken_down}
use xuandu_gateway.Admin.Protocol.Reconcile.{
  candidate_of, moved, note-Run, build-Run, failed-Run, fine-Run, refresh-Run,
}

module _ {W : Type 0} (d : Deps W) (s0 : State W) where
  publish_new-Run :
      (a : App) (c : Address) (s : State W)
      → Run d s0 (some c) s
      → Run d s0 none (publish_new d a c s).0
  unfolding publish_new
  publish_new-Run a c s run =
      let write = persist (d.store.create a) in
      let out = publish_app d write a.name (next_of a c) s in
      elim (Result-cases out.1) [
        | inr (e, bad) ↦
            moved d s0 (ground arith)
              (discarded (failed-Run d s0 write a.name (next_of a c) run (ground (arith, bad))))
        | inl (u, fine) ↦
            moved d s0 (ground arith)
              (note-Run d s0 a false (fine-Run d s0 write a.name a.enabled run fine))
      ]

  create_absent-Run :
      (a : App) (s : State W) → Run d s0 none s → Run d s0 none (create_absent d a s).0
  unfolding create_absent
  create_absent-Run a s run = elim (Result-cases (check_absent (d.store.get a.name s.world))) [
    | inr (e, there) ↦ moved d s0 (ground arith) run
    | inl (u, absent) ↦
        let made = build d a [] s in
        let run1 = build-Run d s0 a [] s run in
        elim (Result-cases made.1.1) [
          | inr (e, bad) ↦
              moved d s0 (ground arith) (subst (λ r. Run d s0 (candidate_of r) made.0) bad run1)
          | inl (c, good) ↦ moved d s0 (ground arith) (
              publish_new-Run made.1.0 c made.0
                (subst (λ r. Run d s0 (candidate_of r) made.0) good run1))
        ]
  ]

  pub create_app-Run :
      (req : CreateRequest) (s : State W) → Run d s0 none s → Run d s0 none (create_app d req s).0
  unfolding create_app
  create_app-Run req s run = elim (Bool-cases s.stopping) [
    | inl stopped ↦ moved d s0 (ground arith) run
    | inr working ↦ elim (Result-cases (requested_app d.platform req)) [
      | inr (e, bad) ↦ moved d s0 (ground arith) run
      | inl (a, good) ↦
          let fresh = refresh d [] s in
          let run1 = refresh-Run d s0 [] s run in
          elim (Result-cases fresh.1) [
            | inr (e, late) ↦ moved d s0 (ground arith) run1
            | inl (epoch, reached) ↦
                moved d s0 (ground arith)
                  (create_absent-Run (record a { catalog_index = epoch }) fresh.0 run1)
          ]
    ]
  ]

  publish_change-Run :
      (name : Text) (a : App) (c : Address) (s : State W)
      → Run d s0 (some c) s
      → Run d s0 none (publish_change d name a c s).0
  unfolding publish_change
  publish_change-Run name a c s run =
      let write = persist (d.store.compare_and_swap a a.modify_index) in
      let out = publish_app d write name (next_of a c) s in
      elim (Result-cases out.1) [
        | inr (e, bad) ↦
            moved d s0 (ground arith)
              (discarded (failed-Run d s0 write name (next_of a c) run (ground (arith, bad))))
        | inl (u, fine) ↦ moved d s0 (ground arith) (fine-Run d s0 write name a.enabled run fine)
      ]

  install-Run :
      (name : Text) (req : UpdateRequest) (a : App) (r : Revision) (s : State W)
      → Run d s0 none s
      → Run d s0 none (install d name req a r s).0
  unfolding install
  install-Run name req a r s run = elim (Result-cases (compile d a r s.world)) [
    | inr (e, bad) ↦ moved d s0 (ground arith) run
    | inl ((info, routes), compiled) ↦
        let s1 = (allocate info s).0 in
        let out = store_source d req r s1.world in
        let s2 : State W = with_world out.0 s1 in
        let run1 : Run d s0 (some s.fresh) s2 = aside (built info run) refl refl in
        elim (Result-cases out.1) [
          | inr (e, lost) ↦ moved d s0 (ground arith) (discarded run1)
          | inl (u, stored) ↦ moved d s0 (ground arith) (publish_change-Run name a s.fresh s2 run1)
        ]
  ]

  update_found-Run :
      (name : Text) (req : UpdateRequest) (original : App) (s : State W)
      → Run d s0 none s
      → Run d s0 none (update_found d name req original s).0
  unfolding update_found apply_change
  update_found-Run name req original s run =
      let old = original.idl.resolved_revision in
      elim (Result-cases (changed_app d.platform req original)) [
        | inr (e, bad) ↦ moved d s0 (ground arith) run
        | inl (a, changed) ↦ elim (Result-cases (source_revision d req old s.world)) [
          | inr (e, lost) ↦ moved d s0 (ground arith) (note-Run d s0 a true run)
          | inl (r, found) ↦
              let a' = pinned_app a r.digest in
              let out = install d name req a' r s in
              elim (Bool-cases (nothing_new d name original a r s)) [
                | inl same_as_before ↦ moved d s0 (ground arith) (note-Run d s0 a false run)
                | inr new ↦
                    moved d s0 (ground arith)
                      (note-Run d s0 a' (not (is_ok out.1)) (install-Run name req a' r s run))
              ]
        ]
      ]

  pub update_app-Run :
      (name : Text) (req : UpdateRequest) (s : State W)
      → Run d s0 none s
      → Run d s0 none (update_app d name req s).0
  unfolding update_app
  update_app-Run name req s run = elim (Bool-cases s.stopping) [
    | inl stopped ↦ moved d s0 (ground arith) run
    | inr working ↦
        let fresh = refresh d name s in
        let run1 = refresh-Run d s0 name s run in
        elim (Result-cases fresh.1) [
          | inr (e, late) ↦ moved d s0 (ground arith) run1
          | inl (epoch, reached) ↦ elim (Result-cases (d.store.get name fresh.0.world)) [
            | inr (e, lost) ↦ moved d s0 (ground arith) run1
            | inl (a, found) ↦
                moved d s0 (ground arith)
                  (update_found-Run name req (record a { catalog_index = epoch }) fresh.0 run1)
          ]
        ]
  ]

  pub delete_app-Run :
      (name : Text) (s : State W) → Run d s0 none s → Run d s0 none (delete_app d name s).0
  unfolding delete_app
  delete_app-Run name s run = elim (Bool-cases s.stopping) [
    | inl stopped ↦ moved d s0 (ground arith) run
    | inr working ↦ elim (Result-cases (d.store.get name s.world)) [
      | inr (e, lost) ↦ moved d s0 (ground arith) run
      | inl (a, found) ↦
          let write = persist (d.store.delete name a.modify_index) in
          let out = publish_app d write name none s in
          elim (Bool-cases (is_ok out.1)) [
            | inr bad ↦ moved d s0 (ground arith) (taken_down write name run)
            | inl fine ↦
                moved d s0 {s = record out.0 { status = remove name out.0.status }} (ground arith)
                  (aside (taken_down write name run) refl refl)
          ]
    ]
  ]
