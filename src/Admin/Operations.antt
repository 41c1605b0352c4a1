-- ===== src/Admin/Operations.antt =====
-- internal/admin/service.go: CreateApp, UpdateAppWithRequest and DeleteApp.
use xuandu_gateway.Prelude.{
  ℕ, Bool, true, false, not, ◌&&◌, ◌||◌, none, some, is_some, List, [], Text, ◌==◌, remove, Result,
  ok, err, ◌>>=◌, map_err, is_ok, if◌then◌else◌, length,
}
use xuandu_gateway.Idl.Ast.{Route}
use xuandu_gateway.Archive.{Revision, resolve}
use xuandu_gateway.Metadata.Model.{App}
use xuandu_gateway.Metadata.Store.{StoreError, not_found}
use xuandu_gateway.Runtime.Heap.{Address}
use xuandu_gateway.Admin.{
  AdminError, Deps, State, same, runtime_of, info_of, with_world, note, publish_app, build, compile,
  allocate, discard, pinned_app, next_of, shutting_down, already_exists, store, contract, fetch,
}
use xuandu_gateway.Admin.Reconcile.{refresh}
use xuandu_gateway.Admin.Requests.{
  CreateRequest, UpdateRequest, UpdateResult, requested_app, changed_app,
}

-- Get has found nothing.
unfoldable pub check_absent : Result StoreError App → Result AdminError (Unit {0})
check_absent (ok a) = err already_exists
check_absent (err not_found) = ok tt
check_absent (err e) = err (store e)

-- The argument of Publish: a write to the store.
abbrev pub persist : {W : Type 0} → (W → W × Result StoreError (Unit {0})) → W → W × Bool
persist write w = let (w', r) = write w in (w', is_ok r)

module _ {W : Type 0} (d : Deps W) where
  -- The end of CreateApp: a candidate that is not published is closed.
  unfoldable pub publish_new : App → Address → State W → State W × Result AdminError App
  unfolding publish_app discard note
  publish_new a candidate s =
      let (s1, published) =
        publish_app d (persist (d.store.create a)) a.name (next_of a candidate) s in
      elim published [
        | err e ↦ (discard candidate s1, err e)
        | ok u ↦ (note d a false (if a.enabled then s1 else discard candidate s1), ok a)
      ]

  -- CreateApp, from Get on.
  unfoldable pub create_absent : App → State W → State W × Result AdminError App
  unfolding check_absent build publish_new
  create_absent a s = elim (check_absent (d.store.get a.name s.world)) [
    | err e ↦ (s, err e)
    | ok u ↦
        let (s1, (a', built)) = build d a [] s in
        elim built [ err e ↦ (s1, err e) | ok candidate ↦ publish_new a' candidate s1 ]
  ]

  -- CreateApp
  unfoldable pub create_app : CreateRequest → State W → State W × Result AdminError App
  unfolding requested_app refresh create_absent
  create_app req s = elim s.stopping [
    | true ↦ (s, err shutting_down)
    | false ↦ elim (requested_app d.platform req) [
      | err e ↦ (s, err e)
      | ok a ↦
          let (s1, reached) = refresh d [] s in
          elim reached [
            | err e ↦ (s1, err e)
            | ok epoch ↦ create_absent (record a { catalog_index = epoch }) s1
          ]
    ]
  ]

  unfoldable pub source_revision : UpdateRequest → Text → W → Result AdminError Revision
  source_revision req old w = elim req.idl [
    | none ↦ map_err contract (d.store.get_contract old w)
    | some source ↦ map_err fetch (resolve d.platform (d.fetch w) source.url [])
  ]

  -- Nothing has changed, and the runtime is there or is not to be.
  unfoldable pub nothing_new : Text → App → App → Revision → State W → Bool
  unfolding same
  nothing_new name original a r s =
      r.digest == original.idl.resolved_revision
      && same original a
      && (is_some (runtime_of s name) || not a.enabled)

  unfoldable pub route_count : Text → State W → ℕ
  route_count name s = elim (runtime_of s name) [ none ↦ 0 | some r ↦ length (info_of s r).routes ]

  -- The end of UpdateAppWithRequest.
  unfoldable pub publish_change :
      Text → App → Address → State W → State W × Result AdminError (Unit {0})
  unfolding publish_app discard
  publish_change name a candidate s =
      let (s1, published) =
        publish_app d (persist (d.store.compare_and_swap a a.modify_index)) name
          (next_of a candidate) s in
      elim published [
        | err e ↦ (discard candidate s1, err e)
        | ok u ↦ (if a.enabled then s1 else discard candidate s1, ok tt)
      ]

  unfoldable pub store_source : UpdateRequest → Revision → W → W × Result AdminError (Unit {0})
  store_source req r w = elim req.idl [
    | none ↦ (w, ok tt)
    | some source ↦ let (w', saved) = d.store.put_contract r w in (w', map_err contract saved)
  ]

  unfoldable pub install :
      Text → UpdateRequest → App → Revision → State W → State W × Result AdminError (List Route)
  unfolding compile allocate store_source publish_change discard
  install name req a r s = elim (compile d a r s.world) [
    | err e ↦ (s, err e)
    | ok (info, routes) ↦
        let (s1, candidate) = allocate info s in
        let (w, stored) = store_source req r s1.world in
        elim stored [
          | err e ↦ (discard candidate (with_world w s1), err e)
          | ok u ↦
              let (s2, published) = publish_change name a candidate (with_world w s1) in
              (s2, published >>= λ v. ok routes)
        ]
  ]

  -- UpdateAppWithRequest, with the changed application and its revision.
  unfoldable pub apply_change :
      Text
      → UpdateRequest
      → App
      → App
      → Revision
      → State W
      → State W × Result AdminError UpdateResult
  unfolding nothing_new note route_count pinned_app install
  apply_change name req original a r s =
      let old = original.idl.resolved_revision in
      let a' = pinned_app a r.digest in
      let (s1, installed) = install name req a' r s in
      if nothing_new name original a r s
      then (
        note d a false s,
        ok (record {
          changed = false;
          old_revision = old;
          new_revision = old;
          route_count = route_count name s;
        }),
      )
      else (
        note d a' (not (is_ok installed)) s1,
        installed >>= λ routes. ok (record {
          changed = true;
          old_revision = old;
          new_revision = r.digest;
          route_count = length routes;
        }),
      )

  -- UpdateAppWithRequest, from Get on.
  unfoldable pub update_found :
      Text → UpdateRequest → App → State W → State W × Result AdminError UpdateResult
  unfolding changed_app source_revision note apply_change
  update_found name req original s = elim (changed_app d.platform req original) [
    | err e ↦ (s, err e)
    | ok a ↦ elim (source_revision req original.idl.resolved_revision s.world) [
      | err e ↦ (note d a true s, err e)
      | ok r ↦ apply_change name req original a r s
    ]
  ]

  -- UpdateAppWithRequest
  unfoldable pub update_app :
      Text → UpdateRequest → State W → State W × Result AdminError UpdateResult
  unfolding refresh update_found
  update_app name req s = elim s.stopping [
    | true ↦ (s, err shutting_down)
    | false ↦
        let (s1, reached) = refresh d name s in
        elim reached [
          | err e ↦ (s1, err e)
          | ok epoch ↦ elim (d.store.get name s1.world) [
            | err e ↦ (s1, err (store e))
            | ok a ↦ update_found name req (record a { catalog_index = epoch }) s1
          ]
        ]
  ]

  -- DeleteApp
  unfoldable pub delete_app : Text → State W → State W × Result AdminError (Unit {0})
  unfolding publish_app
  delete_app name s = elim s.stopping [
    | true ↦ (s, err shutting_down)
    | false ↦ elim (d.store.get name s.world) [
      | err e ↦ (s, err (store e))
      | ok a ↦
          let (s1, deleted) =
            publish_app d (persist (d.store.delete name a.modify_index)) name none s in
          (if is_ok deleted then record s1 { status = remove name s1.status } else s1, deleted)
    ]
  ]
