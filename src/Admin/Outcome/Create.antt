-- ===== src/Admin/Outcome/Create.antt =====
-- internal/admin/service.go: what is stored and published when CreateApp returns.
use xuandu_gateway.Prelude.{
  ℕ, ◌≡◌, refl, sym, ap, ◌∙◌, subst, inl, inr, ◌⊎◌, Bool, true, false, [], Text, bytes, ◌==◌,
  or_default, Result, ok, err, is_ok, map_err, map_err-ok, >>=-eq-ok, Bool-cases, Result-cases,
  arith, if◌then◌else◌,
}
use xuandu_gateway.Archive.{Revision, resolve}
use xuandu_gateway.Metadata.Domain.{normalize_domain}
use xuandu_gateway.Metadata.Model.{App, validate}
use xuandu_gateway.Metadata.Store.{StoreError, not_found}
use xuandu_gateway.Runtime.Heap.{Address}
use xuandu_gateway.Admin.{
  AdminError, Deps, State, discard, publish_app, next_of, build, pinned_app, revision_for, note,
  bad_domain, bad_app, fetch, shutting_down,
}
use xuandu_gateway.Admin.Requests.{CreateRequest, requested_app}
use xuandu_gateway.Admin.Reconcile.{refresh}
use xuandu_gateway.Admin.Operations.{persist, publish_new, create_absent, create_app, check_absent}
use xuandu_gateway.Admin.Desired.{BuildsConfig}
use xuandu_gateway.Admin.Outcome.{IsServed, serves, hidden, IsFor, settled-IsDone, failed-current}
use xuandu_gateway.Admin.Outcome.Build.{SameCurrent, BuiltFor, HasRevision, build-BuiltFor}

check_absent-ok :
    (found : Result StoreError App) → check_absent found ≡ ok tt → found ≡ err not_found
unfolding check_absent
check_absent-ok (ok a) e = absurd (ground arith)
check_absent-ok (err not_found) e = refl
check_absent-ok (err bad) e = absurd (ground arith)

module _ {W : Type 0} (d : Deps W) where
  -- The application has been created in a store that did not have it, and is served from then on.
  pub record IsStored (a : App) (s s' : State W) : Type 0 where
    pub was_absent : d.store.get a.name s.world ≡ err not_found
    pub stored :
        (w : W) × (is_ok (d.store.create a w).1 ≡ true) × (s'.world ≡ (d.store.create a w).0)
    pub served : IsServed a.name a s'

  abbrev Ends : State W → State W × Result AdminError App → Type 0
  Ends s (s', err e) = SameCurrent s s'
  Ends s (s', ok a) = IsStored a s s'

  pub note-IsServed :
      (name : Text) (a b : App) (failed : Bool) (s : State W)
      → IsServed name a s
      → IsServed name a (note d b failed s)
  unfolding note
  note-IsServed name a b failed s (serves c on found is_for) = serves c on found is_for
  note-IsServed name a b failed s (hidden off gone) = hidden off gone

  publish_new-Ends :
      (a : App) (c : Address) (s0 s : State W)
      → SameCurrent s0 s
      → d.store.get a.name s0.world ≡ err not_found
      → IsFor d a s c
      → Ends s0 (publish_new d a c s)
  unfolding publish_new note
  publish_new-Ends a c s0 s same_current absent is_for =
      let write = persist (d.store.create a) in
      let out = publish_app d write a.name (next_of a c) s in
      let after = publish_new d a c s in
      elim (Result-cases out.1) [
        | inr (e, bad) ↦
            let left = failed-current d write a.name (next_of a c) c s (ground (arith, bad)) in
            subst (Ends s0) {x = (discard c out.0, err e)} {y = after} (ground arith)
              (left ∙ same_current)
        | inl (u, fine) ↦
            let last = if a.enabled then out.0 else discard c out.0 in
            let done = settled-IsDone d write a.name a c s is_for fine in
            subst (Ends s0) {x = (note d a false last, ok a)} {y = after} (ground arith) (record {
              was_absent = absent;
              stored = (s.world, done.written, done.world);
              served = note-IsServed a.name a a false last done.served;
            })
      ]

  -- The result is the requested application with the revision of its URL.
  abbrev EndsFor : App → State W → State W × Result AdminError App → Type 0
  EndsFor b s (s', err e) = SameCurrent s s'
  EndsFor b s (s', ok a) = IsStored a s s' × HasRevision d b [] s.world a

  Ends-EndsFor :
      (b b' : App) (s : State W) (out : State W × Result AdminError App)
      → HasRevision d b [] s.world b'
      → ((a : App) → out.1 ≡ ok a → a ≡ b')
      → Ends s out
      → EndsFor b s out
  Ends-EndsFor b b' s (s', err e) (r, found, is_b) is h = h
  Ends-EndsFor b b' s (s', ok a) (r, found, is_b) is h = (h, (r, found, is a refl ∙ is_b))

  publish_new-result :
      (a : App) (c : Address) (s : State W) (b : App) → (publish_new d a c s).1 ≡ ok b → b ≡ a
  unfolding publish_new
  publish_new-result a c s b e = ground arith

  create_absent-EndsFor :
      BuildsConfig d → (a : App) (s : State W) → EndsFor a s (create_absent d a s)
  unfolding create_absent pinned_app
  create_absent-EndsFor keeps a s =
      let after = create_absent d a s in
      elim (Result-cases (check_absent (d.store.get a.name s.world))) [
        | inr (e, there) ↦ subst (EndsFor a s) {x = (s, err e)} {y = after} (ground arith) refl
        | inl (u, absent) ↦
            let made = build d a [] s in
            let built = build-BuiltFor d keeps a [] s in
            let BuiltWith : Result AdminError Address → Type 0 =
              λ r. BuiltFor d a [] s (made.0, (made.1.0, r)) in
            elim (Result-cases made.1.1) [
              | inr (e, bad) ↦
                  subst (EndsFor a s) {x = (made.0, err e)} {y = after} (ground arith)
                    (subst BuiltWith bad built)
              | inl (c, good) ↦
                  let (same_current, (is_for, (r, fetched, is))) = subst BuiltWith good built in
                  let out = publish_new d made.1.0 c made.0 in
                  let gone : d.store.get made.1.0.name s.world ≡ err not_found =
                    ap (λ (x : App). d.store.get x.name s.world) is ∙ check_absent-ok _ absent in
                  let ends = publish_new-Ends made.1.0 c s made.0 same_current gone is_for in
                  subst (EndsFor a s) {x = out} {y = after} (ground arith) (
                    Ends-EndsFor a made.1.0 s out (r, fetched, is)
                      (λ b e. publish_new-result made.1.0 c made.0 b e) ends)
            ]
      ]

  -- The application is the one of the request, with its domain normalized.
  pub record IsRequested (req : CreateRequest) (a : App) : Type 0 where
    pub name : a.name ≡ req.name
    pub domain : normalize_domain d.platform req.domain ≡ ok a.domain
    pub service_name : a.service_name ≡ req.service_name
    pub rpc_timeout : a.rpc_timeout ≡ req.rpc_timeout
    pub enabled : a.enabled ≡ or_default req.enabled true
    pub kind : a.idl.kind ≡ (if req.idl.kind == [] then bytes "zip" else req.idl.kind)

  -- Its revision is the one downloaded from the URL of the request, which is not kept.
  pub record IsFetched (req : CreateRequest) (w : W) (a : App) : Type 0 where
    pub revision : Revision
    pub resolved : resolve d.platform (d.fetch w) req.idl.url [] ≡ ok revision
    pub pinned : a.idl.resolved_revision ≡ revision.digest
    pub no_url : a.idl.url ≡ []

  -- What CreateApp has done when it returns: on an error the snapshot is the old one, or that of its
  -- refresh. Without an error the application is the requested one under the epoch that the refresh
  -- has reached.
  abbrev pub IsCreated : CreateRequest → State W → State W × Result AdminError App → Type 0
  IsCreated req s (s', err e) = SameCurrent s s' ⊎ SameCurrent (refresh d [] s).0 s'
  IsCreated req s (s', ok a) =
      IsRequested req a
      × IsFetched req (refresh d [] s).0.world a
      × ((refresh d [] s).1 ≡ ok a.catalog_index)
      × IsStored a (refresh d [] s).0 s'

  requested_app-IsRequested :
      (req : CreateRequest) (a : App)
      → requested_app d.platform req ≡ ok a
      → IsRequested req a × (a.idl.url ≡ req.idl.url)
  unfolding requested_app
  requested_app-IsRequested req a e =
      let (domain, parsed, rest) =
        >>=-eq-ok (map_err bad_domain (normalize_domain d.platform req.domain)) _ e in
      let (u, checked, last) = >>=-eq-ok (map_err bad_app (validate d.platform _)) _ rest in
      let normal = map_err-ok bad_domain (normalize_domain d.platform req.domain) parsed in
      (
        record {
          name = ground (arith, last);
          domain = ground (arith, last, normal);
          service_name = ground (arith, last);
          rpc_timeout = ground (arith, last);
          enabled = ground (arith, last);
          kind = ground (arith, last);
        },
        ground (arith, last),
      )

  HasRevision-IsFetched :
      (req : CreateRequest) (w : W) (b a : App)
      → b.idl.url ≡ req.idl.url
      → HasRevision d b [] w a
      → IsFetched req w a
  unfolding revision_for pinned_app ◌==◌
  HasRevision-IsFetched req w b a url (r, found, is) = record {
    revision = r;
    resolved =
        subst (λ u. resolve d.platform (d.fetch w) u [] ≡ ok r) url
          (map_err-ok fetch (resolve d.platform (d.fetch w) b.idl.url []) found);
    pinned = ap (λ (x : App). x.idl.resolved_revision) is;
    no_url = ap (λ (x : App). x.idl.url) is;
  }

  pinned-IsRequested :
      (req : CreateRequest) (b : App) (epoch : ℕ) (digest : Text)
      → IsRequested req b
      → IsRequested req (pinned_app (record b { catalog_index = epoch }) digest)
  unfolding pinned_app
  pinned-IsRequested req b epoch digest h = record {
    name = h.name;
    domain = h.domain;
    service_name = h.service_name;
    rpc_timeout = h.rpc_timeout;
    enabled = h.enabled;
    kind = h.kind;
  }

  EndsFor-IsCreated :
      (req : CreateRequest) (s : State W) (a : App) (epoch : ℕ)
      (out : State W × Result AdminError App)
      → IsRequested req a
      → a.idl.url ≡ req.idl.url
      → (refresh d [] s).1 ≡ ok epoch
      → EndsFor (record a { catalog_index = epoch }) (refresh d [] s).0 out
      → IsCreated req s out
  unfolding pinned_app
  EndsFor-IsCreated req s a epoch (s', err e) wanted url reached h = inr h
  EndsFor-IsCreated req s a epoch (s', ok b) wanted url reached (stored, (r, found, is)) = (
    subst (IsRequested req) (sym is) (pinned-IsRequested req a epoch r.digest wanted),
    HasRevision-IsFetched req (refresh d [] s).0.world (record a { catalog_index = epoch }) b url
        (r, found, is),
    reached ∙ ap (λ (x : App). ok x.catalog_index) (sym is),
    stored,
  )

  -- CreateApp publishes nothing beyond its refresh unless it succeeds. If it does, the application has
  -- the name, the service, the timeout and the kind of the request (zip without one), its domain in
  -- normal form, is enabled unless the request says otherwise, and has the revision that the URL of the
  -- request gives, without the URL. It was not in the store, is written to it under the epoch of the
  -- catalog that the refresh has reached, and is served: a runtime of exactly its configuration has its
  -- name if it is enabled, and none if it is not. The builder is assumed to keep the application in the
  -- runtime.
  pub create_app-IsCreated :
      BuildsConfig d → (req : CreateRequest) (s : State W) → IsCreated req s (create_app d req s)
  unfolding create_app
  create_app-IsCreated keeps req s =
      let after = create_app d req s in
      elim (Bool-cases s.stopping) [
        | inl stopped ↦
            subst (IsCreated req s) {x = (s, err shutting_down)} {y = after} (ground arith)
              (inl refl)
        | inr working ↦ elim (Result-cases (requested_app d.platform req)) [
          | inr (e, bad) ↦
              subst (IsCreated req s) {x = (s, err e)} {y = after} (ground arith) (inl refl)
          | inl (a, good) ↦
              let fresh = refresh d [] s in
              elim (Result-cases fresh.1) [
                | inr (e, late) ↦
                    subst (IsCreated req s) {x = (fresh.0, err e)} {y = after} (ground arith)
                      (inr refl)
                | inl (epoch, reached) ↦
                    let b : App = record a { catalog_index = epoch } in
                    let out = create_absent d b fresh.0 in
                    subst (IsCreated req s) {x = out} {y = after} (ground arith) (
                      EndsFor-IsCreated req s a epoch out (requested_app-IsRequested req a good).0
                        (requested_app-IsRequested req a good).1 reached
                        (create_absent-EndsFor keeps b fresh.0))
              ]
        ]
      ]
