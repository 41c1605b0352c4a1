-- ===== src/Admin/Reconcile.antt =====
-- internal/admin/service.go: Reconcile and refresh, which bring the published runtimes to the list
-- of applications of the store.
use xuandu_gateway.Prelude.{
  ℕ, Bool, true, false, not, ◌&&◌, Option, none, some, List, [], ◌∷◌, Text, bytes, ◌==◌, mem_text,
  Dict, lookup, put, keys, Result, ok, err, ◌>>=◌, is_ok, if◌then◌else◌,
}
use xuandu_gateway.Metadata.Model.{App, revision_pattern}
use xuandu_gateway.Runtime.Heap.{Address}
use xuandu_gateway.Admin.{
  AdminError, Deps, State, same, runtime_of, info_of, note, republish, build, discard,
  not_converged, store,
}

-- The map `desired`: the last application of each name.
unfoldable pub desired : List App → Dict App → Dict App
desired [] table = table
desired (a ∷ more) table = desired more (put a.name a table)

unfoldable pub keep_names : {V : Type 0} → List Text → Dict V → Dict V
keep_names names [] = []
keep_names names ((k, v) ∷ m) =
    let rest = keep_names names m in if mem_text k names then (k, v) ∷ rest else rest

abbrev pub names_of : List App → List Text
names_of [] = []
names_of (a ∷ more) = a.name ∷ names_of more

-- The runtime of a name stays if its application is there, enabled and under the same domain.
unfoldable pub stays : Option App → Text → Bool
stays none domain = false
stays (some a) domain = a.enabled && a.domain == domain

-- The end of reconcileLocked.
unfoldable pub finish : {W : Type 0} → List Text → State W → State W
unfolding keep_names
finish wanted s = record s { status = keep_names wanted s.status; loaded = true }

module _ {W : Type 0} (d : Deps W) where
  -- The first loop, over the runtimes published before it.
  unfoldable pub drop_stale : Dict App → Dict Address → State W → State W
  unfolding stays republish
  drop_stale table [] s = s
  drop_stale table ((name, r) ∷ rs) s =
      let domain = (info_of s r).config.domain in
      drop_stale table rs
        (if stays (lookup name table) domain then s else (republish d name none s).0)

  -- ReplaceApp with a candidate, which is closed if it fails.
  unfoldable pub replace_app : App → Result AdminError Address → State W → State W × Bool
  unfolding republish discard
  replace_app a (err e) s = (s, true)
  replace_app a (ok candidate) s =
      let (s1, published) = republish d a.name (some candidate) s in
      elim published [ err e ↦ (discard candidate s1, true) | ok u ↦ (s1, false) ]

  unfoldable pub is_current : App → State W → Bool
  is_current a s = elim (runtime_of s a.name) [
    | none ↦ false
    | some r ↦ same (info_of s r).config a
  ]

  -- One round of the second loop.
  unfoldable pub settle_app : App → State W → State W
  unfolding republish note is_current build replace_app
  settle_app a s =
      if not a.enabled
      then (let (s1, removed) = republish d a.name none s in note d a (not (is_ok removed)) s1)
      else if is_current a s
      then s
      else if not (revision_pattern a.idl.resolved_revision)
      then note d a true s
      else (let (s1, (a', built)) = build d a a.idl.resolved_revision s in
          let (s2, failed) = replace_app a' built s1 in note d a' failed s2)

  unfoldable pub settle_apps : List App → State W → State W
  unfolding settle_app
  settle_apps [] s = s
  settle_apps (a ∷ more) s = settle_apps more (settle_app a s)

  -- The third loop, over the names published before it.
  unfoldable pub drop_unwanted : List Text → List Text → State W → State W
  unfolding republish
  drop_unwanted wanted [] s = s
  drop_unwanted wanted (name ∷ names) s =
      drop_unwanted wanted names (if mem_text name wanted then s else (republish d name none s).0)

  -- reconcileLocked
  unfoldable pub reconcile : List App → State W → State W
  unfolding desired drop_stale settle_apps drop_unwanted finish
  reconcile apps s =
      let s1 = drop_stale (desired apps []) s.manager.current.runtimes s in
      let s2 = settle_apps apps s1 in
      let s3 = drop_unwanted (names_of apps) (keys s2.manager.current.runtimes) s2 in
      if s.stopping then s else finish (names_of apps) s3

  -- An application that refresh waits for and that has no runtime of its configuration.
  unfoldable pub is_behind : Text → State W → App → Bool
  unfolding is_current
  is_behind replacing s a =
      not (a.domain == [])
      && a.idl.kind == bytes "zip"
      && not (a.name == replacing)
      && a.enabled
      && not (is_current a s)

  unfoldable pub check_converged : Text → State W → List App → Result AdminError (Unit {0})
  unfolding is_behind
  check_converged replacing s [] = ok tt
  check_converged replacing s (a ∷ more) =
      let rest = check_converged replacing s more in
      if is_behind replacing s a then err not_converged else rest

  -- refresh: the epoch of the catalog that the published runtimes have reached.
  unfoldable pub refresh : Text → State W → State W × Result AdminError ℕ
  unfolding reconcile check_converged
  refresh replacing s = elim d.store.catalog [
    | none ↦ (s, ok 0)
    | some catalog ↦ elim (catalog s.world) [
      | err e ↦ (s, err (store e))
      | ok (apps, epoch) ↦
          let s1 = reconcile apps s in (s1, check_converged replacing s1 apps >>= λ u. ok epoch)
    ]
  ]

  -- The handler of Watch: the list is read again, under the lock.
  unfoldable pub on_change : State W → State W
  unfolding reconcile
  on_change s = elim (d.store.list s.world) [ err e ↦ s | ok apps ↦ reconcile apps s ]
