-- ===== src/Admin/Protocol/Reconcile.antt =====
-- internal/admin/service.go: Reconcile, refresh and the steps that the operations share as runs.
use xuandu_gateway.Prelude.{
  ◌≡◌, refl, sym, subst, inl, inr, Bool, true, false, not, Option, none, some, List, [], ◌∷◌, Text,
  ◌==◌, Dict, Result, ok, err, is_ok, lookup, keys, mem_text, Bool-cases, Option-cases,
  Result-cases, arith, if◌then◌else◌,
}
use xuandu_gateway.Archive.{Revision}
use xuandu_gateway.Metadata.Model.{App, revision_pattern}
use xuandu_gateway.Runtime.Heap.{Address}
use xuandu_gateway.Runtime.Manager.Effect.{publish-IsDecided}
use xuandu_gateway.Admin.{
  AdminError, Deps, State, allocate, discard, publish_app, republish, note, build, compile,
  keep_contract, revision_for, pinned_app,
}
use xuandu_gateway.Admin.Reconcile.{
  replace_app, settle_app, settle_apps, drop_stale, drop_unwanted, is_current, stays, desired,
  names_of, reconcile, finish, refresh, on_change,
}
use xuandu_gateway.Admin.Protocol.{Run, aside, built, discarded, put_up, taken_down}

-- The candidate that a build has left.
abbrev pub candidate_of : {E : Type 0} → Result E Address → Option Address
candidate_of (err e) = none
candidate_of (ok c) = some c

module _ {W : Type 0} (d : Deps W) (s0 : State W) where
  pub publish_app-failed :
      (persist : W → W × Bool) (name : Text) (next : Option Address) (s : State W)
      → is_ok (publish_app d persist name next s).1 ≡ false
      → (publish_app d persist name next s).0.manager ≡ s.manager
  unfolding publish_app
  publish_app-failed persist name next s bad =
      elim (publish-IsDecided d.platform d.router persist name next s.world s.manager) [
        | inl (failed, same_manager) ↦ same_manager
        | inr (fine, w, saved, done) ↦ absurd (ground arith)
      ]

  pub publish_app-fresh :
      (persist : W → W × Bool) (name : Text) (next : Option Address) (s : State W)
      → (publish_app d persist name next s).0.fresh ≡ s.fresh
  unfolding publish_app
  publish_app-fresh persist name next s = refl

  pub failed-Run :
      {q : Option Address} {s : State W} (persist : W → W × Bool) (name : Text)
      (next : Option Address)
      → Run d s0 q s
      → is_ok (publish_app d persist name next s).1 ≡ false
      → Run d s0 q (publish_app d persist name next s).0
  failed-Run {s = s} persist name next run bad =
      aside run (publish_app-failed persist name next s bad) (publish_app-fresh persist name next s)

  -- A publication of the candidate, or of nothing, that succeeds.
  pub fine-Run :
      {c : Address} {s : State W} (persist : W → W × Bool) (name : Text) (enabled : Bool)
      → Run d s0 (some c) s
      → let out = publish_app d persist name (if enabled then some c else none) s in
        out.1 ≡ ok tt → Run d s0 none (if enabled then out.0 else discard c out.0)
  fine-Run persist name true run fine = put_up persist name run fine
  fine-Run persist name false run fine = discarded (taken_down persist name run)

  pub note-Run :
      {q : Option Address} {s : State W} (a : App) (failed : Bool)
      → Run d s0 q s
      → Run d s0 q (note d a failed s)
  unfolding note
  note-Run a failed run = aside run refl refl

  keep_contract-Run :
      (digest : Text) (r : Revision) (c : Address) (s : State W)
      → Run d s0 (some c) s
      → let (s', kept) = keep_contract d digest r c s in Run d s0 (candidate_of kept) s'
  unfolding keep_contract
  keep_contract-Run digest r c s run = elim (Bool-cases (digest == [])) [
    | inr stored ↦ rw stored run
    | inl fetched ↦ elim (Result-cases (d.store.put_contract r s.world).1) [
      | inl (u, saved) ↦ rw (fetched, saved) (aside run refl refl)
      | inr (e, lost) ↦ rw (fetched, lost) (discarded (aside run refl refl))
    ]
  ]

  pub moved : {q : Option Address} {s s' : State W} → s' ≡ s → Run d s0 q s → Run d s0 q s'
  moved {q = q} e run = subst (Run d s0 q) (sym e) run

  -- A build that ends with a candidate, or without one.
  abbrev pub Built : State W × (App × Result AdminError Address) → Type 0
  Built (s, (a, made)) = Run d s0 (candidate_of made) s

  pub build-Run :
      (a : App) (digest : Text) (s : State W) → Run d s0 none s → Built (build d a digest s)
  unfolding build
  build-Run a digest s run =
      let after = build d a digest s in
      elim (Result-cases (revision_for d a digest s.world)) [
        | inr (e, lost) ↦ subst Built {x = (s, (a, err e))} {y = after} (ground arith) run
        | inl (r, found) ↦
            let a' = pinned_app a r.digest in
            elim (Result-cases (compile d a' r s.world)) [
              | inr (e, bad) ↦ subst Built {x = (s, (a', err e))} {y = after} (ground arith) run
              | inl ((info, routes), compiled) ↦
                  let kept = keep_contract d digest r s.fresh (allocate info s).0 in
                  subst Built {x = (kept.0, (a', kept.1))} {y = after} (ground arith)
                    (keep_contract-Run digest r s.fresh (allocate info s).0 (built info run))
            ]
      ]

  pub republish-Run :
      (name : Text) (s : State W) → Run d s0 none s → Run d s0 none (republish d name none s).0
  unfolding republish
  republish-Run name s run = taken_down (λ w. (w, true)) name run

  replace_app-Run :
      (a : App) (made : Result AdminError Address) (s : State W)
      → Run d s0 (candidate_of made) s
      → Run d s0 none (replace_app d a made s).0
  unfolding replace_app republish
  replace_app-Run a (err e) s run = run
  replace_app-Run a (ok c) s run =
      let keep : W → W × Bool = λ w. (w, true) in
      let out = publish_app d keep a.name (some c) s in
      elim (Result-cases out.1) [
        | inl (u, fine) ↦ moved (ground arith) (put_up keep a.name run fine)
        | inr (e, bad) ↦
            moved (ground arith)
              (discarded (failed-Run keep a.name (some c) run (ground (arith, bad))))
      ]

  pub settle_app-Run : (a : App) (s : State W) → Run d s0 none s → Run d s0 none (settle_app d a s)
  unfolding settle_app
  settle_app-Run a s run = elim (Bool-cases a.enabled) [
    | inr off ↦
        let removed = republish d a.name none s in
        moved (ground arith) (note-Run a (not (is_ok removed.1)) (republish-Run a.name s run))
    | inl on ↦ elim (Bool-cases (is_current d a s)) [
      | inl current ↦ moved (ground arith) run
      | inr behind ↦ elim (Bool-cases (revision_pattern a.idl.resolved_revision)) [
        | inr vague ↦ moved (ground arith) (note-Run a true run)
        | inl exact ↦
            let made = build d a a.idl.resolved_revision s in
            let ends =
              replace_app-Run made.1.0 made.1.1 made.0
                (build-Run a a.idl.resolved_revision s run) in
            moved (ground arith) (note-Run made.1.0 (replace_app d made.1.0 made.1.1 made.0).1 ends)
      ]
    ]
  ]

  settle_apps-Run :
      (apps : List App) (s : State W) → Run d s0 none s → Run d s0 none (settle_apps d apps s)
  unfolding settle_apps
  settle_apps-Run [] s run = run
  settle_apps-Run (a ∷ more) s run =
      settle_apps-Run more (settle_app d a s) (settle_app-Run a s run)

  pub drop_stale-Run :
      (table : Dict App) (rs : Dict Address) (s : State W)
      → Run d s0 none s
      → Run d s0 none (drop_stale d table rs s)
  unfolding drop_stale
  drop_stale-Run table [] s run = run
  drop_stale-Run table ((name, r) ∷ rs) s run =
      elim (Bool-cases (stays (lookup name table) (s.manager.heap r).info.config.domain)) [
        | inl kept ↦ simp kept (drop_stale-Run table rs s run)
        | inr stale ↦
            simp stale
              (drop_stale-Run table rs (republish d name none s).0 (republish-Run name s run))
      ]

  drop_unwanted-Run :
      (wanted names : List Text) (s : State W)
      → Run d s0 none s
      → Run d s0 none (drop_unwanted d wanted names s)
  unfolding drop_unwanted
  drop_unwanted-Run wanted [] s run = run
  drop_unwanted-Run wanted (name ∷ names) s run = elim (Bool-cases (mem_text name wanted)) [
    | inl kept ↦ simp kept (drop_unwanted-Run wanted names s run)
    | inr gone ↦
        simp gone
          (drop_unwanted-Run wanted names (republish d name none s).0 (republish-Run name s run))
  ]

  pub reconcile-Run :
      (apps : List App) (s : State W) → Run d s0 none s → Run d s0 none (reconcile d apps s)
  unfolding reconcile finish
  reconcile-Run apps s run = elim (Bool-cases s.stopping) [
    | inl stopped ↦ moved (ground arith) run
    | inr working ↦
        let s1 = drop_stale d (desired apps []) s.manager.current.runtimes s in
        let s2 = settle_apps d apps s1 in
        let run1 = drop_stale-Run (desired apps []) s.manager.current.runtimes s run in
        let run3 =
          drop_unwanted-Run (names_of apps) (keys s2.manager.current.runtimes) s2
            (settle_apps-Run apps s1 run1) in
        let s3 = drop_unwanted d (names_of apps) (keys s2.manager.current.runtimes) s2 in
        moved (ground arith) (aside {s' = finish (names_of apps) s3} run3 refl refl)
  ]

  pub refresh-Run :
      (replacing : Text) (s : State W) → Run d s0 none s → Run d s0 none (refresh d replacing s).0
  unfolding refresh
  refresh-Run replacing s run = elim (Option-cases d.store.catalog) [
    | inl plain ↦ moved (ground arith) run
    | inr (catalog, is) ↦ elim (Result-cases (catalog s.world)) [
      | inr (e, bad) ↦ moved (ground arith) run
      | inl ((apps, epoch), read) ↦ moved (ground arith) (reconcile-Run apps s run)
    ]
  ]

  pub on_change-Run : (s : State W) → Run d s0 none s → Run d s0 none (on_change d s)
  unfolding on_change
  on_change-Run s run = elim (Result-cases (d.store.list s.world)) [
    | inr (e, bad) ↦ moved (ground arith) run
    | inl (apps, read) ↦ moved (ground arith) (reconcile-Run apps s run)
  ]
