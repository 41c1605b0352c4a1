-- ===== src/Admin/Desired/Settle.antt =====
-- internal/admin/service.go: a round of Reconcile publishes only what its application allows.
use xuandu_gateway.Prelude.{
  ◌≡◌, refl, sym, subst, inl, inr, Bool, true, not, none, some, List, [], ◌∷◌, Text, ◌==◌, Result,
  ok, err, is_ok, All, Bool-cases, Result-cases, Option-cases, >>=-eq-ok, map_err, arith,
}
use xuandu_gateway.Archive.{Revision}
use xuandu_gateway.Idl.Ast.{Route}
use xuandu_gateway.Idl.Loader.{load_archive}
use xuandu_gateway.Metadata.Model.{App, revision_pattern}
use xuandu_gateway.Runtime.Heap.{Address, Info, update}
use xuandu_gateway.Admin.{
  AdminError, Deps, State, allocate, discard, publish_app, republish, note, build, compile,
  keep_contract, revision_for, pinned_app, idl, contract,
}
use xuandu_gateway.Admin.Reconcile.{replace_app, is_current, settle_app, settle_apps}
use xuandu_gateway.Admin.Protocol.{started}
use xuandu_gateway.Admin.Protocol.Reconcile.{candidate_of, settle_app-Run}
use xuandu_gateway.Admin.Protocol.Sound.{IsSound, Run-IsSound}
use xuandu_gateway.Admin.Desired.{
  BuildsConfig, Only, CandidateHas, publish_app-Only, republish-Only, allocate-Only, discard-Only,
}

module _ {W : Type 0} (d : Deps W) (keeps : BuildsConfig d) where
  pub compile-config :
      (a : App) (r : Revision) (w : W) (info : Info) (routes : List Route)
      → compile d a r w ≡ ok (info, routes)
      → info.config ≡ a
  unfolding compile
  compile-config a r w info routes e =
      let ((bundles, found), loaded, rest) =
        >>=-eq-ok (map_err idl (load_archive d.parse r.files)) _ e in
      elim (Option-cases (d.build a r bundles found w)) [
        | inl refused ↦ absurd (ground arith)
        | inr (made, is) ↦
            let same_info : made ≡ info = ground arith in
            subst (λ (i : Info). i.config ≡ a) same_info (keeps a r bundles found w made is)
      ]

  module _ (P : Text → Text → Type 0) where
    -- `P` holds of what is published, and of the candidate under the name of the application.
    abbrev BuiltOnly : Text → State W × (App × Result AdminError Address) → Type 0
    BuiltOnly name (s, (a, made)) =
        Only P s.manager × (CandidateHas P name s.manager (candidate_of made) × (a.name ≡ name))

    abbrev KeptOnly : Text → State W × Result AdminError Address → Type 0
    KeptOnly name (s, made) = Only P s.manager × CandidateHas P name s.manager (candidate_of made)

    keep_contract-Only :
        (name digest : Text) (r : Revision) (c : Address) (s : State W)
        → Only P s.manager
        → CandidateHas P name s.manager (some c)
        → KeptOnly name (keep_contract d digest r c s)
    unfolding keep_contract
    keep_contract-Only name digest r c s only has = elim (Bool-cases (digest == [])) [
      | inr stored ↦ rw stored (only, has)
      | inl fetched ↦ elim (Result-cases (d.store.put_contract r s.world).1) [
        | inl (u, saved) ↦ rw (fetched, saved) (only, has)
        | inr (e, lost) ↦
            let s1 : State W = record s { world = (d.store.put_contract r s.world).0 } in
            subst (KeptOnly name) {x = (discard c s1, err (contract e))}
              {y = keep_contract d digest r c s} (ground arith) (discard-Only P d c s1 only, tt)
      ]
    ]

    build-Only :
        (a : App) (digest : Text) (s : State W)
        → P a.name a.domain
        → IsSound d s.fresh s.manager
        → Only P s.manager
        → BuiltOnly a.name (build d a digest s)
    unfolding build pinned_app allocate update
    build-Only a digest s allowed sound only =
        let after = build d a digest s in
        elim (Result-cases (revision_for d a digest s.world)) [
          | inr (e, lost) ↦
              subst (BuiltOnly a.name) {x = (s, (a, err e))} {y = after} (ground arith)
                (only, (tt, refl))
          | inl (r, found) ↦
              let a' = pinned_app a r.digest in
              elim (Result-cases (compile d a' r s.world)) [
                | inr (e, bad) ↦
                    subst (BuiltOnly a.name) {x = (s, (a', err e))} {y = after} (ground arith)
                      (only, (tt, refl))
                | inl ((info, routes), compiled) ↦
                    let s1 = (allocate info s).0 in
                    let is_a' : a' ≡ (s1.manager.heap s.fresh).info.config =
                      ground (arith, compile-config a' r s.world info routes compiled) in
                    let has = subst (λ (x : App). P a.name x.domain) is_a' allowed in
                    let kept = keep_contract d digest r s.fresh s1 in
                    let kept_only =
                      keep_contract-Only a.name digest r s.fresh s1
                        (allocate-Only P d info s sound only) has in
                    subst (BuiltOnly a.name) {x = (kept.0, (a', kept.1))} {y = after} (ground arith)
                      (kept_only.0, (kept_only.1, refl))
              ]
        ]

    abbrev OnlyIn : State W → Type 0
    OnlyIn s = Only P s.manager

    replace_app-Only :
        (a : App) (made : Result AdminError Address) (s : State W)
        → Only P s.manager
        → CandidateHas P a.name s.manager (candidate_of made)
        → OnlyIn (replace_app d a made s).0
    unfolding replace_app republish
    replace_app-Only a (err e) s only has = only
    replace_app-Only a (ok c) s only has =
        let keep : W → W × Bool = λ w. (w, true) in
        let out = publish_app d keep a.name (some c) s in
        let after = (replace_app d a (ok c) s).0 in
        let published = publish_app-Only P d keep a.name (some c) s has only in
        elim (Result-cases out.1) [
          | inl (u, fine) ↦ subst OnlyIn {x = out.0} {y = after} (ground arith) published
          | inr (e, bad) ↦
              subst OnlyIn {x = discard c out.0} {y = after} (ground arith)
                (discard-Only P d c out.0 published)
        ]

    settle_app-Only :
        (a : App) (s : State W)
        → (a.enabled ≡ true → P a.name a.domain)
        → IsSound d s.fresh s.manager
        → OnlyIn s
        → OnlyIn (settle_app d a s)
    unfolding settle_app note
    settle_app-Only a s allowed sound only =
        let after = settle_app d a s in
        elim (Bool-cases a.enabled) [
          | inr off ↦
              let removed = republish d a.name none s in
              subst OnlyIn {x = note d a (not (is_ok removed.1)) removed.0} {y = after}
                (ground arith) (republish-Only P d a.name s only)
          | inl on ↦ elim (Bool-cases (is_current d a s)) [
            | inl current ↦ subst OnlyIn {x = s} {y = after} (ground arith) only
            | inr behind ↦ elim (Bool-cases (revision_pattern a.idl.resolved_revision)) [
              | inr vague ↦ subst OnlyIn {x = note d a true s} {y = after} (ground arith) only
              | inl exact ↦
                  let made = build d a a.idl.resolved_revision s in
                  let (built, (has, same_name)) =
                    build-Only a a.idl.resolved_revision s (allowed on) sound only in
                  let has' =
                    subst (λ n. CandidateHas P n made.0.manager (candidate_of made.1.1))
                      (sym same_name) has in
                  let out = replace_app d made.1.0 made.1.1 made.0 in
                  subst OnlyIn {x = note d made.1.0 out.1 out.0} {y = after} (ground arith)
                    (replace_app-Only made.1.0 made.1.1 made.0 built has')
            ]
          ]
        ]

    pub settle_apps-Only :
        (apps : List App) (s : State W)
        → All (λ a. a.enabled ≡ true → P a.name a.domain) apps
        → IsSound d s.fresh s.manager
        → OnlyIn s
        → OnlyIn (settle_apps d apps s)
    unfolding settle_apps
    settle_apps-Only [] s allowed sound only = only
    settle_apps-Only (a ∷ more) s (this, allowed) sound only =
        let s1 = settle_app d a s in
        let sound1 = (Run-IsSound d (settle_app-Run d s a s started) sound).0 in
        settle_apps-Only more s1 allowed sound1 (settle_app-Only a s this sound only)
