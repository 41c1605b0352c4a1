-- ===== src/Admin/Protocol/Sound.antt =====
-- internal/admin/service.go: what holds of the published runtimes along every run.
use xuandu_gateway.Prelude.{
  ℕ, suc, ◌<◌, ◌≡◌, sym, subst, inl, inr, Bool, Option, none, some, [], ◌∷◌, Text, Dict, All,
  All-mono, arith,
}
use xuandu_gateway.Prelude.Maps.{IsMap, All-remove, All-put, remove-IsMap, put-IsMap}
use xuandu_gateway.Runtime.Heap.{Address, Heap, Info, Cell, update, close_cell}
use xuandu_gateway.Runtime.Manager.{Manager, replace_runtime, close_runtime}
use xuandu_gateway.Runtime.Manager.Effect.{no_plan, publish-IsDecided}
use xuandu_gateway.Runtime.Manager.Fits.{Fits, FitsEntry, plan_tables-Fits}
use xuandu_gateway.Admin.{Deps, State, new_cell, allocate, discard, publish_app}
use xuandu_gateway.Admin.Protocol.{Run, started, aside, built, discarded, put_up, taken_down}

module _ {W : Type 0} (d : Deps W) where
  abbrev Below : ℕ → Text × Address → Type 0
  Below n e = e.1 < n

  -- The manager publishes, under each name once, runtimes that have been built and that fit.
  pub record IsSound (fresh : Address) (m : Manager) : Type 0 where
    pub maps : IsMap m.current.runtimes
    pub below : All (λ e. e.1 < fresh) m.current.runtimes
    pub fits : All (FitsEntry d.platform d.router m.heap) m.current.runtimes

  infos-Fits :
      (h h' : Heap) (rs : Dict Address)
      → ((e : Text × Address) → (h' e.1).info ≡ (h e.1).info)
      → All (FitsEntry d.platform d.router h) rs
      → All (FitsEntry d.platform d.router h') rs
  infos-Fits h h' rs same_infos fits =
      All-mono (FitsEntry d.platform d.router h)
        (λ e p. subst (Fits d.platform d.router e.0) (sym (same_infos e)) p) rs fits

  replace-IsMap :
      (name : Text) (next : Option Address) (rs : Dict Address)
      → IsMap rs
      → IsMap (replace_runtime name next rs)
  unfolding replace_runtime
  replace-IsMap name none rs h = remove-IsMap name rs h
  replace-IsMap name (some c) rs h = put-IsMap name c rs h

  abbrev CandidateBelow : ℕ → Option Address → Type 0
  CandidateBelow n none = Unit
  CandidateBelow n (some c) = c < n

  replace-Below :
      (n : ℕ) (name : Text) (next : Option Address) (rs : Dict Address)
      → CandidateBelow n next
      → All (Below n) rs
      → All (Below n) (replace_runtime name next rs)
  unfolding replace_runtime
  replace-Below n name none rs c h = All-remove (Below n) name rs h
  replace-Below n name (some r) rs c h = All-put (Below n) name r rs h c

  publish_app-IsSound :
      (persist : W → W × Bool) (name : Text) (next : Option Address) (s : State W)
      → CandidateBelow s.fresh next
      → IsSound s.fresh s.manager
      → IsSound s.fresh (publish_app d persist name next s).0.manager
  unfolding publish_app
  publish_app-IsSound persist name next s c sound =
      let m' = (publish_app d persist name next s).0.manager in
      elim (publish-IsDecided d.platform d.router persist name next s.world s.manager) [
        | inl (failed, same_manager) ↦ subst (IsSound s.fresh) (sym same_manager) sound
        | inr (fine, w, saved, done) ↦
            let old = s.manager.current.runtimes in
            let rs = replace_runtime name next old in
            record {
              maps = subst IsMap (sym done.runtimes) (replace-IsMap name next old sound.maps);
              below =
                  subst (All (Below s.fresh)) (sym done.runtimes)
                    (replace-Below s.fresh name next old c sound.below);
              fits = subst (All (FitsEntry d.platform d.router m'.heap)) (sym done.runtimes) (
                  infos-Fits s.manager.heap m'.heap rs (λ e. done.extends.infos e.1)
                    (plan_tables-Fits d.platform d.router s.manager.heap rs no_plan done.plan
                      done.planned));
            }
      ]

  update-Fits :
      (h : Heap) (c : Address) (cell : Cell) (rs : Dict Address)
      → All (Below c) rs
      → All (FitsEntry d.platform d.router h) rs
      → All (FitsEntry d.platform d.router (update h c cell)) rs
  unfolding update
  update-Fits h c cell [] below fits = tt
  update-Fits h c cell ((name, r) ∷ rs) (lt, below) (fit, fits) =
      let same_info : (h r).info ≡ (update h c cell r).info = ground arith in
      (subst (Fits d.platform d.router name) same_info fit, update-Fits h c cell rs below fits)

  allocate-IsSound :
      (info : Info) (s : State W)
      → IsSound s.fresh s.manager
      → IsSound (suc s.fresh) (allocate info s).0.manager
  unfolding allocate update
  allocate-IsSound info s sound =
      let rs = s.manager.current.runtimes in
      record {
        maps = sound.maps;
        below = All-mono (Below s.fresh) (λ e lt. omega arith) rs sound.below;
        fits = update-Fits s.manager.heap s.fresh (new_cell info) rs sound.below sound.fits;
      }

  discard-IsSound :
      (c : Address) (s : State W)
      → IsSound s.fresh s.manager
      → IsSound s.fresh (discard c s).manager
  unfolding discard close_runtime close_cell update
  discard-IsSound c s sound = record {
    maps = sound.maps;
    below = sound.below;
    fits =
        infos-Fits s.manager.heap (discard c s).manager.heap s.manager.current.runtimes
          (λ e. ground arith) sound.fits;
  }

  -- Along a run the published runtimes stay sound, and a candidate has been built.
  pub Run-IsSound :
      {s0 : State W} {q : Option Address} {s : State W}
      → Run d s0 q s
      → IsSound s0.fresh s0.manager
      → IsSound s.fresh s.manager × CandidateBelow s.fresh q
  unfolding allocate discard publish_app
  Run-IsSound started sound = (sound, tt)
  Run-IsSound {q = q} (aside {s = s} {s' = s'} run same_manager same_fresh) sound =
      let (ih, below) = Run-IsSound run sound in
      (
        subst (λ n. IsSound n s'.manager) (sym same_fresh)
            (subst (IsSound s.fresh) (sym same_manager) ih),
        subst (λ n. CandidateBelow n q) (sym same_fresh) below,
      )
  Run-IsSound (built {s = s} info run) sound =
      (allocate-IsSound info s (Run-IsSound run sound).0, omega arith)
  Run-IsSound (discarded {s = s} {c = c} run) sound =
      (discard-IsSound c s (Run-IsSound run sound).0, tt)
  Run-IsSound (put_up {s = s} {c = c} persist name run fine) sound =
      let (ih, below) = Run-IsSound run sound in
      (publish_app-IsSound persist name (some c) s below ih, tt)
  Run-IsSound (taken_down {s = s} persist name run) sound =
      let (ih, below) = Run-IsSound run sound in
      (publish_app-IsSound persist name none s tt ih, below)
