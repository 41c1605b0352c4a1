-- ===== src/Admin/Protocol.antt =====
-- internal/admin/service.go: an operation as a run of steps on the runtimes, with the candidate that
-- it has built and has still to publish or to close.
pub mod Reconcile
pub mod Operations
pub mod Sound
use xuandu_gateway.Prelude.{
  ℕ, suc, ◌<◌, ◌≤◌, ◌≡◌, refl, sym, subst, ◌⊎◌, inl, inr, Bool, true, false, Option, none, some,
  List, [], ◌∷◌, Text, lookup, Result, ok, err, is_ok, Bool-cases, Result-cases, arith, eqb,
}
use xuandu_gateway.Runtime.Heap.{Address, Info, update}
use xuandu_gateway.Runtime.Manager.{Manager}
use xuandu_gateway.Runtime.Manager.Effect.{publish-IsDecided}
use xuandu_gateway.Metadata.Model.{App}
use xuandu_gateway.Admin.{
  AdminError, Deps, State, allocate, discard, publish_app, republish, note, build, compile,
  keep_contract, revision_for, pinned_app, with_world, publication, contract,
}
use xuandu_gateway.Admin.Accounts.{
  IsAccounted, Keeps, published, closed, leased, publish-Keeps, publish-IsAccounted,
  close_runtime-Keeps, close_runtime-IsAccounted,
}

-- The steps from `s0` to a state with a candidate, or without one. A candidate is built only when
-- there is none, and leaves the run by being published or closed.
pub data Run {W : Type 0} (d : Deps W) (s0 : State W) : Option Address → State W → Type 0 where
  started : Run d s0 none s0
  -- The store, the clock or the statuses.
  aside :
      {q : Option Address} {s s' : State W}
      → Run d s0 q s
      → s'.manager ≡ s.manager
      → s'.fresh ≡ s.fresh
      → Run d s0 q s'
  built :
      {s : State W} (info : Info) → Run d s0 none s → Run d s0 (some s.fresh) (allocate info s).0
  discarded : {s : State W} {c : Address} → Run d s0 (some c) s → Run d s0 none (discard c s)
  put_up :
      {s : State W} {c : Address} (persist : W → W × Bool) (name : Text)
      → Run d s0 (some c) s
      → (publish_app d persist name (some c) s).1 ≡ ok tt
      → Run d s0 none (publish_app d persist name (some c) s).0
  taken_down :
      {s : State W} {q : Option Address} (persist : W → W × Bool) (name : Text)
      → Run d s0 q s
      → Run d s0 q (publish_app d persist name none s).0

-- The candidate, if there is one, has been built, and every other runtime is accounted for.
abbrev pub AccountsBut : {W : Type 0} → Option Address → State W → Type 0
AccountsBut none s = (a : Address) → a < s.fresh → IsAccounted s.manager a
AccountsBut (some c) s =
    (c < s.fresh) × ((a : Address) → a < s.fresh → (a ≡ c) ⊎ IsAccounted s.manager a)

-- Every runtime that has been built is published, closed, or retired while leases hold it.
abbrev pub Accounts : {W : Type 0} → State W → Type 0
Accounts s = AccountsBut none s

module _ {W : Type 0} (d : Deps W) where
  Keeps-AccountsBut :
      (q : Option Address) (s s' : State W)
      → Keeps s.manager s'.manager
      → s'.fresh ≡ s.fresh
      → AccountsBut q s
      → AccountsBut q s'
  Keeps-AccountsBut none s s' keeps same_fresh all_of =
      λ a below. keeps a (all_of a (ground (arith, below)))
  Keeps-AccountsBut (some c) s s' keeps same_fresh (built_c, all_of) = (
    ground (arith, built_c),
    λ a below. elim (all_of a (ground (arith, below))) [
      | inl is_c ↦ inl is_c
      | inr known ↦ inr (keeps a known)
    ],
  )

  allocate-Accounted :
      (info : Info) (s : State W) (a : Address)
      → a < s.fresh
      → IsAccounted s.manager a
      → IsAccounted (allocate info s).0.manager a
  unfolding allocate update
  allocate-Accounted info s a below (published name found) = published name found
  allocate-Accounted info s a below (closed shut) = closed (ground arith)
  allocate-Accounted info s a below (leased held) = leased (ground arith, ground arith)

  -- Along a run all runtimes but the candidate stay accounted for.
  pub Run-AccountsBut :
      {s0 : State W} {q : Option Address} {s : State W}
      → Run d s0 q s
      → Accounts s0
      → AccountsBut q s
  unfolding allocate discard publish_app
  Run-AccountsBut started known = known
  Run-AccountsBut {q = q} (aside {s = s} {s' = s'} run same_manager same_fresh) known =
      Keeps-AccountsBut q s s' (λ a h. subst (λ m. IsAccounted m a) (sym same_manager) h) same_fresh
        (Run-AccountsBut run known)
  Run-AccountsBut (built {s = s} info run) known =
      let before = Run-AccountsBut run known in
      (
        omega arith,
        λ a below. elim (Bool-cases (eqb a s.fresh)) [
          | inl new ↦ inl (ground arith)
          | inr old ↦
              let less : a < s.fresh = ground arith in
              inr (allocate-Accounted info s a less (before a less))
        ],
      )
  Run-AccountsBut (discarded {s = s} {c = c} run) known = λ a below.
      elim ((Run-AccountsBut run known).1 a below) [
        | inl is_c ↦
            subst (IsAccounted (discard c s).manager) (sym is_c)
              (close_runtime-IsAccounted c s.manager)
        | inr h ↦ close_runtime-Keeps c s.manager a h
      ]
  Run-AccountsBut (put_up {s = s} {c = c} persist name run fine) known = λ a below.
      let after = (publish_app d persist name (some c) s).0.manager in
      elim ((Run-AccountsBut run known).1 a below) [
        | inl is_c ↦ subst (IsAccounted after) (sym is_c) (
            publish-IsAccounted d.platform d.router persist name c s.world s.manager
              (ground (arith, fine)))
        | inr h ↦ publish-Keeps d.platform d.router persist name (some c) s.world s.manager a h
      ]
  Run-AccountsBut {q = q} (taken_down {s = s} persist name run) known =
      Keeps-AccountsBut q s (publish_app d persist name none s).0
        (publish-Keeps d.platform d.router persist name none s.world s.manager) refl
        (Run-AccountsBut run known)
