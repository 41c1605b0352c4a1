-- ===== src/Runtime/Manager/Effect.antt =====
-- internal/runtime/snapshot.go: what Publish does to the runtimes and to their cells.
use xuandu_gateway.Prelude.{
  ◌<◌, ◌≡◌, ap, ◌∙◌, subst, Result, ◌⊎◌, inl, inr, Bool, true, false, Option, some, [], Text,
  lookup, ok, is_ok, Bool-cases, Result-cases, arith,
}
use xuandu_gateway.Platform.{Platform}
use xuandu_gateway.Router.{KitexRouter}
use xuandu_gateway.Runtime.Heap.{Address, retire, close_cell, update}
use xuandu_gateway.Runtime.Manager.{
  Manager, Plan, plan_tables, replace_runtime, commit_publish, close_list, close_runtime, publish,
  PublishError,
}
use xuandu_gateway.Runtime.Manager.Tables.{close_list-current, commit_publish-snapshot}

-- A runtime that is still to be closed by a lease.
abbrev pub IsLeased : Manager → Address → Type 0
IsLeased m r = ((m.heap r).retired ≡ true) × (0 < (m.heap r).refs)

-- What a Publish that succeeds leaves of the old cells: the descriptions and the counters stay, a
-- closed runtime stays closed, and one that a lease is to close still is.
pub record Extends (m m' : Manager) : Type 0 where
  pub infos : (a : Address) → (m'.heap a).info ≡ (m.heap a).info
  pub refs : (a : Address) → (m'.heap a).refs ≡ (m.heap a).refs
  pub closes : (a : Address) → (m.heap a).closed ≡ true → (m'.heap a).closed ≡ true
  pub retires : (a : Address) → (m.heap a).retired ≡ true → (m'.heap a).retired ≡ true
  pub shuts : m'.closed ≡ m.closed

abbrev pub no_plan : Plan
no_plan = record { routes = []; domains = [] }

pub record Publishes (p : Platform) (k : KitexRouter) (name : Text) (next : Option Address)
    (m m' : Manager) : Type 0 where
  pub was_open : m.closed ≡ false
  pub plan : Plan
  pub planned :
      plan_tables p k m.heap (replace_runtime name next m.current.runtimes) no_plan ≡ ok plan
  pub runtimes : m'.current.runtimes ≡ replace_runtime name next m.current.runtimes
  pub extends : Extends m m'
  -- The runtime that had the name is the new one, closed, or retired while leases hold it.
  pub dropped :
      (r : Address)
      → lookup name m.current.runtimes ≡ some r
      → (next ≡ some r) ⊎ ((m'.heap r).closed ≡ true) ⊎ IsLeased m' r

module _ (p : Platform) (k : KitexRouter) where
  committed-Extends :
      (name : Text) (next : Option Address) (plan : Plan) (m : Manager)
      → let (m', closing) = commit_publish m.current name next plan m in
        Extends m (close_list closing m')
  unfolding commit_publish close_list close_runtime close_cell retire update
  committed-Extends name next plan m = record {
    infos = λ a. ground arith;
    refs = λ a. ground arith;
    closes = λ a shut. ground arith;
    retires = λ a retired. ground arith;
    shuts = ground arith;
  }

  committed-dropped :
      (name : Text) (next : Option Address) (plan : Plan) (m : Manager) (r : Address)
      → lookup name m.current.runtimes ≡ some r
      → let (m', closing) = commit_publish m.current name next plan m in
        let m1 = close_list closing m' in
        (next ≡ some r) ⊎ ((m1.heap r).closed ≡ true) ⊎ IsLeased m1 r
  unfolding commit_publish close_list close_runtime close_cell retire update
  committed-dropped name next plan m r found = ground arith

  committed-Publishes :
      (name : Text) (next : Option Address) (plan : Plan) (m : Manager)
      → m.closed ≡ false
      → plan_tables p k m.heap (replace_runtime name next m.current.runtimes) no_plan ≡ ok plan
      → let (m', closing) = commit_publish m.current name next plan m in
        Publishes p k name next m (close_list closing m')
  committed-Publishes name next plan m was planned =
      let (m', closing) = commit_publish m.current name next plan m in
      record {
        was_open = was;
        plan = plan;
        planned = planned;
        runtimes =
            ap (λ s. s.runtimes) (close_list-current closing m')
            ∙ (commit_publish-snapshot m.current name next plan m).1;
        extends = committed-Extends name next plan m;
        dropped = committed-dropped name next plan m;
      }

  module _ {W : Type 0} where
    -- Publish either fails and leaves the manager as it is, or has persisted and publishes.
    abbrev pub IsDecided :
        (W → W × Bool)
        → Text
        → Option Address
        → W
        → Manager
        → (W × Manager) × Result PublishError (Unit {0})
        → Type 0
    IsDecided persist name next w m out =
        ((is_ok out.1 ≡ false) × (out.0.1 ≡ m))
        ⊎ ((out.1 ≡ ok tt)
            × (out.0.0 ≡ (persist w).0)
            × ((persist w).1 ≡ true)
            × Publishes p k name next m out.0.1)

    pub publish-IsDecided :
        (persist : W → W × Bool) (name : Text) (next : Option Address) (w : W) (m : Manager)
        → IsDecided persist name next w m (publish p k persist name next w m)
    unfolding publish
    publish-IsDecided persist name next w m = elim (Bool-cases m.closed) [
      | inl shut ↦ inl (ground arith)
      | inr was ↦
          elim (Result-cases
            (plan_tables p k m.heap (replace_runtime name next m.current.runtimes) no_plan)) [
              | inr (e, bad) ↦ inl (ground arith)
              | inl (plan, planned) ↦ elim (Bool-cases (persist w).1) [
                | inr lost ↦ inl (ground arith)
                | inl saved ↦
                    let done = committed-Publishes name next plan m was planned in
                    inr (
                      ground arith,
                      ground arith,
                      saved,
                      subst (Publishes p k name next m) (ground arith) done,
                    )
              ]
            ]
    ]
