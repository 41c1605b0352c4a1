-- ===== src/Admin/Accounts.antt =====
-- internal/admin/service.go: what has become of the runtimes that the service has had built.
use xuandu_gateway.Prelude.{
  Dict, ==_refl, if◌then◌else◌, ◌≡◌, inl, inr, sym, subst, ◌∙◌, ap, Bool, true, Option, none, some,
  Text, ◌==◌, eq_iff, lookup, lookup-put, lookup-remove, ok, Bool-cases, arith,
}
use xuandu_gateway.Platform.{Platform}
use xuandu_gateway.Router.{KitexRouter}
use xuandu_gateway.Runtime.Heap.{Address, update, close_cell}
use xuandu_gateway.Runtime.Manager.{Manager, publish, replace_runtime, close_runtime}
use xuandu_gateway.Runtime.Manager.Effect.{IsLeased, Publishes, publish-IsDecided}

-- A runtime is published under a name, closed, or retired while leases hold it: their Release
-- closes it.
pub data IsAccounted (m : Manager) (a : Address) : Type 0 where
  published : (name : Text) → lookup name m.current.runtimes ≡ some a → IsAccounted m a
  closed : (m.heap a).closed ≡ true → IsAccounted m a
  leased : IsLeased m a → IsAccounted m a

abbrev pub Keeps : Manager → Manager → Type 0
Keeps m m' = (a : Address) → IsAccounted m a → IsAccounted m' a

pub lookup-replace_runtime :
    (name n : Text) (next : Option Address) (rs : Dict Address)
    → lookup n (replace_runtime name next rs) ≡ (if name == n then next else lookup n rs)
unfolding replace_runtime
lookup-replace_runtime name n none rs = lookup-remove name n rs
lookup-replace_runtime name n (some c) rs = lookup-put name n c rs

module _ (p : Platform) (k : KitexRouter) where
  pub Publishes-Keeps :
      (name : Text) (next : Option Address) (m m' : Manager)
      → Publishes p k name next m m'
      → Keeps m m'
  Publishes-Keeps name next m m' done a (published n found) =
      let after =
        ap (lookup n) done.runtimes ∙ lookup-replace_runtime name n next m.current.runtimes in
      elim (Bool-cases (name == n)) [
        | inr other ↦ published n (ground (arith, after))
        | inl same_name ↦
            let at_name : lookup name m.current.runtimes ≡ some a = ground (arith, eq_iff name n) in
            elim (done.dropped a at_name) [
              | inl is_next ↦ published n (ground (arith, after))
              | inr (inl shut) ↦ closed shut
              | inr (inr held) ↦ leased held
            ]
      ]
  Publishes-Keeps name next m m' done a (closed shut) = closed (done.extends.closes a shut)
  Publishes-Keeps name next m m' done a (leased (retired, held)) =
      leased (done.extends.retires a retired, ground (arith, done.extends.refs a))

  pub publish-Keeps :
      {W : Type 0} (persist : W → W × Bool) (name : Text) (next : Option Address) (w : W)
      (m : Manager)
      → Keeps m (publish p k persist name next w m).0.1
  publish-Keeps persist name next w m a known =
      let m' = (publish p k persist name next w m).0.1 in
      elim (publish-IsDecided p k persist name next w m) [
        | inl (failed, same_manager) ↦ subst (λ x. IsAccounted x a) (sym same_manager) known
        | inr (fine, saved_world, saved, done) ↦ Publishes-Keeps name next m m' done a known
      ]

  -- What is published is accounted for.
  pub publish-IsAccounted :
      {W : Type 0} (persist : W → W × Bool) (name : Text) (c : Address) (w : W) (m : Manager)
      → (publish p k persist name (some c) w m).1 ≡ ok tt
      → IsAccounted (publish p k persist name (some c) w m).0.1 c
  publish-IsAccounted persist name c w m fine =
      elim (publish-IsDecided p k persist name (some c) w m) [
        | inl (failed, same_manager) ↦ absurd (ground arith)
        | inr (fine, saved_world, saved, done) ↦
            let after =
              ap (lookup name) done.runtimes
              ∙ lookup-replace_runtime name name (some c) m.current.runtimes in
            published name (ground (arith, after, ==_refl name))
      ]

pub close_runtime-Keeps : (r : Address) (m : Manager) → Keeps m (close_runtime r m)
unfolding close_runtime close_cell update
close_runtime-Keeps r m a (published name found) = published name found
close_runtime-Keeps r m a (closed shut) = closed (ground arith)
close_runtime-Keeps r m a (leased (retired, held)) = leased (ground arith, ground arith)

pub close_runtime-IsAccounted : (r : Address) (m : Manager) → IsAccounted (close_runtime r m) r
unfolding close_runtime close_cell update
close_runtime-IsAccounted r m = closed (ground arith)
