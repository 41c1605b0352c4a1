-- ===== src/Runtime/Manager.antt =====
-- internal/runtime/snapshot.go: snapshots, leases and publication. Each function is what the code
-- does under one hold of `mu`; Runtime.System composes them.
pub mod Effect
pub mod Fits
pub mod Tables
use xuandu_gateway.Prelude.{
  ℕ, ◌+◌, ◌-◌, Bool, true, false, not, ◌&&◌, Option, none, some, List, [], ◌∷◌, Text, ◌==◌,
  mem_text, Dict, lookup, remove, put, values, or_default, Result, ok, err, ◌>>=◌, map_err,
  if◌then◌else◌, eqb, keep,
}
use xuandu_gateway.Platform.{Platform}
use xuandu_gateway.Metadata.Domain.{DomainError, normalize_domain}
use xuandu_gateway.Router.{Table, Target, KitexRouter, RouterError, build, match_route}
use xuandu_gateway.Runtime.Heap.{Info, Address, Heap, pin, unpin, retire, retire_all, close_cell}

-- `domains` maps a domain to the set of its applications.
pub record Snapshot : Type 0 where
  pub version : ℕ
  pub routes : Dict Table
  pub domains : Dict (List Text)
  pub runtimes : Dict Address

-- `drained` counts how often the channel has been closed; Go panics at the second time.
pub record Manager : Type 0 where
  pub current : Snapshot
  pub heap : Heap
  pub closed : Bool
  pub active : ℕ
  pub drained : ℕ

abbrev pub empty_snapshot : Snapshot
empty_snapshot = record { version = 0; routes = []; domains = []; runtimes = [] }

-- NewManager
unfoldable pub new_manager : Heap → Manager
new_manager h = record {
  current = empty_snapshot;
  heap = h;
  closed = false;
  active = 0;
  drained = 0;
}

unfoldable pub has_app : Snapshot → Text → Text → Bool
has_app s domain app = mem_text app (or_default (lookup domain s.domains) [])

-- Snapshot.Match
unfoldable pub match_in : KitexRouter → Snapshot → Text → Text → Text → Option Target
match_in k s app method path = elim (lookup app s.routes) [
  | none ↦ none
  | some table ↦ match_route k table method path
]

abbrev pub pinned_by : Snapshot → List Address
pinned_by s = values s.runtimes

-- Acquire
unfoldable pub acquire : Manager → Manager × Option Snapshot
acquire m = if m.closed then (m, none) else (
  record m { heap = pin (pinned_by m.current) m.heap; active = m.active + 1 },
  some m.current,
)

-- Release, first hold of `mu`.
unfoldable pub drop_refs : Snapshot → Manager → Manager × List Address
drop_refs s m = let (h, closing) = unpin (pinned_by s) m.heap in (record m { heap = h }, closing)

-- Release, second hold of `mu`.
unfoldable pub drop_active : Manager → Manager
drop_active m =
    let left = m.active - 1 in
    record m {
      active = left;
      drained = if m.closed && eqb left 0 then m.drained + 1 else m.drained;
    }

-- `r.Close()` outside of `mu`.
unfoldable pub close_runtime : Address → Manager → Manager
close_runtime r m = record m { heap = close_cell r m.heap }

-- The closings after a hold of `mu`.
unfoldable pub close_list : List Address → Manager → Manager
unfolding close_runtime
close_list [] m = m
close_list (r ∷ rs) m = close_list rs (close_runtime r m)

-- Release as one call, with nothing between its two holds of `mu`.
unfoldable pub release : Snapshot → Manager → Manager
unfolding drop_refs close_list drop_active
release s m = let (m', closing) = drop_refs s m in drop_active (close_list closing m')

-- Publish: `rs`, the runtimes of the next snapshot.
unfoldable pub replace_runtime : Text → Option Address → Dict Address → Dict Address
replace_runtime name none rs = remove name rs
replace_runtime name (some r) rs = put name r rs

pub data PublishError : Type 0 where
  shutting_down : PublishError
  bad_domain : DomainError → PublishError
  bad_routes : RouterError → PublishError
  not_persisted : PublishError

-- Domains and tables, one entry for each runtime.
pub record Plan : Type 0 where
  pub routes : Dict Table
  pub domains : Dict (List Text)

unfoldable pub add_app : Text → Text → Dict (List Text) → Dict (List Text)
add_app domain name domains = put domain (name ∷ or_default (lookup domain domains) []) domains

unfoldable pub plan_step : Platform → KitexRouter → Text → Info → Plan → Result PublishError Plan
unfolding add_app
plan_step p k name info plan = do
  domain ← map_err bad_domain (normalize_domain p info.config.domain)
  table ← map_err bad_routes (build k ((name, info.routes) ∷ []))
  ok (record { routes = put name table plan.routes; domains = add_app domain name plan.domains })

unfoldable pub plan_tables :
    Platform → KitexRouter → Heap → Dict Address → Plan → Result PublishError Plan
unfolding plan_step
plan_tables p k h [] plan = ok plan
plan_tables p k h ((name, r) ∷ rs) plan = do
  plan' ← plan_step p k name (h r).info plan
  plan_tables p k h rs plan'

-- Publish, second hold of `mu`: the new snapshot, and the old runtime of the name, retired if it
-- is another one. The second result is the runtime to close at once.
unfoldable pub commit_publish :
    Snapshot → Text → Option Address → Plan → Manager → Manager × List Address
unfolding replace_runtime
commit_publish old name next plan m =
    let published : Manager = record m {
      current = record {
        version = old.version + 1;
        routes = plan.routes;
        domains = plan.domains;
        runtimes = replace_runtime name next old.runtimes;
      };
    } in
    elim (lookup name old.runtimes) [
      | none ↦ (published, [])
      | some r ↦
          (if elim next [ none ↦ false | some n ↦ eqb n r ] then (published, []) else (
            record published { heap = retire r m.heap },
            if eqb (m.heap r).refs 0 then r ∷ [] else [],
          ))
    ]

-- Close of a manager that is not closed: the runtimes to close at once.
unfoldable pub close_manager : Manager → Manager × List Address
close_manager m =
    let rs = pinned_by m.current in
    (
      record m {
        heap = retire_all rs m.heap;
        closed = true;
        drained = if eqb m.active 0 then m.drained + 1 else m.drained;
      },
      keep (λ r. eqb (m.heap r).refs 0) rs,
    )

-- Publish as one call, with nothing between its two holds of `mu`. `persist` is the durable write:
-- it changes the world `W` and may fail.
module _ {W : Type 0} (p : Platform) (k : KitexRouter) where
  unfoldable pub publish :
      (W → W × Bool)
      → Text
      → Option Address
      → W
      → Manager
      → (W × Manager) × Result PublishError (Unit {0})
  unfolding replace_runtime plan_tables commit_publish close_list
  publish persist name next w m =
      if m.closed
      then ((w, m), err shutting_down)
      else elim (plan_tables p k m.heap (replace_runtime name next m.current.runtimes)
          (record { routes = []; domains = [] })) [
            | err e ↦ ((w, m), err e)
            | ok plan ↦
                let (w', saved) = persist w in
                let (m', closing) = commit_publish m.current name next plan m in
                if saved then ((w', close_list closing m'), ok tt) else ((w', m), err not_persisted)
          ]
