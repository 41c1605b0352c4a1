-- ===== src/Runtime/Builder/Cleanup.antt =====
-- internal/runtime/builder.go: a build closes what it does not give to the runtime.
use xuandu_gateway.Prelude.{
  ℕ, suc, ◌<◌, Fresh, ◌≡◌, refl, sym, ap, ◌∙◌, subst, inl, inr, true, false, not, List, [], ◌∷◌,
  Text, eq_iff, Dict, put, remove, values, keys, mem_text, any, All, All-mono, Result, ok, err,
  ◌>>=◌, map_err, Bool-cases, Option-cases, Result-cases, arith, eqb, keep, map, map_err-ok,
  >>=-eq-ok,
}
use xuandu_gateway.Platform.{Platform}
use xuandu_gateway.Idl.Ast.{Bundle, Route, Parser}
use xuandu_gateway.Idl.Routes.{extract_routes}
use xuandu_gateway.Archive.{Revision}
use xuandu_gateway.Metadata.Model.{App}
use xuandu_gateway.Router.{KitexRouter, Table}
use xuandu_gateway.Router
use xuandu_gateway.Runtime.Heap.{Info}
use xuandu_gateway.Runtime.Builder.{
  Kitex, MultiClient, BuildFailure, check_bundle, client_error, build_one, bundle_loop, close_chain,
  close_group, seal, build, info_for, extraction, routes,
}

abbrev IsAmong : List ℕ → ℕ → Type 0
IsAmong ns m = any (eqb m) ns ≡ true

close_chain-IsAmong :
    (n : ℕ) (ns open_ : List ℕ)
    → All (IsAmong (n ∷ ns)) open_
    → All (IsAmong ns) (close_chain n open_)
unfolding close_chain
close_chain-IsAmong n ns [] h = tt
close_chain-IsAmong n ns (m ∷ ms) (h, hs) =
    let rest = close_chain-IsAmong n ns ms hs in
    elim (Bool-cases (eqb m n)) [
      | inl same ↦ rw same rest
      | inr other ↦ rw other (ground (arith, h), rest)
    ]

-- A group that is closed leaves none of its chains open.
close_group-eq-nil : (ns open_ : List ℕ) → All (IsAmong ns) open_ → close_group ns open_ ≡ []
unfolding close_group
close_group-eq-nil [] [] h = refl
close_group-eq-nil [] (m ∷ ms) h = absurd (ground (arith, h.0))
close_group-eq-nil (n ∷ ns) open_ h =
    close_group-eq-nil ns (close_chain n open_) (close_chain-IsAmong n ns open_ h)

self-IsAmong : (ns : List ℕ) → All (IsAmong ns) ns
self-IsAmong [] = tt
self-IsAmong (n ∷ ns) =
    (ground arith, All-mono (IsAmong ns) (λ m h. ground (arith, h)) ns (self-IsAmong ns))

remove_absent : {V : Type 0} (k : Text) (m : Dict V) → mem_text k (keys m) ≡ false → remove k m ≡ m
unfolding remove mem_text
remove_absent k [] h = refl
remove_absent k ((j, v) ∷ m) h = ground (arith, remove_absent k m, eq_iff j k, eq_iff k j)

-- The open chains are those of the group, older than the next one.
record IsHeld (n : ℕ) (open_ : List ℕ) (group : MultiClient) : Type 0 where
  opened : open_ ≡ values group.clients
  below : All (λ m. m < n) open_
  same_keys : keys group.by_file ≡ keys group.clients

close_new : (n : ℕ) (open_ : List ℕ) → All (λ m. m < n) open_ → close_chain n (n ∷ open_) ≡ open_
unfolding close_chain
close_new n open_ below = ground (arith, close_older n open_ below)
  where
    close_older : (n : ℕ) (ms : List ℕ) → All (λ m. m < n) ms → keep (λ m. not (eqb m n)) ms ≡ ms
    close_older n [] below = refl
    close_older n (m ∷ ms) (lt, below) = ground (arith, close_older n ms below)

module _ (p : Platform) (k : KitexRouter) (parse : Parser) (x : Kitex) (a : App) where
  One : ℕ → List ℕ → List ℕ × Result BuildFailure (Unit {0}) → Type 0
  One n open_ (after, err e) = after ≡ open_
  One n open_ (after, ok u) = after ≡ n ∷ open_

  build_one-One :
      (b : Bundle) (rs : List Route) (n : ℕ) (open_ : List ℕ)
      → All (λ m. m < n) open_
      → One n open_ (build_one p k x a b rs n open_)
  unfolding build_one One
  build_one-One b rs n open_ below =
      let after = build_one p k x a b rs n open_ in
      elim (Result-cases (check_bundle p k x a b rs)) [
        | inr (e, bad) ↦ subst (One n open_) {x = (open_, err e)} {y = after} (ground arith) refl
        | inl (u, good) ↦ elim (Option-cases (client_error x a b)) [
          | inl fine ↦ subst (One n open_) {x = (n ∷ open_, ok tt)} {y = after} (ground arith) refl
          | inr (e, bad) ↦
              subst (One n open_) {x = (close_chain n (n ∷ open_), err e)} {y = after}
                (ground arith) (close_new n open_ below)
        ]
      ]

  Looped : List ℕ × (MultiClient × Result BuildFailure (Unit {0})) → Type 0
  Looped (open_, (group, r)) = (n : ℕ) × IsHeld n open_ group

  add_bundle-IsHeld :
      (path : Text) (rs : List Route) (n : ℕ) (open_ : List ℕ) (group : MultiClient)
      → mem_text path (keys group.clients) ≡ false
      → IsHeld n open_ group
      → IsHeld
          (suc n)
          (n ∷ open_)
          (record { clients = put path n group.clients; by_file = put path rs group.by_file })
  unfolding put
  add_bundle-IsHeld path rs n open_ group new held =
      let same_clients = remove_absent path group.clients new in
      let same_files = remove_absent path group.by_file (ap (mem_text path) held.same_keys ∙ new) in
      record {
        opened = ground (arith, held.opened, same_clients);
        below = (omega arith, All-mono (λ m. m < n) (λ m lt. omega arith) open_ held.below);
        same_keys = ground (arith, held.same_keys, same_clients, same_files);
      }

  bundle_loop-Looped :
      (bs : List Bundle) (n : ℕ) (open_ : List ℕ) (group : MultiClient)
      → Fresh (keys group.clients) (map (λ (b : Bundle). b.main_path) bs)
      → IsHeld n open_ group
      → Looped (bundle_loop p k parse x a bs n open_ group)
  unfolding bundle_loop Looped put One
  bundle_loop-Looped [] n open_ group new held = (n, held)
  bundle_loop-Looped (b ∷ bs) n open_ group (this, new) held =
      let after = bundle_loop p k parse x a (b ∷ bs) n open_ group in
      elim (Result-cases (extract_routes parse b)) [
        | inr (e, bad) ↦
            subst Looped {x = (open_, (group, err (extraction e)))} {y = after} (ground arith)
              (n, held)
        | inl (rs, extracted) ↦
            let out = build_one p k x a b rs n open_ in
            let one = build_one-One b rs n open_ held.below in
            let OneOf : Result BuildFailure (Unit {0}) → Type 0 = λ r. One n open_ (out.0, r) in
            elim (Result-cases out.1) [
              | inr (e, bad) ↦
                  let same_open : out.0 ≡ open_ = subst OneOf bad one in
                  subst Looped {x = (out.0, (group, err e))} {y = after} (ground arith)
                    (n, subst (λ o. IsHeld n o group) (sym same_open) held)
              | inl (u, fine) ↦
                  let opened : out.0 ≡ n ∷ open_ = subst OneOf fine one in
                  let more : MultiClient = record {
                    clients = put b.main_path n group.clients;
                    by_file = put b.main_path rs group.by_file;
                  } in
                  let grown =
                    ap (λ ks. b.main_path ∷ ks)
                      (ap keys (remove_absent b.main_path group.clients this)) in
                  let rest =
                    bundle_loop-Looped bs (suc n) (n ∷ open_) more
                      (subst (λ ks. Fresh ks (map (λ (c : Bundle). c.main_path) bs)) (sym grown)
                        new)
                      (add_bundle-IsHeld b.main_path rs n open_ group this held) in
                  subst Looped {x = bundle_loop p k parse x a bs (suc n) (n ∷ open_) more}
                    {y = after} (ground arith) rest
            ]
      ]

  -- After a build that fails nothing is open. After one that succeeds the open chains are those of the
  -- client of the runtime, whose Close leaves none open, and the runtime has the application, the
  -- revision and the routes that it was built for.
  abbrev pub IsCleaned :
      Revision → List Route → List ℕ × Result BuildFailure (Info × (MultiClient × Table)) → Type 0
  IsCleaned r rs (open_, err e) = open_ ≡ []
  IsCleaned r rs (open_, ok (info, (group, table))) =
      (open_ ≡ values group.clients)
      × (close_group (values group.clients) open_ ≡ [])
      × (info.config ≡ a)
      × (info.revision ≡ r.digest)
      × (info.routes ≡ rs)
      × (keys group.by_file ≡ keys group.clients)
      × (Router.build k group.by_file ≡ ok table)

  held-closed :
      (n : ℕ) (open_ : List ℕ) (group : MultiClient)
      → IsHeld n open_ group
      → close_group (values group.clients) open_ ≡ []
  held-closed n open_ group held = close_group-eq-nil (values group.clients) open_ (
      subst (All (IsAmong (values group.clients))) (sym held.opened)
        (self-IsAmong (values group.clients)))

  sealed-IsCleaned :
      (r : Revision) (rs : List Route) (n : ℕ) (open_ : List ℕ) (group : MultiClient) (info : Info)
      (table : Table)
      → IsHeld n open_ group
      → seal p k a r rs group ≡ ok (info, table)
      → IsCleaned r rs (open_, ok (info, (group, table)))
  unfolding seal info_for
  sealed-IsCleaned r rs n open_ group info table held e =
      let (t, made, last) = >>=-eq-ok (map_err routes (Router.build k group.by_file)) _ e in
      (
        held.opened,
        held-closed n open_ group held,
        ground (arith, last),
        ground (arith, last),
        ground (arith, last),
        held.same_keys,
        ground (arith, last, map_err-ok routes _ made),
      )

  -- Build closes what it does not give to the runtime: after a failure no chain is open. After a
  -- success the open chains are those of the client, whose Close closes them all; the runtime keeps
  -- the application, the revision and the routes; and the client's table is that of its bundles. The
  -- bundles must have distinct main paths, as those of LoadArchive.
  pub build-IsCleaned :
      (r : Revision) (bundles : List Bundle) (rs : List Route)
      → Fresh [] (map (λ (b : Bundle). b.main_path) bundles)
      → IsCleaned r rs (build p k parse x a r bundles rs)
  unfolding build Looped
  build-IsCleaned r bundles rs distinct =
      let Ends = IsCleaned r rs in
      let after = build p k parse x a r bundles rs in
      let start : MultiClient = record { clients = []; by_file = [] } in
      let (open_, (group, looped)) = bundle_loop p k parse x a bundles 0 [] start in
      let (n, held) =
        bundle_loop-Looped bundles 0 [] start distinct
          (record { opened = refl; below = tt; same_keys = refl }) in
      elim (Result-cases (Router.build k ((a.name, rs) ∷ []))) [
        | inr (e, bad) ↦ subst Ends {x = ([], err (routes e))} {y = after} (ground arith) refl
        | inl (first, checked) ↦
            let sealed = looped >>= λ u. seal p k a r rs group in
            elim (Result-cases sealed) [
              | inr (e, bad) ↦
                  subst Ends {x = (close_group (values group.clients) open_, err e)} {y = after}
                    (ground arith) (held-closed n open_ group held)
              | inl ((info, table), good) ↦
                  let (u, through, last) = >>=-eq-ok looped _ good in
                  subst Ends {x = (open_, ok (info, (group, table)))} {y = after} (ground arith)
                    (sealed-IsCleaned r rs n open_ group info table held last)
            ]
      ]
