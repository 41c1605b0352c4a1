-- ===== src/Runtime/Builder/Clients.antt =====
-- internal/runtime/multi_client.go: every route of the client leads to a client.
use xuandu_gateway.Prelude.{
  ◌≡◌, sym, ap, ◌∙◌, inl, inr, true, is_some, List, [], ◌∷◌, Text, eq_iff, mem_text, Dict, lookup,
  keys, map, Fresh, Result, ok, Option-cases, arith, subst,
}
use xuandu_gateway.Platform.{Platform}
use xuandu_gateway.Idl.Ast.{Bundle, Route, Parser}
use xuandu_gateway.Archive.{Revision}
use xuandu_gateway.Metadata.Model.{App}
use xuandu_gateway.Router.{KitexRouter, Table, match_route}
use xuandu_gateway.Router.Names.{match-named}
use xuandu_gateway.Runtime.Heap.{Info}
use xuandu_gateway.Runtime.Builder.{Kitex, MultiClient, BuildFailure, build, client_for}
use xuandu_gateway.Runtime.Builder.Cleanup.{IsCleaned, build-IsCleaned}

mem-lookup :
    {V : Type 0} (k : Text) (m : Dict V) → mem_text k (keys m) ≡ true → is_some (lookup k m) ≡ true
unfolding mem_text lookup
mem-lookup k [] h = absurd (ground arith)
mem-lookup k ((j, v) ∷ m) h = ground (arith, mem-lookup k m, eq_iff k j, eq_iff j k)

-- The client of a runtime that Build returns has a client for every request that its table matches:
-- GenericCall never calls a client that is not there. The bundles must have distinct main paths, as
-- those of LoadArchive.
pub client_for-total :
    (p : Platform) (k : KitexRouter) (parse : Parser) (x : Kitex) (a : App) (r : Revision)
    (bundles : List Bundle) (rs : List Route) (info : Info) (group : MultiClient) (table : Table)
    (method path : Text)
    → Fresh [] (map (λ (b : Bundle). b.main_path) bundles)
    → (build p k parse x a r bundles rs).1 ≡ ok (info, (group, table))
    → is_some (client_for k group table method path) ≡ is_some (match_route k table method path)
unfolding client_for
client_for-total p k parse x a r bundles rs info group table method path distinct built =
    let out = build p k parse x a r bundles rs in
    let CleanedOf : Result BuildFailure (Info × (MultiClient × Table)) → Type 0 =
      λ o. IsCleaned p k parse x a r rs (out.0, o) in
    let clean = subst CleanedOf built (build-IsCleaned p k parse x a r bundles rs distinct) in
    elim (Option-cases (match_route k table method path)) [
      | inl missing ↦ ground arith
      | inr (target, found) ↦
          let named = match-named k group.by_file table method path target clean.6 found in
          ground (
            arith,
            mem-lookup target.app_name group.clients
                (ap (mem_text target.app_name) (sym clean.5) ∙ named),
          )
    ]
