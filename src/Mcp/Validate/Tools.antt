-- ===== src/Mcp/Validate/Tools.antt =====
-- internal/mcp/model.go: what the loops of validate over the tools and the keys have checked.
use xuandu_gateway.Prelude.{
  ◌≡◌, ◌⊎◌, inl, inr, Bool, true, false, ◌&&◌, ◌||◌, List, [], ◌∷◌, Text, ◌==◌, eq_iff, mem_text,
  Dict, lookup-put, put, ok, ◌>>=◌, any, length, All, Fresh, push, Bool-cases, >>=-eq-ok, arith,
}
use xuandu_gateway.Mcp.Model.{ServerConfig, ToolConfig, Grant, KeyConfig, tool_name}
use xuandu_gateway.Mcp.Validate.{
  no_server, bad_tool_fields, name_key, tool_loop, bad_tool_grant, grant_loop, bad_key_fields,
  key_loop,
}

abbrev pub tool_ids : List ToolConfig → List Text
tool_ids [] = []
tool_ids (t ∷ ts) = t.id ∷ tool_ids ts

abbrev pub name_keys : List ToolConfig → List Text
name_keys [] = []
name_keys (t ∷ ts) = name_key t ∷ name_keys ts

-- The server has a tool with the id.
abbrev pub has_tool : Text → Text → List ToolConfig → Bool
has_tool server id = any λ t. t.id == id && t.server_id == server

pub record ToolsChecked (servers : Dict ServerConfig) (ts : List ToolConfig) (ids names : List Text)
    (tools : Dict ToolConfig) (ids' : List Text) (tools' : Dict ToolConfig) : Type 0 where
  pub fresh : Fresh ids (tool_ids ts)
  pub ids_after : ids' ≡ push (tool_ids ts) ids
  pub fresh_names : Fresh names (name_keys ts)
  pub owned : All (λ t. no_server t.server_id servers ≡ false) ts
  pub named : All (λ t. tool_name t.name ≡ true) ts
  pub known :
      (server id : Text)
      → bad_tool_grant tools' server id ≡ false
      → (bad_tool_grant tools server id ≡ false) ⊎ (has_tool server id ts ≡ true)

known_cons :
    (t : ToolConfig) (ts : List ToolConfig) (tools : Dict ToolConfig) (server id : Text)
    → (bad_tool_grant (put t.id t tools) server id ≡ false) ⊎ (has_tool server id ts ≡ true)
    → (bad_tool_grant tools server id ≡ false) ⊎ (has_tool server id (t ∷ ts) ≡ true)
unfolding bad_tool_grant
known_cons t ts tools server id h = ground (arith, lookup-put t.id id t tools, eq_iff t.id id)

good_fields :
    (ids : List Text) (servers : Dict ServerConfig) (t : ToolConfig)
    → bad_tool_fields ids servers t ≡ false
    → (mem_text t.id ids ≡ false)
      × (no_server t.server_id servers ≡ false)
      × (tool_name t.name ≡ true)
unfolding bad_tool_fields
good_fields ids servers t h = ground arith

pub tool_loop_lem :
    (servers : Dict ServerConfig) (ts : List ToolConfig) (ids names : List Text)
    (tools : Dict ToolConfig) (ids' : List Text) (tools' : Dict ToolConfig)
    → tool_loop servers ts ids names tools ≡ ok (ids', tools')
    → ToolsChecked servers ts ids names tools ids' tools'
unfolding tool_loop
tool_loop_lem servers [] ids names tools ids' tools' e = record {
  fresh = tt;
  ids_after = ground arith;
  fresh_names = tt;
  owned = tt;
  named = tt;
  known = λ server id h. inl (ground arith);
}
tool_loop_lem servers (t ∷ ts) ids names tools ids' tools' e =
    elim (Bool-cases (bad_tool_fields ids servers t)) [
      | inl bad ↦ absurd (ground arith)
      | inr good ↦ elim (Bool-cases (mem_text (name_key t) names)) [
        | inl old ↦ absurd (ground arith)
        | inr new ↦
            let f = good_fields ids servers t good in
            let r =
              tool_loop_lem servers ts (t.id ∷ ids) (name_key t ∷ names) (put t.id t tools) ids'
                tools' (ground arith) in
            record {
              fresh = (f.0, r.fresh);
              ids_after = r.ids_after;
              fresh_names = (new, r.fresh_names);
              owned = (f.1, r.owned);
              named = (f.2, r.named);
              known = λ server id h. known_cons t ts tools server id (r.known server id h);
            }
      ]
    ]

abbrev pub grant_servers : List Grant → List Text
grant_servers [] = []
grant_servers (g ∷ gs) = g.server_id ∷ grant_servers gs

-- The server of a grant is one of `servers`, and its tools are tools of that server in `tools`.
abbrev pub GrantChecked : Dict ServerConfig → Dict ToolConfig → Grant → Type 0
GrantChecked servers tools g =
    (no_server g.server_id servers ≡ false)
    × All (λ id. bad_tool_grant tools g.server_id id ≡ false) g.tool_ids

none_bad : {A : Type 0} (p : A → Bool) (xs : List A) → any p xs ≡ false → All (λ x. p x ≡ false) xs
none_bad p [] h = tt
none_bad p (x ∷ xs) h = (ground arith, none_bad p xs (ground arith))

grant_loop_lem :
    (servers : Dict ServerConfig) (tools : Dict ToolConfig) (gs : List Grant) (seen : List Text)
    → grant_loop servers tools gs seen ≡ ok tt
    → Fresh seen (grant_servers gs) × All (GrantChecked servers tools) gs
unfolding grant_loop
grant_loop_lem servers tools [] seen e = (tt, tt)
grant_loop_lem servers tools (g ∷ gs) seen e =
    elim (Bool-cases (no_server g.server_id servers || mem_text g.server_id seen)) [
      | inl bad ↦ absurd (ground arith)
      | inr good ↦ elim (Bool-cases (any (bad_tool_grant tools g.server_id) g.tool_ids)) [
        | inl bad ↦ absurd (ground arith)
        | inr right ↦
            let r = grant_loop_lem servers tools gs (g.server_id ∷ seen) (ground arith) in
            (
              (ground arith, r.0),
              ((ground arith, none_bad (bad_tool_grant tools g.server_id) g.tool_ids right), r.1),
            )
      ]
    ]

abbrev pub key_ids : List KeyConfig → List Text
key_ids [] = []
key_ids (k ∷ ks) = k.id ∷ key_ids ks

-- A SHA-256 sum in hexadecimal, and one grant for each server.
abbrev pub KeyChecked : Dict ServerConfig → Dict ToolConfig → KeyConfig → Type 0
KeyChecked servers tools k =
    (length k.hash ≡ 64)
    × Fresh [] (grant_servers k.grants)
    × All (GrantChecked servers tools) k.grants

good_key :
    (ids : List Text) (k : KeyConfig)
    → bad_key_fields ids k ≡ false
    → (mem_text k.id ids ≡ false) × (length k.hash ≡ 64)
unfolding bad_key_fields
good_key ids k h = ground arith

pub key_loop_lem :
    (servers : Dict ServerConfig) (tools : Dict ToolConfig) (ks : List KeyConfig) (ids : List Text)
    → key_loop servers tools ks ids ≡ ok tt
    → Fresh ids (key_ids ks) × All (KeyChecked servers tools) ks
unfolding key_loop
key_loop_lem servers tools [] ids e = (tt, tt)
key_loop_lem servers tools (k ∷ ks) ids e = elim (Bool-cases (bad_key_fields ids k)) [
  | inl bad ↦ absurd (ground arith)
  | inr good ↦
      let loop : (grant_loop servers tools k.grants [] >>= λ _.
      key_loop servers tools ks (k.id ∷ ids))
          ≡ ok tt =
        ground arith in
      let (u, granted, rest) = >>=-eq-ok (grant_loop servers tools k.grants []) _ loop in
      let f = good_key ids k good in
      let gs = grant_loop_lem servers tools k.grants [] granted in
      let r = key_loop_lem servers tools ks (k.id ∷ ids) rest in
      ((f.0, r.0), ((f.1, gs.0, gs.1), r.1))
]
