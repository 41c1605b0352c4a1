-- ===== src/Mcp/Validate/Servers.antt =====
-- internal/mcp/model.go: what the loop of validate over the servers has checked.
use xuandu_gateway.Prelude.{
  ◌≡◌, subst, ◌⊎◌, inl, inr, true, false, not, ◌&&◌, List, [], ◌∷◌, ◌++◌, Text, bytes, eq_iff,
  equal_fold, mem_text, Dict, lookup-put, put, ok, ◌>>=◌, Fresh, Fresh-append, push, Bool-cases,
  >>=-eq-ok, arith,
}
use xuandu_gateway.Platform.{Platform}
use xuandu_gateway.Mcp.Model.{ServerConfig, endpoint_key}
use xuandu_gateway.Mcp.Validate.{
  bad_server_fields, bad_server_header, endpoint_loop, server_loop, no_server,
}

-- The paths of the endpoints, in order.
abbrev pub Paths : Platform → List Text → List Text → Type 0
Paths p [] [] = Unit
Paths p (raw ∷ raws) (k ∷ ks) = (endpoint_key p raw ≡ ok k) × Paths p raws ks
Paths p [] (k ∷ ks) = ⊥
Paths p (raw ∷ raws) [] = ⊥

Paths-append :
    (p : Platform) (raws ks more ls : List Text)
    → Paths p raws ks
    → Paths p more ls
    → Paths p (raws ++ more) (ks ++ ls)
Paths-append p [] [] more ls h g = g
Paths-append p (raw ∷ raws) (k ∷ ks) more ls h g = (h.0, Paths-append p raws ks more ls h.1 g)
Paths-append p [] (k ∷ ks) more ls h g = elim h [ ]
Paths-append p (raw ∷ raws) [] more ls h g = elim h [ ]

endpoint_loop_lem :
    (p : Platform) (raws seen seen' : List Text)
    → endpoint_loop p raws seen ≡ ok seen'
    → (ks : List Text) × Paths p raws ks × Fresh seen ks × (seen' ≡ push ks seen)
unfolding endpoint_loop
endpoint_loop_lem p [] seen seen' e = ([], tt, tt, ground arith)
endpoint_loop_lem p (raw ∷ raws) seen seen' e =
    let (k, key, rest) = >>=-eq-ok (endpoint_key p raw) _ e in
    elim (Bool-cases (mem_text k seen)) [
      | inl old ↦ absurd (ground arith)
      | inr new ↦
          let (ks, paths, fresh, end_) = endpoint_loop_lem p raws (k ∷ seen) seen' (ground arith) in
          (k ∷ ks, (key, paths), (new, fresh), end_)
    ]

abbrev pub server_ids : List ServerConfig → List Text
server_ids [] = []
server_ids (s ∷ ss) = s.id ∷ server_ids ss

abbrev pub all_endpoints : List ServerConfig → List Text
all_endpoints [] = []
all_endpoints (s ∷ ss) = s.endpoints ++ all_endpoints ss

-- The header of a server may carry a key: it is a header name, no header of the protocol but the
-- three for keys, and Authorization goes with Bearer.
abbrev pub GoodHeader : ServerConfig → Type 0
GoodHeader s =
    (bad_server_header s.header ≡ false)
    × ((equal_fold s.header (bytes "Authorization") && not s.bearer) ≡ false)

abbrev pub GoodHeaders : List ServerConfig → Type 0
GoodHeaders [] = Unit
GoodHeaders (s ∷ ss) = GoodHeader s × GoodHeaders ss

pub record ServersChecked (p : Platform) (ss : List ServerConfig) (ids seen : List Text)
    (servers : Dict ServerConfig) (ids' : List Text) (servers' : Dict ServerConfig) : Type 0 where
  pub fresh : Fresh ids (server_ids ss)
  pub ids_after : ids' ≡ push (server_ids ss) ids
  pub known :
      (id : Text)
      → no_server id servers' ≡ false
      → (no_server id servers ≡ false) ⊎ (mem_text id (server_ids ss) ≡ true)
  pub headers : GoodHeaders ss
  pub paths : (ks : List Text) × Paths p (all_endpoints ss) ks × Fresh seen ks

known_cons :
    (s : ServerConfig) (ss : List ServerConfig) (servers : Dict ServerConfig) (id : Text)
    → (no_server id (put s.id s servers) ≡ false) ⊎ (mem_text id (server_ids ss) ≡ true)
    → (no_server id servers ≡ false) ⊎ (mem_text id (s.id ∷ server_ids ss) ≡ true)
unfolding no_server mem_text
known_cons s ss servers id h =
    ground (arith, lookup-put s.id id s servers, eq_iff s.id id, eq_iff id s.id)

new_id :
    (ids : List Text) (s : ServerConfig)
    → bad_server_fields ids s ≡ false
    → mem_text s.id ids ≡ false
unfolding bad_server_fields
new_id ids s h = ground arith

pub server_loop_lem :
    (p : Platform) (ss : List ServerConfig) (ids seen : List Text) (servers : Dict ServerConfig)
    (ids' : List Text) (servers' : Dict ServerConfig)
    → server_loop p ss ids seen servers ≡ ok (ids', servers')
    → ServersChecked p ss ids seen servers ids' servers'
unfolding server_loop
server_loop_lem p [] ids seen servers ids' servers' e = record {
  fresh = tt;
  ids_after = ground arith;
  known = λ id h. inl (ground arith);
  headers = tt;
  paths = ([], tt, tt);
}
server_loop_lem p (s ∷ ss) ids seen servers ids' servers' e =
    elim (Bool-cases (bad_server_fields ids s)) [
      | inl bad ↦ absurd (ground arith)
      | inr good ↦ elim (Bool-cases (bad_server_header s.header)) [
        | inl bad ↦ absurd (ground arith)
        | inr header ↦
            elim (Bool-cases (equal_fold s.header (bytes "Authorization") && not s.bearer)) [
              | inl bad ↦ absurd (ground arith)
              | inr bearer ↦
                  let loop : (endpoint_loop p s.endpoints seen >>= λ seen'.
                  server_loop p ss (s.id ∷ ids) seen' (put s.id s servers))
                      ≡ ok (ids', servers') =
                    ground arith in
                  let (seen', looped, rest) = >>=-eq-ok (endpoint_loop p s.endpoints seen) _ loop in
                  let (ks, paths, fresh, after) =
                    endpoint_loop_lem p s.endpoints seen seen' looped in
                  let r =
                    server_loop_lem p ss (s.id ∷ ids) seen' (put s.id s servers) ids' servers'
                      rest in
                  let (ls, more, fresh') = r.paths in
                  record {
                    fresh = (new_id ids s good, r.fresh);
                    ids_after = r.ids_after;
                    known = λ id h. known_cons s ss servers id (r.known id h);
                    headers = ((header, bearer), r.headers);
                    paths = (
                      ks ++ ls,
                      Paths-append p s.endpoints ks (all_endpoints ss) ls paths more,
                      Fresh-append seen ks ls fresh (subst (λ q. Fresh q ls) after fresh'),
                    );
                  }
            ]
      ]
    ]
