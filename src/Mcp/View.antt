-- ===== src/Mcp/View.antt =====
-- internal/mcp/service.go: what the service shows: View and Tools.
pub mod Total
use xuandu_gateway.Prelude.{
  ℕ, ◌-◌, Bool, true, false, not, ◌||◌, Option, none, some, is_some, List, [], ◌∷◌, Text, bytes,
  Dict, lookup, values, Result, ok, err, ◌>>=◌, if◌then◌else◌, ltb, length, map,
}
use xuandu_gateway.Mcp.Model.{Catalog, ServerConfig, safe_catalog}
use xuandu_gateway.Mcp.Build.{Binding, BuildError, CompiledServer, McpSnapshot, sorted_bindings}
use xuandu_gateway.Mcp.Serve.{max_age}

-- Status
pub record Status : Type 0 where
  pub server_id : Text
  pub status : Text
  pub error : Option BuildError
  pub revision : Text
  pub tool_count : ℕ

-- View; `listener_error` tells whether there is one.
pub record View : Type 0 where
  pub catalog : Catalog
  pub listener_enabled : Bool
  pub listener_error : Bool
  pub statuses : List Status

-- Errors; `panicked` is the dereference of a server that the snapshot does not have.
pub data ViewError : Type 0 where
  not_loaded no_server panicked : ViewError

-- The listener: whether it has failed, and whether it is configured.
pub record Listener : Type 0 where
  pub failed : Bool
  pub enabled : Bool

unfoldable pub status_text : Listener → ℕ → McpSnapshot → ServerConfig → CompiledServer → Text
status_text l now p cfg cs =
    if l.failed
    then bytes "unavailable"
    else if not l.enabled
    then bytes "listener_off"
    else if not cfg.enabled
    then bytes "disabled"
    else if is_some cs.error || ltb max_age (now - p.fresh)
    then bytes "unavailable"
    else bytes "ready"

unfoldable pub statuses_of :
    Listener → ℕ → McpSnapshot → List ServerConfig → Result ViewError (List Status)
unfolding status_text
statuses_of l now p [] = ok []
statuses_of l now p (cfg ∷ cfgs) = elim (lookup cfg.id p.servers) [
  | none ↦ err panicked
  | some cs ↦ statuses_of l now p cfgs >>= λ more. ok (
      record {
        server_id = cfg.id;
        status = status_text l now p cfg cs;
        error = cs.error;
        revision = cs.revision;
        tool_count = length cs.bindings;
      }
      ∷ more)
]

-- View
unfoldable pub view : Listener → ℕ → Option McpSnapshot → Result ViewError View
unfolding statuses_of
view l now none = err not_loaded
view l now (some p) = statuses_of l now p p.catalog.servers >>= λ statuses. ok (record {
  catalog = safe_catalog p.catalog;
  listener_enabled = l.enabled;
  listener_error = l.failed;
  statuses = statuses;
})

-- Tools: the bindings of a server by name.
unfoldable pub tools : Option McpSnapshot → Text → Result ViewError (List Binding)
tools none id = err no_server
tools (some p) id = elim (lookup id p.servers) [
  | none ↦ err no_server
  | some cs ↦ ok (sorted_bindings (values cs.bindings))
]
