-- ===== src/Metadata/Watch.antt =====
-- internal/metadata/consul_store.go: Watch, the loop of blocking queries. A list that fails is tried
-- again; the wait before that, and the end with the context, are left out.
use xuandu_gateway.Prelude.{ℕ, Option, none, some, List, [], ◌∷◌, if◌then◌else◌, ltb, eqb}
use xuandu_gateway.Metadata.Model.{App}

-- The index of the next query, after one with `index` that has answered `next`. Consul's index may go
-- back; a query with index 0 does not block.
unfoldable pub next_index : ℕ → ℕ → ℕ
next_index index next = let i = if ltb next index then 0 else next in if eqb i 0 then 1 else i

-- One round: what the handler makes of its state, and the next index.
unfoldable pub watch_round :
    {S : Type 0} → (List App → S → S) → Option (List App × ℕ) → ℕ × S → ℕ × S
unfolding next_index
watch_round handler none (index, s) = (index, s)
watch_round handler (some (apps, next)) (index, s) = (next_index index next, handler apps s)

-- Watch, for the answers of its queries in order.
unfoldable pub watch :
    {S : Type 0} → (List App → S → S) → List (Option (List App × ℕ)) → ℕ × S → ℕ × S
unfolding watch_round
watch handler [] state = state
watch handler (answer ∷ answers) state = watch handler answers (watch_round handler answer state)
