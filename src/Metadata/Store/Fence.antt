-- ===== src/Metadata/Store/Fence.antt =====
-- internal/metadata/consul_store.go: the marker fences writes that rest on an old catalog.
use xuandu_gateway.Prelude.{
  ℕ, ◌+◌, ◌≤◌, ◌<◌, ◌≡◌, ◌≢◌, ◌⊎◌, refl, ap, ◌∙◌, subst, inl, inr, true, false, not, Option, none,
  some, [], ◌∷◌, ◌++◌, Text, bytes, ◌==◌, atoi, itoa, atoi-itoa, ok, map_err, refuse-ok, >>=-eq-ok,
  Result-cases, arith,
}
use xuandu_gateway.Platform.{Platform}
use xuandu_gateway.Metadata.Consul.{Verb, cas, delete_cas, Consul}
use xuandu_gateway.Metadata.Model.{App, name_pattern, revision_pattern, validate}
use xuandu_gateway.Metadata.Store.{
  AppCodec, invalid_app, invalid_app_name, revision_missing, app_key, epoch_key, transact,
  check_write, compare_and_swap, check_delete, delete, catalog,
}

-- What a transaction that has been done has made of the key whose index it checks: the key had that
-- index, it has the new value, and its index is not lower. The index is known to be higher only if the
-- value is another one: Consul need not modify a key that is set to the value that it has.
pub record Sets {W : Type 0} (index : Text → W → ℕ) (value : Text → W → Option Text) (k v : Text)
    (i : ℕ) (w w' : W) : Type 0 where
  pub was : index k w ≡ i
  pub set : value k w' ≡ some v
  pub no_lower : index k w ≤ index k w'
  pub higher : value k w ≢ some v → index k w < index k w'

-- What Consul documents of a transaction that checks the index of the marker `k` and writes to another
-- key. `index` is the ModifyIndex of a key, 0 for a missing key, and `value` is what it holds.
pub record Fences {W : Type 0} (c : Consul W) : Type 0 where
  pub index : Text → W → ℕ
  pub value : Text → W → Option Text
  -- It is done as a whole or leaves the marker, whatever is answered.
  pub decided :
      (k v key : Text) (i n : ℕ) (verb : Verb) (w : W)
      → (key == k) ≡ false
      → let w' = (c.transact k i v verb key n w).0 in
        ((value k w' ≡ value k w) × (index k w' ≡ index k w)) ⊎ Sets index value k v i w w'
  -- It is done if the answer is that it has been.
  pub done :
      (k v key : Text) (i n : ℕ) (verb : Verb) (w : W)
      → (key == k) ≡ false
      → (c.transact k i v verb key n w).1 ≡ some true
      → Sets index value k v i w (c.transact k i v verb key n w).0

append_left : (s t u : Text) → ((s ++ t) == (s ++ u)) ≡ (t == u)
unfolding ◌==◌
append_left [] t u = refl
append_left (c ∷ s) t u = ground (arith, append_left s t u)

no_marker_name : (name : Text) → name_pattern name ≡ true → (name == bytes "_catalog") ≡ false
unfolding name_pattern bytes ◌==◌
no_marker_name [] h = cc
no_marker_name (c ∷ s) h = ground arith

-- No application has the key of the marker.
app_key-apart :
    (prefix name key : Text) → app_key prefix name ≡ ok key → (key == epoch_key prefix) ≡ false
unfolding app_key epoch_key
app_key-apart prefix name key e =
    let (named, rest) = refuse-ok (not (name_pattern name)) invalid_app_name _ e in
    let is_key : prefix ++ name ≡ key = ground arith in
    subst (λ x. (x == (prefix ++ bytes "_catalog")) ≡ false) is_key
      (append_left prefix name (bytes "_catalog") ∙ no_marker_name name (ground arith))

itoa-injective : (m n : ℕ) → itoa m ≡ itoa n → m ≡ n
itoa-injective m n e =
    let same : atoi (itoa m) ≡ atoi (itoa n) = ap atoi e in ground (arith, atoi-itoa m, atoi-itoa n)

module _ {W : Type 0} (p : Platform) (c : Consul W) (j : AppCodec) (prefix : Text)
    (laws : Fences c) where
  -- The states that the writes of any number of gateways lead to.
  pub data Later (w : W) : W → Type 0 where
    now : Later w w
    swaps : {u : W} (a : App) (i : ℕ) → Later w u → Later w (compare_and_swap p c j prefix a i u).0
    deletes : {u : W} (name : Text) (i : ℕ) → Later w u → Later w (delete p c j prefix name i u).0

  marker : W → ℕ
  marker = laws.index (epoch_key prefix)

  -- The marker is missing, or has the value that a lower index led to.
  data IsMarked (w : W) : Type 0 where
    unmarked : laws.value (epoch_key prefix) w ≡ none → IsMarked w
    marked :
        (n : ℕ) → laws.value (epoch_key prefix) w ≡ some (itoa (n + 1)) → n < marker w → IsMarked w

  -- What a step makes of the marker.
  abbrev Keeps : W → W → Type 0
  Keeps w w' = IsMarked w' × (marker w ≤ marker w')

  -- The next value of the marker is none that it has had.
  next-fresh : (w : W) → IsMarked w → laws.value (epoch_key prefix) w ≢ some (itoa (marker w + 1))
  next-fresh w (unmarked missing) e = absurd (ground arith)
  next-fresh w (marked n at low) e =
      let same : itoa (n + 1) ≡ itoa (marker w + 1) = ground arith in
      let same_number = itoa-injective (n + 1) (marker w + 1) same in absurd (omega arith)

  SetsMarker : ℕ → W → W → Type 0
  SetsMarker epoch w w' =
      Sets laws.index laws.value (epoch_key prefix) (itoa (epoch + 1)) epoch w w'

  Sets-Keeps :
      (epoch : ℕ) (w w' : W)
      → IsMarked w
      → SetsMarker epoch w w'
      → Keeps w w' × (marker w ≡ epoch) × (epoch < marker w')
  unfolding SetsMarker marker
  Sets-Keeps epoch w w' h s =
      let fresh : laws.value (epoch_key prefix) w ≢ some (itoa (epoch + 1)) =
        subst (λ i. laws.value (epoch_key prefix) w ≢ some (itoa (i + 1))) s.was (next-fresh w h) in
      let above : epoch < marker w' = ground (arith, s.higher fresh, s.was) in
      ((marked epoch s.set above, s.no_lower), s.was, above)

  transact-Keeps :
      (verb : Verb) (key : Text) (i epoch : ℕ) (w : W)
      → (key == epoch_key prefix) ≡ false
      → IsMarked w
      → Keeps w (transact p c j prefix verb key i epoch w).0
  unfolding transact marker SetsMarker
  transact-Keeps verb key i epoch w apart h =
      let w' = (transact p c j prefix verb key i epoch w).0 in
      elim (laws.decided (epoch_key prefix) (itoa (epoch + 1)) key epoch i verb w apart) [
        | inr s ↦ (Sets-Keeps epoch w w' h s).0
        | inl (same_value, same_index) ↦ elim h [
          | unmarked missing ↦ (unmarked (same_value ∙ missing), ground arith)
          | marked n at low ↦ (marked n (same_value ∙ at) (ground arith), ground arith)
        ]
      ]

  transact-fenced :
      (verb : Verb) (key : Text) (i epoch : ℕ) (w : W)
      → (key == epoch_key prefix) ≡ false
      → IsMarked w
      → (transact p c j prefix verb key i epoch w).1 ≡ ok tt
      → (marker w ≡ epoch) × (epoch < marker (transact p c j prefix verb key i epoch w).0)
  unfolding transact SetsMarker
  transact-fenced verb key i epoch w apart h e =
      let done : (c.transact (epoch_key prefix) epoch (itoa (epoch + 1)) verb key i w).1
          ≡ some true =
        ground arith in
      let (kept, was, above) =
        Sets-Keeps epoch w (transact p c j prefix verb key i epoch w).0 h
          (laws.done (epoch_key prefix) (itoa (epoch + 1)) key epoch i verb w apart done) in
      (was, above)

  check_write-apart :
      (a : App) (key : Text)
      → check_write p c j prefix a ≡ ok key
      → (key == epoch_key prefix) ≡ false
  unfolding check_write
  check_write-apart a key e =
      let (u, valid, e1) = >>=-eq-ok (map_err invalid_app (validate p a)) _ e in
      let (pinned, e2) =
        refuse-ok (not (revision_pattern a.idl.resolved_revision)) revision_missing _ e1 in
      app_key-apart prefix a.name key e2

  check_delete-apart :
      (name key : Text) (w : W) (epoch : ℕ)
      → check_delete p c j prefix name w ≡ ok (key, epoch)
      → (key == epoch_key prefix) ≡ false
  unfolding check_delete
  check_delete-apart name key w epoch e =
      let (found, named, e1) = >>=-eq-ok (app_key prefix name) _ e in
      let ((apps, at), listed, e2) = >>=-eq-ok (catalog p c j prefix w) _ e1 in
      let same : found ≡ key = ground arith in
      subst (λ x. (x == epoch_key prefix) ≡ false) same (app_key-apart prefix name found named)

  swap-Keeps :
      (a : App) (i : ℕ) (w : W) → IsMarked w → Keeps w (compare_and_swap p c j prefix a i w).0
  unfolding compare_and_swap
  swap-Keeps a i w h = elim (Result-cases (check_write p c j prefix a)) [
    | inl (key, good) ↦
        subst (Keeps w) {x = (transact p c j prefix (cas (j.encode a)) key i a.catalog_index w).0}
          {y = (compare_and_swap p c j prefix a i w).0} (ground arith)
          (transact-Keeps (cas (j.encode a)) key i a.catalog_index w (check_write-apart a key good)
            h)
    | inr (e, bad) ↦
        subst (Keeps w) {x = w} {y = (compare_and_swap p c j prefix a i w).0} (ground arith)
          (h, omega arith)
  ]

  delete-Keeps :
      (name : Text) (i : ℕ) (w : W) → IsMarked w → Keeps w (delete p c j prefix name i w).0
  unfolding delete
  delete-Keeps name i w h = elim (Result-cases (check_delete p c j prefix name w)) [
    | inl ((key, epoch), good) ↦
        subst (Keeps w) {x = (transact p c j prefix delete_cas key i epoch w).0}
          {y = (delete p c j prefix name i w).0} (ground arith)
          (transact-Keeps delete_cas key i epoch w (check_delete-apart name key w epoch good) h)
    | inr (e, bad) ↦
        subst (Keeps w) {x = w} {y = (delete p c j prefix name i w).0} (ground arith)
          (h, omega arith)
  ]

  Later-Keeps : {w u : W} → IsMarked w → Later w u → Keeps w u
  Later-Keeps h now = (h, omega arith)
  Later-Keeps h (swaps {u} a i l) =
      let (m, low) = Later-Keeps h l in let (m', up) = swap-Keeps a i u m in (m', omega arith)
  Later-Keeps h (deletes {u} name i l) =
      let (m, low) = Later-Keeps h l in let (m', up) = delete-Keeps name i u m in (m', omega arith)

  swap-fenced :
      (a : App) (i : ℕ) (w : W)
      → IsMarked w
      → (compare_and_swap p c j prefix a i w).1 ≡ ok tt
      → (marker w ≡ a.catalog_index)
        × (a.catalog_index < marker (compare_and_swap p c j prefix a i w).0)
  unfolding compare_and_swap
  swap-fenced a i w h e = elim (Result-cases (check_write p c j prefix a)) [
    | inr (f, bad) ↦ absurd (ground arith)
    | inl (key, good) ↦
        let done : (transact p c j prefix (cas (j.encode a)) key i a.catalog_index w).1 ≡ ok tt =
          ground arith in
        let fenced =
          transact-fenced (cas (j.encode a)) key i a.catalog_index w (check_write-apart a key good)
            h done in
        (fenced.0, ground (arith, fenced.1))
  ]

  -- In every state that the writes of any number of gateways lead to from one without a marker: once an
  -- application has been written on the basis of a catalog, no application, be it another one or the
  -- same, is written on the basis of that catalog or an older one, whatever gateways write in between.
  -- Consul is not assumed to raise the index of a marker that is set to the value that it has.
  pub stale_write_refused :
      (a b : App) (i k : ℕ) (start w u : W)
      → laws.value (epoch_key prefix) start ≡ none
      → Later start w
      → (compare_and_swap p c j prefix a i w).1 ≡ ok tt
      → Later (compare_and_swap p c j prefix a i w).0 u
      → b.catalog_index ≤ a.catalog_index
      → (compare_and_swap p c j prefix b k u).1 ≢ ok tt
  stale_write_refused a b i k start w u empty before written later stale e =
      let here = (Later-Keeps (unmarked empty) before).0 in
      let (after, up) = Later-Keeps (swap-Keeps a i w here).0 later in
      let first = swap-fenced a i w here written in
      let second = swap-fenced b k u after e in absurd (omega (arith, first.1, second.0, stale))
