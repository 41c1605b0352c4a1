-- ===== src/Metadata/Contracts/RoundTrip.antt =====
-- internal/metadata/contracts.go: what PutContract has stored, GetContract reads.
use xuandu_gateway.Prelude.{
  ℕ, zero, suc, ◌+◌, ◌-◌, ◌<◌, min, ◌≡◌, refl, ap, ◌∙◌, ◌⊎◌, inl, inr, Bool, true, false, Option,
  none, some, [], ◌∷◌, ◌++◌, Text, ◌==◌, eq_iff, ==_refl, itoa, atoi-itoa, ok, ltb, eqb, length,
  take, drop, length-take, length-drop, length-append, take-append-drop, Bool-cases, Option-cases,
  Result-cases, arith,
}
use mathlib.Core.List.{append_assoc, append-nil}
use xuandu_gateway.Platform.{Platform}
use xuandu_gateway.Archive.{Revision, unpack, max_archive_bytes}
use xuandu_gateway.Metadata.Consul.{Consul, Holds, CreatesOnly}
use xuandu_gateway.Metadata.Contracts.{
  chunk_size, contract_key, chunk_key, marker_key, compare_stored, settle, put_immutable,
  put_chunks, put_archive, invalid_contract, put_contract, get_value, stored_size, get_chunks,
  get_contract,
}

chunk_size_pos : 0 < chunk_size
unfolding chunk_size
chunk_size_pos = omega arith

module _ {W : Type 0} (c : Consul W) (laws : CreatesOnly c) where
  compare_stored-Holds : (k v : Text) (w : W) → compare_stored c k v w ≡ ok tt → Holds c w k v
  unfolding compare_stored
  compare_stored-Holds k v w e = elim (Option-cases (c.get k w)) [
    | inl n ↦ absurd (ground arith)
    | inr (o, g) ↦ elim (Option-cases o) [
      | inl n ↦ absurd (ground arith)
      | inr (p, q) ↦ (p, ground arith, ground (arith, eq_iff p.value v))
    ]
  ]

  put_immutable-kept :
      (k v j u : Text) (w : W) → Holds c w j u → Holds c (put_immutable c k v w).0 j u
  unfolding put_immutable
  put_immutable-kept k v j u w h = laws.kept k v j u w h

  settle-Holds :
      (k v : Text) (w w' : W) (a : Option Bool)
      → (a ≡ some true → Holds c w' k v)
      → settle c k v w' a ≡ ok tt
      → Holds c w' k v
  unfolding settle
  settle-Holds k v w w' none h e = absurd (ground arith)
  settle-Holds k v w w' (some true) h e = h refl
  settle-Holds k v w w' (some false) h e = compare_stored-Holds k v w' e

  put_immutable-Holds :
      (k v : Text) (w : W)
      → (put_immutable c k v w).1 ≡ ok tt
      → Holds c (put_immutable c k v w).0 k v
  unfolding put_immutable
  put_immutable-Holds k v w e = settle-Holds k v w _ _ (laws.created k v w) e

  put_chunks-kept :
      (f : ℕ) (key : Text) (i : ℕ) (rest : Text) (w : W) (j u : Text)
      → Holds c w j u
      → Holds c (put_chunks c f key i rest w).0 j u
  unfolding put_chunks
  put_chunks-kept zero key i rest w j u h = h
  put_chunks-kept (suc f) key i rest w j u h = elim (Bool-cases (rest == [])) [
    | inl done ↦ rw done h
    | inr more ↦
        let kept = put_immutable-kept (chunk_key key i) (take chunk_size rest) j u w h in
        rw more
          (elim (Result-cases (put_immutable c (chunk_key key i) (take chunk_size rest) w).1) [
            | inl (x, e) ↦ rw e (put_chunks-kept f key (i + 1) (drop chunk_size rest) _ j u kept)
            | inr (x, e) ↦ rw e kept
          ])
  ]

  -- The chunks of `rest` from the i-th on.
  abbrev Stored : ℕ → Text → ℕ → Text → W → Type 0
  Stored zero key i rest w = (rest == []) ≡ true
  Stored (suc f) key i rest w =
      ((rest == []) ≡ true)
      ⊎ (Holds c w (chunk_key key i) (take chunk_size rest)
          × Stored f key (i + 1) (drop chunk_size rest) w)

  put_chunks-Stored :
      (f : ℕ) (key : Text) (i : ℕ) (rest : Text) (w : W)
      → (put_chunks c f key i rest w).1 ≡ ok tt
      → Stored f key i rest (put_chunks c f key i rest w).0
  unfolding put_chunks
  put_chunks-Stored zero key i rest w e = ground arith
  put_chunks-Stored (suc f) key i rest w e = elim (Bool-cases (rest == [])) [
    | inl done ↦ inl done
    | inr more ↦
        let k = chunk_key key i in
        let v = take chunk_size rest in
        elim (Result-cases (put_immutable c k v w).1) [
          | inl (x, q) ↦
              let w' = (put_immutable c k v w).0 in
              let end_ : put_chunks c (suc f) key i rest w
                  ≡ put_chunks c f key (i + 1) (drop chunk_size rest) w' =
                ground arith in
              rw end_ (
                inr (
                  put_chunks-kept f key (i + 1) (drop chunk_size rest) w' k v
                      (put_immutable-Holds k v w q),
                  put_chunks-Stored f key (i + 1) (drop chunk_size rest) w' (ground arith),
                ))
          | inr (x, q) ↦ absurd (ground arith)
        ]
  ]

  get_value-Holds : (k v : Text) (w : W) → Holds c w k v → get_value c k w ≡ ok v
  unfolding get_value
  get_value-Holds k v w (p, g, q) = rw (g, get_value) (ap ok q)

  get_chunks_done :
      (f : ℕ) (key : Text) (i size : ℕ) (content rest : Text) (w : W)
      → (rest == []) ≡ true
      → size ≡ length content + length rest
      → get_chunks c f key i size content w ≡ ok (content ++ rest)
  unfolding get_chunks
  get_chunks_done f key i size content (x ∷ rest) w h e = absurd (unfold ◌==◌ in ground arith)
  get_chunks_done zero key i size content [] w h e = ground (arith, append-nil content)
  get_chunks_done (suc f) key i size content [] w h e = ground (arith, append-nil content)

  get_chunks-Stored :
      (f : ℕ) (key : Text) (i size : ℕ) (content rest : Text) (w : W)
      → Stored f key i rest w
      → size ≡ length content + length rest
      → get_chunks c f key i size content w ≡ ok (content ++ rest)
  unfolding get_chunks
  get_chunks-Stored zero key i size content rest w s e =
      get_chunks_done zero key i size content rest w s e
  get_chunks-Stored (suc f) key i size content rest w (inl done) e =
      get_chunks_done (suc f) key i size content rest w done e
  get_chunks-Stored (suc f) key i size content [] w (inr (held, more)) e =
      get_chunks_done (suc f) key i size content [] w (==_refl []) e
  get_chunks-Stored (suc f) key i size content (x ∷ xs) w (inr (held, more)) e =
      let rest : Text = x ∷ xs in
      let part = take chunk_size rest in
      let below : ltb (length content) size ≡ true = ground arith in
      let fits : eqb (length part) (min chunk_size (size - length content)) ≡ true =
        ground (arith, length-take chunk_size rest) in
      let total : size ≡ length (content ++ part) + length (drop chunk_size rest) = omega (
        arith,
        length-append content part,
        length-take chunk_size rest,
        length-drop chunk_size rest,
      ) in
      rw (below, get_value-Holds (chunk_key key i) part w held, fits)
        (get_chunks-Stored f key (i + 1) size (content ++ part) (drop chunk_size rest) w more total
          ∙ ap ok (
              append_assoc content part (drop chunk_size rest)
              ∙ ap (◌++◌ content) (take-append-drop chunk_size rest)))

  Stored-kept :
      (f : ℕ) (key : Text) (i : ℕ) (rest : Text) (w : W) (k v : Text)
      → Stored f key i rest w
      → Stored f key i rest (put_immutable c k v w).0
  Stored-kept zero key i rest w k v s = s
  Stored-kept (suc f) key i rest w k v (inl done) = inl done
  Stored-kept (suc f) key i rest w k v (inr (held, more)) = inr (
    put_immutable-kept k v (chunk_key key i) (take chunk_size rest) w held,
    Stored-kept f key (i + 1) (drop chunk_size rest) w k v more,
  )

  -- An archive is stored with all its chunks and its marker.
  IsStored : Text → Text → W → Type 0
  IsStored key content w =
      Stored (length content) key 0 content w × Holds c w (marker_key key) (itoa (length content))

  put_archive-IsStored :
      (key content : Text) (w : W)
      → (put_archive c key content w).1 ≡ ok tt
      → IsStored key content (put_archive c key content w).0
  unfolding put_archive IsStored
  put_archive-IsStored key content w e =
      let chunks = put_chunks c (length content) key 0 content w in
      elim (Result-cases chunks.1) [
        | inr (x, q) ↦ absurd (ground arith)
        | inl (x, q) ↦
            let end_ : put_archive c key content w
                ≡ put_immutable c (marker_key key) (itoa (length content)) chunks.0 =
              ground arith in
            rw end_ (
              Stored-kept (length content) key 0 content chunks.0 _ _
                  (put_chunks-Stored (length content) key 0 content w (ground arith)),
              put_immutable-Holds (marker_key key) (itoa (length content)) chunks.0 (ground arith),
            )
      ]

  stored_size-IsStored :
      (key content : Text) (w : W)
      → IsStored key content w
      → eqb (length content) 0 ≡ false
      → ltb max_archive_bytes (length content) ≡ false
      → stored_size c key w ≡ ok (length content)
  unfolding stored_size IsStored
  stored_size-IsStored key content w s pos small = ground (
    arith,
    get_value-Holds (marker_key key) (itoa (length content)) w s.1,
    atoi-itoa (length content),
  )

  get_contract-IsStored :
      (p : Platform) (prefix key : Text) (r : Revision) (w : W)
      → contract_key prefix r.digest ≡ ok key
      → IsStored key r.archive w
      → invalid_contract p r ≡ false
      → unpack p r.archive ≡ ok r.files
      → get_contract c p prefix r.digest w ≡ ok r
  unfolding get_contract invalid_contract IsStored
  get_contract-IsStored p prefix key r w k s valid u =
      let size = stored_size-IsStored key r.archive w s (ground arith) (ground arith) in
      let content =
        get_chunks-Stored (length r.archive) key 0 (length r.archive) [] r.archive w s.0
          (omega arith) in
      let digest : (p.sha256_hex r.archive == r.digest) ≡ true = ground arith in
      rw (k, size, content, digest, u) refl

  -- A contract that PutContract has stored without an error is what GetContract reads from the
  -- store, byte for byte, if the archive can be unpacked and the reads do not fail.
  pub get-put_contract :
      (p : Platform) (prefix : Text) (r : Revision) (w : W)
      → (put_contract c p prefix r w).1 ≡ ok tt
      → unpack p r.archive ≡ ok r.files
      → get_contract c p prefix r.digest (put_contract c p prefix r w).0 ≡ ok r
  unfolding put_contract
  get-put_contract p prefix r w e u = elim (Result-cases (contract_key prefix r.digest)) [
    | inr (x, k) ↦ absurd (ground arith)
    | inl (key, k) ↦ elim (Bool-cases (invalid_contract p r)) [
      | inl bad ↦ absurd (ground arith)
      | inr valid ↦
          let end_ : put_contract c p prefix r w ≡ put_archive c key r.archive w = ground arith in
          rw end_ (
            get_contract-IsStored p prefix key r _ k
              (put_archive-IsStored key r.archive w (ground arith)) valid u)
    ]
  ]
