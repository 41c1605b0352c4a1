-- ===== src/Admin/Desired/Reconcile.antt =====
-- internal/admin/service.go: Reconcile leaves only runtimes that the list of applications wants.
use xuandu_gateway.Prelude.{
  ◌≡◌, refl, sym, ap, subst, ◌∙◌, ◌⊎◌, inl, inr, true, false, none, some, List, [], ◌∷◌, Text, ◌==◌,
  eq_iff, Dict, lookup, put, lookup-put, lookup-remove, keys, mem_text, Some, All, All-mono,
  Bool-cases, Option-cases, arith, if◌then◌else◌,
}
use xuandu_gateway.Metadata.Model.{App}
use xuandu_gateway.Runtime.Heap.{Address, Info}
use xuandu_gateway.Runtime.Manager.{Manager, replace_runtime}
use xuandu_gateway.Admin.{Deps, State, info_of, republish}
use xuandu_gateway.Admin.Reconcile.{
  desired, stays, drop_stale, settle_apps, drop_unwanted, finish, names_of, reconcile,
}
use xuandu_gateway.Admin.Protocol.{started}
use xuandu_gateway.Admin.Protocol.Reconcile.{republish-Run, drop_stale-Run}
use xuandu_gateway.Admin.Protocol.Sound.{IsSound, Run-IsSound}
use xuandu_gateway.Admin.Desired.Settle.{settle_apps-Only}
use xuandu_gateway.Admin.Desired.{
  IsOwner, IsWanted, BuildsConfig, Only, republish-Only, IsRemoved, republish-IsRemoved,
}

-- What `desired` finds is an application of the list with that name, or was in the table before.
desired-Some :
    (apps : List App) (table : Dict App) (name : Text) (a : App)
    → lookup name (desired apps table) ≡ some a
    → (lookup name table ≡ some a) ⊎ Some (λ b. (b ≡ a) × (b.name ≡ name)) apps
unfolding desired
desired-Some [] table name a found = inl found
desired-Some (b ∷ more) table name a found =
    elim (desired-Some more (put b.name b table) name a found) [
      | inr later ↦ inr (inr later)
      | inl here ↦ elim (Bool-cases (b.name == name)) [
        | inr other ↦ inl (ground (arith, lookup-put b.name name b table))
        | inl hit ↦ inr (
            inl
              (ground (arith, lookup-put b.name name b table), ground (arith, eq_iff b.name name)))
      ]
    ]

pub Some-mono :
    {A : Type 0} (P Q : A → Type 0) (f : (x : A) → P x → Q x) (xs : List A) → Some P xs → Some Q xs
Some-mono P Q f [] h = h
Some-mono P Q f (x ∷ xs) (inl h) = inl (f x h)
Some-mono P Q f (x ∷ xs) (inr h) = inr (Some-mono P Q f xs h)

stays-IsWanted :
    (apps : List App) (name domain : Text)
    → stays (lookup name (desired apps [])) domain ≡ true
    → IsWanted apps name domain
unfolding stays lookup
stays-IsWanted apps name domain e = elim (Option-cases (lookup name (desired apps []))) [
  | inl missing ↦ absurd (ground arith)
  | inr (a, found) ↦ elim (desired-Some apps [] name a found) [
    | inl nowhere ↦ absurd (ground (arith, nowhere))
    | inr there ↦
        Some-mono (λ b. (b ≡ a) × (b.name ≡ name)) (IsOwner name domain)
          (λ b h. (h.1, ground (arith, h.0), ground (arith, h.0, eq_iff a.domain domain))) apps
          there
  ]
]

module _ {W : Type 0} (d : Deps W) where
  -- A published runtime stays, or is still to be looked at.
  abbrev Judged : Dict App → Dict Address → Manager → Type 0
  Judged table rs m =
      (name : Text) (r : Address)
      → lookup name m.current.runtimes ≡ some r
      → (stays (lookup name table) (m.heap r).info.config.domain ≡ true) ⊎ (lookup name rs ≡ some r)

  removed-Judged :
      (table : Dict App) (name : Text) (r0 : Address) (rs : Dict Address) (s s' : State W)
      → IsRemoved d name s s'
      → Judged table ((name, r0) ∷ rs) s.manager
      → Judged table rs s'.manager
  unfolding lookup replace_runtime
  removed-Judged table name r0 rs s s' done judged n r found =
      let after : (if name == n then none else lookup n s.manager.current.runtimes) ≡ some r =
        sym (ap (lookup n) done.gone ∙ lookup-remove name n s.manager.current.runtimes) ∙ found in
      let same_domain = ap (λ (i : Info). i.config.domain) (sym (done.infos r)) in
      elim (judged n r (ground arith)) [
        | inr later ↦ inr (ground arith)
        | inl stay ↦ inl (subst (λ x. stays (lookup n table) x ≡ true) same_domain stay)
      ]

  kept-Judged :
      (table : Dict App) (name : Text) (r0 : Address) (rs : Dict Address) (m : Manager)
      → stays (lookup name table) (m.heap r0).info.config.domain ≡ true
      → Judged table ((name, r0) ∷ rs) m
      → Judged table rs m
  unfolding lookup
  kept-Judged table name r0 rs m stay judged n r found = elim (judged n r found) [
    | inl stays_too ↦ inl stays_too
    | inr entry ↦ elim (Bool-cases (name == n)) [
      | inr other ↦ inr (ground arith)
      | inl hit ↦
          let is_r : r0 ≡ r = ground arith in
          let is_n : name ≡ n = ground (arith, eq_iff name n) in
          inl (
            subst (λ x. stays (lookup x table) (m.heap r).info.config.domain ≡ true) is_n
              (subst (λ x. stays (lookup name table) (m.heap x).info.config.domain ≡ true) is_r
                stay))
    ]
  ]

  -- The end of the first loop.
  abbrev Dropped : Dict App → State W → Type 0
  Dropped table s = Judged table [] s.manager × (s.manager.closed ≡ false)

  drop_stale-Judged :
      (table : Dict App) (rs : Dict Address) (s : State W)
      → IsSound d s.fresh s.manager
      → s.manager.closed ≡ false
      → Judged table rs s.manager
      → Dropped table (drop_stale d table rs s)
  unfolding drop_stale
  drop_stale-Judged table [] s sound was judged = (judged, was)
  drop_stale-Judged table ((name, r) ∷ rs) s sound was judged =
      let after = drop_stale d table ((name, r) ∷ rs) s in
      elim (Bool-cases (stays (lookup name table) (info_of s r).config.domain)) [
        | inl kept ↦
            subst (Dropped table) {x = drop_stale d table rs s} {y = after} (ground arith) (
              drop_stale-Judged table rs s sound was
                (kept-Judged table name r rs s.manager kept judged))
        | inr stale ↦
            let s1 = (republish d name none s).0 in
            let done = republish-IsRemoved d name s sound was in
            let sound1 = (Run-IsSound d (republish-Run d s name s started) sound).0 in
            subst (Dropped table) {x = drop_stale d table rs s1} {y = after} (ground arith) (
              drop_stale-Judged table rs s1 sound1 done.still_open
                (removed-Judged table name r rs s s1 done judged))
      ]

  -- After the first loop every published runtime is wanted.
  dropped-Only :
      (apps : List App) (s : State W)
      → IsSound d s.fresh s.manager
      → s.manager.closed ≡ false
      → Only (IsWanted apps) (drop_stale d (desired apps []) s.manager.current.runtimes s).manager
  unfolding lookup
  dropped-Only apps s sound was name r found =
      let table = desired apps [] in
      let s' = drop_stale d table s.manager.current.runtimes s in
      let judged =
        (drop_stale-Judged table s.manager.current.runtimes s sound was
          (λ n r found. inr found)).0 in
      elim (judged name r found) [
        | inl stay ↦ stays-IsWanted apps name (info_of s' r).config.domain stay
        | inr nowhere ↦ absurd (ground arith)
      ]

  module _ (P : Text → Text → Type 0) where
    drop_unwanted-Only :
        (wanted names : List Text) (s : State W)
        → Only P s.manager
        → Only P (drop_unwanted d wanted names s).manager
    unfolding drop_unwanted
    drop_unwanted-Only wanted [] s only = only
    drop_unwanted-Only wanted (name ∷ names) s only =
        let after = drop_unwanted d wanted (name ∷ names) s in
        let s1 = (republish d name none s).0 in
        elim (Bool-cases (mem_text name wanted)) [
          | inl kept ↦
              subst (λ (x : State W). Only P x.manager) {x = drop_unwanted d wanted names s}
                {y = after} (ground arith) (drop_unwanted-Only wanted names s only)
          | inr gone ↦
              subst (λ (x : State W). Only P x.manager) {x = drop_unwanted d wanted names s1}
                {y = after} (ground arith)
                (drop_unwanted-Only wanted names s1 (republish-Only P d name s only))
        ]

  owners-IsWanted :
      (apps : List App) → All (λ a. a.enabled ≡ true → IsWanted apps a.name a.domain) apps
  owners-IsWanted [] = tt
  owners-IsWanted (a ∷ more) = (
    λ on. inl (refl, on, refl),
    All-mono (λ b. b.enabled ≡ true → IsWanted more b.name b.domain) (λ b h on. inr (h on)) more
        (owners-IsWanted more),
  )

  -- After a Reconcile of a service that is not stopping, on an open manager, every published runtime
  -- belongs to an enabled application of the list with its name and its domain, whatever has failed.
  -- The builder is assumed to keep the application in the runtime; the published runtimes before it
  -- are sound, which every run of the service keeps them.
  pub reconcile-IsWanted :
      BuildsConfig d
      → (apps : List App) (s : State W) → IsSound d s.fresh s.manager
      → s.manager.closed ≡ false
      → s.stopping ≡ false
      → Only (IsWanted apps) (reconcile d apps s).manager
  unfolding reconcile finish
  reconcile-IsWanted keeps apps s sound was working =
      let P = IsWanted apps in
      let rs = s.manager.current.runtimes in
      let s1 = drop_stale d (desired apps []) rs s in
      let sound1 = (Run-IsSound d (drop_stale-Run d s (desired apps []) rs s started) sound).0 in
      let s2 = settle_apps d apps s1 in
      let only2 =
        settle_apps-Only d keeps P apps s1 (owners-IsWanted apps) sound1
          (dropped-Only apps s sound was) in
      let s3 = drop_unwanted d (names_of apps) (keys s2.manager.current.runtimes) s2 in
      subst (Only P) {x = s3.manager} {y = (reconcile d apps s).manager} (ground arith)
        (drop_unwanted-Only P (names_of apps) (keys s2.manager.current.runtimes) s2 only2)
