-- ===== src/Compose/HostPath/Safe.antt =====
-- What an allowed bind mount cannot reach.
use simpledeploy.Prelude.{
  ℕ, Bool, true, false, not, ◌&&◌, ◌||◌, ◌≡◌, ◌⊎◌, inl, inr, refl, arith, Option, none, some, [],
  ◌∷◌, if◌then◌else◌, ◌==◌, any, Bool-cases, drop,
}
use simpledeploy.Prelude.Text.{Text, text_eq, text_beq_iff, codes}
use simpledeploy.Paths.{is_abs}
use simpledeploy.Compose.HostPath.{
  HostPaths, system_paths, read_only_paths, within, overlaps, protected_reason, in_app, lexical,
  or_else_reason, link_reason, lexical_reason, real_reason, resolved_reason, bind_reason,
}

-- The path is not inside another app's folder and holds none, it does not meet the data folder, and it
-- meets no system folder but where the operator allows it, or reads what may be read.
abbrev pub IsClear : HostPaths → Bool → Text → Type 0
IsClear h read_only p =
    (any (λ a. not (p == a) && within p a) h.apps_dirs ≡ false)
    × (any (λ d. overlaps p d) h.data_dirs ≡ false)
    × (any (λ a. within a p) h.apps_dirs ≡ false)
    × ((any (λ a. within p a) h.allowed
          || (read_only && any (λ r. within p r) read_only_paths)
          || not (any (λ s. overlaps p s) system_paths))
        ≡ true)

no_reason-IsClear :
    (c1 c2 c3 c4 c5 c6 : Bool) (x y z w : ℕ) (a b c d : Text)
    → (if c1
        then x ∷ a
        else if c2
        then y ∷ b
        else if c3
        then z ∷ c
        else if c4
        then []
        else if c5
        then []
        else if c6
        then w ∷ d
        else [])
      ≡ []
    → (c1 ≡ false) × (c2 ≡ false) × (c3 ≡ false) × ((c4 || c5 || not c6) ≡ true)
no_reason-IsClear c1 c2 c3 c4 c5 c6 x y z w a b c d h = ground arith

protected-IsClear :
    (h : HostPaths) (p : Text) (ro : Bool) → protected_reason h p ro ≡ [] → IsClear h ro p
unfolding protected_reason
protected-IsClear h p ro e =
    no_reason-IsClear (any (λ a. not (p == a) && within p a) h.apps_dirs)
      (any (λ d. overlaps p d) h.data_dirs) (any (λ a. within a p) h.apps_dirs)
      (any (λ a. within p a) h.allowed) (ro && any (λ r. within p r) read_only_paths)
      (any (λ s. overlaps p s) system_paths) b'a' b'S' b'i' b'p' _ _ _
      (drop 1 (codes "protected system folder")) e

or_else-nil : (a b : Text) → or_else_reason a b ≡ [] → (a ≡ []) × (b ≡ [])
or_else-nil [] b e = (refl, e)
or_else-nil (c ∷ a) b e = cc

-- A path in the app folder that is its own resolution has no link above it, so the app folder is
-- its own resolution too.
abbrev pub NoLinkAbove : (Text → Option Text) → HostPaths → Type 0
NoLinkAbove resolve h =
    (p : Text) → within p h.app_dir ≡ true → resolve p ≡ some p → h.app_real ≡ h.app_dir

module _ (resolve : Text → Option Text) (quote : Text → Text) (h : HostPaths) (ro : Bool) where
  link-nil : (real reason : Text) → link_reason resolve quote real reason ≡ [] → reason ≡ []
  link-nil real [] e = refl
  link-nil real (c ∷ reason) e = cc

  allowed_at :
      (lex real : Text)
      → NoLinkAbove resolve h
      → resolve lex ≡ some real
      → resolved_reason resolve quote h lex (some real) ro ≡ []
      → (in_app h lex real ≡ true) ⊎ IsClear h ro real
  unfolding in_app
  allowed_at lex real links found e = elim (Bool-cases (in_app h lex real)) [
    | inl own ↦ inl own
    | inr foreign ↦
        let (free, free_real) =
          or_else-nil (lexical_reason resolve quote h lex ro)
            (real_reason resolve quote h lex real ro) (rw foreign at e) in
        elim (Bool-cases (real == lex)) [
          | inl same ↦
              let at_lex = (text_beq_iff real lex).0 same in
              inr (rw at_lex (lex_clear at_lex foreign free))
          | inr link ↦ inr (protected-IsClear h real ro (link-nil real _ (rw link at free_real)))
        ]
  ]
    where
      untested :
          within lex h.app_dir ≡ true
          → (h.app_dir == []) ≡ false
          → real ≡ lex
          → in_app h lex real ≡ true
      untested inside known at_lex =
          let home = links lex inside (rw at_lex at found) in rw (at_lex, home, known, inside) refl

      lex_clear :
          real ≡ lex
          → in_app h lex real ≡ false
          → lexical_reason resolve quote h lex ro ≡ []
          → IsClear h ro lex
      lex_clear at_lex foreign free =
          elim (Bool-cases (h.app_dir == [] || not (within lex h.app_dir))) [
            | inl tested ↦ protected-IsClear h lex ro (rw tested at free)
            | inr skipped ↦ let own = untested (ground arith) (ground arith) at_lex in cc
          ]

  resolved_at :
      (lex : Text) (found : Option Text)
      → NoLinkAbove resolve h
      → resolve lex ≡ found
      → resolved_reason resolve quote h lex found ro ≡ []
      → (real : Text) × (found ≡ some real) × ((in_app h lex real ≡ true) ⊎ IsClear h ro real)
  resolved_at lex none links e r = cc
  resolved_at lex (some real) links e r = (real, refl, allowed_at lex real links e r)

  -- A bind mount that is allowed reaches a real path in the app's own folder, or one that is not in
  -- another app's folder and holds none, does not meet SimpleDeploy's data folder, and meets a
  -- system folder only where the operator allows it or where it may be read and is read-only; if no
  -- link stands above a path in the app folder that is its own resolution.
  pub bind_reason-safe :
      (src : Text)
      → NoLinkAbove resolve h
      → bind_reason resolve quote h src ro ≡ []
      → (real : Text) × (resolve (lexical h src) ≡ some real)
        × ((in_app h (lexical h src) real ≡ true) ⊎ IsClear h ro real)
  unfolding bind_reason
  bind_reason-safe src links e = elim (Bool-cases (not (is_abs src) && h.app_dir == [])) [
    | inl unknown ↦ let no = rw unknown at e in cc
    | inr known ↦ resolved_at (lexical h src) (resolve (lexical h src)) links refl (rw known at e)
  ]
