-- ===== src/Backup/Pipeline/RoundTrip.antt =====
-- A restore puts back what was dumped, and nothing that fails its checksum.
use simpledeploy.Prelude.{
  ℕ, Bool, true, false, ◌&&◌, Option, none, some, List, [], ◌∷◌, ◌++◌, ◌≡◌, refl, sym, ◌∙◌, arith,
  ltb, if◌then◌else◌, ◌==◌, beq_self, Bool-cases, ◌⊎◌, inl, inr, All, All-append, append_assoc,
}
use simpledeploy.Prelude.Text.{Text, text_eq, text_beq_iff}
use simpledeploy.Backup.Cap.{restore_cap}
use simpledeploy.Backup.Pipeline.{
  Hooks, PipelineResult, Effect, pre_hooks, post_hooks, dumped, uploaded, restored, runs_pre,
  run_pre, run_post_hooks, pre_fails, upload_dump, run_backup, within_cap, verified, restore_bytes,
  run_restore,
}

-- The bytes that a target holds at a path after the effects of a run, which uploads at most once.
abbrev pub file_after : Text → List Effect → Option Text
file_after path [] = none
file_after path (uploaded p bytes ∷ effects) =
    if p == path then some bytes else file_after path effects
file_after path (pre_hooks ∷ effects) = file_after path effects
file_after path (post_hooks ∷ effects) = file_after path effects
file_after path (dumped bytes ∷ effects) = file_after path effects
file_after path (restored bytes ∷ effects) = file_after path effects

file_after-run_pre :
    (h : Hooks) (path : Text) (effects : List Effect)
    → file_after path (run_pre h ++ effects) ≡ file_after path effects
file_after-run_pre h path effects = elim (Bool-cases (runs_pre h)) [
  | inl runs ↦ rw runs
  | inr idle ↦ rw idle
]

module _ (sha : Text → Text) where
  upload_dump-file :
      (h : Hooks) (bytes : Text) (answer : Option (Text × ℕ)) (r : PipelineResult)
      → (upload_dump sha h bytes answer).1 ≡ some r
      → (file_after r.file_path (upload_dump sha h bytes answer).0 ≡ some bytes)
        × (r.checksum ≡ sha bytes)
  upload_dump-file h bytes none r done = cc
  upload_dump-file h bytes (some (path, size)) r done =
      let placed : r.file_path ≡ path = ground arith in
      (rw placed (rw (beq_self path)), ground arith)

  run_backup-file :
      (h : Hooks) (upload : Text → Text → Option (Text × ℕ)) (name bytes : Text)
      (r : PipelineResult)
      → (run_backup sha h upload (some (name, bytes))).1 ≡ some r
      → (file_after r.file_path (run_backup sha h upload (some (name, bytes))).0 ≡ some bytes)
        × (r.checksum ≡ sha bytes)
  unfolding run_backup
  run_backup-file h upload name bytes r done = elim (Bool-cases (pre_fails h)) [
    | inl fails ↦ cc (rw fails at done)
    | inr starts ↦
        let (file, sum) = upload_dump-file h bytes (upload name bytes) r (rw starts at done) in
        rw starts (file_after-run_pre h r.file_path _ ∙ file, sum)
  ]

  -- A backup that succeeds can be restored: the bytes at its path are handed to the strategy as they
  -- were dumped, between the hooks before and after, if they fit the cap and can be staged, and if the
  -- hooks before the restore succeed.
  pub run_restore-run_backup :
      (h g : Hooks) (upload : Text → Text → Option (Text × ℕ)) (name bytes : Text)
      (r : PipelineResult) (max : Option ℕ) (restore_ok : Bool)
      → (run_backup sha h upload (some (name, bytes))).1 ≡ some r
      → within_cap sha (restore_cap max) bytes ≡ true
      → pre_fails g ≡ false
      → run_restore sha g true max r.checksum restore_ok
          (file_after r.file_path (run_backup sha h upload (some (name, bytes))).0)
        ≡ (run_pre g ++ (restored bytes ∷ run_post_hooks g), restore_ok)
  unfolding run_restore
  run_restore-run_backup h g upload name bytes r max restore_ok done fits starts =
      let (file, sum) = run_backup-file h upload name bytes r done in
      let sealed : (sha bytes == r.checksum) ≡ true = rw sum (beq_self (sha bytes)) in
      rw file (elim (Bool-cases (r.checksum == [])) [
        | inl empty ↦ rw (empty, starts)
        | inr summed ↦ rw (summed, fits, sealed, starts)
      ])

  -- Bytes that are restored have the checksum that was expected, if there is one.
  abbrev pub IsVerified : Text → Effect → Type 0
  IsVerified expected pre_hooks = Unit
  IsVerified expected post_hooks = Unit
  IsVerified expected (dumped bytes) = Unit
  IsVerified expected (uploaded path bytes) = Unit
  IsVerified expected (restored bytes) = (expected ≡ []) ⊎ (sha bytes ≡ expected)

  verified-checksum :
      (staged : Bool) (max : Option ℕ) (expected bytes out : Text)
      → verified sha staged max expected bytes ≡ some out
      → (expected ≡ []) ⊎ (sha out ≡ expected)
  verified-checksum staged max expected bytes out h = elim (Bool-cases (expected == [])) [
    | inl empty ↦ inl ((text_beq_iff expected []).0 empty)
    | inr summed ↦ inr (ground (arith, summed, text_beq_iff (sha bytes) expected))
  ]

  -- The last effect is that of the hooks after the run, if there are any.
  abbrev pub EndsClosed : Hooks → List Effect → Type 0
  EndsClosed h effects =
      (effects ≡ []) ⊎ ((before : List Effect) × (effects ≡ before ++ run_post_hooks h))

  run_pre-IsVerified : (h : Hooks) (expected : Text) → All (IsVerified expected) (run_pre h)
  run_pre-IsVerified h expected = elim (Bool-cases (runs_pre h)) [
    | inl runs ↦ rw runs (tt, tt)
    | inr idle ↦ rw idle tt
  ]

  run_post-IsVerified : (h : Hooks) (expected : Text) → All (IsVerified expected) (run_post_hooks h)
  run_post-IsVerified h expected = elim (Bool-cases (h.runner && ltb 0 h.post)) [
    | inl runs ↦ rw runs (tt, tt)
    | inr idle ↦ rw idle tt
  ]

  after_pre-safe :
      (h : Hooks) (restore_ok : Bool) (expected bytes : Text)
      → (expected ≡ []) ⊎ (sha bytes ≡ expected)
      → All (IsVerified expected) (restore_bytes sha h restore_ok (some bytes)).0
        × EndsClosed h (restore_bytes sha h restore_ok (some bytes)).0
  after_pre-safe h restore_ok expected bytes ok = elim (Bool-cases (pre_fails h)) [
    | inl fails ↦ rw fails (
      All-append (IsVerified expected) (run_pre h) (run_post_hooks h)
          (run_pre-IsVerified h expected) (run_post-IsVerified h expected),
      inr (run_pre h, refl),
    )
    | inr starts ↦ rw starts (
      All-append (IsVerified expected) (run_pre h) (restored bytes ∷ run_post_hooks h)
          (run_pre-IsVerified h expected) (ok, run_post-IsVerified h expected),
      inr (
        run_pre h ++ restored bytes ∷ [],
        sym (append_assoc (run_pre h) (restored bytes ∷ []) (run_post_hooks h)),
      ),
    )
  ]

  restore_bytes-safe :
      (h : Hooks) (restore_ok : Bool) (expected : Text) (out : Option Text)
      → ((bytes : Text) → out ≡ some bytes → (expected ≡ []) ⊎ (sha bytes ≡ expected))
      → All (IsVerified expected) (restore_bytes sha h restore_ok out).0
        × EndsClosed h (restore_bytes sha h restore_ok out).0
  restore_bytes-safe h restore_ok expected none ok = (tt, inl refl)
  restore_bytes-safe h restore_ok expected (some bytes) ok =
      after_pre-safe h restore_ok expected bytes (ok bytes refl)

  -- Whatever the target sends and whatever fails, only bytes with the expected checksum are restored,
  -- where one is expected; and either nothing was done at all, or the hooks after the run, if there
  -- are any, were run last.
  pub run_restore-safe :
      (h : Hooks) (staged : Bool) (max : Option ℕ) (expected : Text) (restore_ok : Bool)
      (download : Option Text)
      → All (IsVerified expected) (run_restore sha h staged max expected restore_ok download).0
        × EndsClosed h (run_restore sha h staged max expected restore_ok download).0
  unfolding run_restore
  run_restore-safe h staged max expected restore_ok none = (tt, inl refl)
  run_restore-safe h staged max expected restore_ok (some bytes) =
      restore_bytes-safe h restore_ok expected (verified sha staged max expected bytes)
        (λ out found. verified-checksum staged max expected bytes out found)
