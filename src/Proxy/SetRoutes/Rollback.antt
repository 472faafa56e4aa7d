-- ===== src/Proxy/SetRoutes/Rollback.antt =====
-- An update of the routes is done as a whole or not at all.
use simpledeploy.Prelude.{
  Bool, true, false, not, ◌&&◌, ◌≡◌, ◌⊎◌, ap, inl, inr, refl, arith, Option, none, some, List, [],
  ◌∷◌, ◌++◌, ◌∙◌, if◌then◌else◌, Bool-cases, Option-cases,
}
use simpledeploy.Prelude.Text.{Text, text_eq, text_beq_iff}
use simpledeploy.Net.{Net}
use simpledeploy.Proxy.Route.{Route}
use simpledeploy.Proxy.SetRoutes.{
  CaddyProxy, Outside, is_key, load_config, reload_locked, apply_routes, restore_failed, set_routes,
}

module _ (net : Net) (out : Outside) where
  -- Everything but the key of the last load.
  abbrev pub SameRules : CaddyProxy net → CaddyProxy net → Type 0
  SameRules c c' =
      (c.routes ≡ c'.routes)
      × (c.owners ≡ c'.owners)
      × (c.limits ≡ c'.limits)
      × (c.allow ≡ c'.allow)

  -- The JSON of these routes, followed by the fingerprint of their certificate files, as they are.
  abbrev pub KeyOf : List Route → Text → Type 0
  KeyOf routes key =
      (config : Text) × (out.build routes ≡ some config)
      × (key ≡ config ++ out.cert_fingerprint routes)

  -- The key is held, and it is that of the routes.
  abbrev pub Loaded : List Route → Option Text → Type 0
  Loaded routes last = (key : Text) × (last ≡ some key) × KeyOf routes key

  -- What a load leaves, by whether it succeeds.
  abbrev AfterLoad : CaddyProxy net → CaddyProxy net × Bool → Type 0
  AfterLoad c (c', true) = SameRules c' c × Loaded c.routes c'.last_key
  AfterLoad c (c', false) = SameRules c' c × ((c'.last_key ≡ none) ⊎ (c'.last_key ≡ c.last_key))

  load-AfterLoad :
      (force : Bool) (c : CaddyProxy net) (config : Text)
      → out.build c.routes ≡ some config
      → AfterLoad c (load_config net out force c config)
  load-AfterLoad force c config built = elim (Bool-cases (not force && is_key key c.last_key)) [
    | inl skip ↦ rw skip ((refl, refl, refl, refl), (key, is_held c.last_key (ground arith), held))
    | inr go ↦ elim (Bool-cases (out.load config)) [
      | inl loaded ↦ rw (go, loaded) ((refl, refl, refl, refl), (key, refl, held))
      | inr failed ↦ rw (go, failed) ((refl, refl, refl, refl), inl refl)
    ]
  ]
    where
      key : Text
      key = config ++ out.cert_fingerprint c.routes

      held : KeyOf c.routes key
      held = (config, built, refl)

      is_held : (last : Option Text) → is_key key last ≡ true → last ≡ some key
      is_held none h = cc
      is_held (some last) h = ap some ((text_beq_iff last key).0 h)

  reload-AfterLoad :
      (force : Bool) (c : CaddyProxy net) → AfterLoad c (reload_locked net out force c)
  unfolding reload_locked
  reload-AfterLoad force c = elim (Option-cases (out.build c.routes)) [
    | inl none_built ↦ rw none_built ((refl, refl, refl, refl), inr refl)
    | inr (config, built) ↦ rw built (load-AfterLoad force c config built)
  ]

  -- An update either has all its routes, owners and rules in place, and says so, or it leaves those
  -- that were there, and reports the failure.
  pub set_routes-atomic :
      (routes : List Route) (c : CaddyProxy net)
      → SameRules
          (set_routes net out routes c).0
          (if (set_routes net out routes c).1 then apply_routes net routes c else c)
  unfolding set_routes apply_routes
  set_routes-atomic routes c =
      whole (reload_locked net out false (apply_routes net routes c))
        (reload-AfterLoad false (apply_routes net routes c))
    where
      whole :
          (r : CaddyProxy net × Bool)
          → AfterLoad (apply_routes net routes c) r
          → SameRules
              (restore_failed net c r).0
              (if (restore_failed net c r).1 then apply_routes net routes c else c)
      whole (c', true) h = h.0
      whole (c', false) h = (refl, refl, refl, refl)

-- The key that is held, if any, is that of the present routes, as one of these calls saw the files.
abbrev pub SeenBy : (net : Net) → List Outside → CaddyProxy net → Type 0
SeenBy net [] c = c.last_key ≡ none
SeenBy net (out ∷ past) c = Loaded net out c.routes c.last_key ⊎ SeenBy net past c

gone-SeenBy :
    (net : Net) (past : List Outside) (c : CaddyProxy net) → c.last_key ≡ none → SeenBy net past c
gone-SeenBy net [] c gone = gone
gone-SeenBy net (out ∷ past) c gone = inr (gone-SeenBy net past c gone)

-- It is a matter of the routes and the key alone.
same-SeenBy :
    (net : Net) (past : List Outside) (c c' : CaddyProxy net)
    → c'.routes ≡ c.routes
    → c'.last_key ≡ c.last_key
    → SeenBy net past c
    → SeenBy net past c'
same-SeenBy net [] c c' routes last seen = last ∙ seen
same-SeenBy net (out ∷ past) c c' routes last (inl loaded) = inl (rw (routes, last) loaded)
same-SeenBy net (out ∷ past) c c' routes last (inr seen) =
    inr (same-SeenBy net past c c' routes last seen)

-- If the key that is held is the JSON of the routes in place and the fingerprint of their certificate
-- files, as one of the calls so far saw them, or if there is none, it is so after one more update,
-- whether it succeeds or not; and if it succeeds, the key is held and is that of the routes in place
-- and their files as this update saw them.
pub set_routes-InStep :
    (net : Net) (out : Outside) (past : List Outside) (routes : List Route) (c : CaddyProxy net)
    → SeenBy net past c
    → SeenBy net (out ∷ past) (set_routes net out routes c).0
      × (((set_routes net out routes c).1 ≡ false)
          ⊎ Loaded net out
              (set_routes net out routes c).0.routes
              (set_routes net out routes c).0.last_key)
unfolding set_routes apply_routes
set_routes-InStep net out past routes c before =
    whole (reload_locked net out false (apply_routes net routes c))
      (reload-AfterLoad net out false (apply_routes net routes c))
  where
    whole :
        (r : CaddyProxy net × Bool)
        → AfterLoad net out (apply_routes net routes c) r
        → SeenBy net (out ∷ past) (restore_failed net c r).0
          × (((restore_failed net c r).1 ≡ false)
              ⊎ Loaded net out
                  (restore_failed net c r).0.routes
                  (restore_failed net c r).0.last_key)
    whole (c', true) ((same, _, _, _), loaded) =
        let here : Loaded net out c'.routes c'.last_key = rw same loaded in (inl here, inr here)
    whole (c', false) (_, inl gone) = (inr (gone-SeenBy net past _ gone), inl refl)
    whole (c', false) (_, inr kept) = (inr (same-SeenBy net past c _ refl kept before), inl refl)
