-- ===== src/Compose/Layout.antt =====
-- bindLayoutViolations of internal/compose/validate.go: writable binds must not hold other binds.
use simpledeploy.Prelude.{
  Bool, false, not, ◌&&◌, ◌||◌, ◌≡◌, refl, Option, none, some, List, [], ◌∷◌, ◌++◌, if◌then◌else◌,
  ◌==◌, any, All, Bool-cases, inl, inr,
}
use simpledeploy.Prelude.Text.{Text, text_eq, codes, has_prefix}
use simpledeploy.Prelude.Dict.{Dict, lookup}
use simpledeploy.Paths.{is_abs, clean, join}
use simpledeploy.Compose.HostPath.{HostPaths, within}
use simpledeploy.Compose.Container.{ServiceVolume, when}
use simpledeploy.Compose.Volume.{VolumeConfig, volume_host_bind}
use simpledeploy.Compose.Container.Contained.{nil-left, nil-right, when-nil}

-- The volumes of one container, named for messages.
pub record Mounts : Type 0 where
  pub who : Text
  pub volumes : List ServiceVolume

pub record Bind : Type 0 where
  pub who : Text
  pub src : Text
  pub rw : Bool

abbrev pub real_or : Text → Option Text → Text
real_or src none = src
real_or src (some real) = real

abbrev pub bind_of : Option VolumeConfig → Option (Text × Bool)
bind_of none = none
bind_of (some v) = volume_host_bind v

unfoldable pub add_once : List Text → List Text → List Text
add_once [] out = out
add_once (m ∷ ms) out = add_once ms (if any (λ o. o == m) out then out else out ++ m ∷ [])

module _ (resolve : Text → Option Text) (quote : Text → Text) (h : HostPaths) where
  abbrev pub at_real : Text → Text → Bool → List Bind
  at_real who src rw = record { who = who; src = real_or src (resolve src); rw = rw } ∷ []

  abbrev pub device_bind : Text → Bool → Option (Text × Bool) → List Bind
  device_bind who read_only none = []
  device_bind who read_only (some (device, ro)) =
      at_real who (clean device) (not read_only && not ro)

  abbrev pub source_bind : Text → ServiceVolume → List Bind
  source_bind who v =
      if v.source == [] || (not (v.kind == codes "bind") && not (has_prefix v.source (codes "/")))
      then []
      else if is_abs v.source
      then at_real who (clean v.source) (not v.read_only)
      else if h.app_dir == []
      then []
      else at_real who (clean (join h.app_dir v.source)) (not v.read_only)

  abbrev pub volume_bind : Dict Text VolumeConfig → Text → ServiceVolume → List Bind
  volume_bind volumes who v =
      if v.kind == codes "volume"
      then device_bind who v.read_only (bind_of (lookup v.source volumes))
      else source_bind who v

  unfoldable pub container_binds : Dict Text VolumeConfig → Text → List ServiceVolume → List Bind
  container_binds volumes who [] = []
  container_binds volumes who (v ∷ vs) = volume_bind volumes who v ++ container_binds volumes who vs

  unfoldable pub all_binds : Dict Text VolumeConfig → List Mounts → List Bind
  unfolding container_binds
  all_binds volumes [] = []
  all_binds volumes (c ∷ cs) = container_binds volumes c.who c.volumes ++ all_binds volumes cs

  abbrev pub binds_app : Bind → Bool
  binds_app b = b.rw && not (h.app_real == []) && b.src == h.app_real

  unfoldable pub app_messages : List Bind → List Text
  app_messages [] = []
  app_messages (b ∷ bs) =
      when (binds_app b) (
        b.who
        ++ codes
            ": writable bind of the app folder itself not allowed (mount a subfolder such as ./data, or add :ro)")
      ++ app_messages bs

  -- `b` lies below the writable bind `a`.
  abbrev pub lies_below : Bind → Bind → Bool
  lies_below a b = not (b.src == a.src) && within b.src a.src

  unfoldable pub below_messages : Bind → List Bind → List Text
  below_messages a [] = []
  below_messages a (b ∷ bs) =
      when (a.rw && lies_below a b) (
        b.who
        ++ codes ": bind "
        ++ quote b.src
        ++ codes " is inside the writable bind "
        ++ quote a.src
        ++ codes "; use separate folders")
      ++ below_messages a bs

  unfoldable pub nested_messages : List Bind → List Bind → List Text
  unfolding below_messages
  nested_messages [] bs = []
  nested_messages (a ∷ as') bs = below_messages a bs ++ nested_messages as' bs

  unfoldable pub layout_of : List Bind → List Text
  unfolding app_messages nested_messages add_once
  layout_of bs = add_once (app_messages bs ++ nested_messages bs bs) []

  unfoldable pub bind_layout_violations : Dict Text VolumeConfig → List Mounts → List Text
  unfolding all_binds layout_of
  bind_layout_violations volumes cs = layout_of (all_binds volumes cs)

  add_once-nil : (ms out : List Text) → add_once ms out ≡ [] → (ms ≡ []) × (out ≡ [])
  unfolding add_once
  add_once-nil [] out e = (refl, e)
  add_once-nil (m ∷ ms) out e = elim (Bool-cases (any (λ o. o == m) out)) [
    | inl there ↦ let kept = (add_once-nil ms out (rw there at e)).1 in cc
    | inr fresh ↦
        let kept = (add_once-nil ms (out ++ m ∷ []) (rw fresh at e)).1 in
        let no = nil-right out (m ∷ []) kept in cc
  ]

  apps-nil : (bs : List Bind) → app_messages bs ≡ [] → All (λ b. binds_app b ≡ false) bs
  unfolding app_messages
  apps-nil [] e = tt
  apps-nil (b ∷ bs) e = (
    when-nil (binds_app b) _ (nil-left _ (app_messages bs) e),
    apps-nil bs (nil-right _ (app_messages bs) e),
  )

  below-nil :
      (a : Bind) (bs : List Bind)
      → below_messages a bs ≡ []
      → All (λ b. (a.rw && lies_below a b) ≡ false) bs
  unfolding below_messages
  below-nil a [] e = tt
  below-nil a (b ∷ bs) e = (
    when-nil (a.rw && lies_below a b) _ (nil-left _ (below_messages a bs) e),
    below-nil a bs (nil-right _ (below_messages a bs) e),
  )

  nested-nil :
      (as' bs : List Bind)
      → nested_messages as' bs ≡ []
      → All (λ a. All (λ b. (a.rw && lies_below a b) ≡ false) bs) as'
  unfolding nested_messages
  nested-nil [] bs e = tt
  nested-nil (a ∷ as') bs e = (
    below-nil a bs (nil-left (below_messages a bs) (nested_messages as' bs) e),
    nested-nil as' bs (nil-right (below_messages a bs) (nested_messages as' bs) e),
  )

  -- In a layout without violations no writable bind is of the app folder itself, and no bind lies
  -- strictly inside a writable one.
  pub layout_of-nil :
      (bs : List Bind)
      → layout_of bs ≡ []
      → All (λ b. binds_app b ≡ false) bs
        × All (λ a. All (λ b. (a.rw && lies_below a b) ≡ false) bs) bs
  unfolding layout_of
  layout_of-nil bs e =
      let none_left = (add_once-nil (app_messages bs ++ nested_messages bs bs) [] e).0 in
      (
        apps-nil bs (nil-left (app_messages bs) (nested_messages bs bs) none_left),
        nested-nil bs bs (nil-right (app_messages bs) (nested_messages bs bs) none_left),
      )
