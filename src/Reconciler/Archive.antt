-- ===== src/Reconciler/Archive.antt =====
-- Which rows the second loop of Reconcile archives.
use simpledeploy.Prelude.{
  ℕ, true, false, none, some, [], ◌∷◌, ◌≡◌, refl, sym, ap, ◌∙◌, if◌then◌else◌, ◌==◌, beq_self,
  Bool-cases, Option-cases, inl, inr,
}
use simpledeploy.Prelude.Text.{Text, text_eq, text_beq_iff}
use simpledeploy.Prelude.Dict.{
  Dict, lookup, lookup-insert, lookup-nil, keeping, IsMap, insert-IsMap,
}
use simpledeploy.Reconciler.{StoreApp, World, is_live, mark_app_archived, is_wanted, archive_loop}

lookup-cons_ne {κ} :
    {V : Type κ} (j k : Text) (v : V) (m : Dict Text V)
    → (k == j) ≡ false
    → lookup j ((k, v) ∷ m) ≡ lookup j m
unfolding lookup
lookup-cons_ne j k v m h = rw h

pub lookup-cons_self {κ} :
    {V : Type κ} (k : Text) (v : V) (m : Dict Text V) → lookup k ((k, v) ∷ m) ≡ some v
unfolding lookup
lookup-cons_self k v m = rw (beq_self k)

-- A key of the rest of a map is not the first one.
pub lookup-cons_kept {κ} :
    {V : Type κ} (j k : Text) (v u : V) (m : Dict Text V)
    → lookup k m ≡ none
    → lookup j m ≡ some u
    → lookup j ((k, v) ∷ m) ≡ some u
lookup-cons_kept j k v u m fresh found = elim (Bool-cases (k == j)) [
  | inl same ↦ cc (fresh, found, ap (λ s. lookup s m) ((text_beq_iff k j).0 same))
  | inr other ↦ lookup-cons_ne j k v m other ∙ found
]

mark-dead :
    (slug j : Text) (now : ℕ) (apps : Dict Text StoreApp)
    → keeping is_live (lookup j apps) ≡ none
    → keeping is_live (lookup j (mark_app_archived slug now apps)) ≡ none
unfolding mark_app_archived
mark-dead slug j now apps h = elim (Option-cases (lookup slug apps)) [
  | inl none_there ↦ rw none_there h
  | inr (a, found) ↦
      rw found (rw (lookup-insert slug j (record a { archived_at = some now }) apps) (split a))
]
  where
    split :
        (a : StoreApp)
        → keeping is_live
            (if slug == j then some (record a { archived_at = some now }) else lookup j apps)
          ≡ none
    split a = elim (Bool-cases (slug == j)) [ inl same ↦ rw same | inr other ↦ rw other h ]

mark_self :
    (slug : Text) (now : ℕ) (apps : Dict Text StoreApp)
    → keeping is_live (lookup slug (mark_app_archived slug now apps)) ≡ none
unfolding mark_app_archived
mark_self slug now apps = elim (Option-cases (lookup slug apps)) [
  | inl none_there ↦ rw none_there (rw none_there)
  | inr (a, found) ↦
      rw found
        (rw (lookup-insert slug slug (record a { archived_at = some now }) apps, beq_self slug))
]

mark-others :
    (slug j : Text) (now : ℕ) (apps : Dict Text StoreApp)
    → (slug == j) ≡ false
    → lookup j (mark_app_archived slug now apps) ≡ lookup j apps
unfolding mark_app_archived
mark-others slug j now apps other = elim (Option-cases (lookup slug apps)) [
  | inl none_there ↦ rw none_there
  | inr (a, found) ↦
      rw found (lookup-insert slug j (record a { archived_at = some now }) apps ∙ rw other)
]

mark-IsMap :
    (slug : Text) (now : ℕ) (apps : Dict Text StoreApp)
    → IsMap apps
    → IsMap (mark_app_archived slug now apps)
unfolding mark_app_archived
mark-IsMap slug now apps m = elim (Option-cases (lookup slug apps)) [
  | inl none_there ↦ rw none_there m
  | inr (a, found) ↦ rw found (insert-IsMap slug _ apps m)
]

pub archive_loop-IsMap :
    (w : World) (now : ℕ) (desired : Dict Text Text) (current apps : Dict Text StoreApp)
    → IsMap apps
    → IsMap (archive_loop w now desired current apps).0
unfolding archive_loop
archive_loop-IsMap w now desired [] apps m = m
archive_loop-IsMap w now desired ((slug, a) ∷ current) apps m =
    elim (Bool-cases (is_wanted w desired slug)) [
      | inl wanted ↦ rw wanted (archive_loop-IsMap w now desired current apps m)
      | inr gone ↦ rw gone (archive_loop-IsMap w now desired current _ (mark-IsMap slug now apps m))
    ]

-- A slug that is wanted keeps its row.
pub archive_loop-wanted :
    (w : World) (now : ℕ) (desired : Dict Text Text) (current apps : Dict Text StoreApp) (j : Text)
    → is_wanted w desired j ≡ true
    → lookup j (archive_loop w now desired current apps).0 ≡ lookup j apps
unfolding archive_loop
archive_loop-wanted w now desired [] apps j h = refl
archive_loop-wanted w now desired ((slug, a) ∷ current) apps j h =
    elim (Bool-cases (is_wanted w desired slug)) [
      | inl wanted ↦ rw wanted (archive_loop-wanted w now desired current apps j h)
      | inr gone ↦ rw gone (
          archive_loop-wanted w now desired current _ j h
          ∙ mark-others slug j now apps (differs slug gone))
    ]
  where
    differs : (s : Text) → is_wanted w desired s ≡ false → (s == j) ≡ false
    differs s gone = elim (Bool-cases (s == j)) [
      | inr other ↦ other
      | inl same ↦ cc (h, gone, ap (is_wanted w desired) ((text_beq_iff s j).0 same))
    ]

-- A row that is archived stays archived.
archive_loop-dead :
    (w : World) (now : ℕ) (desired : Dict Text Text) (current apps : Dict Text StoreApp) (j : Text)
    → keeping is_live (lookup j apps) ≡ none
    → keeping is_live (lookup j (archive_loop w now desired current apps).0) ≡ none
unfolding archive_loop
archive_loop-dead w now desired [] apps j h = h
archive_loop-dead w now desired ((slug, a) ∷ current) apps j h =
    elim (Bool-cases (is_wanted w desired slug)) [
      | inl wanted ↦ rw wanted (archive_loop-dead w now desired current apps j h)
      | inr gone ↦
          rw gone (archive_loop-dead w now desired current _ j (mark-dead slug j now apps h))
    ]

-- A slug that is listed and not wanted has no live row afterwards.
pub archive_loop-archives :
    (w : World) (now : ℕ) (desired : Dict Text Text) (current apps : Dict Text StoreApp) (j : Text)
    → is_wanted w desired j ≡ false
    → (lookup j current ≡ none → keeping is_live (lookup j apps) ≡ none)
    → keeping is_live (lookup j (archive_loop w now desired current apps).0) ≡ none
unfolding archive_loop
archive_loop-archives w now desired [] apps j h unlisted = unlisted (lookup-nil j)
archive_loop-archives w now desired ((slug, a) ∷ current) apps j h unlisted =
    elim (Bool-cases (slug == j)) [
      | inl same ↦
          let e : slug ≡ j = (text_beq_iff slug j).0 same in
          let gone : is_wanted w desired slug ≡ false = ap (is_wanted w desired) e ∙ h in
          rw gone (
            archive_loop-dead w now desired current _ j (
              ap (λ s. keeping is_live (lookup s (mark_app_archived slug now apps))) (sym e)
              ∙ mark_self slug now apps))
      | inr other ↦
          let unlisted_tail = λ (missing : lookup j current ≡ none).
            unlisted (lookup-cons_ne j slug a current other ∙ missing) in
          elim (Bool-cases (is_wanted w desired slug)) [
            | inl wanted ↦
                rw wanted (archive_loop-archives w now desired current apps j h unlisted_tail)
            | inr gone ↦ rw gone (
                archive_loop-archives w now desired current _ j h
                  (λ missing. mark-dead slug j now apps (unlisted_tail missing)))
          ]
    ]

-- Where every row that is listed is wanted, nothing is archived.
pub archive_loop-quiet :
    (w : World) (now : ℕ) (desired : Dict Text Text) (current apps : Dict Text StoreApp)
    → IsMap current
    → ((j : Text) (a : StoreApp) → lookup j current ≡ some a → is_wanted w desired j ≡ true)
    → archive_loop w now desired current apps ≡ (apps, [])
unfolding archive_loop
archive_loop-quiet w now desired [] apps m wanted = refl
archive_loop-quiet w now desired ((slug, a) ∷ current) apps m wanted =
    rw (wanted slug a (lookup-cons_self slug a current)) (
      archive_loop-quiet w now desired current apps m.1
        (λ j b found. wanted j b (lookup-cons_kept j slug a b current m.0 found)))
