-- ===== src/Proxy/Match/Groups.antt =====
-- The groups of orderRoutes hold the routes, each under its own domain.
use simpledeploy.Prelude.{
  Bool, true, false, ◌||◌, ◌≡◌, ◌∙◌, sym, ap, inl, inr, refl, arith, Option, none, some, List, [],
  ◌∷◌, ◌++◌, append_assoc, ◌==◌, All, All-append, Bool-cases, beq_self,
}
use mathlib.Core.List.{Perm, perm_middle, perm_append_singleton}
use mathlib.Core.List.Perm
use simpledeploy.Prelude.Text.{Text, text_eq, text_beq_iff}
use simpledeploy.Prelude.Dict.{Dict, lookup, insert, lookup-insert}
use simpledeploy.Net.{Net}
use simpledeploy.Proxy.Host.{normalize_domain}
use simpledeploy.Proxy.Host.Served.{listed}
use simpledeploy.Proxy.Route.{Route}
use simpledeploy.Proxy.Match.{held, add_domain, group_loop}

abbrev pub Distinct : List Text → Type 0
Distinct [] = Unit
Distinct (d ∷ ds) = (listed d ds ≡ false) × Distinct ds

listed-append : (k : Text) (ds es : List Text) → listed k (ds ++ es) ≡ (listed k ds || listed k es)
unfolding listed
listed-append k [] es = refl
listed-append k (d ∷ ds) es = ground (arith, listed-append k ds es)

Distinct-append :
    (ds : List Text) (k : Text) → Distinct ds → listed k ds ≡ false → Distinct (ds ++ k ∷ [])
unfolding listed
Distinct-append [] k h e = (refl, tt)
Distinct-append (d ∷ ds) k (fresh, h) e = (
  rw listed-append (ground (arith, text_beq_iff d k, text_beq_iff k d)),
  Distinct-append ds k h (ground arith),
)

-- The routes of the groups, in the order of these domains.
unfoldable pub raw : Dict Text (List Route) → List Text → List Route
raw groups [] = []
raw groups (d ∷ ds) = held (lookup d groups) ++ raw groups ds

raw-append :
    (groups : Dict Text (List Route)) (ds es : List Text)
    → raw groups (ds ++ es) ≡ raw groups ds ++ raw groups es
unfolding raw
raw-append groups [] es = refl
raw-append groups (d ∷ ds) es =
    ap (λ l. held (lookup d groups) ++ l) (raw-append groups ds es)
    ∙ sym (append_assoc (held (lookup d groups)) (raw groups ds) (raw groups es))

raw-insert :
    (k : Text) (g : List Route) (groups : Dict Text (List Route)) (ds : List Text)
    → listed k ds ≡ false
    → raw (insert k g groups) ds ≡ raw groups ds
unfolding raw listed
raw-insert k g groups [] e = refl
raw-insert k g groups (d ∷ ds) e =
    let other : (k == d) ≡ false = ground (arith, text_beq_iff k d, text_beq_iff d k) in
    rw (lookup-insert, other)
      (ap (λ l. held (lookup d groups) ++ l) (raw-insert k g groups ds (ground arith)))

raw-insert_perm :
    (k : Text) (r : Route) (groups : Dict Text (List Route)) (ds : List Text)
    → Distinct ds
    → listed k ds ≡ true
    → Perm (raw (insert k (held (lookup k groups) ++ r ∷ []) groups) ds) (r ∷ raw groups ds)
unfolding raw listed
raw-insert_perm k r groups [] distinct e = cc
raw-insert_perm k r groups (d ∷ ds) (fresh, distinct) e = elim (Bool-cases (d == k)) [
  | inl same ↦
      let at_k = (text_beq_iff d k).0 same in
      let g = held (lookup k groups) in
      let unchanged = raw-insert k (g ++ r ∷ []) groups ds (rw at_k at fresh) in
      rw (at_k, lookup-insert, beq_self, unchanged, append_assoc) (perm_middle g (raw groups ds))
  | inr other ↦
      let other' : (k == d) ≡ false = ground (arith, text_beq_iff k d, text_beq_iff d k) in
      rw (lookup-insert, other')
        (Perm.trans
          (Perm.append_left (held (lookup d groups))
            (raw-insert_perm k r groups ds distinct (rw other at e)))
          (perm_middle (held (lookup d groups)) (raw groups ds)))
]

raw-new_perm :
    (k : Text) (r : Route) (groups : Dict Text (List Route)) (ds : List Text)
    → listed k ds ≡ false
    → Perm (raw (insert k (r ∷ []) groups) (ds ++ k ∷ [])) (r ∷ raw groups ds)
unfolding raw
raw-new_perm k r groups ds fresh =
    rw (raw-append, raw-insert k (r ∷ []) groups ds fresh, lookup-insert, beq_self)
      (perm_append_singleton r (raw groups ds))

abbrev has : Option (List Route) → Bool
has none = false
has (some g) = true

module _ (net : Net) where
  -- `domains` lists each key of `groups` once, and each group holds routes of its domain.
  abbrev pub IsGrouped : Dict Text (List Route) → List Text → Type 0
  IsGrouped groups domains =
      Distinct domains
      × ((k : Text) → listed k domains ≡ has (lookup k groups))
      × ((k : Text) → All (λ r. normalize_domain net r.domain ≡ k) (held (lookup k groups)))

  listed-add_domain :
      (key k : Text) (found : Option (List Route)) (domains : List Text)
      → listed key domains ≡ has found
      → listed k (add_domain key found domains) ≡ (key == k || listed k domains)
  unfolding listed
  listed-add_domain key k none domains e = rw listed-append (ground arith)
  listed-add_domain key k (some g) domains e = elim (Bool-cases (key == k)) [
    | inl same ↦
        let at_k = (text_beq_iff key k).0 same in rw (← at_k) (ground (arith, beq_self key))
    | inr other ↦ rw other refl
  ]

  Distinct-add_domain :
      (key : Text) (found : Option (List Route)) (domains : List Text)
      → listed key domains ≡ has found
      → Distinct domains
      → Distinct (add_domain key found domains)
  Distinct-add_domain key none domains e h = Distinct-append domains key h e
  Distinct-add_domain key (some g) domains e h = h

  keys_insert :
      (key k : Text) (g : List Route) (groups : Dict Text (List Route)) (before : Bool)
      → before ≡ has (lookup k groups)
      → (key == k || before) ≡ has (lookup k (insert key g groups))
  keys_insert key k g groups before e = elim (Bool-cases (key == k)) [
    | inl same ↦ rw (lookup-insert, same) refl
    | inr other ↦ rw (lookup-insert, other) e
  ]

  own_insert :
      (key k : Text) (r : Route) (groups : Dict Text (List Route))
      → normalize_domain net r.domain ≡ key
      → ((j : Text) → All (λ a. normalize_domain net a.domain ≡ j) (held (lookup j groups)))
      → All
          (λ a. normalize_domain net a.domain ≡ k)
          (held (lookup k (insert key (held (lookup key groups) ++ r ∷ []) groups)))
  own_insert key k r groups at_key own = elim (Bool-cases (key == k)) [
    | inl same ↦
        let at_k = (text_beq_iff key k).0 same in
        rw (lookup-insert, same)
          (All-append (λ a. normalize_domain net a.domain ≡ k) (held (lookup key groups)) (r ∷ [])
            (rw at_k (own k)) (at_key ∙ at_k, tt))
    | inr other ↦ rw (lookup-insert, other) (own k)
  ]

  insert-IsGrouped :
      (r : Route) (groups : Dict Text (List Route)) (domains : List Text)
      → IsGrouped groups domains
      → IsGrouped
          (insert
            (normalize_domain net r.domain)
            (held (lookup (normalize_domain net r.domain) groups) ++ r ∷ [])
            groups)
          (add_domain
            (normalize_domain net r.domain)
            (lookup (normalize_domain net r.domain) groups)
            domains)
  insert-IsGrouped r groups domains (distinct, keyed, own) =
      let key = normalize_domain net r.domain in
      (
        Distinct-add_domain key (lookup key groups) domains (keyed key) distinct,
        λ k.
            listed-add_domain key k (lookup key groups) domains (keyed key)
            ∙ keys_insert key k (held (lookup key groups) ++ r ∷ []) groups (listed k domains)
                (keyed k),
        λ k. own_insert key k r groups refl own,
      )

  step_perm :
      (key : Text) (r : Route) (groups : Dict Text (List Route)) (domains : List Text)
      (found : Option (List Route))
      → lookup key groups ≡ found
      → IsGrouped groups domains
      → Perm
          (raw (insert key (held found ++ r ∷ []) groups) (add_domain key found domains))
          (r ∷ raw groups domains)
  step_perm key r groups domains none at_key (distinct, keyed, own) =
      raw-new_perm key r groups domains (keyed key ∙ ap has at_key)
  step_perm key r groups domains (some g) at_key (distinct, keyed, own) =
      rw at_key at (raw-insert_perm key r groups domains distinct (keyed key ∙ ap has at_key))

  -- The loop puts every route into its group, and keeps the groups apart.
  pub group_loop-IsGrouped :
      (rs : List Route) (groups : Dict Text (List Route)) (domains : List Text)
      → IsGrouped groups domains
      → IsGrouped (group_loop net rs groups domains).0 (group_loop net rs groups domains).1
        × Perm
            (raw (group_loop net rs groups domains).0 (group_loop net rs groups domains).1)
            (rs ++ raw groups domains)
  unfolding group_loop
  group_loop-IsGrouped [] groups domains h = (h, Perm.refl (raw groups domains))
  group_loop-IsGrouped (r ∷ rs) groups domains h =
      let key = normalize_domain net r.domain in
      let found = lookup key groups in
      let (grouped, same) =
        group_loop-IsGrouped rs (insert key (held found ++ r ∷ []) groups)
          (add_domain key found domains) (insert-IsGrouped r groups domains h) in
      (
        grouped,
        Perm.trans same (
            Perm.trans (Perm.append_left rs (step_perm key r groups domains found refl h))
              (perm_middle rs (raw groups domains))),
      )

  pub nil-IsGrouped : IsGrouped [] []
  unfolding listed lookup
  nil-IsGrouped = (tt, λ k. refl, λ k. tt)
