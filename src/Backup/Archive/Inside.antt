-- ===== src/Backup/Archive/Inside.antt =====
-- An archive that passes is extracted inside its folder.
use simpledeploy.Prelude.{
  ℕ, suc, zero, Bool, true, false, ◌||◌, ◌≡◌, ◌∙◌, inl, inr, refl, ap, arith, Option, none, some,
  List, [], ◌∷◌, ◌++◌, if◌then◌else◌, ◌==◌, nat_eq, All, Bool-cases, Option-cases, length, ◌>>=◌,
}
use mathlib.Core.List.{reverse, reverse-append}
use simpledeploy.Prelude.Text.{Text, text_eq, text_beq, codes, has_prefix, contains_byte, split}
use simpledeploy.Paths.{slash, is_abs, pop, clean_loop, join_slash, or_dot, clean}
use simpledeploy.Backup.Archive.{
  Header, is_link, is_special, is_outside, check_tar_entry, TarEnd, check_spooled_tar,
}

-- The depth below the folder after one element of a name; `none` is that it leaves the folder.
abbrev up : ℕ → Option ℕ
up zero = none
up (suc d) = some d

abbrev step : ℕ → Text → Option ℕ
step d e =
    if e == [] || e == codes "." then some d else if e == codes ".." then up d else some (suc d)

-- The depth that the elements of a name lead to, if they never leave the folder on the way.
unfoldable pub walk : ℕ → List Text → Option ℕ
walk d [] = some d
walk d (e ∷ es) = step d e >>= (λ n. walk n es)

abbrev above : List Text
above = codes ".." ∷ []

abbrev Up : List Text → Type 0
Up stack = (ys : List Text) × (stack ≡ ys ++ above)

pop-above : (xs : List Text) → Up (pop false (xs ++ above))
unfolding text_beq
pop-above [] = (above, refl)
pop-above (x ∷ xs) = elim (Bool-cases (x == codes "..")) [
  | inl same ↦ (codes ".." ∷ x ∷ xs, rw same refl)
  | inr other ↦ (xs, rw other refl)
]

clean_loop-above : (es xs : List Text) → Up (clean_loop false es (xs ++ above))
unfolding clean_loop
clean_loop-above [] xs = (xs, refl)
clean_loop-above (e ∷ es) xs = elim (Bool-cases (e == [] || e == codes ".")) [
  | inl skip ↦ rw skip (clean_loop-above es xs)
  | inr taken ↦ elim (Bool-cases (e == codes "..")) [
    | inl dots ↦ let (ys, same) = pop-above xs in rw (taken, dots, same) (clean_loop-above es ys)
    | inr name ↦ rw (taken, name) (clean_loop-above es (e ∷ xs))
  ]
]

abbrev IsName : Text → Type 0
IsName e = (e == codes "..") ≡ false

clean_loop-walk :
    (es stack : List Text)
    → All IsName stack
    → walk (length stack) es ≡ none
    → Up (clean_loop false es stack)
unfolding clean_loop walk
clean_loop-walk [] stack names left = cc
clean_loop-walk (e ∷ es) [] names left = elim (Bool-cases (e == [] || e == codes ".")) [
  | inl skip ↦ rw skip (clean_loop-walk es [] names (rw skip at left))
  | inr taken ↦ elim (Bool-cases (e == codes "..")) [
    | inl dots ↦ rw (taken, dots) (clean_loop-above es [])
    | inr name ↦
        rw (taken, name) (clean_loop-walk es (e ∷ []) (name, names) (rw (taken, name) at left))
  ]
]
clean_loop-walk (e ∷ es) (x ∷ stack) (is_name, names) left =
    elim (Bool-cases (e == [] || e == codes ".")) [
      | inl skip ↦ rw skip (clean_loop-walk es (x ∷ stack) (is_name, names) (rw skip at left))
      | inr taken ↦ elim (Bool-cases (e == codes "..")) [
        | inl dots ↦
            rw (taken, dots, is_name) (clean_loop-walk es stack names (rw (taken, dots) at left))
        | inr name ↦
            rw (taken, name)
              (clean_loop-walk es (e ∷ x ∷ stack) (name, (is_name, names))
                (rw (taken, name) at left))
      ]
    ]

-- A cleaned name that leaves the folder starts with two dots.
join-above : (es : List Text) → is_outside (or_dot (join_slash (codes ".." ∷ es))) ≡ true
unfolding join_slash text_beq has_prefix
join-above [] = refl
join-above (e ∷ es) = refl

walk-clean :
    (name : Text)
    → is_abs name ≡ false
    → is_outside (clean name) ≡ false
    → (d : ℕ) × (walk 0 (split slash name) ≡ some d)
unfolding clean
walk-clean name relative inside = elim (Option-cases (walk 0 (split slash name))) [
  | inr found ↦ found
  | inl left ↦
      let (ys, same) = clean_loop-walk (split slash name) [] tt left in
      let turned = ap reverse same ∙ reverse-append ys above in
      let no = rw (relative, turned, join-above) at inside in cc
]

-- The name leads to a place inside the folder, by elements none of which leaves it; it holds no NUL,
-- and the entry is neither a link nor a device.
abbrev pub IsInside : Header → Type 0
IsInside hdr =
    (is_abs hdr.name ≡ false)
    × ((d : ℕ) × (walk 0 (split slash hdr.name) ≡ some d))
    × (contains_byte 0 hdr.name ≡ false)
    × ((is_link hdr.type_flag || is_special hdr.type_flag) ≡ false)

slash_first : (name : Text) → has_prefix name (codes "/") ≡ false → is_abs name ≡ false
unfolding has_prefix
slash_first [] h = refl
slash_first (c ∷ s) h = ground arith

check_tar_entry-IsInside : (hdr : Header) → check_tar_entry hdr ≡ none → IsInside hdr
unfolding check_tar_entry
check_tar_entry-IsInside hdr e =
    let relative : is_abs hdr.name ≡ false = slash_first hdr.name (ground arith) in
    (relative, walk-clean hdr.name relative (ground arith), ground arith, ground arith)

-- In an archive that passes, every entry stays inside the folder it is extracted to.
pub check_spooled_tar-IsInside :
    (hdrs : List Header) (end : TarEnd) (rest_too_large : Bool)
    → check_spooled_tar hdrs end rest_too_large ≡ none
    → All IsInside hdrs
unfolding check_spooled_tar
check_spooled_tar-IsInside [] end rest_too_large e = tt
check_spooled_tar-IsInside (hdr ∷ hdrs) end rest_too_large e =
    elim (Option-cases (check_tar_entry hdr)) [
      | inl fine ↦ (
        check_tar_entry-IsInside hdr fine,
        check_spooled_tar-IsInside hdrs end rest_too_large (rw fine at e),
      )
      | inr (bad, at_bad) ↦ let no = rw at_bad at e in cc
    ]
