-- ===== src/Mirror.antt =====
-- rewriteRef of internal/mirror/rewrite.go: the image reference that stands in for one of Docker Hub.
mod Tests
use simpledeploy.Prelude.{
  ℕ, Bool, true, false, ◌||◌, ◌≡◌, ◌∙◌, refl, arith, inl, inr, Option, none, some, List, [], ◌∷◌,
  ◌++◌, if◌then◌else◌, ◌==◌, nat_eq, Bool-cases, Option-cases,
}
use simpledeploy.Prelude.Text.{Text, text_eq, codes, has_prefix, trim_prefix, contains_byte}
use simpledeploy.Paths.{slash}

abbrev pub is_registry_host : Text → Bool
is_registry_host s = s == codes "localhost" || contains_byte b'.' s || contains_byte b':' s

abbrev pub after_byte : ℕ → Option (Text × Text) → Option (Text × Text)
after_byte c none = none
after_byte c (some (before, after)) = some (c ∷ before, after)

-- `strings.Cut` at the first slash; `none` is that there is none.
unfoldable pub cut_slash : Text → Option (Text × Text)
cut_slash [] = none
cut_slash (c ∷ s) = let rest = cut_slash s in if c == slash then some ([], s) else after_byte c rest

abbrev pub rewrite_cut : Text → Text → Option (Text × Text) → Option Text
rewrite_cut ref prefix none = some (prefix ++ ref)
rewrite_cut ref prefix (some (first, rest)) =
    if is_registry_host first
    then (if first == codes "docker.io"
        then some (prefix ++ trim_prefix rest (codes "library/"))
        else none)
    else some (prefix ++ ref)

-- `none` is that the reference stays as it is.
unfoldable pub rewrite_ref : Text → Text → Option Text
unfolding cut_slash
rewrite_ref ref prefix =
    if ref == []
    then none
    else if has_prefix ref prefix
    then none
    else rewrite_cut ref prefix (cut_slash ref)

-- The reference after a rewrite, as RewriteCompose puts it in the line.
abbrev pub or_same : Text → Option Text → Text
or_same ref none = ref
or_same ref (some out) = out

unfoldable pub rewritten : Text → Text → Text
unfolding rewrite_ref
rewritten prefix ref = or_same ref (rewrite_ref ref prefix)

has_prefix-append : (s t : Text) → has_prefix (s ++ t) s ≡ true
unfolding has_prefix
has_prefix-append [] t = refl
has_prefix-append (c ∷ s) t = ground (arith, has_prefix-append s t)

some-has_prefix :
    (prefix rest out : Text) → some (prefix ++ rest) ≡ some out → has_prefix out prefix ≡ true
some-has_prefix prefix rest out e =
    let same : prefix ++ rest ≡ out = cc in rw (← same) (has_prefix-append prefix rest)

cut-has_prefix :
    (ref prefix : Text) (cut : Option (Text × Text)) (out : Text)
    → rewrite_cut ref prefix cut ≡ some out
    → has_prefix out prefix ≡ true
cut-has_prefix ref prefix none out e = some-has_prefix prefix ref out e
cut-has_prefix ref prefix (some (first, rest)) out e = elim (Bool-cases (is_registry_host first)) [
  | inl host ↦ elim (Bool-cases (first == codes "docker.io")) [
    | inl hub ↦
        some-has_prefix prefix (trim_prefix rest (codes "library/")) out (rw (host, hub) at e)
    | inr other ↦ let no = rw (host, other) at e in cc
  ]
  | inr namespace ↦ some-has_prefix prefix ref out (rw namespace at e)
]

rewrite_ref-has_prefix :
    (ref prefix out : Text) → rewrite_ref ref prefix ≡ some out → has_prefix out prefix ≡ true
unfolding rewrite_ref
rewrite_ref-has_prefix ref prefix out e = elim (Bool-cases (ref == [])) [
  | inl empty ↦ let no = rw empty at e in cc
  | inr some_ref ↦ elim (Bool-cases (has_prefix ref prefix)) [
    | inl already ↦ let no = rw (some_ref, already) at e in cc
    | inr other ↦ cut-has_prefix ref prefix (cut_slash ref) out (rw (some_ref, other) at e)
  ]
]

rewrite_ref-kept :
    (out prefix : Text) → has_prefix out prefix ≡ true → rewrite_ref out prefix ≡ none
unfolding rewrite_ref
rewrite_ref-kept out prefix h = elim (Bool-cases (out == [])) [
  | inl empty ↦ rw empty refl
  | inr some_ref ↦ rw (some_ref, h) refl
]

-- Rewriting a reference twice is rewriting it once.
pub rewritten_idem :
    (prefix ref : Text) → rewritten prefix (rewritten prefix ref) ≡ rewritten prefix ref
unfolding rewritten
rewritten_idem prefix ref = elim (Option-cases (rewrite_ref ref prefix)) [
  | inl kept ↦ rw (kept, kept) refl
  | inr (out, made) ↦
      rw (made, rewrite_ref-kept out prefix (rewrite_ref-has_prefix ref prefix out made)) refl
]
