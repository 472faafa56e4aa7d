-- ===== src/Compose/HostPath/Within.antt =====
-- The test on texts whether a path is inside another, and the elements of the two paths.
use simpledeploy.Prelude.{
  Bool, true, false, ◌&&◌, ◌||◌, ◌≡◌, refl, arith, List, [], ◌∷◌, ◌++◌, ◌==◌, All, nat_eq,
}
use simpledeploy.Prelude.Text.{Text, text_eq, text_beq, codes, contains_byte, has_prefix}
use simpledeploy.Paths.{slash}
use simpledeploy.Compose.HostPath.{within}

-- Each element behind a slash.
unfoldable pub tail : List Text → Text
tail [] = []
tail (e ∷ es) = slash ∷ e ++ tail es

-- The clean absolute path with these elements.
unfoldable pub render : List Text → Text
unfolding tail
render [] = codes "/"
render (e ∷ es) = tail (e ∷ es)

unfoldable pub is_prefix : List Text → List Text → Bool
is_prefix [] ps = true
is_prefix (b ∷ bs) [] = false
is_prefix (b ∷ bs) (p ∷ ps) = p == b && is_prefix bs ps

abbrev pub NoSlash : Text → Type 0
NoSlash e = contains_byte slash e ≡ false

-- The test of `within` below the root.
abbrev inside : Text → Text → Bool
inside p base = p == base || has_prefix p (base ++ codes "/")

inside-element :
    (p b : Text) (ps bs : List Text)
    → NoSlash p
    → NoSlash b
    → inside (p ++ tail ps) (b ++ tail bs) ≡ (p == b && inside (tail ps) (tail bs))
unfolding tail text_beq has_prefix contains_byte
inside-element [] [] ps bs hp hb = refl
inside-element [] (d ∷ b) [] bs hp hb = refl
inside-element [] (d ∷ b) (q ∷ ps) bs hp hb = ground arith
inside-element (c ∷ p) [] ps [] hp hb = ground arith
inside-element (c ∷ p) [] ps (e ∷ bs) hp hb = ground arith
inside-element (c ∷ p) (d ∷ b) ps bs hp hb = ground (arith, inside-element p b ps bs)

inside-prefix :
    (ps bs : List Text)
    → All NoSlash ps
    → All NoSlash bs
    → inside (tail ps) (tail bs) ≡ is_prefix bs ps
unfolding tail is_prefix text_beq has_prefix
inside-prefix [] [] hp hb = refl
inside-prefix (p ∷ ps) [] hp hb = refl
inside-prefix [] (b ∷ bs) hp hb = refl
inside-prefix (p ∷ ps) (b ∷ bs) (hp, hps) (hb, hbs) =
    ground (arith, inside-element p b ps bs hp hb, inside-prefix ps bs hps hbs)

-- No element of a path is empty.
abbrev pub IsElement : Text → Type 0
IsElement [] = (true ≡ false)
IsElement (c ∷ e) = NoSlash (c ∷ e)

elements-NoSlash : (es : List Text) → All IsElement es → All NoSlash es
elements-NoSlash [] h = tt
elements-NoSlash ([] ∷ es) (h, hs) = cc
elements-NoSlash ((c ∷ e) ∷ es) (h, hs) = (h, elements-NoSlash es hs)

-- On clean absolute paths the test on the texts holds exactly when the elements of the one path start
-- with the elements of the other.
pub within-is_prefix :
    (ps bs : List Text)
    → All IsElement ps
    → All IsElement bs
    → within (render ps) (render bs) ≡ is_prefix bs ps
unfolding within render is_prefix text_beq has_prefix tail
within-is_prefix [] [] hp hb = refl
within-is_prefix (p ∷ ps) [] hp hb = refl
within-is_prefix ps ([] ∷ bs) hp (hb, hbs) = cc
within-is_prefix [] ((c ∷ b) ∷ bs) hp hb = refl
within-is_prefix (p ∷ ps) ((c ∷ b) ∷ bs) hp hb =
    inside-prefix (p ∷ ps) ((c ∷ b) ∷ bs) (elements-NoSlash (p ∷ ps) hp)
      (elements-NoSlash ((c ∷ b) ∷ bs) hb)
