-- ===== src/Compose/ResolvePath/Ends.antt =====
-- The loop of resolvePath ends.
use simpledeploy.Prelude.{
  ℕ, zero, suc, ◌+◌, ◌≤◌, ◌<◌, Bool, true, false, ◌≡◌, ◌∙◌, ◌⊎◌, inl, inr, sym, ap, refl, arith,
  Option, none, some, List, [], ◌∷◌, ◌++◌, ◌==◌, nat_eq, length, length-append, All,
}
use simpledeploy.Prelude.Text.{Text, text_eq, text_beq, split}
use simpledeploy.Paths.{base, dir, join, clean, clean_loop, join_slash, up_to_slash}
use simpledeploy.Compose.HostPath.Within.{tail, render}
use simpledeploy.Compose.ResolvePath.{
  Lstat, exists, missing, failed, FileSystem, round, resolve_path_loop, resolve_path,
}
use simpledeploy.Compose.ResolvePath.Elements.{IsPlain, dir-render}

abbrev IsAnswer : Option (Option Text) → Type 0
IsAnswer answer = (out : Option Text) × (answer ≡ some out)

round-IsAnswer :
    (p rest : Text) (real : Option Text) (found : Lstat) (at_root : Bool)
    (more : Option (Option Text)) (fs : FileSystem)
    → (at_root ≡ false → IsAnswer more)
    → IsAnswer (round fs p rest real found at_root more)
round-IsAnswer p rest (some real) found at_root more fs h = (some (join real rest), refl)
round-IsAnswer p rest none exists at_root more fs h = (none, refl)
round-IsAnswer p rest none failed at_root more fs h = (none, refl)
round-IsAnswer p rest none missing true more fs h = (some p, refl)
round-IsAnswer p rest none missing false more fs h = h refl

snoc-cases :
    (es : List Text) → (es ≡ []) ⊎ ((init : List Text) × (e : Text) × (es ≡ init ++ e ∷ []))
snoc-cases [] = inl refl
snoc-cases (d ∷ es) = elim (snoc-cases es) [
  | inl empty ↦ inr ([], d, ap (λ l. d ∷ l) empty)
  | inr (init, e, same) ↦ inr (d ∷ init, e, ap (λ l. d ∷ l) same)
]

All-snoc :
    (init : List Text) (e : Text) → All IsPlain (init ++ e ∷ []) → All IsPlain init × IsPlain e
All-snoc [] e (h, _) = (tt, h)
All-snoc (d ∷ init) e (hd, h) = let (hs, he) = All-snoc init e h in ((hd, hs), he)

dir-root : (dir (render []) == render []) ≡ true
unfolding render clean clean_loop join_slash up_to_slash text_beq split
dir-root = refl

module _ (fs : FileSystem) (p : Text) where
  loop-IsAnswer :
      (fuel : ℕ) (rest : Text) (es : List Text)
      → All IsPlain es
      → length es < fuel
      → IsAnswer (resolve_path_loop fs fuel p (render es) rest)
  unfolding resolve_path_loop
  loop-IsAnswer zero rest es plain enough = ground arith
  loop-IsAnswer (suc fuel) rest es plain enough =
      round-IsAnswer p rest (fs.eval_symlinks (render es)) (fs.lstat (render es))
        (dir (render es) == render es)
        (resolve_path_loop fs fuel p (dir (render es)) (join (base (render es)) rest)) fs
        (λ below. elim (snoc-cases es) [
          | inl empty ↦ let stuck = rw empty at below in let no = sym dir-root ∙ stuck in cc
          | inr (init, e, same) ↦
              let (plain_init, plain_e) = All-snoc init e (rw same at plain) in
              let parent : dir (render es) ≡ render init =
                rw same (dir-render init e plain_init plain_e) in
              let shorter : length init < fuel =
                omega (arith, enough, ap length same, length-append init (e ∷ [])) in
              rw parent (loop-IsAnswer fuel (join (base (render es)) rest) init plain_init shorter)
        ])

length-tail : (es : List Text) → length es ≤ length (tail es)
unfolding tail
length-tail [] = omega arith
length-tail (e ∷ es) = omega (arith, length-tail es, length-append e (tail es))

length-render : (es : List Text) → length es ≤ length (render es)
unfolding render
length-render [] = omega arith
length-render (e ∷ es) = length-tail (e ∷ es)

-- On a clean absolute path the loop of resolvePath ends within one round for each byte and one more,
-- whatever the file system answers, and resolvePath gives its answer.
pub resolve_path-ends :
    (fs : FileSystem) (es : List Text)
    → All IsPlain es
    → (out : Option Text) × (resolve_path_loop fs
          (length (render es) + 1)
          (render es)
          (render es)
          []
        ≡ some out)
      × (resolve_path fs (render es) ≡ out)
unfolding resolve_path
resolve_path-ends fs es plain =
    let (out, ends) =
      loop-IsAnswer fs (render es) (length (render es) + 1) [] es plain
        (omega (arith, length-render es)) in
    (out, ends, rw ends refl)
