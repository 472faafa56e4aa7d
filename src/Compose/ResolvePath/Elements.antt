-- ===== src/Compose/ResolvePath/Elements.antt =====
-- The parent of a clean absolute path, by the elements of the path.
use simpledeploy.Prelude.{
  true, false, ◌||◌, ◌≡◌, ◌∙◌, sym, ap, refl, arith, List, [], ◌∷◌, ◌++◌, append-nil, append_assoc,
  ◌==◌, nat_eq, All, Bool-cases, inl, inr,
}
use mathlib.Core.List.{reverse, reverse_aux, reverse-reverse}
use simpledeploy.Prelude.Text.{Text, text_eq, text_beq, codes, contains_byte, split, split-append}
use simpledeploy.Paths.{slash, is_abs, clean_loop, join_slash, clean, up_to_slash, dir}
use simpledeploy.Compose.HostPath.Within.{tail, render, NoSlash}

-- An element of a clean absolute path.
abbrev pub IsPlain : Text → Type 0
IsPlain e = NoSlash e × ((e == [] || e == codes ".") ≡ false) × ((e == codes "..") ≡ false)

up_to_slash-NoSlash : (e : Text) → NoSlash e → up_to_slash e ≡ []
unfolding up_to_slash contains_byte text_beq
up_to_slash-NoSlash [] h = refl
up_to_slash-NoSlash (c ∷ e) h =
    let other : (c == slash) ≡ false = ground arith in
    rw (other, up_to_slash-NoSlash e (ground arith)) refl

snoc_not_nil : (s : Text) → ((s ++ slash ∷ []) == []) ≡ false
unfolding text_beq
snoc_not_nil [] = refl
snoc_not_nil (c ∷ s) = refl

up_to_slash-append : (s e : Text) → NoSlash e → up_to_slash (s ++ slash ∷ e) ≡ s ++ slash ∷ []
unfolding up_to_slash
up_to_slash-append [] e h = ap (λ l. slash ∷ l) (up_to_slash-NoSlash e h)
up_to_slash-append (c ∷ s) e h = elim (Bool-cases (c == slash)) [
  | inl sep ↦ rw (sep, up_to_slash-append s e h) refl
  | inr other ↦ rw (other, up_to_slash-append s e h, snoc_not_nil s) refl
]

tail-append : (es : List Text) (e : Text) → tail (es ++ e ∷ []) ≡ tail es ++ slash ∷ e
unfolding tail
tail-append [] e = ap (λ l. slash ∷ l) (append-nil e)
tail-append (d ∷ es) e =
    ap (λ l. slash ∷ l)
      (ap (λ l. d ++ l) (tail-append es e) ∙ sym (append_assoc d (tail es) (slash ∷ e)))

split-NoSlash : (e : Text) → NoSlash e → split slash e ≡ e ∷ []
unfolding split contains_byte
split-NoSlash [] h = refl
split-NoSlash (c ∷ e) h =
    let other : (c == slash) ≡ false = ground arith in
    rw (other, split-NoSlash e (ground arith)) refl

split-tail :
    (e : Text) (es : List Text) → NoSlash e → All NoSlash es → split slash (e ++ tail es) ≡ e ∷ es
unfolding tail
split-tail e [] h hs = rw (append-nil e) (split-NoSlash e h)
split-tail e (f ∷ es) h (hf, hs) = rw (split-append, split-NoSlash e h, split-tail f es hf hs) refl

skip_empty : (stack : List Text) → clean_loop true ([] ∷ []) stack ≡ stack
unfolding clean_loop text_beq
skip_empty stack = refl

push_plain :
    (e : Text) (es stack : List Text)
    → IsPlain e
    → clean_loop true (e ∷ es) stack ≡ clean_loop true es (e ∷ stack)
unfolding clean_loop
push_plain e es stack (_, some_name, no_dots) = rw (some_name, no_dots) refl

clean_loop-plain :
    (es stack : List Text)
    → All IsPlain es
    → clean_loop true (es ++ [] ∷ []) stack ≡ reverse_aux es stack
clean_loop-plain [] stack h = skip_empty stack
clean_loop-plain (e ∷ es) stack (plain, h) =
    push_plain e (es ++ [] ∷ []) stack plain ∙ clean_loop-plain es (e ∷ stack) h

skip_first : (es stack : List Text) → clean_loop true ([] ∷ es) stack ≡ clean_loop true es stack
unfolding clean_loop text_beq
skip_first es stack = refl

join_slash-tail : (e : Text) (es : List Text) → join_slash (e ∷ es) ≡ e ++ tail es
unfolding join_slash tail
join_slash-tail e [] = sym (append-nil e)
join_slash-tail e (f ∷ es) = ap (λ l. e ++ slash ∷ l) (join_slash-tail f es)

NoSlash-plain : (es : List Text) → All IsPlain es → All NoSlash es
NoSlash-plain [] h = tt
NoSlash-plain (e ∷ es) ((h, _, _), hs) = (h, NoSlash-plain es hs)

split-parent :
    (es : List Text) → All NoSlash es → split slash (tail es ++ slash ∷ []) ≡ [] ∷ (es ++ [] ∷ [])
unfolding tail split
split-parent [] h = refl
split-parent (e ∷ es) (h, hs) = rw (split-append, split-tail e es h hs) refl

is_abs-tail : (es : List Text) → is_abs (tail es ++ slash ∷ []) ≡ true
unfolding tail
is_abs-tail [] = refl
is_abs-tail (e ∷ es) = refl

slash-join : (es : List Text) → slash ∷ join_slash es ≡ render es
unfolding join_slash render tail
slash-join [] = refl
slash-join (e ∷ es) = ap (λ l. slash ∷ l) (join_slash-tail e es)

clean-parent : (es : List Text) → All IsPlain es → clean (tail es ++ slash ∷ []) ≡ render es
unfolding clean
clean-parent es h =
    let parts = split-parent es (NoSlash-plain es h) in
    let walked : clean_loop true ([] ∷ (es ++ [] ∷ [])) [] ≡ reverse es =
      skip_first (es ++ [] ∷ []) [] ∙ clean_loop-plain es [] h in
    rw (is_abs-tail es, parts, walked, reverse-reverse es) (slash-join es)

render-append : (es : List Text) (e : Text) → render (es ++ e ∷ []) ≡ tail es ++ slash ∷ e
unfolding render
render-append [] e = tail-append [] e
render-append (d ∷ es) e = tail-append (d ∷ es) e

-- The parent of a path is the path without its last element.
pub dir-render :
    (es : List Text) (e : Text)
    → All IsPlain es
    → IsPlain e
    → dir (render (es ++ e ∷ [])) ≡ render es
dir-render es e h (no_slash, _, _) =
    rw (render-append es e, up_to_slash-append (tail es) e no_slash) (clean-parent es h)
