-- ===== src/Api/EnvFile/Parsed.antt =====
-- What the scanner and the parser make of the lines that `env_file_content` writes.
use mathlib.Core.List.{reverse, reverse-reverse}
use simpledeploy.Prelude.{
  ℕ, zero, suc, ◌<◌, false, ◌||◌, none, some, List, [], ◌∷◌, ◌++◌, map, ◌≡◌, refl, sym, ap, ◌∙◌,
  arith, length, lt→ltb, All, append_assoc, inl, inr, ◌==◌, Option-cases,
}
use simpledeploy.Prelude.Text.{
  Text, text_eq, text_beq, codes, has_prefix, contains_byte, trim_last, split, split-append,
}
use simpledeploy.Prelude.Lines.{space_at, space_before, trim_by, trim_runes, keep_last, scan_lines}
use simpledeploy.Api.EnvFile.{
  EnvVar, key_forbidden, value_forbidden, contains_any, validate_env_var, validate_from, cut_equals,
  read_trimmed, read_line, max_line, parse_lines, env_file_content,
}

-- The line of a variable.
abbrev pub line_of : EnvVar → Text
line_of v = v.key ++ (b'=' ∷ v.value)

-- What validation promises of a variable.
pub record IsWritable (v : EnvVar) : Type 0 where
  pub named : (v.key == []) ≡ false
  pub key_plain : contains_any v.key key_forbidden ≡ false
  pub value_plain : contains_any v.value value_forbidden ≡ false
  pub unmasked : v.masked ≡ false

-- The line keeps its ends when it is trimmed, is no comment, and fits the scanner's buffer.
pub record IsKept (v : EnvVar) : Type 0 where
  pub starts : space_at (line_of v) ≡ 0
  pub ends : space_before (reverse (line_of v)) ≡ 0
  pub no_comment : has_prefix v.key (codes "#") ≡ false
  pub fits : length (line_of v) < max_line

validate_env_var-IsWritable : (i : ℕ) (v : EnvVar) → validate_env_var i v ≡ none → IsWritable v
unfolding validate_env_var
validate_env_var-IsWritable i v h = ground arith

pub validate_from-IsWritable :
    (i : ℕ) (vars : List EnvVar) → validate_from i vars ≡ none → All IsWritable vars
unfolding validate_from
validate_from-IsWritable i [] h = tt
validate_from-IsWritable i (v ∷ vars) h = elim (Option-cases (validate_env_var i v)) [
  | inl ok ↦ (
    validate_env_var-IsWritable i v ok,
    validate_from-IsWritable (suc i) vars (rw (ok, validate_from) at h),
  )
  | inr (e, bad) ↦ cc (rw (bad, validate_from) at h)
]

contains_byte-append :
    (b : ℕ) (s t : Text) → contains_byte b (s ++ t) ≡ (contains_byte b s || contains_byte b t)
unfolding contains_byte
contains_byte-append b [] t = refl
contains_byte-append b (c ∷ s) t = ground (arith, contains_byte-append b s t)

split_plain : (sep : ℕ) (s : Text) → contains_byte sep s ≡ false → split sep s ≡ s ∷ []
unfolding split contains_byte
split_plain sep [] h = refl
split_plain sep (c ∷ s) h = ground (arith, split_plain sep s)

trim_last_plain : (b : ℕ) (s : Text) → contains_byte b s ≡ false → trim_last b s ≡ s
unfolding trim_last contains_byte
trim_last_plain b [] h = refl
trim_last_plain b (c ∷ []) h = ground arith
trim_last_plain b (c ∷ d ∷ s) h = ap (λ l. c ∷ l) (trim_last_plain b (d ∷ s) (ground arith))

cut_equals_lem :
    (k v : Text) → contains_byte b'=' k ≡ false → cut_equals (k ++ (b'=' ∷ v)) ≡ some (k, v)
unfolding cut_equals contains_byte
cut_equals_lem [] v h = refl
cut_equals_lem (c ∷ k) v h = ground (arith, cut_equals_lem k v)

trim_by_none : (width : Text → ℕ) (fuel : ℕ) (s : Text) → width s ≡ 0 → trim_by width fuel s ≡ s
unfolding trim_by
trim_by_none width zero s h = refl
trim_by_none width (suc fuel) s h = rw (h, trim_by)

trim_runes_none : (s : Text) → space_at s ≡ 0 → space_before (reverse s) ≡ 0 → trim_runes s ≡ s
unfolding trim_runes
trim_runes_none s h k = rw (
  trim_by_none space_at (length s) s h,
  trim_by_none space_before (length s) (reverse s) k,
  reverse-reverse s,
)

IsWritable-no_newline : (v : EnvVar) → IsWritable v → contains_byte b'\n' (line_of v) ≡ false
unfolding contains_byte
IsWritable-no_newline v w = ground (arith, contains_byte-append b'\n' v.key (b'=' ∷ v.value))

IsWritable-no_return : (v : EnvVar) → IsWritable v → contains_byte b'\r' (line_of v) ≡ false
unfolding contains_byte
IsWritable-no_return v w = ground (arith, contains_byte-append b'\r' v.key (b'=' ∷ v.value))

split_line :
    (v : EnvVar) (s : Text)
    → IsWritable v
    → split b'\n' (v.key ++ (b'=' ∷ (v.value ++ (b'\n' ∷ s)))) ≡ line_of v ∷ split b'\n' s
split_line v s w =
    ap (split b'\n') (sym (append_assoc v.key (b'=' ∷ v.value) (b'\n' ∷ s)))
    ∙ split-append b'\n' (line_of v) s
    ∙ ap (λ l. l ++ split b'\n' s) (split_plain b'\n' (line_of v) (IsWritable-no_newline v w))

keep_last_line :
    (k v : Text) (ls : List Text)
    → keep_last ((k ++ (b'=' ∷ v)) ∷ ls) ≡ (k ++ (b'=' ∷ v)) ∷ keep_last ls
keep_last_line [] v [] = refl
keep_last_line [] v (l ∷ ls) = refl
keep_last_line (c ∷ k) v [] = refl
keep_last_line (c ∷ k) v (l ∷ ls) = refl

-- No value adds a line: the file has one line for each variable.
pub scan_lines-content :
    (vars : List EnvVar)
    → All IsWritable vars
    → scan_lines (env_file_content vars) ≡ map line_of vars
unfolding scan_lines env_file_content split
scan_lines-content [] w = refl
scan_lines-content (v ∷ vars) w =
    ap keep_last (split_line v (env_file_content vars) w.0)
    ∙ keep_last_line v.key v.value (split b'\n' (env_file_content vars))
    ∙ ap (λ ls. line_of v ∷ ls) (scan_lines-content vars w.1)

has_prefix-key :
    (k v : Text)
    → has_prefix k (codes "#") ≡ false
    → has_prefix (k ++ (b'=' ∷ v)) (codes "#") ≡ false
unfolding has_prefix
has_prefix-key [] v h = refl
has_prefix-key (c ∷ k) v h = ground arith

line_of-ne_nil : (k v : Text) → ((k ++ (b'=' ∷ v)) == []) ≡ false
unfolding text_beq
line_of-ne_nil [] v = refl
line_of-ne_nil (c ∷ k) v = refl

key-no_equals : (v : EnvVar) → IsWritable v → contains_byte b'=' v.key ≡ false
key-no_equals v w = ground arith

read_trimmed-line :
    (v : EnvVar)
    → IsWritable v
    → has_prefix v.key (codes "#") ≡ false
    → read_trimmed (line_of v) ≡ some (record { key = v.key; value = v.value; masked = false })
unfolding read_trimmed
read_trimmed-line v w h = rw (
  line_of-ne_nil v.key v.value,
  has_prefix-key v.key v.value h,
  cut_equals_lem v.key v.value (key-no_equals v w),
)

pub read_line-line : (v : EnvVar) → IsWritable v → IsKept v → read_line (line_of v) ≡ some v
unfolding read_line
read_line-line v w k =
    rw
      (
        trim_last_plain b'\r' (line_of v) (IsWritable-no_return v w),
        trim_runes_none (line_of v) k.starts k.ends,
      )
      (read_trimmed-line v w k.no_comment ∙ ground arith)

pub parse_lines-line_of :
    (vars : List EnvVar)
    → All IsWritable vars
    → All IsKept vars
    → parse_lines (map line_of vars) ≡ (vars, false)
unfolding parse_lines
parse_lines-line_of [] w k = refl
parse_lines-line_of (v ∷ vars) w k =
    rw (lt→ltb _ _ k.0.fits, read_line-line v w.0 k.0, parse_lines-line_of vars w.1 k.1)
