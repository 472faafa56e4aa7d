-- ===== src/LogBuf/Sanitize.antt =====
-- `sanitizeLogMessage` of internal/logbuf/logbuf.go. `strip` stands for the replacement of what the
-- regular expression of terminal escapes matches. Messages are valid UTF-8, so the loop over runes
-- keeps the bytes above 127 as they are.
use mathlib.Core.List.{reverse}
use simpledeploy.Prelude.{
  ℕ, zero, suc, ◌+◌, ◌≤◌, ◌≡◌, arith, Bool, true, false, ◌&&◌, ◌||◌, [], ◌∷◌, ◌++◌, ltb, leb, eqb,
  if◌then◌else◌, length, take, any, all, length-append, length-take-le, Bool-cases, inl, inr, refl,
}
use simpledeploy.Prelude.Text.{Text, codes}

abbrev pub max_line_bytes : ℕ
max_line_bytes = 8192

abbrev pub drop_newlines : Text → Text
drop_newlines [] = []
drop_newlines (c ∷ s) = let rest = drop_newlines s in if eqb c 10 then rest else c ∷ s

-- `strings.TrimRight(msg, "\n")`.
unfoldable pub trim_right_newlines : Text → Text
trim_right_newlines s = reverse (drop_newlines (reverse s))

-- The characters whose presence starts the loop: 0 to 8, and 11 to 15.
abbrev pub is_trigger : ℕ → Bool
is_trigger c = leb c 8 || (leb 11 c && leb c 15)

-- The characters that the loop keeps.
abbrev pub is_kept : ℕ → Bool
is_kept c = eqb c 9 || leb 32 c

unfoldable pub keep_printable : Text → Text
keep_printable [] = []
keep_printable (c ∷ s) = let rest = keep_printable s in if is_kept c then c ∷ rest else rest

unfoldable pub drop_controls : Text → Text
unfolding keep_printable
drop_controls s = if any is_trigger s then keep_printable s else s

abbrev marker : Text
marker = codes "...[truncated]"

unfoldable pub truncate : ℕ → Text → Text
truncate max s = if ltb max (length s) then take max s ++ marker else s

unfoldable pub sanitize_log_message : (Text → Text) → Text → Text
sanitize_log_message strip msg =
    truncate max_line_bytes (drop_controls (strip (trim_right_newlines msg)))

length-truncate : (max : ℕ) (s : Text) → length (truncate max s) ≤ max + 14
unfolding truncate
length-truncate max s = elim (Bool-cases (ltb max (length s))) [
  | inl e ↦ rw e (omega (arith, length-append (take max s) marker, length-take-le max s))
  | inr e ↦ rw e (ground arith)
]

-- A stored message has at most 8192 bytes and the marker of 14 bytes.
pub length-sanitize :
    (strip : Text → Text) (msg : Text)
    → length (sanitize_log_message strip msg) ≤ max_line_bytes + 14
unfolding sanitize_log_message
length-sanitize strip msg =
    length-truncate max_line_bytes (drop_controls (strip (trim_right_newlines msg)))

keep_printable-all : (s : Text) → all is_kept (keep_printable s) ≡ true
unfolding keep_printable
keep_printable-all [] = refl
keep_printable-all (c ∷ s) = ground (arith, keep_printable-all s)

all-append : (s t : Text) → all is_kept (s ++ t) ≡ (all is_kept s && all is_kept t)
all-append [] t = refl
all-append (c ∷ s) t = ground (arith, all-append s t)

all-take : (n : ℕ) (s : Text) → all is_kept s ≡ true → all is_kept (take n s) ≡ true
all-take zero s h = refl
all-take (suc n) [] h = refl
all-take (suc n) (c ∷ s) h = ground (arith, all-take n s)

truncate-all : (max : ℕ) (s : Text) → all is_kept s ≡ true → all is_kept (truncate max s) ≡ true
unfolding truncate
truncate-all max s h = elim (Bool-cases (ltb max (length s))) [
  | inl e ↦ rw (e, all-append (take max s) marker, all-take max s h)
  | inr e ↦ rw e h
]

truncate_short : (max : ℕ) (s : Text) → length s ≤ max → truncate max s ≡ s
unfolding truncate
truncate_short max s h = ground arith

-- A message with one of the characters 0 to 8 or 11 to 15 is stored with no control character but
-- the tab.
pub sanitize_drops_controls :
    (strip : Text → Text) (msg : Text)
    → any is_trigger (strip (trim_right_newlines msg)) ≡ true
    → all is_kept (sanitize_log_message strip msg) ≡ true
unfolding sanitize_log_message drop_controls
sanitize_drops_controls strip msg h =
    let s = strip (trim_right_newlines msg) in
    rw h (truncate-all max_line_bytes (keep_printable s) (keep_printable-all s))

-- A message of at most 8192 bytes without any of those is stored with all the other control
-- characters that it has, a newline inside it and the escape character among them.
pub sanitize_keeps_controls :
    (strip : Text → Text) (msg : Text)
    → any is_trigger (strip (trim_right_newlines msg)) ≡ false
    → length (strip (trim_right_newlines msg)) ≤ max_line_bytes
    → sanitize_log_message strip msg ≡ strip (trim_right_newlines msg)
unfolding sanitize_log_message drop_controls
sanitize_keeps_controls strip msg h k =
    rw h (truncate_short max_line_bytes (strip (trim_right_newlines msg)) k)
