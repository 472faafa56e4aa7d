-- ===== src/LogBuf/Tests.antt =====
-- internal/logbuf at concrete inputs.
use mathlib.Core.List.{reverse}
use simpledeploy.Prelude.{ℕ, ◌≡◌, refl, some, List, [], ◌∷◌, take}
use simpledeploy.Prelude.Text.{Text}
use simpledeploy.LogBuf.{Entry, Buffer, new, write, recent, offer_all}
use simpledeploy.LogBuf.History.{write_all, recent-write_all}
use simpledeploy.LogBuf.Sanitize
use simpledeploy.LogBuf.Sanitize.{
  max_line_bytes, is_trigger, is_kept, trim_right_newlines, drop_controls, sanitize_log_message,
  length-sanitize, sanitize_drops_controls, sanitize_keeps_controls,
}

abbrev line : ℕ → Entry
line n = record { timestamp = n; message = [] }

abbrev three : List Entry
three = line 1 ∷ line 2 ∷ line 3 ∷ []

last_two :
    (b : Buffer) × (write_all (new 2) three ≡ some b) × (recent b 5 ≡ some (line 2 ∷ line 3 ∷ []))
unfolding write_all new write recent offer_all
last_two = (_, refl, refl)

recent-write_all_example :
    (b : Buffer) × (write_all (new 2) three ≡ some b)
    × (recent b 5 ≡ some (reverse (take 5 (take (new 2).max_size (reverse three)))))
recent-write_all_example = recent-write_all 2 three 5

-- An expression that matches nothing.
abbrev no_strip : Text → Text
no_strip s = s

-- A tab, a carriage return and a bell.
abbrev noisy : Text
noisy = b'a' ∷ 9 ∷ 13 ∷ 7 ∷ b'b' ∷ 10 ∷ []

noisy_stored : sanitize_log_message no_strip noisy ≡ b'a' ∷ 9 ∷ b'b' ∷ []
unfolding sanitize_log_message trim_right_newlines drop_controls Sanitize.truncate
noisy_stored = refl

-- ESC and "c", the terminal's full reset, which the expression of escapes does not match.
abbrev terminal_reset : Text
terminal_reset = 27 ∷ b'c' ∷ []
