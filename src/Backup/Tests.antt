-- ===== src/Backup/Tests.antt =====
-- internal/backup at concrete inputs.
use simpledeploy.Prelude.{
  ℕ, ◌≡◌, refl, false, none, some, List, [], ◌∷◌, ◌++◌, nat_eq, All, take, drop, length,
  length-take-le, arith, zero, suc, ap, ◌<◌, Bool-cases, inl, inr, if◌then◌else◌, ltb,
}
use simpledeploy.Prelude.Text.{
  Text, text_eq, text_beq, codes, has_prefix, contains, contains_byte, split,
}
use simpledeploy.Paths.{clean, clean_loop, join_slash}
use simpledeploy.Backup.Archive.{Header, check_tar_entry, finished, check_spooled_tar}
use simpledeploy.Backup.Archive.Inside.{IsInside, check_spooled_tar-IsInside}
use simpledeploy.Backup.Cap.{ReadResult, eof, archive_too_large, new_cap_reader, cap_read}
use simpledeploy.Backup.Cap.Limit.{IsReader, IsCopy, read_until, read_until-IsCopy}

abbrev file : Text → Header
file name = record { name = name; type_flag = b'0' }

-- Names with two dots or two slashes pass while they stay inside.
dots_pass : check_tar_entry (file (codes "a/../b")) ≡ none
unfolding check_tar_entry clean clean_loop join_slash split has_prefix contains contains_byte
    text_beq
dots_pass = refl

unclean_passes : check_tar_entry (file (codes "a//./b/")) ≡ none
unfolding check_tar_entry clean clean_loop join_slash split has_prefix contains contains_byte
    text_beq
unclean_passes = refl

abbrev archive : List Header
archive = file (codes "data/app.db") ∷ file (codes "data/../conf") ∷ []

check_spooled_tar-IsInside_example : All IsInside archive
unfolding check_spooled_tar check_tar_entry clean clean_loop join_slash split has_prefix contains
    contains_byte text_beq
check_spooled_tar-IsInside_example = check_spooled_tar-IsInside archive finished false refl

-- A reader over a list of bytes.
abbrev read_list : ℕ → List ℕ → ReadResult (List ℕ)
read_list len bytes = record {
  bytes = take len bytes;
  error = if ltb (length bytes) len then some eof else none;
  next = drop len bytes;
}

take-drop : (len : ℕ) (bytes : List ℕ) → bytes ≡ take len bytes ++ drop len bytes
take-drop zero bytes = refl
take-drop (suc len) [] = refl
take-drop (suc len) (b ∷ bytes) = ap (λ l. b ∷ l) (take-drop len bytes)

drop-nil : (len : ℕ) (bytes : List ℕ) → length bytes < len → drop len bytes ≡ []
drop-nil zero bytes short = ground arith
drop-nil (suc len) [] short = refl
drop-nil (suc len) (b ∷ bytes) short = drop-nil len bytes (omega (arith, short))

list-IsReader : IsReader (List ℕ) read_list (λ bytes. bytes)
list-IsReader len bytes = elim (Bool-cases (ltb (length bytes) len)) [
  | inl at_end ↦ rw at_end (
    take-drop len bytes,
    length-take-le len bytes,
    λ e. drop-nil len bytes (ground arith),
    λ e. cc,
  )
  | inr more ↦ rw more (take-drop len bytes, length-take-le len bytes, λ e. cc, λ e. cc)
]

read_until-IsCopy_example :
    IsCopy
      (1 ∷ 2 ∷ 3 ∷ [])
      2
      (read_until read_list (1 ∷ 4 ∷ 4 ∷ []) (new_cap_reader (1 ∷ 2 ∷ 3 ∷ []) 2))
read_until-IsCopy_example =
    read_until-IsCopy read_list (λ bytes. bytes) list-IsReader (1 ∷ 4 ∷ 4 ∷ []) (1 ∷ 2 ∷ 3 ∷ []) 2

three_too_many :
    read_until read_list (1 ∷ 4 ∷ 4 ∷ []) (new_cap_reader (1 ∷ 2 ∷ 3 ∷ []) 2)
    ≡ (1 ∷ 2 ∷ [], some archive_too_large)
unfolding read_until cap_read
three_too_many = refl
