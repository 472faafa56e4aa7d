-- ===== src/Backup/Archive.antt =====
-- checkTarEntry and checkSpooledTar of internal/backup/tarsafe.go: the archive of a restore. What
-- package archive/tar reads is input; the file that holds the archive is left out.
pub mod Inside
use simpledeploy.Prelude.{
  ℕ, Bool, true, false, ◌||◌, Option, none, some, List, [], ◌∷◌, if◌then◌else◌, ◌==◌, nat_eq,
}
use simpledeploy.Prelude.Text.{Text, text_eq, codes, has_prefix, contains, contains_byte}
use simpledeploy.Paths.{clean}

pub record Header : Type 0 where
  pub name : Text
  pub type_flag : ℕ

pub data TarError : Type 0 where
  empty_name absolute_path nul_byte parent_traversal link special_type : TarError

-- `tar.TypeLink` and `tar.TypeSymlink`; `tar.TypeChar`, `tar.TypeBlock` and `tar.TypeFifo`.
abbrev pub is_link : ℕ → Bool
is_link flag = flag == b'1' || flag == b'2'

abbrev pub is_special : ℕ → Bool
is_special flag = flag == b'3' || flag == b'4' || flag == b'6'

abbrev pub is_outside : Text → Bool
is_outside cleaned =
    cleaned == codes ".." || has_prefix cleaned (codes "../") || contains cleaned (codes "/../")

-- `none` is that the entry is fine.
unfoldable pub check_tar_entry : Header → Option TarError
check_tar_entry hdr =
    if hdr.name == []
    then some empty_name
    else if has_prefix hdr.name (codes "/")
    then some absolute_path
    else if contains_byte 0 hdr.name
    then some nul_byte
    else if is_outside (clean hdr.name)
    then some parent_traversal
    else if is_link hdr.type_flag
    then some link
    else if is_special hdr.type_flag
    then some special_type
    else none

-- What ends the reading of headers.
pub data TarEnd : Type 0 where
  finished stream_too_large broken : TarEnd

pub data ArchiveError : Type 0 where
  bad_entry : TarError → ArchiveError
  archive_too_large read_header : ArchiveError

-- `rest_too_large` is that a capped stream holds too much behind the end of the archive.
abbrev pub check_end : TarEnd → Bool → Option ArchiveError
check_end finished true = some archive_too_large
check_end finished false = none
check_end stream_too_large rest_too_large = some archive_too_large
check_end broken rest_too_large = some read_header

abbrev pub or_rest : Option TarError → Option ArchiveError → Option ArchiveError
or_rest none rest = rest
or_rest (some e) rest = some (bad_entry e)

unfoldable pub check_spooled_tar : List Header → TarEnd → Bool → Option ArchiveError
unfolding check_tar_entry
check_spooled_tar [] end rest_too_large = check_end end rest_too_large
check_spooled_tar (hdr ∷ hdrs) end rest_too_large =
    or_rest (check_tar_entry hdr) (check_spooled_tar hdrs end rest_too_large)
