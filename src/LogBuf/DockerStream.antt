-- ===== src/LogBuf/DockerStream.antt =====
-- internal/logbuf/dockerstream.go: the frames of a docker log stream.
pub mod Frames
use simpledeploy.Prelude.{
  ℕ, ◌+◌, ◌*◌, ◌≤◌, Bool, true, false, Option, none, some, List, [], ◌∷◌, ltb, eqb, if◌then◌else◌,
  length, take, drop, ◌||◌,
}
use simpledeploy.Prelude.Text.{Text}

-- How a source ends after its bytes.
pub data Ending : Type 0 where
  eof : Ending
  failed : Ending

-- What is left of the source.
pub record Source : Type 0 where
  pub bytes : Text
  pub ending : Ending

pub data Stream : Type 0 where
  stdout : Stream
  stderr : Stream
  system : Stream

-- A frame and the source behind it, the end of the source, or an error.
pub data Frame : Type 0 where
  frame : Stream → Text → Source → Frame
  ended : Frame
  read_failed : Frame
  truncated_header : Frame
  invalid_stream : ℕ → Frame
  too_large : ℕ → Frame
  truncated_payload : Frame
  daemon_error : Text → Frame

abbrev pub max_docker_frame_size : ℕ
max_docker_frame_size = 1048576

-- `binary.BigEndian.Uint32`.
abbrev pub big_endian : ℕ → ℕ → ℕ → ℕ → ℕ
big_endian a b c d = a * 16777216 + b * 65536 + c * 256 + d

-- `io.ReadFull` of eight bytes: the stream id, the size and the rest.
unfoldable pub read_header : Text → Option (ℕ × ℕ × Text)
read_header (a ∷ b ∷ c ∷ d ∷ e ∷ f ∷ g ∷ h ∷ s) = some (a, big_endian e f g h, s)
read_header s = none

-- Fewer than eight bytes are left.
abbrev pub header_error : Text → Ending → Frame
header_error s failed = read_failed
header_error [] eof = ended
header_error (c ∷ s) eof = truncated_header

abbrev pub stream_of : ℕ → Option Stream
stream_of id =
    if eqb id 0 || eqb id 1
    then some stdout
    else if eqb id 2
    then some stderr
    else if eqb id 3
    then some system
    else none

abbrev pub payload_error : Ending → Frame
payload_error eof = truncated_payload
payload_error failed = read_failed

abbrev pub deliver_frame : Stream → Text → Source → Frame
deliver_frame stdout payload src = frame stdout payload src
deliver_frame stderr payload src = frame stderr payload src
deliver_frame system payload src = daemon_error payload

abbrev pub read_payload : Stream → ℕ → Text → Ending → Frame
read_payload stream size s ending =
    if ltb (length s) size
    then payload_error ending
    else deliver_frame stream (take size s) (record { bytes = drop size s; ending = ending })

abbrev pub read_stream : ℕ → ℕ → Text → Ending → Option Stream → Frame
read_stream id size s ending none = invalid_stream id
read_stream id size s ending (some stream) =
    if ltb max_docker_frame_size size then too_large size else read_payload stream size s ending

unfoldable pub next : Source → Frame
unfolding read_header
next src = elim (read_header src.bytes) [
  | none ↦ header_error src.bytes src.ending
  | some (id, size, s) ↦ read_stream id size s src.ending (stream_of id)
]
