-- ===== src/LogBuf/DockerStream/Frames.antt =====
-- Frames that docker writes are read back, and what is read is no longer than the limit.
use simpledeploy.Prelude.{
  ℕ, zero, suc, ◌+◌, ◌/◌, ◌%◌, ◌≤◌, ◌<◌, true, false, List, [], ◌∷◌, ◌++◌, ◌≡◌, ◌≢◌, refl, sym, ap,
  ◌∙◌, arith, ltb, eqb, if◌then◌else◌, length, take, drop, All, map, length-append,
}
use simpledeploy.Prelude.Text.{Text}
use simpledeploy.LogBuf.DockerStream.{
  Ending, eof, Source, Stream, stdout, stderr, system, Frame, frame, ended, truncated_header,
  truncated_payload, too_large, read_failed, invalid_stream, daemon_error, max_docker_frame_size,
  big_endian, read_header, stream_of, deliver_frame, read_payload, read_stream, next,
}

-- What docker writes for one frame: the stream, three zero bytes, the size and the payload.
abbrev pub encode_frame : ℕ → Text → Text
encode_frame id payload =
    let n = length payload in
    id ∷ 0 ∷ 0 ∷ 0 ∷ (n / 16777216) ∷ ((n / 65536) % 256) ∷ ((n / 256) % 256) ∷ (n % 256) ∷ payload

size_read_back :
    (n : ℕ) → big_endian (n / 16777216) ((n / 65536) % 256) ((n / 256) % 256) (n % 256) ≡ n
size_read_back n = omega arith

take-payload : (p rest : Text) → take (length p) (p ++ rest) ≡ p
take-payload [] rest = refl
take-payload (c ∷ p) rest = ap (λ l. c ∷ l) (take-payload p rest)

drop-payload : (p rest : Text) → drop (length p) (p ++ rest) ≡ rest
drop-payload [] rest = refl
drop-payload (c ∷ p) rest = drop-payload p rest

-- The two streams of a container, by their ids.
abbrev pub name_of : ℕ → Stream
name_of id = if eqb id 2 then stderr else stdout

read_payload-append :
    (stream : Stream) (p rest : Text) (ending : Ending)
    → stream ≢ system
    → read_payload stream (length p) (p ++ rest) ending
      ≡ frame stream p (record { bytes = rest; ending = ending })
read_payload-append stream p rest ending ne =
    let long : ltb (length (p ++ rest)) (length p) ≡ false = ground (arith, length-append p rest) in
    rw (long, take-payload p rest, drop-payload p rest) (delivered stream ne)
  where
    delivered :
        (s : Stream)
        → s ≢ system
        → deliver_frame s p (record { bytes = rest; ending = ending })
          ≡ frame s p (record { bytes = rest; ending = ending })
    delivered stdout h = refl
    delivered stderr h = refl
    delivered system h = absurd (h refl)

not_large :
    (p : Text) → length p ≤ max_docker_frame_size → ltb max_docker_frame_size (length p) ≡ false
not_large p k = ground arith

read_stream-append :
    (id : ℕ) (p rest : Text) (ending : Ending)
    → id ≤ 2
    → length p ≤ max_docker_frame_size
    → read_stream id (length p) (p ++ rest) ending (stream_of id)
      ≡ frame (name_of id) p (record { bytes = rest; ending = ending })
read_stream-append zero p rest ending h k =
    rw (not_large p k) (read_payload-append stdout p rest ending (cc))
read_stream-append (suc zero) p rest ending h k =
    rw (not_large p k) (read_payload-append stdout p rest ending (cc))
read_stream-append (suc (suc zero)) p rest ending h k =
    rw (not_large p k) (read_payload-append stderr p rest ending (cc))
read_stream-append (suc (suc (suc n))) p rest ending h k = absurd (omega arith)

next-encode_frame :
    (id : ℕ) (p rest : Text) (ending : Ending)
    → id ≤ 2
    → length p ≤ max_docker_frame_size
    → next (record { bytes = encode_frame id p ++ rest; ending = ending })
      ≡ frame (name_of id) p (record { bytes = rest; ending = ending })
unfolding next read_header
next-encode_frame id p rest ending h k =
    ap (λ n. read_stream id n (p ++ rest) ending (stream_of id)) (size_read_back (length p))
    ∙ read_stream-append id p rest ending h k

length-take-lt : (j : ℕ) (p : Text) → j < length p → length (take j p) ≡ j
length-take-lt zero p h = refl
length-take-lt (suc j) [] h = elim h [ ]
length-take-lt (suc j) (c ∷ p) h = ap suc (length-take-lt j p (omega arith))

read_payload-take :
    (stream : Stream) (j : ℕ) (p : Text)
    → j < length p
    → read_payload stream (length p) (take j p) eof ≡ truncated_payload
read_payload-take stream j p h =
    let short : ltb (length (take j p)) (length p) ≡ true = ground (arith, length-take-lt j p h) in
    rw short

read_stream-take :
    (id j : ℕ) (p : Text)
    → id ≤ 2
    → length p ≤ max_docker_frame_size
    → j < length p
    → read_stream id (length p) (take j p) eof (stream_of id) ≡ truncated_payload
read_stream-take zero j p h k l = rw (not_large p k) (read_payload-take stdout j p l)
read_stream-take (suc zero) j p h k l = rw (not_large p k) (read_payload-take stdout j p l)
read_stream-take (suc (suc zero)) j p h k l = rw (not_large p k) (read_payload-take stderr j p l)
read_stream-take (suc (suc (suc n))) j p h k l = absurd (omega arith)

-- What a frame that was cut off after `k` bytes reads as.
abbrev pub cut_off : ℕ → Frame
cut_off k = if eqb k 0 then ended else if ltb k 8 then truncated_header else truncated_payload

cut_off_late :
    (j : ℕ) → cut_off (suc (suc (suc (suc (suc (suc (suc (suc j)))))))) ≡ truncated_payload
cut_off_late j = ground arith

next-cut :
    (id k : ℕ) (p : Text)
    → id ≤ 2
    → length p ≤ max_docker_frame_size
    → k < 8 + length p
    → next (record { bytes = take k (encode_frame id p); ending = eof }) ≡ cut_off k
unfolding next read_header
next-cut id zero p h l m = refl
next-cut id (suc zero) p h l m = refl
next-cut id (suc (suc zero)) p h l m = refl
next-cut id (suc (suc (suc zero))) p h l m = refl
next-cut id (suc (suc (suc (suc zero)))) p h l m = refl
next-cut id (suc (suc (suc (suc (suc zero))))) p h l m = refl
next-cut id (suc (suc (suc (suc (suc (suc zero)))))) p h l m = refl
next-cut id (suc (suc (suc (suc (suc (suc (suc zero))))))) p h l m = refl
next-cut id (suc (suc (suc (suc (suc (suc (suc (suc j)))))))) p h l m =
    ap (λ n. read_stream id n (take j p) eof (stream_of id)) (size_read_back (length p))
    ∙ read_stream-take id j p h l (omega arith)
    ∙ sym (cut_off_late j)

-- Reading on until something else than a frame comes: the frames, and what came.
abbrev pub read_on : (Source → List (Stream × Text) × Frame) → Frame → List (Stream × Text) × Frame
read_on more (frame stream payload rest) = ((stream, payload) ∷ (more rest).0, (more rest).1)
read_on more ended = ([], ended)
read_on more read_failed = ([], read_failed)
read_on more truncated_header = ([], truncated_header)
read_on more (invalid_stream id) = ([], invalid_stream id)
read_on more (too_large size) = ([], too_large size)
read_on more truncated_payload = ([], truncated_payload)
read_on more (daemon_error message) = ([], daemon_error message)

unfoldable pub read_frames : ℕ → Source → List (Stream × Text) × Frame
read_frames zero src = ([], read_failed)
read_frames (suc fuel) src = read_on (read_frames fuel) (next src)

read_on-cut_off :
    (more : Source → List (Stream × Text) × Frame) (k : ℕ)
    → read_on more (cut_off k) ≡ ([], cut_off k)
read_on-cut_off more k = ground arith

abbrev pub encode_frames : List (ℕ × Text) → Text → Text
encode_frames [] rest = rest
encode_frames ((id, payload) ∷ frames) rest = encode_frame id payload ++ encode_frames frames rest

abbrev pub decoded : ℕ × Text → Stream × Text
decoded (id, payload) = (name_of id, payload)

abbrev pub IsFrame : ℕ × Text → Type 0
IsFrame (id, payload) = (id ≤ 2) × (length payload ≤ max_docker_frame_size)

-- Frames of the streams 0, 1 and 2 whose payloads are within the largest size that is accepted are
-- read back as they were, in order, however many they are, and wherever the stream is cut off in one
-- more such frame; the end is clean exactly when it was cut off between two frames, and is reported as
-- a truncated header or payload otherwise. Any fuel above the number of whole frames is enough. A
-- frame of another stream, such as an error of the daemon, or a larger one, is not covered.
pub read_frames-encode :
    (frames : List (ℕ × Text)) (fuel id k : ℕ) (p : Text)
    → length frames ≤ fuel
    → All IsFrame frames
    → IsFrame (id, p)
    → k < 8 + length p
    → read_frames
        (suc fuel)
        (record { bytes = encode_frames frames (take k (encode_frame id p)); ending = eof })
      ≡ (map decoded frames, cut_off k)
unfolding read_frames
read_frames-encode [] fuel id k p enough all_ok ok m =
    ap (read_on (read_frames fuel)) (next-cut id k p ok.0 ok.1 m)
    ∙ read_on-cut_off (read_frames fuel) k
read_frames-encode ((i, q) ∷ frames) zero id k p enough all_ok ok m = absurd (omega arith)
read_frames-encode ((i, q) ∷ frames) (suc fuel) id k p enough all_ok ok m =
    ap (read_on (read_frames (suc fuel))) (
      next-encode_frame i q (encode_frames frames (take k (encode_frame id p))) eof all_ok.0.0
        all_ok.0.1)
    ∙ ap (λ r. ((name_of i, q) ∷ r.0, r.1))
        (read_frames-encode frames fuel id k p (omega arith) all_ok.1 ok m)
