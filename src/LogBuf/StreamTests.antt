-- ===== src/LogBuf/StreamTests.antt =====
-- internal/logbuf/dockerstream.go at concrete bytes.
use simpledeploy.Prelude.{ℕ, List, [], ◌∷◌, ◌≡◌, refl, arith, take, map}
use simpledeploy.Prelude.Text.{Text, codes}
use simpledeploy.LogBuf.DockerStream.{eof, daemon_error, too_large, read_header, next}
use simpledeploy.LogBuf.DockerStream.Frames.{
  encode_frame, encode_frames, decoded, cut_off, read_frames, read_frames-encode,
}

abbrev two_frames : List (ℕ × Text)
two_frames = (1, codes "up") ∷ (2, codes "warn") ∷ []

read_frames-encode_example :
    read_frames 3 (record {
      bytes = encode_frames two_frames (take 9 (encode_frame 1 (codes "down")));
      ending = eof;
    })
    ≡ (map decoded two_frames, cut_off 9)
read_frames-encode_example =
    read_frames-encode two_frames 2 1 9 (codes "down") (omega arith)
      ((omega arith, omega arith), ((omega arith, omega arith), tt)) (omega arith, omega arith)
      (omega arith)

daemon_message :
    next (record { bytes = encode_frame 3 (codes "gone"); ending = eof })
    ≡ daemon_error (codes "gone")
unfolding next read_header
daemon_message = refl

-- The size is not trusted.
large_refused :
    next (record { bytes = 1 ∷ 0 ∷ 0 ∷ 0 ∷ 255 ∷ 0 ∷ 0 ∷ 0 ∷ []; ending = eof })
    ≡ too_large 4278190080
unfolding next read_header
large_refused = refl
