-- ===== src/Tests/Wire.antt =====
-- Runs of crates/mh-protocol.
use magazine_core.Base.{◌≡◌, refl, [], ◌∷◌, ◌++◌, none, some, ok, err, arith}
use magazine_core.Text.{Text}
use magazine_core.Text.Utf8.{as_bytes, from_utf8}
use magazine_core.Text.Utf8.RoundTrip.{from_utf8-as_bytes}
use magazine_core.Protocol.Framing.{
  eof, bytes, interrupted, Reader, read_frame, Writer, write_frame, write_all, to_be_bytes,
}
use magazine_core.Protocol.Framing.Fill.{stream, IsHealthy}
use magazine_core.Protocol.Framing.RoundTrip.{IsText, frame, read_frame-write_frame, read_frame_cut}

-- `{"é":1}`.
abbrev payload : Text
payload = 123 ∷ 34 ∷ 233 ∷ 34 ∷ 58 ∷ 49 ∷ 125 ∷ []

payload-IsText : IsText payload
payload-IsText = (refl, (refl, (refl, (refl, (refl, (refl, (refl, tt)))))))

abbrev empty_writer : Writer
empty_writer = record { output = []; room = none; error = 5 }

abbrev written : Writer
written = (write_frame payload empty_writer).1

-- The frame in three parts, with an interruption.
abbrev in_parts : Reader
in_parts =
    bytes (0 ∷ 0 ∷ [])
    ∷ interrupted
    ∷ bytes (0 ∷ 8 ∷ 123 ∷ 34 ∷ 195 ∷ [])
    ∷ bytes (169 ∷ 34 ∷ 58 ∷ 49 ∷ 125 ∷ 7 ∷ [])
    ∷ []

written_ok : write_frame payload empty_writer ≡ (ok tt, written)
unfolding write_frame write_all as_bytes
written_ok = refl

in_parts-stream : stream in_parts ≡ written.output ++ 7 ∷ []
unfolding stream write_frame write_all to_be_bytes as_bytes
in_parts-stream = refl

read_frame-write_frame_example :
    (r' : Reader) × (read_frame in_parts ≡ ok (payload, r')) × IsHealthy r' × (stream r' ≡ 7 ∷ [])
read_frame-write_frame_example =
    read_frame-write_frame payload empty_writer written (7 ∷ []) in_parts payload-IsText refl
      written_ok tt in_parts-stream

-- The prefix of a body of two bytes, and no more.
abbrev prefix_only : Reader
prefix_only = bytes (0 ∷ 0 ∷ 0 ∷ 2 ∷ []) ∷ []

prefix_stream : stream prefix_only ≡ 0 ∷ 0 ∷ 0 ∷ 2 ∷ []
unfolding stream
prefix_stream = refl

two_bytes_cut : frame (65 ∷ 66 ∷ []) ≡ (0 ∷ 0 ∷ 0 ∷ 2 ∷ []) ++ 65 ∷ 66 ∷ []
unfolding frame to_be_bytes
two_bytes_cut = refl

read_frame_cut_example : read_frame prefix_only ≡ err eof
read_frame_cut_example =
    read_frame_cut (65 ∷ 66 ∷ []) (0 ∷ 0 ∷ 0 ∷ 2 ∷ []) (66 ∷ []) 65 prefix_only (omega arith) tt
      prefix_stream two_bytes_cut

abbrev oversized : Reader
oversized = bytes (255 ∷ 255 ∷ 255 ∷ 255 ∷ []) ∷ []

oversized-stream : stream oversized ≡ to_be_bytes 4294967295 ++ []
unfolding stream to_be_bytes
oversized-stream = refl

abbrev full_writer : Writer
full_writer = record { output = []; room = some 6; error = 5 }

from_utf8-as_bytes_example : from_utf8 (as_bytes payload) ≡ some payload
from_utf8-as_bytes_example = from_utf8-as_bytes payload payload-IsText
