-- ===== src/Protocol/Framing.antt =====
-- crates/mh-protocol/src/framing.rs: the frame codec over a byte stream.
--
-- A reader is the list of what its `read` calls will meet: bytes that are available together, an
-- interruption or a failure; when the list is used up the stream has ended. A `read` takes as many
-- of the available bytes as fit, and leaves the others.
pub mod Fill
pub mod RoundTrip
use magazine_core.Base.{
  ℕ, zero, suc, ◌+◌, ◌-◌, ◌*◌, ◌/◌, ◌%◌, Bool, List, [], ◌∷◌, ◌++◌, Option, none, some, leb, ltb,
  ◌==◌, if◌then◌else◌, length, take, drop, Result, ok, err, ok_or, ◌>>=◌, ◌>>◌, guard,
}
use magazine_core.Text.{Text}
use magazine_core.Text.Utf8.{as_bytes, from_utf8}

abbrev pub max_frame : ℕ
max_frame = 8 * 1024 * 1024

-- `FrameError`; an I/O error is told apart by a number.
pub data FrameError : Type 0 where
  eof truncated utf8 : FrameError
  too_large io : ℕ → FrameError

pub data Event : Type 0 where
  bytes : List ℕ → Event
  interrupted : Event
  failed : ℕ → Event

abbrev pub Reader : Type 0
Reader = List Event

-- What is left of the available bytes, back at the head of the stream.
unfoldable pub put_back : List ℕ → Reader → Reader
put_back [] r = r
put_back (b ∷ bs) r = bytes (b ∷ bs) ∷ r

-- The end of the stream after `filled` bytes.
abbrev pub ended : ℕ → FrameError
ended filled = if filled == 0 then eof else truncated

-- The loop of `read_exact_or_eof`: `got` is the filled part of the buffer, `need` what is missing.
unfoldable pub fill : ℕ → List ℕ → Reader → Result FrameError (List ℕ × Reader)
unfolding put_back
fill zero got r = ok (got, r)
fill (suc need) got [] = err (ended (length got))
fill (suc need) got (bytes [] ∷ r) = err (ended (length got))
fill (suc need) got (bytes (b ∷ bs) ∷ r) =
    let left = need - length bs in
    let more = fill left (got ++ b ∷ bs) r in
    if leb (length bs) need then more else ok (got ++ b ∷ take need bs, put_back (drop need bs) r)
fill (suc need) got (interrupted ∷ r) = fill (suc need) got r
fill (suc need) got (failed e ∷ r) = err (io e)

unfoldable pub read_exact_or_eof : ℕ → Reader → Result FrameError (List ℕ × Reader)
read_exact_or_eof n = fill n []

-- `u32::to_be_bytes` after `as u32`.
unfoldable pub to_be_bytes : ℕ → List ℕ
to_be_bytes n = (n / 16777216 % 256) ∷ (n / 65536 % 256) ∷ (n / 256 % 256) ∷ (n % 256) ∷ []

-- `u32::from_be_bytes`.
unfoldable pub from_be_bytes : List ℕ → ℕ
from_be_bytes (a ∷ b ∷ c ∷ d ∷ _) = a * 16777216 + b * 65536 + c * 256 + d
from_be_bytes _ = 0

unfoldable pub read_frame : Reader → Result FrameError (Text × Reader)
read_frame r = do
  (len_buf, r') ← read_exact_or_eof 4 r
  let len = from_be_bytes len_buf
  guard (leb len max_frame) (too_large len)
  (buf, r'') ← read_exact_or_eof len r'
  payload ← ok_or (from_utf8 buf) utf8
  ok (payload, r'')

-- A writer: what it has taken, the bytes that it still takes before it fails (`none`: it never
-- does), and the error that it then gives.
pub record Writer : Type 0 where
  pub output : List ℕ
  pub room : Option ℕ
  pub error : ℕ

-- `write_all` on such a writer; what fits is written before it fails.
unfoldable pub write_all : List ℕ → Writer → Result ℕ (Unit {0}) × Writer
write_all bs w = elim w.room [
  | none ↦ (ok tt, record w { output = w.output ++ bs })
  | some k ↦
      if leb (length bs) k
      then (ok tt, record w { output = w.output ++ bs; room = some (k - length bs) })
      else (err w.error, record w { output = w.output ++ take k bs; room = some 0 })
]

-- Write one part, then go on if that worked.
abbrev pub then_write :
    Result ℕ (Unit {0}) × Writer
    → (Writer → Result FrameError (Unit {0}) × Writer)
    → Result FrameError (Unit {0}) × Writer
then_write (ok _, w) k = k w
then_write (err e, w) k = (err (io e), w)

-- The writers of the program have nothing left to flush.
unfoldable pub write_frame : Text → Writer → Result FrameError (Unit {0}) × Writer
write_frame payload w =
    let bs = as_bytes payload in
    if ltb max_frame (length bs)
    then (err (too_large (length bs)), w)
    else then_write (write_all (to_be_bytes (length bs)) w)
        λ w'. then_write (write_all bs w') λ w''. (ok tt, w'')
