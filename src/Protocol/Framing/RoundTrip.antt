-- ===== src/Protocol/Framing/RoundTrip.antt =====
-- What `read_frame` makes of the frames that `write_frame` writes, and of streams that end early.
use magazine_core.Base.{
  ℕ, ◌+◌, ◌-◌, ◌^◌, ◌≤◌, ◌<◌, ◌≡◌, refl, ap, ◌∙◌, List, [], ◌∷◌, ◌++◌, append_assoc, arith, leb,
  ltb, length, length-append, ok, err, true, none, some, All, ◌||◌, if◌then◌else◌, ◌==◌,
  append_split,
}
use magazine_core.Text.{Text}
use magazine_core.Text.Utf8.{is_scalar, as_bytes, from_utf8}
use magazine_core.Text.Utf8.RoundTrip.{from_utf8-as_bytes}
use magazine_core.Protocol.Framing.{
  max_frame, eof, truncated, too_large, io, Reader, ended, read_exact_or_eof, to_be_bytes,
  from_be_bytes, read_frame, Writer, write_all, write_frame,
}
use magazine_core.Protocol.Framing.Fill.{stream, IsHealthy, Reads, fill-Reads, fill_short}

-- A Rust text holds Unicode scalar values only.
abbrev pub IsText : Text → Type 0
IsText = All (λ c. is_scalar c ≡ true)

pub from_be_bytes-to_be_bytes : (n : ℕ) → n < 2 ^ 32 → from_be_bytes (to_be_bytes n) ≡ n
unfolding from_be_bytes to_be_bytes
from_be_bytes-to_be_bytes n h = omega arith

-- The bytes of one frame.
unfoldable pub frame : List ℕ → List ℕ
frame body = to_be_bytes (length body) ++ body

length-to_be_bytes : (n : ℕ) → length (to_be_bytes n) ≡ 4
unfolding to_be_bytes
length-to_be_bytes n = refl

-- A read of as many bytes as the first part of the stream has.
read_exact_or_eof-Reads :
    (n : ℕ) (front back : List ℕ) (r : Reader)
    → length front ≡ n
    → IsHealthy r
    → stream r ≡ front ++ back
    → Reads front back (read_exact_or_eof n r)
unfolding read_exact_or_eof
read_exact_or_eof-Reads n front back r e h p = rw (← e) (fill-Reads front [] back r h p)

-- A read of more bytes than the stream has.
read_exact_or_eof_short :
    (n : ℕ) (r : Reader)
    → IsHealthy r
    → length (stream r) < n
    → read_exact_or_eof n r ≡ err (ended (length (stream r)))
unfolding read_exact_or_eof
read_exact_or_eof_short n r healthy h = ground (arith, fill_short n [] r healthy h)

-- `read_frame`, given what its two reads find.
read_frame_step :
    (r r' r'' : Reader) (head body : List ℕ) (s : Text)
    → read_exact_or_eof 4 r ≡ ok (head, r')
    → from_be_bytes head ≤ max_frame
    → read_exact_or_eof (from_be_bytes head) r' ≡ ok (body, r'')
    → from_utf8 body ≡ some s
    → read_frame r ≡ ok (s, r'')
unfolding read_frame
read_frame_step r r' r'' head body s e h e' u = ground (arith, e, e', u)

pub read_frame-frame :
    (s : Text) (rest : List ℕ) (r : Reader)
    → IsText s
    → length (as_bytes s) ≤ max_frame
    → IsHealthy r
    → stream r ≡ frame (as_bytes s) ++ rest
    → (r' : Reader) × (read_frame r ≡ ok (s, r')) × IsHealthy r' × (stream r' ≡ rest)
unfolding frame
read_frame-frame s rest r t h healthy e =
    let body = as_bytes s in
    let n = length body in
    let (r', e1, h1, s1) =
      read_exact_or_eof-Reads 4 (to_be_bytes n) (body ++ rest) r (length-to_be_bytes n) healthy
        (e ∙ append_assoc (to_be_bytes n) body rest) in
    let len : from_be_bytes (to_be_bytes n) ≡ n = from_be_bytes-to_be_bytes n (omega arith) in
    let (r'', e2, h2, s2) = read_exact_or_eof-Reads n body rest r' refl h1 s1 in
    (
      r'',
      read_frame_step r r' r'' (to_be_bytes n) body s e1 (omega (arith, len))
          (ap (λ k. read_exact_or_eof k r') len ∙ e2) (from_utf8-as_bytes s t),
      h2,
      s2,
    )

-- What a successful `write_frame` has appended.
pub write_frame-output :
    (s : Text) (w : Writer) {w' : Writer}
    → write_frame s w ≡ (ok tt, w')
    → (w'.output ≡ w.output ++ frame (as_bytes s)) × (length (as_bytes s) ≤ max_frame)
unfolding write_frame write_all frame
write_frame-output s w e =
    ground (arith, append_assoc w.output (to_be_bytes (length (as_bytes s))) (as_bytes s))

-- A frame that was written to an empty output is read back as the same payload, however the bytes
-- arrive, with what follows it left in the stream.
pub read_frame-write_frame :
    (s : Text) (w w' : Writer) (rest : List ℕ) (r : Reader)
    → IsText s
    → w.output ≡ []
    → write_frame s w ≡ (ok tt, w')
    → IsHealthy r
    → stream r ≡ w'.output ++ rest
    → (r' : Reader) × (read_frame r ≡ ok (s, r')) × IsHealthy r' × (stream r' ≡ rest)
read_frame-write_frame s w w' rest r t start e healthy arrives =
    let (out, small) = write_frame-output s w e in
    let sent : w'.output ≡ frame (as_bytes s) = out ∙ ap (λ o. o ++ frame (as_bytes s)) start in
    read_frame-frame s rest r t small healthy (arrives ∙ ap (λ o. o ++ rest) sent)

-- A stream that ends within its length prefix, or before it.
pub read_frame_no_prefix :
    (r : Reader)
    → IsHealthy r
    → length (stream r) < 4
    → read_frame r ≡ err (ended (length (stream r)))
unfolding read_frame
read_frame_no_prefix r healthy h = ground (arith, read_exact_or_eof_short 4 r healthy h)

-- A stream that ends within the body.
read_frame_short_body :
    (n : ℕ) (part : List ℕ) (r : Reader)
    → n ≤ max_frame
    → IsHealthy r
    → stream r ≡ to_be_bytes n ++ part
    → length part < n
    → read_frame r ≡ err (ended (length part))
unfolding read_frame
read_frame_short_body n part r small healthy e short =
    let (r', e1, h1, s1) =
      read_exact_or_eof-Reads 4 (to_be_bytes n) part r (length-to_be_bytes n) healthy e in
    let len : from_be_bytes (to_be_bytes n) ≡ n = from_be_bytes-to_be_bytes n (omega arith) in
    let lengths : length (stream r') ≡ length part = ap length s1 in
    let body : read_exact_or_eof n r' ≡ err (ended (length part)) =
      read_exact_or_eof_short n r' h1 (omega (arith, lengths)) ∙ ap (λ k. err (ended k)) lengths in
    ground (arith, e1, len, body)

-- The end of a stream behind a whole prefix.
read_frame_cut_body :
    (body front back : List ℕ) (x : ℕ) (r : Reader)
    → length body ≤ max_frame
    → IsHealthy r
    → stream r ≡ front
    → frame body ≡ front ++ x ∷ back
    → 4 ≤ length front
    → read_frame r ≡ err (ended (length front - 4))
unfolding frame
read_frame_cut_body body front back x r small healthy e cut long =
    let n = length body in
    let (part, p, q) =
      append_split (to_be_bytes n) body front (x ∷ back) cut
        (omega (arith, length-to_be_bytes n)) in
    let size : length front ≡ 4 + length part =
      omega (arith, ap length p, length-append (to_be_bytes n) part, length-to_be_bytes n) in
    let short : length part < n = omega (arith, ap length q, length-append part (x ∷ back)) in
    read_frame_short_body n part r small healthy (e ∙ p) short
    ∙ ap (λ k. err (ended k)) (omega (arith, size))

-- A stream that ends inside a frame is an error: `truncated`, but `eof` where it ends before the
-- frame or right behind the length prefix.
pub read_frame_cut :
    (body front back : List ℕ) (x : ℕ) (r : Reader)
    → length body ≤ max_frame
    → IsHealthy r
    → stream r ≡ front
    → frame body ≡ front ++ x ∷ back
    → read_frame r ≡ err (if length front == 0 || length front == 4 then eof else truncated)
read_frame_cut body front back x r small healthy e cut = ground (
  arith,
  ap length e,
  read_frame_no_prefix r healthy,
  read_frame_cut_body body front back x r small healthy e cut,
)

-- A prefix above the limit is refused before any of the body is read.
read_frame_too_large :
    (n : ℕ) (rest : List ℕ) (r : Reader)
    → max_frame < n
    → n < 2 ^ 32
    → IsHealthy r
    → stream r ≡ to_be_bytes n ++ rest
    → read_frame r ≡ err (too_large n)
unfolding read_frame
read_frame_too_large n rest r big fits healthy e =
    let (r', e1, h1, s1) =
      read_exact_or_eof-Reads 4 (to_be_bytes n) rest r (length-to_be_bytes n) healthy e in
    ground (arith, e1, from_be_bytes-to_be_bytes n fits)

-- What `write_frame` returns: a text of more than `max_frame` bytes is refused; otherwise the
-- writer decides, and it has to have room for the prefix and the text.
write_frame_result :
    (s : Text) (w : Writer)
    → (write_frame s w).0 ≡ (
        let n = length (as_bytes s) in
        if ltb max_frame n then err (too_large n) else elim w.room [
          | none ↦ ok tt
          | some k ↦ if leb (4 + n) k then ok tt else err (io w.error)
        ])
unfolding write_frame write_all to_be_bytes
write_frame_result s w = ground arith
