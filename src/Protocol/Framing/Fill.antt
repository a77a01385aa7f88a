-- ===== src/Protocol/Framing/Fill.antt =====
-- `read_exact_or_eof` reads the bytes of the stream, however they arrive.
use magazine_core.Base.{
  ℕ, zero, suc, ◌+◌, ◌-◌, ◌≤◌, ◌<◌, ◌≡◌, refl, ap, sym, ◌∙◌, List, [], ◌∷◌, ◌++◌, append_assoc,
  append-nil, arith, leb, length, length-append, take, drop, append_split, take-append_length,
  drop-append_length, Result, ok, err, Bool-cases, inl, inr, leb→le, leb_false→lt,
}
use magazine_core.Protocol.Framing.{
  bytes, interrupted, failed, Reader, put_back, ended, fill, FrameError,
}

-- The bytes that are still to come.
unfoldable pub stream : Reader → List ℕ
stream [] = []
stream (bytes bs ∷ r) = bs ++ stream r
stream (interrupted ∷ r) = stream r
stream (failed e ∷ r) = stream r

-- Every read until the end of the stream gives bytes or is interrupted.
abbrev pub IsHealthy : Reader → Type 0
IsHealthy [] = Unit
IsHealthy (bytes [] ∷ r) = ⊥
IsHealthy (bytes (_ ∷ _) ∷ r) = IsHealthy r
IsHealthy (interrupted ∷ r) = IsHealthy r
IsHealthy (failed e ∷ r) = ⊥

put_back_lem :
    (bs : List ℕ) (r : Reader)
    → IsHealthy r
    → IsHealthy (put_back bs r) × (stream (put_back bs r) ≡ bs ++ stream r)
unfolding put_back stream
put_back_lem [] r h = (h, refl)
put_back_lem (b ∷ bs) r h = (h, refl)

-- What a read of `need` more bytes gives, if the stream still has them.
abbrev pub Reads : List ℕ → List ℕ → Result FrameError (List ℕ × Reader) → Type 0
Reads front back res = (r : Reader) × (res ≡ ok (front, r)) × IsHealthy r × (stream r ≡ back)

-- A read that takes all that is available, and goes on.
fill_more :
    (front got back : List ℕ) (b : ℕ) (bs : List ℕ) (r : Reader) (x : ℕ)
    → stream (bytes (b ∷ bs) ∷ r) ≡ (x ∷ front) ++ back
    → length bs ≤ length front
    → ((mid : List ℕ)
        → stream r ≡ mid ++ back
        → Reads ((got ++ b ∷ bs) ++ mid) back (fill (length mid) (got ++ b ∷ bs) r))
    → Reads (got ++ x ∷ front) back (fill (length (x ∷ front)) got (bytes (b ∷ bs) ∷ r))
unfolding fill stream
fill_more front got back b bs r x e h next =
    let (mid, p, q) = append_split (b ∷ bs) (stream r) (x ∷ front) back e (omega arith) in
    let (r', e', healthy, rest) = next mid q in
    let len : length front - length bs ≡ length mid =
      omega (arith, ap length p, length-append (b ∷ bs) mid) in
    (r', ground (arith, len, e', append_assoc got (b ∷ bs) mid, p), healthy, rest)

-- A read that fills the buffer and leaves some of what is available.
fill_last :
    (front got back : List ℕ) (b : ℕ) (bs : List ℕ) (r : Reader) (x : ℕ)
    → IsHealthy r
    → stream (bytes (b ∷ bs) ∷ r) ≡ (x ∷ front) ++ back
    → length front < length bs
    → Reads (got ++ x ∷ front) back (fill (length (x ∷ front)) got (bytes (b ∷ bs) ∷ r))
unfolding fill stream
fill_last front got back b bs r x healthy e h =
    let (mid, p, q) = append_split (x ∷ front) back (b ∷ bs) (stream r) (sym e) (omega arith) in
    let cut : bs ≡ front ++ mid = cc in
    let taken : take (length front) bs ≡ front =
      ap (take (length front)) cut ∙ take-append_length front mid in
    let left : drop (length front) bs ≡ mid =
      ap (drop (length front)) cut ∙ drop-append_length front mid in
    let (healthy', rest) = put_back_lem mid r healthy in
    (put_back mid r, ground (arith, taken, left), healthy', rest ∙ sym q)

-- However the bytes arrive, a read of as many as the stream still has gives just these, and
-- leaves the others.
pub fill-Reads :
    (front got back : List ℕ) (r : Reader)
    → IsHealthy r
    → stream r ≡ front ++ back
    → Reads (got ++ front) back (fill (length front) got r)
unfolding fill stream
fill-Reads [] got back r h e = (r, rw (append-nil got), h, e)
fill-Reads (x ∷ front) got back [] h e = absurd (cc)
fill-Reads (x ∷ front) got back (bytes [] ∷ r) h e = elim h [ ]
fill-Reads (x ∷ front) got back (failed _ ∷ r) h e = elim h [ ]
fill-Reads (x ∷ front) got back (bytes (b ∷ bs) ∷ r) h e =
    elim (Bool-cases (leb (length bs) (length front))) [
      | inl more ↦
          fill_more front got back b bs r x e (leb→le _ _ more)
            (λ mid q. fill-Reads mid (got ++ b ∷ bs) back r h q)
      | inr last ↦ fill_last front got back b bs r x h e (leb_false→lt _ _ last)
    ]
fill-Reads (x ∷ front) got back (interrupted ∷ r) h e = fill-Reads (x ∷ front) got back r h e

-- A stream that ends early gives an error, which says whether any byte was read.
pub fill_short :
    (need : ℕ) (got : List ℕ) (r : Reader)
    → IsHealthy r
    → length (stream r) < need
    → fill need got r ≡ err (ended (length got + length (stream r)))
unfolding fill stream
fill_short zero got r h k = absurd (omega arith)
fill_short (suc need) got [] h k = ground arith
fill_short (suc need) got (bytes [] ∷ r) h k = elim h [ ]
fill_short (suc need) got (failed _ ∷ r) h k = elim h [ ]
fill_short (suc need) got (interrupted ∷ r) h k = fill_short (suc need) got r h k
fill_short (suc need) got (bytes (b ∷ bs) ∷ r) h k = ground (
  arith,
  length-append (b ∷ bs) (stream r),
  length-append got (b ∷ bs),
  fill_short (need - length bs) (got ++ b ∷ bs) r h
      (omega (arith, length-append (b ∷ bs) (stream r))),
)
