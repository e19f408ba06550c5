-- ===== src/Mcping/Reader/Once.antt =====
-- What one `Read` of a bufio.Reader can give.
use mcmon.Prelude.{
  ℕ, ◌≤◌, ◌<◌, ◌≡◌, refl, sym, ap, ◌∙◌, none, some, List, [], ◌∷◌, ◌++◌, append_assoc, arith,
  length, take, drop, take-append-drop, length-take,
}
use mcmon.Mcping.Result.{Error}
use mcmon.Mcping.Reader.{BufioReader, Chunk, read_segments, read_bufio, joined, pending}

-- The end of the stream, or 1 to `m` bytes from its front.
data ReadSegments (m : ℕ) (e : Error) (segs : List (List ℕ)) (o : Chunk × List (List ℕ))
    : Type 0 where
  at_end :
      joined segs ≡ []
      → o.0 ≡ record { stored = []; error = some e }
      → joined o.1 ≡ []
      → ReadSegments m e segs o
  got_some :
      (c : List ℕ)
      → o.0 ≡ record { stored = c; error = none }
      → joined segs ≡ c ++ joined o.1
      → 0 < length c
      → length c ≤ m
      → ReadSegments m e segs o

read_segments_cases :
    (m : ℕ) (e : Error) (segs : List (List ℕ))
    → 0 < m
    → ReadSegments m e segs (read_segments m e segs)
unfolding read_segments
read_segments_cases m e [] h = at_end refl refl refl
read_segments_cases m e ([] ∷ segs) h = elim (read_segments_cases m e segs h) [
  | at_end p q r ↦ at_end p q r
  | got_some c p q lo hi ↦ got_some c p q lo hi
]
read_segments_cases m e ((b ∷ bs) ∷ segs) h =
    got_some (take m (b ∷ bs)) refl
      (ap (λ t. t ++ joined segs) (sym (take-append-drop m (b ∷ bs)))
        ∙ append_assoc (take m (b ∷ bs)) (drop m (b ∷ bs)) (joined segs))
      (omega (arith, length-take m (b ∷ bs))) (omega (arith, length-take m (b ∷ bs)))

pub data ReadOnce (m : ℕ) (r : BufioReader) (o : Chunk × BufioReader) : Type 0 where
  ended :
      pending r ≡ []
      → o.0 ≡ record { stored = []; error = some r.failure }
      → pending o.1 ≡ []
      → ReadOnce m r o
  took :
      (c : List ℕ)
      → o.0 ≡ record { stored = c; error = none }
      → pending r ≡ c ++ pending o.1
      → 0 < length c
      → length c ≤ m
      → ReadOnce m r o

pub read_bufio_cases : (m : ℕ) (r : BufioReader) → 0 < m → ReadOnce m r (read_bufio m r)
unfolding read_bufio
read_bufio_cases m r h = elim (read_segments_cases m r.failure r.segments h) [
  | at_end p q s ↦ ended p q s
  | got_some c p q lo hi ↦ took c p q lo hi
]

pub failure-read_bufio : (m : ℕ) (r : BufioReader) → (read_bufio m r).1.failure ≡ r.failure
unfolding read_bufio
failure-read_bufio m r = refl
