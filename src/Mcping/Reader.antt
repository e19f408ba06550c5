-- ===== src/Mcping/Reader.antt =====
-- The two readers of internal/mcping. A `bytes.Reader` holds what is left of a slice. A
-- `bufio.Reader` stands on a connection: the segments that the network will still hand over, as it
-- cuts them, and the error that follows the last.
pub mod Once
use mcmon.Prelude.{
  ℕ, suc, ◌≡◌, refl, Option, none, some, List, [], ◌∷◌, ◌++◌, take, drop, append_assoc, ap,
}
use mcmon.Mcping.Result.{Error, eof, Result, ok, err, Exec}

abbrev pub BytesReader : Type 0
BytesReader = List ℕ

pub record BufioReader : Type 0 where
  pub segments : List (List ℕ)
  pub failure : Error

-- `Read(p)` with `len(p) = n`: the bytes that it stored, and its error.
pub record Chunk : Type 0 where
  pub stored : List ℕ
  pub error : Option Error

unfoldable pub read_bytes : ℕ → BytesReader → Chunk × BytesReader
read_bytes n [] = (record { stored = []; error = some eof }, [])
read_bytes n (b ∷ bs) = (record { stored = take n (b ∷ bs); error = none }, drop n (b ∷ bs))

read_segments : ℕ → Error → List (List ℕ) → Chunk × List (List ℕ)
read_segments n e [] = (record { stored = []; error = some e }, [])
read_segments n e ([] ∷ segs) = read_segments n e segs
read_segments n e ((b ∷ bs) ∷ segs) =
    (record { stored = take n (b ∷ bs); error = none }, drop n (b ∷ bs) ∷ segs)

unfoldable pub read_bufio : ℕ → BufioReader → Chunk × BufioReader
unfolding read_segments
read_bufio n r =
    let (c, segs) = read_segments n r.failure r.segments in (c, record r { segments = segs })

-- All the bytes that the connection will still give.
abbrev pub joined : List (List ℕ) → List ℕ
joined [] = []
joined (s ∷ segs) = s ++ joined segs

abbrev pub pending : BufioReader → List ℕ
pending r = joined r.segments

-- The next byte of a stream, or the error that ends it.
abbrev pub next_byte : Error → List ℕ → Result ℕ × List ℕ
next_byte e [] = (err e, [])
next_byte e (b ∷ bs) = (ok b, bs)

first_of_segments : Error → List (List ℕ) → Result ℕ × List (List ℕ)
first_of_segments e [] = (err e, [])
first_of_segments e ([] ∷ segs) = first_of_segments e segs
first_of_segments e ((b ∷ bs) ∷ segs) = (ok b, bs ∷ segs)

unfoldable pub first_of_bufio : Exec BufioReader ℕ
unfolding first_of_segments
first_of_bufio r =
    let (b, segs) = first_of_segments r.failure r.segments in (b, record r { segments = segs })

-- `interface{ ReadByte() (byte, error) }`, with what its caller relies on: it reads the stream
-- that is left byte by byte, and then gives the error that ends the stream.
pub record ByteReader (R : Type 0) : Type 0 where
  pub read_byte : Exec R ℕ
  pub left : R → List ℕ
  pub closing : R → Error
  pub result-read_byte : (r : R) → (read_byte r).0 ≡ (next_byte (closing r) (left r)).0
  pub left-read_byte : (r : R) → left (read_byte r).1 ≡ (next_byte (closing r) (left r)).1
  pub closing-read_byte : (r : R) → closing (read_byte r).1 ≡ closing r

result-first_of_segments :
    (e : Error) (segs : List (List ℕ))
    → (first_of_segments e segs).0 ≡ (next_byte e (joined segs)).0
unfolding first_of_segments
result-first_of_segments e [] = refl
result-first_of_segments e ([] ∷ segs) = result-first_of_segments e segs
result-first_of_segments e ((b ∷ bs) ∷ segs) = refl

joined-first_of_segments :
    (e : Error) (segs : List (List ℕ))
    → joined (first_of_segments e segs).1 ≡ (next_byte e (joined segs)).1
unfolding first_of_segments
joined-first_of_segments e [] = refl
joined-first_of_segments e ([] ∷ segs) = joined-first_of_segments e segs
joined-first_of_segments e ((b ∷ bs) ∷ segs) = refl

pub result-first_of_bufio :
    (r : BufioReader) → (first_of_bufio r).0 ≡ (next_byte r.failure (pending r)).0
unfolding first_of_bufio
result-first_of_bufio r = result-first_of_segments r.failure r.segments

pub pending-first_of_bufio :
    (r : BufioReader) → pending (first_of_bufio r).1 ≡ (next_byte r.failure (pending r)).1
unfolding first_of_bufio
pending-first_of_bufio r = joined-first_of_segments r.failure r.segments

pub failure-first_of_bufio : (r : BufioReader) → (first_of_bufio r).1.failure ≡ r.failure
unfolding first_of_bufio
failure-first_of_bufio r = refl

instance abbrev pub bytes_byte_reader : ByteReader BytesReader
bytes_byte_reader = record {
  read_byte = next_byte eof;
  left = λ r. r;
  closing = λ r. eof;
  result-read_byte = λ r. refl;
  left-read_byte = λ r. refl;
  closing-read_byte = λ r. refl;
}

instance abbrev pub bufio_byte_reader : ByteReader BufioReader
bufio_byte_reader = record {
  read_byte = first_of_bufio;
  left = pending;
  closing = λ r. r.failure;
  result-read_byte = result-first_of_bufio;
  left-read_byte = pending-first_of_bufio;
  closing-read_byte = failure-first_of_bufio;
}
