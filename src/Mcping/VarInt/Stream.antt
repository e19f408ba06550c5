-- ===== src/Mcping/VarInt/Stream.antt =====
-- readVarInt on any reader does what it does on the stream of bytes that the reader has left,
-- however the network cut that stream.
use mcmon.Prelude.{
  ℕ, zero, suc, ◌+◌, ◌*◌, ◌≡◌, refl, bit_and, bit_or, Bool, true, false, ltb, ◌==◌, if◌then◌else◌,
  List, ◌∙◌,
}
use mcmon.Mcping.Result.{Result, ok, err, Error, Exec, continue}
use mcmon.Mcping.Reader.{ByteReader, next_byte}
use mcmon.Mcping.VarInt.{shl32, read_loop, read_var_int}

-- A reader that is its stream: the bytes, and the error that ends them.
pub record Stream : Type 0 where
  pub bytes : List ℕ
  pub ending : Error

instance abbrev pub stream_byte_reader : ByteReader Stream
stream_byte_reader = record {
  read_byte = λ s. let (b, bs) = next_byte s.ending s.bytes in (b, record s { bytes = bs });
  left = λ s. s.bytes;
  closing = λ s. s.ending;
  result-read_byte = λ s. refl;
  left-read_byte = λ s. refl;
  closing-read_byte = λ s. refl;
}

module _ {R : Type 0} ⦃reader : ByteReader R⦄ where
  abbrev pub stream_of : R → Stream
  stream_of r = record { bytes = reader.left r; ending = reader.closing r }

  -- Two outcomes give one result, and leave one stream.
  pub record SameOutcome {A : Type 0} (p : Result A × R) (q : Result A × Stream) : Type 0 where
    pub result : p.0 ≡ q.0
    pub stream : stream_of p.1 ≡ q.1

module _ {R : Type 0} ⦃reader : ByteReader R⦄ where
  SameOutcome-read_byte :
      (r : R) → SameOutcome (reader.read_byte r) (stream_byte_reader.read_byte (stream_of r))
  SameOutcome-read_byte r = record {
    result = reader.result-read_byte r;
    stream =
        λ i. record { bytes = reader.left-read_byte r i; ending = reader.closing-read_byte r i };
  }

  SameOutcome-continue :
      {A B : Type 0} (x y : Result A) (f : A → Exec R B) (g : A → Exec Stream B) (r : R)
      (s : Stream)
      → ((a : A) → SameOutcome (f a r) (g a (stream_of r)))
      → x ≡ y
      → stream_of r ≡ s
      → SameOutcome (continue x f r) (continue y g s)
  SameOutcome-continue (ok a) y f g r s h e p = rw (← e, ← p) (h a)
  SameOutcome-continue (err a) y f g r s h e p =
      rw (← e, ← p) (record { result = refl; stream = refl })

  SameOutcome-if :
      {A : Type 0} (b : Bool) (f f' : Exec R A) (g g' : Exec Stream A) (r : R)
      → SameOutcome (f r) (g (stream_of r))
      → SameOutcome (f' r) (g' (stream_of r))
      → SameOutcome ((if b then f else f') r) ((if b then g else g') (stream_of r))
  SameOutcome-if true f f' g g' r h h' = h
  SameOutcome-if false f f' g g' r h h' = h'

  read_loop-SameOutcome :
      (fuel result num_read : ℕ) (r : R)
      → SameOutcome
          (read_loop fuel result num_read r)
          (read_loop fuel result num_read (stream_of r))
  unfolding read_loop
  read_loop-SameOutcome zero result num_read r = record { result = refl; stream = refl }
  read_loop-SameOutcome (suc fuel) result num_read r =
      SameOutcome-continue _ _ _ _ _ _
        (λ b.
          SameOutcome-if (ltb 5 (num_read + 1)) _ _ _ _ _ (record { result = refl; stream = refl })
            (SameOutcome-if (bit_and b 0x80 == 0) _ _ _ _ _
              (record { result = refl; stream = refl })
              (read_loop-SameOutcome fuel (bit_or result (shl32 (bit_and b 0x7f) (7 * num_read)))
                (num_read + 1) (reader.read_byte r).1)))
        (SameOutcome-read_byte r).result (SameOutcome-read_byte r).stream

  -- readVarInt depends on a reader only through the bytes it has left and the error behind them, and
  -- leaves the reader with what readVarInt on that stream leaves.
  pub read_var_int-SameOutcome : (r : R) → SameOutcome (read_var_int r) (read_var_int (stream_of r))
  unfolding read_var_int
  read_var_int-SameOutcome r = read_loop-SameOutcome 6 0 0 r

  closing-continue :
      {A B : Type 0} (x : Result A) (f : A → Exec R B) (r : R)
      → ((a : A) → reader.closing (f a r).1 ≡ reader.closing r)
      → reader.closing (continue x f r).1 ≡ reader.closing r
  closing-continue (ok a) f r h = h a
  closing-continue (err e) f r h = refl

  closing-if :
      {A : Type 0} (b : Bool) (f g : Exec R A) (r : R)
      → reader.closing (f r).1 ≡ reader.closing r
      → reader.closing (g r).1 ≡ reader.closing r
      → reader.closing ((if b then f else g) r).1 ≡ reader.closing r
  closing-if true f g r h k = h
  closing-if false f g r h k = k

  closing-read_loop :
      (fuel result num_read : ℕ) (r : R)
      → reader.closing (read_loop fuel result num_read r).1 ≡ reader.closing r
  unfolding read_loop
  closing-read_loop zero result num_read r = refl
  closing-read_loop (suc fuel) result num_read r =
      closing-continue (reader.read_byte r).0 _ (reader.read_byte r).1 (λ b.
        closing-if (ltb 5 (num_read + 1)) _ _ (reader.read_byte r).1 refl (
          closing-if (bit_and b 0x80 == 0) _ _ (reader.read_byte r).1 refl (
            closing-read_loop fuel (bit_or result (shl32 (bit_and b 0x7f) (7 * num_read)))
              (num_read + 1) (reader.read_byte r).1)))
      ∙ reader.closing-read_byte r

  -- Reading a varint changes nothing about how the stream will end.
  pub closing-read_var_int : (r : R) → reader.closing (read_var_int r).1 ≡ reader.closing r
  unfolding read_var_int
  closing-read_var_int r = closing-read_loop 6 0 0 r
