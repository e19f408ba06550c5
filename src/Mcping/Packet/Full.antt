-- ===== src/Mcping/Packet/Full.antt =====
-- readFull and readFullReader read exactly the bytes asked for, or fail.
use mcmon.Prelude.{
  ℕ, zero, suc, ◌+◌, ◌-◌, ◌≤◌, ◌<◌, ◌≡◌, refl, sym, ap, ◌∙◌, ◌⊎◌, inl, inr, none, some, List, [],
  ◌∷◌, ◌++◌, append-nil, append_assoc, arith, lt→ltb, length, length-append, take_seam, drop_seam,
  take_all, drop_all, le→ltb,
}
use mcmon.Mcping.Result.{Result, ok, err, Error, eof}
use mcmon.Mcping.Reader.{BytesReader, BufioReader, read_bufio, pending}
use mcmon.Mcping.Reader.Once.{ended, took, read_bufio_cases, failure-read_bufio}
use mcmon.Mcping.Packet.{read_full, read_full_reader_loop, read_full_reader}

-- A list that begins in two ways.
shared_prefix :
    (c p d rest : List ℕ)
    → c ++ p ≡ d ++ rest
    → length c ≤ length d
    → (d' : List ℕ) × (d ≡ c ++ d') × (p ≡ d' ++ rest)
shared_prefix [] p d rest e h = (d, refl, e)
shared_prefix (x ∷ c) p [] rest e h = absurd (omega arith)
shared_prefix (x ∷ c) p (y ∷ d) rest e h =
    let (d', front, back) = shared_prefix c p d rest (ground arith) (omega arith) in
    (d', ground arith, back)

-- `p` is the outcome of a read from `r` that gives `d` and leaves `rest`.
pub record Gives (d rest : List ℕ) (r : BufioReader) (p : Result (List ℕ) × BufioReader)
    : Type 0 where
  pub result : p.0 ≡ ok d
  pub left : pending p.1 ≡ rest
  pub closing : p.1.failure ≡ r.failure

module _ (fuel len : ℕ) (got : List ℕ) (r : BufioReader) where
  loop_full : length got ≡ len → read_full_reader_loop (suc fuel) len got r ≡ (ok got, r)
  unfolding read_full_reader_loop
  loop_full h = ground arith

  loop_more :
      (c : List ℕ)
      → length got < len
      → (read_bufio (len - length got) r).0 ≡ record { stored = c; error = none }
      → read_full_reader_loop (suc fuel) len got r
        ≡ read_full_reader_loop fuel len (got ++ c) (read_bufio (len - length got) r).1
  unfolding read_full_reader_loop
  loop_more c h e = rw (lt→ltb (length got) len h, ap (λ k. k.error) e, ap (λ k. k.stored) e)

  loop_ended :
      (e : Error)
      → length got < len
      → (read_bufio (len - length got) r).0 ≡ record { stored = []; error = some e }
      → read_full_reader_loop (suc fuel) len got r ≡ (err e, (read_bufio (len - length got) r).1)
  unfolding read_full_reader_loop
  loop_ended e h p = rw (lt→ltb (length got) len h, p)

read_full_reader_loop-Gives :
    (fuel len : ℕ) (got d rest : List ℕ) (r : BufioReader)
    → len - length got < fuel
    → pending r ≡ d ++ rest
    → length got + length d ≡ len
    → Gives (got ++ d) rest r (read_full_reader_loop fuel len got r)
read_full_reader_loop-Gives zero len got d rest r hf e hl = elim hf [ ]
read_full_reader_loop-Gives (suc fuel) len got [] rest r hf e hl =
    rw (loop_full fuel len got r (omega arith), append-nil)
      (record { result = refl; left = e; closing = refl })
read_full_reader_loop-Gives (suc fuel) len got (x ∷ d) rest r hf e hl =
    elim (read_bufio_cases (len - length got) r (omega arith)) [
      | ended p q s ↦ cc (p, e)
      | took c p q lo hi ↦
          let r' = (read_bufio (len - length got) r).1 in
          let (d', front, back) =
            shared_prefix c (pending r') (x ∷ d) rest (sym q ∙ e) (omega arith) in
          let lengths : suc (length d) ≡ length c + length d' =
            ap length front ∙ length-append c d' in
          let rec =
            read_full_reader_loop-Gives fuel len (got ++ c) d' rest r'
              (omega (arith, length-append got c)) back (omega (arith, length-append got c)) in
          rw (loop_more fuel len got r c (omega arith) p, front, ← append_assoc)
            (record {
              result = rec.result;
              left = rec.left;
              closing = rec.closing ∙ failure-read_bufio (len - length got) r;
            })
    ]

-- `p` is the outcome of a read from `r` that meets the end of the stream.
pub record RunsOut (r : BufioReader) (p : Result (List ℕ) × BufioReader) : Type 0 where
  pub result : p.0 ≡ err r.failure
  pub left : pending p.1 ≡ []
  pub closing : p.1.failure ≡ r.failure

read_full_reader_loop-RunsOut :
    (fuel len : ℕ) (got : List ℕ) (r : BufioReader)
    → len - length got < fuel
    → length got + length (pending r) < len
    → RunsOut r (read_full_reader_loop fuel len got r)
read_full_reader_loop-RunsOut zero len got r hf h = elim hf [ ]
read_full_reader_loop-RunsOut (suc fuel) len got r hf h =
    elim (read_bufio_cases (len - length got) r (omega arith)) [
      | ended p q s ↦
          rw (loop_ended fuel len got r r.failure (omega arith) q)
            (record { result = refl; left = s; closing = failure-read_bufio (len - length got) r })
      | took c p q lo hi ↦
          let r' = (read_bufio (len - length got) r).1 in
          let lengths : length (pending r) ≡ length c + length (pending r') =
            ap length q ∙ length-append c (pending r') in
          let rec =
            read_full_reader_loop-RunsOut fuel len (got ++ c) r'
              (omega (arith, length-append got c)) (omega (arith, length-append got c)) in
          rw (loop_more fuel len got r c (omega arith) p) (record {
            result = rec.result ∙ ap err (failure-read_bufio (len - length got) r);
            left = rec.left;
            closing = rec.closing ∙ failure-read_bufio (len - length got) r;
          })
    ]

module _ (r : BufioReader) where
  -- Where the connection still gives `d` and then `rest`, readFullReader into a buffer as long as `d`
  -- fills it with `d` and leaves `rest`, however the bytes are cut into segments.
  pub read_full_reader-Gives :
      (len : ℕ) (d rest : List ℕ)
      → pending r ≡ d ++ rest
      → length d ≡ len
      → Gives d rest r (read_full_reader len r)
  unfolding read_full_reader
  read_full_reader-Gives len d rest e h =
      read_full_reader_loop-Gives (suc len) len [] d rest r (omega arith) e (omega arith)

  -- Where fewer bytes are left than the buffer holds, readFullReader fails with the connection's own
  -- error.
  pub read_full_reader-RunsOut :
      (len : ℕ) → length (pending r) < len → RunsOut r (read_full_reader len r)
  unfolding read_full_reader
  read_full_reader-RunsOut len h =
      read_full_reader_loop-RunsOut (suc len) len [] r (omega arith) (omega arith)

-- readFull on a slice that begins with `d`, with `d` or what follows it not empty.
pub read_full-exact :
    (len : ℕ) (d rest : BytesReader)
    → length d ≡ len
    → 0 < length (d ++ rest)
    → read_full len (d ++ rest) ≡ (ok d, rest)
unfolding read_full
read_full-exact len [] [] h k = absurd (omega arith)
read_full-exact len [] (x ∷ rest) h k = rw (
  take_seam len [] (x ∷ rest) (sym h),
  drop_seam len [] (x ∷ rest) (sym h),
  le→ltb 0 len (omega arith),
)
read_full-exact len (x ∷ d) rest h k = rw (
  take_seam len (x ∷ d) rest (sym h),
  drop_seam len (x ∷ d) rest (sym h),
  le→ltb (suc (length d)) len (omega arith),
)

-- A slice that is too short, or empty, ends with io.EOF.
pub read_full-short :
    (len : ℕ) (r : BytesReader) → (length r < len) ⊎ (r ≡ []) → (read_full len r).0 ≡ err eof
unfolding read_full
read_full-short len [] h = refl
read_full-short len (x ∷ r) (inr h) = cc
read_full-short len (x ∷ r) (inl h) = rw (
  take_all len (x ∷ r) (omega arith),
  drop_all len (x ∷ r) (omega arith),
  lt→ltb (suc (length r)) len h,
)
