-- ===== src/Mcping/Packet.antt =====
-- readFull, readFullReader, the packet of writePacket, and readPacket of internal/mcping/mcping.go.
-- `make([]byte, n)` has no definition: a buffer is the bytes that were read into it.
pub mod Full
pub mod RoundTrip
pub mod Segments
pub mod Ends
use mcmon.Prelude.{
  ℕ, zero, suc, ◌+◌, ◌-◌, ℤ, pos, Option, none, some, List, [], ◌++◌, ltb, if◌then◌else◌, length,
}
use mcmon.Mcping.Result.{Result, ok, err, Error, stuck, Exec, lift, continue, ◌>>=◌}
use mcmon.Mcping.Reader.{
  BytesReader, BufioReader, Chunk, read_bytes, read_bufio, bytes_byte_reader, bufio_byte_reader,
}
use mcmon.Mcping.VarInt.{read_var_int, write_var_int}

-- The loop of readFull; `got` is the part of the buffer that is filled. Each round stores a byte or
-- ends with an error, so one round more than the buffer has bytes is enough.
read_full_loop : ℕ → ℕ → List ℕ → Option Error → BytesReader → Result (List ℕ) × BytesReader
read_full_loop fuel len got (some e) r = (err e, r)
read_full_loop zero len got none r = (err stuck, r)
read_full_loop (suc fuel) len got none r =
    let (c, r') = read_bytes (len - length got) r in
    let more = read_full_loop fuel len (got ++ c.stored) c.error r' in
    if ltb (length got) len then more else (ok got, r)

unfoldable pub read_full : ℕ → Exec BytesReader (List ℕ)
unfolding read_full_loop read_bytes
read_full len r = let (c, r') = read_bytes len r in read_full_loop (suc len) len c.stored c.error r'

-- The loop of readFullReader.
read_full_reader_loop : ℕ → ℕ → List ℕ → Exec BufioReader (List ℕ)
read_full_reader_loop zero len got r = (err stuck, r)
read_full_reader_loop (suc fuel) len got r =
    let (c, r') = read_bufio (len - length got) r in
    let more = read_full_reader_loop fuel len (got ++ c.stored) r' in
    if ltb (length got) len
    then elim c.error [ some e ↦ (err e, r') | none ↦ more ]
    else (ok got, r)

unfoldable pub read_full_reader : ℕ → Exec BufioReader (List ℕ)
unfolding read_full_reader_loop read_bufio
read_full_reader len r = read_full_reader_loop (suc len) len [] r

-- The bytes that writePacket hands to the connection.
unfoldable pub packet_bytes : ℤ → List ℕ → List ℕ
packet_bytes packet_id payload =
    let body = write_var_int [] packet_id ++ payload in write_var_int [] (pos (length body)) ++ body

-- `rest := make([]byte, br.Len()); br.Read(rest)`, whose error is dropped.
unfoldable pub with_rest : ℕ → Exec BytesReader (ℕ × List ℕ)
unfolding read_bytes
with_rest pid br = let (rest, br') = read_bytes (length br) br in (ok (pid, rest.stored), br')

-- The second half of readPacket: the packet id, and what is left behind it.
unfoldable pub split_packet : List ℕ → Result (ℕ × List ℕ)
unfolding with_rest
split_packet packet = ((read_var_int >>= with_rest) packet).0

-- readPacket once the length is read.
packet_of_length : ℕ → Exec BufioReader (ℕ × List ℕ)
packet_of_length len = do packet ← read_full_reader len; lift (split_packet packet)

unfoldable pub read_packet : Exec BufioReader (ℕ × List ℕ)
unfolding packet_of_length
read_packet = do len ← read_var_int; packet_of_length len
