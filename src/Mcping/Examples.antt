-- ===== src/Mcping/Examples.antt =====
-- Runs of internal/mcping on concrete bytes, and its theorems at concrete inputs.
use mcmon.Prelude.{
  ℕ, ◌<◌, ◌≡◌, refl, pos, negsuc, some, List, [], ◌∷◌, ◌++◌, arith, length, ◌==◌, if◌then◌else◌,
}
use mcmon.Mcping.Result.{Error, ok, err, eof, varint_too_long, net_error, unexpected_pong, ◌>>◌}
use mcmon.Mcping.Reader.{
  joined, BytesReader, BufioReader, pending, first_of_bufio, bytes_byte_reader, bufio_byte_reader,
}
use mcmon.Mcping.VarInt.{u32_mod, to_u32, write_var_int, write_string, read_var_int}
use mcmon.Mcping.VarInt.Stream.{
  stream_byte_reader, stream_of, SameOutcome, read_var_int-SameOutcome,
}
use mcmon.Mcping.VarInt.RoundTrip.{Verdict, read_var_int-Verdict, read_var_int-write_var_int}
use mcmon.Mcping.Packet.{packet_bytes, split_packet, read_packet, read_full_reader}
use mcmon.Mcping.Packet.RoundTrip.{read_packet-packet_bytes}
use mcmon.Mcping.Packet.Segments.{SameBytes}
use mcmon.Mcping.Packet.Ends.{Ended}
use mcmon.Mcping.Status.{Unmarshal, Status, parse_status_json, read_status}
use mcmon.Mcping.Status.Ends.{read_status-Ended}
use mcmon.Mcping.Session.{
  status_exchange, write_handshake_and_status_request, on_reader, ping_exchange,
}
use mcmon.Mcping.Session.Exchange.{
  fresh, request_bytes, ping_bytes, status_exchange-eq, ping_exchange-served,
}
use mcmon.Mcping.Session.Sent.{ping_exchange-ok}

write_300 : write_var_int [] (pos 300) ≡ 0xac ∷ 0x02 ∷ []
unfolding write_var_int
write_300 = refl

write_minus_one : write_var_int [] (negsuc 0) ≡ 0xff ∷ 0xff ∷ 0xff ∷ 0xff ∷ 0x0f ∷ []
unfolding write_var_int
write_minus_one = refl

read_300 : read_var_int {R = BytesReader} (0xac ∷ 0x02 ∷ 7 ∷ []) ≡ (ok 300, 7 ∷ [])
unfolding read_var_int
read_300 = refl

read_six :
    read_var_int {R = BytesReader} (0x80 ∷ 0x80 ∷ 0x80 ∷ 0x80 ∷ 0x80 ∷ 0x01 ∷ [])
    ≡ (err varint_too_long, [])
unfolding read_var_int
read_six = refl

-- A connection that hands the packet with id 1 and payload 7, 8 over in three pieces.
abbrev in_pieces : BufioReader
in_pieces = record { segments = (0x03 ∷ []) ∷ [] ∷ (0x01 ∷ 7 ∷ []) ∷ (8 ∷ []) ∷ []; failure = eof }

read_pieces : (read_packet in_pieces).0 ≡ ok (1, 7 ∷ 8 ∷ [])
unfolding read_packet split_packet read_full_reader read_var_int first_of_bufio
read_pieces = refl

-- A decoder that finds 12 of 40 players in every text.
abbrev twelve : Unmarshal
twelve json =
    some (record { players = some (record { online = some (pos 12); max = some (pos 40) }) })

abbrev twelve_of_forty : Status
twelve_of_forty = record { players_online = some (pos 12); players_max = some (pos 40) }

read_var_int-SameOutcome_example :
    SameOutcome (read_var_int in_pieces) (read_var_int (stream_of in_pieces))
read_var_int-SameOutcome_example = read_var_int-SameOutcome in_pieces

read_var_int-Verdict_example :
    Verdict 0
      (pending in_pieces)
      eof
      (read_var_int in_pieces).0
      (pending (read_var_int in_pieces).1)
read_var_int-Verdict_example = read_var_int-Verdict in_pieces

abbrev minus_one_bytes : BytesReader
minus_one_bytes = 0xff ∷ 0xff ∷ 0xff ∷ 0xff ∷ 0x0f ∷ 9 ∷ []

minus_one_starts : minus_one_bytes ≡ write_var_int [] (negsuc 0) ++ 9 ∷ []
unfolding write_var_int
minus_one_starts = refl

read_var_int-write_var_int_example :
    ((read_var_int minus_one_bytes).0 ≡ ok (to_u32 (negsuc 0)))
    × ((read_var_int minus_one_bytes).1 ≡ 9 ∷ [])
    × (◌≡◌ {A = Error} eof eof)
read_var_int-write_var_int_example =
    read_var_int-write_var_int {R = BytesReader} minus_one_bytes (negsuc 0) (9 ∷ [])
      minus_one_starts

pieces_hold : pending in_pieces ≡ packet_bytes (pos 1) (7 ∷ 8 ∷ []) ++ []
unfolding packet_bytes write_var_int
pieces_hold = refl

short_body : length (write_var_int [] (pos 1) ++ 7 ∷ 8 ∷ []) < u32_mod
unfolding write_var_int
short_body = omega arith

read_packet-packet_bytes_example :
    ((read_packet in_pieces).0 ≡ ok (to_u32 (pos 1), 7 ∷ 8 ∷ []))
    × (pending (read_packet in_pieces).1 ≡ [])
    × ((read_packet in_pieces).1.failure ≡ eof)
read_packet-packet_bytes_example =
    read_packet-packet_bytes in_pieces (pos 1) (7 ∷ 8 ∷ []) [] short_body pieces_hold

abbrev in_one : BufioReader
in_one = record { segments = joined in_pieces.segments ∷ []; failure = eof }

same_pending : SameBytes in_pieces in_one
same_pending = record { bytes = refl; closing = refl }

read_status-Ended_example : Ended (read_status twelve in_pieces).0
read_status-Ended_example = read_status-Ended twelve in_pieces (λ p. cc p)

-- A server that answers with the text {} and a pong.
abbrev json : List ℕ
json = 123 ∷ 125 ∷ []

abbrev answering : BufioReader
answering = record {
  segments = (0x04 ∷ 0x00 ∷ 0x02 ∷ []) ∷ (123 ∷ 125 ∷ 0x02 ∷ []) ∷ (0x01 ∷ 7 ∷ []) ∷ [];
  failure = net_error 110;
}

answers :
    pending answering
    ≡ packet_bytes (pos 0) (write_string [] json ++ []) ++ (packet_bytes (pos 1) (7 ∷ []) ++ [])
unfolding packet_bytes write_var_int write_string
answers = refl

status_short : length (write_var_int [] (pos 0) ++ (write_string [] json ++ [])) < u32_mod
unfolding write_var_int write_string
status_short = omega arith

pong_short : length (write_var_int [] (pos 1) ++ 7 ∷ []) < u32_mod
unfolding write_var_int
pong_short = omega arith

parses : parse_status_json twelve json ≡ ok twelve_of_forty
unfolding parse_status_json
parses = refl

abbrev host : List ℕ
host = 109 ∷ 99 ∷ []

ping_exchange-served_example :
    ((ping_exchange twelve 5 host (pos 25565) (pos 760) (fresh answering [])).0 ≡ (
      if to_u32 (pos 1) == 1 then ok twelve_of_forty else err (unexpected_pong (to_u32 (pos 1)))))
    × ((ping_exchange twelve 5 host (pos 25565) (pos 760) (fresh answering [])).1.sent
        ≡ [] ++ (request_bytes host (pos 25565) (pos 760) ++ ping_bytes 5))
ping_exchange-served_example =
    ping_exchange-served twelve host (pos 25565) (pos 760) 5 answering [] json [] (7 ∷ []) []
      (pos 1) twelve_of_forty (omega arith) status_short pong_short parses answers

served :
    (ping_exchange twelve 5 host (pos 25565) (pos 760) (fresh answering [])).0 ≡ ok twelve_of_forty
unfolding to_u32
served =
    (ping_exchange-served twelve host (pos 25565) (pos 760) 5 answering [] json [] (7 ∷ []) []
      (pos 1) twelve_of_forty (omega arith) status_short pong_short parses answers).0

ping_exchange-ok_example :
    ((ping_exchange twelve 5 host (pos 25565) (pos 760) (fresh answering [])).1.sent
      ≡ [] ++ (request_bytes host (pos 25565) (pos 760) ++ ping_bytes 5))
    × ((read_status twelve answering).0 ≡ ok twelve_of_forty)
    × ((payload : List ℕ) × ((read_packet (read_status twelve answering).1).0 ≡ ok (1, payload)))
ping_exchange-ok_example =
    ping_exchange-ok twelve 5 host (pos 25565) (pos 760) (fresh answering []) twelve_of_forty served

status_exchange-eq_example :
    status_exchange twelve host (pos 25565) (pos 760) (fresh answering [])
    ≡ (write_handshake_and_status_request host (pos 25565) (pos 760)
          >> on_reader (read_status twelve))
        (fresh answering [])
status_exchange-eq_example =
    status_exchange-eq twelve host (pos 25565) (pos 760) (fresh answering [])
