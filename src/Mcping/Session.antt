-- ===== src/Mcping/Session.antt =====
-- StatusRequest, Ping, writeHandshakeAndStatusRequest and writePacket of internal/mcping/mcping.go.
-- The network is an argument: what dialling gives, which of the Writes fail, and what the server
-- sends. Deadlines and TCP_NODELAY act only through these, and Close has no effect that is read.
pub mod Exchange
pub mod Sent
use mcmon.Prelude.{
  ℕ, zero, suc, ◌+◌, ◌-◌, ◌*◌, ◌/◌, ◌%◌, ◌^◌, ℤ, pos, negsuc, Bool, true, false, Option, none, some,
  List, [], ◌∷◌, ◌++◌, ◌==◌, if◌then◌else◌,
}
use mcmon.Mcping.Result.{
  Result, ok, err, Error, unexpected_status, unexpected_pong, Exec, pure, fail, lift, continue,
  ◌>>=◌, ◌>>◌,
}
use mcmon.Mcping.Reader.{BytesReader, BufioReader, bytes_byte_reader}
use mcmon.Mcping.VarInt.{write_var_int, write_string, read_var_int}
use mcmon.Mcping.Packet.{packet_bytes, read_full, read_packet}
use mcmon.Mcping.Status.{Unmarshal, Status, no_status, parse_status_json, read_status}

-- A connection: its reader, the bytes that were written, and the outcomes of the next Writes (a
-- Write beyond the list succeeds).
pub record Conn : Type 0 where
  pub reader : BufioReader
  pub sent : List ℕ
  pub write_errors : List (Option Error)

write_outcome : List (Option Error) → List ℕ → Exec Conn (Unit {0})
write_outcome [] p c = (ok tt, record c { sent = c.sent ++ p })
write_outcome (none ∷ es) p c = (ok tt, record c { sent = c.sent ++ p; write_errors = es })
write_outcome (some e ∷ es) p c = (err e, record c { write_errors = es })

-- `conn.Write(p)`.
unfoldable pub write : List ℕ → Exec Conn (Unit {0})
unfolding write_outcome
write p c = write_outcome c.write_errors p c

unfoldable pub write_packet : ℤ → List ℕ → Exec Conn (Unit {0})
write_packet packet_id payload = write (packet_bytes packet_id payload)

-- Reading through `r := bufio.NewReader(conn)`.
abbrev pub on_reader : {A : Type 0} → Exec BufioReader A → Exec Conn A
on_reader m c = let (x, r) = m c.reader in (x, record c { reader = r })

-- `uint16(port)`.
abbrev pub to_u16 : ℤ → ℕ
to_u16 (pos n) = n % 2 ^ 16
to_u16 (negsuc n) = 2 ^ 16 - 1 - n % 2 ^ 16

-- `binary.Write(buf, binary.BigEndian, x)` of an integer of `n` bytes.
unfoldable pub big_endian : ℕ → ℕ → List ℕ
big_endian zero x = []
big_endian (suc n) x = (x / 256 ^ n % 256) ∷ big_endian n x

unfoldable pub handshake : List ℕ → ℤ → ℤ → List ℕ
unfolding big_endian
handshake host port protocol_version =
    write_var_int
      (write_string (write_var_int [] protocol_version) host ++ big_endian 2 (to_u16 port)) (pos 1)

unfoldable pub write_handshake_and_status_request : List ℕ → ℤ → ℤ → Exec Conn (Unit {0})
write_handshake_and_status_request host port protocol_version = do
  write_packet (pos 0) (handshake host port protocol_version)
  write_packet (pos 0) []

-- What a call meets: the dial, the clock's milliseconds, and the microseconds from the ping to the
-- pong.
pub record Network : Type 0 where
  pub dial : Result Conn
  pub now_ms : ℕ
  pub elapsed_us : ℕ

-- `Result`, with the latency in microseconds: LatencyMs is this number divided by 1000.
pub record PingResult : Type 0 where
  pub is_ok : Bool
  pub latency_us : ℕ
  pub players_online : Option ℤ
  pub players_max : Option ℤ
  pub error : Option Error

abbrev pub failed : Error → PingResult
failed e = record {
  is_ok = false;
  latency_us = 0;
  players_online = none;
  players_max = none;
  error = some e;
}

abbrev pub succeeded : ℕ → Status → PingResult
succeeded us s = record {
  is_ok = true;
  latency_us = us;
  players_online = s.players_online;
  players_max = s.players_max;
  error = none;
}

abbrev pub outcome : ℕ → Result Status → PingResult
outcome us (ok s) = succeeded us s
outcome us (err e) = failed e

module _ (unmarshal : Unmarshal) where
  -- What StatusRequest does with the payload of the status packet.
  json_of_payload : List ℕ → Result Status
  json_of_payload payload =
      ((do
        json_len ← read_var_int {R = BytesReader}
        json_bytes ← read_full json_len
        lift (parse_status_json unmarshal json_bytes))
        payload).0

  -- The body of StatusRequest on its connection.
  unfoldable pub status_exchange : List ℕ → ℤ → ℤ → Exec Conn Status
  unfolding json_of_payload
  status_exchange host port protocol_version = do
    write_packet (pos 0) (handshake host port protocol_version)
    write_packet (pos 0) []
    (pid, payload) ← on_reader read_packet
    if pid == 0 then lift (json_of_payload payload) else fail (unexpected_status pid)

  -- The body of Ping on its connection: the status comes first, then the timed ping and its pong,
  -- whose payload is not compared.
  unfoldable pub ping_exchange : ℕ → List ℕ → ℤ → ℤ → Exec Conn Status
  unfolding write_handshake_and_status_request
  ping_exchange now_ms host port protocol_version = do
    write_handshake_and_status_request host port protocol_version
    status ← on_reader (read_status unmarshal)
    write_packet (pos 1) (big_endian 8 now_ms)
    (pid2, _) ← on_reader read_packet
    if pid2 == 1 then pure status else fail (unexpected_pong pid2)

  on_dial : Exec Conn Status → ℕ → Result Conn → PingResult
  on_dial exchange us (err e) = failed e
  on_dial exchange us (ok conn) = outcome us (exchange conn).0

  unfoldable pub status_request : Network → List ℕ → ℤ → ℤ → PingResult
  unfolding on_dial
  status_request net host port protocol_version =
      on_dial (status_exchange host port protocol_version) 0 net.dial

  unfoldable pub ping : Network → List ℕ → ℤ → ℤ → PingResult
  unfolding on_dial
  ping net host port protocol_version =
      on_dial (ping_exchange net.now_ms host port protocol_version) net.elapsed_us net.dial
