-- ===== src/Mcping/Session/Exchange.antt =====
-- Ping and StatusRequest against a server that answers, and against each other.
use mcmon.Prelude.{
  ℕ, ◌<◌, ◌≡◌, refl, sym, ap, ◌∙◌, ℤ, pos, List, [], ◌++◌, append_assoc, arith, ◌==◌, if◌then◌else◌,
  length, length-append, Bool-cases, inl, inr,
}
use mcmon.Mcping.Result.{
  Result, ok, err, unexpected_status, unexpected_pong, lift, continue, Exec, ◌>>=◌, ◌>>◌,
  bind_assoc, continue-cong, fail, pure,
}
use mcmon.Mcping.Reader.{BufioReader, pending}
use mcmon.Mcping.VarInt.{u32_mod, to_u32, write_var_int, write_string}
use mcmon.Mcping.Packet.{packet_bytes, read_packet}
use mcmon.Mcping.Packet.RoundTrip.{read_packet-packet_bytes}
use mcmon.Mcping.Status.{Unmarshal, Status, parse_status_json, status_of_packet, read_status}
use mcmon.Mcping.Status.Served.{read_status-packet_bytes, status_of_packet-json}
use mcmon.Mcping.Session.{
  Conn, write, write_packet, on_reader, big_endian, handshake, write_handshake_and_status_request,
  json_of_payload, status_exchange, ping_exchange,
}

module _ (unmarshal : Unmarshal) (host : List ℕ) (port protocol_version : ℤ) where
  read_tail :
      (x : Result (ℕ × List ℕ)) (r : BufioReader) (c : Conn)
      → continue x
          (λ p.
            if p.0 == 0 then lift (json_of_payload unmarshal p.1) else fail (unexpected_status p.0))
          (record c { reader = r })
        ≡ (let (y, r') = continue x (λ p. lift (status_of_packet unmarshal p)) r in
            (y, record c { reader = r' }))
  unfolding status_of_packet json_of_payload
  read_tail (err e) r c = refl
  read_tail (ok (pid, payload)) r c = elim (Bool-cases (pid == 0)) [
    | inl zero_id ↦ rw zero_id
    | inr other ↦ rw other
  ]

  -- StatusRequest, which spells out its exchange, does what writeHandshakeAndStatusRequest and
  -- readStatus do one after the other, on every connection and on every error path.
  pub status_exchange-eq :
      (c : Conn)
      → status_exchange unmarshal host port protocol_version c
        ≡ (write_handshake_and_status_request host port protocol_version
              >> on_reader (read_status unmarshal))
            c
  unfolding status_exchange write_handshake_and_status_request read_status
  status_exchange-eq c =
      let hello = write_packet (pos 0) (handshake host port protocol_version) in
      let request = write_packet (pos 0) [] in
      continue-cong (hello c).0 _ _ (hello c).1 (λ _.
        continue-cong (request (hello c).1).0 _ _ (request (hello c).1).1 (λ _.
          let c' = (request (hello c).1).1 in
          read_tail (read_packet c'.reader).0 (read_packet c'.reader).1 c'))
      ∙ sym (bind_assoc hello (λ _. request) (λ _. on_reader (read_status unmarshal)) c)

-- A connection on which every Write succeeds.
abbrev pub fresh : BufioReader → List ℕ → Conn
fresh r sent = record { reader = r; sent = sent; write_errors = [] }

-- What Ping writes before it reads the status, and then.
abbrev pub request_bytes : List ℕ → ℤ → ℤ → List ℕ
request_bytes host port protocol_version =
    packet_bytes (pos 0) (handshake host port protocol_version) ++ packet_bytes (pos 0) []

abbrev pub ping_bytes : ℕ → List ℕ
ping_bytes now_ms = packet_bytes (pos 1) (big_endian 8 now_ms)

regroup : (a b c d : List ℕ) → ((a ++ b) ++ c) ++ d ≡ a ++ ((b ++ c) ++ d)
regroup a b c d = simp append_assoc

zero_id : to_u32 (pos 0) ≡ 0
unfolding to_u32
zero_id = refl

-- A packet body that a 32-bit length can describe.
abbrev pub Fits : ℤ → List ℕ → Type 0
Fits packet_id payload = length (write_var_int [] packet_id ++ payload) < u32_mod

module _ (unmarshal : Unmarshal) (host : List ℕ) (port protocol_version : ℤ) where
  -- The end of Ping, from the pong on.
  await_pong : Status → Exec Conn Status
  await_pong status = do
    (pid2, _) ← on_reader read_packet
    if pid2 == 1 then pure status else fail (unexpected_pong pid2)

  await_pong-served :
      (r : BufioReader) (sent pong rest : List ℕ) (pong_id : ℤ) (status : Status)
      → Fits pong_id pong
      → pending r ≡ packet_bytes pong_id pong ++ rest
      → ((await_pong status (fresh r sent)).0
          ≡ (if to_u32 pong_id == 1 then ok status else err (unexpected_pong (to_u32 pong_id))))
        × ((await_pong status (fresh r sent)).1.sent ≡ sent)
  unfolding await_pong
  await_pong-served r sent pong rest pong_id status fits coming =
      elim (Bool-cases (to_u32 pong_id == 1)) [
        | inl right_id ↦ rw (result, right_id) (refl, refl)
        | inr wrong_id ↦ rw (result, wrong_id) (refl, refl)
      ]
    where
      result : (read_packet r).0 ≡ ok (to_u32 pong_id, pong)
      result = (read_packet-packet_bytes r pong_id pong rest fits coming).0

  module _ (now_ms : ℕ) (r : BufioReader) (sent json more pong rest : List ℕ) (pong_id : ℤ)
      (status : Status) (some_json : 0 < length json)
      (status_fits : Fits (pos 0) (write_string [] json ++ more)) (pong_fits : Fits pong_id pong)
      (parsed : parse_status_json unmarshal json ≡ ok status)
      (coming : pending r
        ≡ packet_bytes (pos 0) (write_string [] json ++ more)
          ++ (packet_bytes pong_id pong ++ rest)) where
    json_fits : length json < u32_mod
    unfolding write_string
    json_fits = omega (
      arith,
      status_fits,
      length-append (write_var_int [] (pos 0))
          ((write_var_int [] (pos (length json)) ++ json) ++ more),
      length-append (write_var_int [] (pos (length json)) ++ json) more,
      length-append (write_var_int [] (pos (length json))) json,
    )

    -- On a new connection whose server sends a status packet with a JSON text that parses (more may
    -- follow the text), then one more packet, cut into segments in any way: Ping sends the handshake,
    -- the status request and the ping, and succeeds with that status exactly if the id of the last
    -- packet is 1 modulo 2^32, else with the error that names the id. Packet bodies must be shorter
    -- than 2^32 bytes, and the text not empty.
    pub ping_exchange-served :
        ((ping_exchange unmarshal now_ms host port protocol_version (fresh r sent)).0
          ≡ (if to_u32 pong_id == 1 then ok status else err (unexpected_pong (to_u32 pong_id))))
        × ((ping_exchange unmarshal now_ms host port protocol_version (fresh r sent)).1.sent
            ≡ sent ++ (request_bytes host port protocol_version ++ ping_bytes now_ms))
    unfolding ping_exchange write_packet write await_pong
    ping_exchange-served =
        let (result, left, _) =
          read_status-packet_bytes unmarshal r (pos 0) (write_string [] json ++ more)
            (packet_bytes pong_id pong ++ rest) status_fits coming in
        let hello = packet_bytes (pos 0) (handshake host port protocol_version) in
        let request = packet_bytes (pos 0) [] in
        let got : (read_status unmarshal r).0 ≡ ok status =
          result
          ∙ ap (λ n. status_of_packet unmarshal (n, write_string [] json ++ more)) zero_id
          ∙ status_of_packet-json unmarshal json more some_json json_fits
          ∙ parsed in
        let (pong_result, pong_sent) =
          await_pong-served (read_status unmarshal r).1
            (((sent ++ hello) ++ request) ++ ping_bytes now_ms) pong rest pong_id status pong_fits
            left in
        rw got (pong_result, pong_sent ∙ regroup sent hello request (ping_bytes now_ms))
