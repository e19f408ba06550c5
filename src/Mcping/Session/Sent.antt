-- ===== src/Mcping/Session/Sent.antt =====
-- What a successful Ping has done, on any connection.
use mcmon.Prelude.{
  ℕ, ◌≡◌, refl, sym, ap, ◌∙◌, ℤ, pos, Option, none, some, List, [], ◌∷◌, ◌++◌, append_assoc, arith,
  ◌==◌, ==_iff, if◌then◌else◌, Bool-cases, inl, inr,
}
use mcmon.Mcping.Result.{Result, ok, Error, Exec, unexpected_pong, pure, fail, ◌>>=◌, bind-inv}
use mcmon.Mcping.Packet.{packet_bytes, read_packet}
use mcmon.Mcping.Status.{Unmarshal, Status, read_status}
use mcmon.Mcping.Session.{
  Conn, write_outcome, write, write_packet, on_reader, big_endian, handshake,
  write_handshake_and_status_request, ping_exchange,
}
use mcmon.Mcping.Session.Exchange.{request_bytes, ping_bytes}

-- A Write that succeeds has sent its bytes and touched nothing that is to be read.
record Wrote (p : List ℕ) (c c' : Conn) : Type 0 where
  sent : c'.sent ≡ c.sent ++ p
  reader : c'.reader ≡ c.reader

write_outcome-ok :
    (es : List (Option Error)) (p : List ℕ) (c : Conn)
    → (write_outcome es p c).0 ≡ ok tt
    → Wrote p c (write_outcome es p c).1
unfolding write_outcome
write_outcome-ok [] p c h = record { sent = refl; reader = refl }
write_outcome-ok (none ∷ es) p c h = record { sent = refl; reader = refl }
write_outcome-ok (some e ∷ es) p c h = cc

write_packet-ok :
    (packet_id : ℤ) (payload : List ℕ) (c : Conn)
    → (write_packet packet_id payload c).0 ≡ ok tt
    → Wrote (packet_bytes packet_id payload) c (write_packet packet_id payload c).1
unfolding write_packet write
write_packet-ok packet_id payload c h = write_outcome-ok c.write_errors _ c h

request-ok :
    (host : List ℕ) (port protocol_version : ℤ) (c : Conn)
    → (write_handshake_and_status_request host port protocol_version c).0 ≡ ok tt
    → Wrote
        (request_bytes host port protocol_version)
        c
        (write_handshake_and_status_request host port protocol_version c).1
unfolding write_handshake_and_status_request
request-ok host port protocol_version c h =
    let hello = write_packet (pos 0) (handshake host port protocol_version) in
    let (_, said, step) = bind-inv hello (λ _. write_packet (pos 0) []) c tt h in
    let first = write_packet-ok (pos 0) (handshake host port protocol_version) c said in
    let second = write_packet-ok (pos 0) [] (hello c).1 (sym (ap (λ o. o.0) step) ∙ h) in
    record {
      sent =
          ap (λ o. o.1.sent) step
          ∙ second.sent
          ∙ ap (λ s. s ++ packet_bytes (pos 0) []) first.sent
          ∙ append_assoc c.sent (packet_bytes (pos 0) (handshake host port protocol_version))
              (packet_bytes (pos 0) []);
      reader = ap (λ o. o.1.reader) step ∙ second.reader ∙ first.reader;
    }

-- The parts of Ping, from the last on.
check_pong : Status → ℕ × List ℕ → Exec Conn Status
check_pong status (pid2, _) = if pid2 == 1 then pure status else fail (unexpected_pong pid2)

check_pong-ok :
    (status : Status) (pid2 : ℕ) (payload : List ℕ) (c : Conn) (found : Status)
    → (check_pong status (pid2, payload) c).0 ≡ ok found
    → (pid2 ≡ 1) × (status ≡ found) × ((check_pong status (pid2, payload) c).1.sent ≡ c.sent)
unfolding check_pong
check_pong-ok status pid2 payload c found h = elim (Bool-cases (pid2 == 1)) [
  | inl pong ↦ ((==_iff pid2 1).0 pong, ground arith, rw pong)
  | inr other ↦ absurd (ground arith)
]

await_pong : Status → Exec Conn Status
await_pong status = on_reader read_packet >>= check_pong status

-- What follows the status reply of `c`: the pong was read behind it.
record Ponged (c : Conn) (status found : Status) (o : Result Status × Conn) : Type 0 where
  same : status ≡ found
  payload : List ℕ
  pong : (read_packet c.reader).0 ≡ ok (1, payload)
  sent : o.1.sent ≡ c.sent

await_pong-ok :
    (status found : Status) (c : Conn)
    → (await_pong status c).0 ≡ ok found
    → Ponged c status found (await_pong status c)
unfolding await_pong
await_pong-ok status found c h =
    let ((pid2, payload), got, step) =
      bind-inv (on_reader read_packet) (check_pong status) c found h in
    let c' = (on_reader read_packet c).1 in
    let (one, same, sent) =
      check_pong-ok status pid2 payload c' found (sym (ap (λ o. o.0) step) ∙ h) in
    record {
      same = same;
      payload = payload;
      pong = got ∙ ap (λ n. ok (n, payload)) one;
      sent = ap (λ o. o.1.sent) step ∙ sent;
    }

module _ (unmarshal : Unmarshal) (now_ms : ℕ) (host : List ℕ) (port protocol_version : ℤ) where
  -- If Ping succeeds on a connection, whatever happens there, it has sent the handshake, the status
  -- request and the ping, whole and in this order; the status it reports is what readStatus found;
  -- and the packet that followed was a pong.
  pub ping_exchange-ok :
      (c : Conn) (status : Status)
      → (ping_exchange unmarshal now_ms host port protocol_version c).0 ≡ ok status
      → ((ping_exchange unmarshal now_ms host port protocol_version c).1.sent
          ≡ c.sent ++ (request_bytes host port protocol_version ++ ping_bytes now_ms))
        × ((read_status unmarshal c.reader).0 ≡ ok status)
        × ((payload : List ℕ) × ((read_packet (read_status unmarshal c.reader).1).0
              ≡ ok (1, payload)))
  unfolding ping_exchange await_pong check_pong
  ping_exchange-ok c status h =
      let request = write_handshake_and_status_request host port protocol_version in
      let ping_write = write_packet (pos 1) (big_endian 8 now_ms) in
      let after = λ (s : Status). ping_write >>= λ _. await_pong s in
      let (_, asked, step) =
        bind-inv request (λ _. on_reader (read_status unmarshal) >>= after) c status h in
      let first = request-ok host port protocol_version c asked in
      let c1 = (request c).1 in
      let (s, found, step') =
        bind-inv (on_reader (read_status unmarshal)) after c1 status
          (sym (ap (λ o. o.0) step) ∙ h) in
      let c2 = (on_reader (read_status unmarshal) c1).1 in
      let whole = step ∙ step' in
      let (_, pinged, step'') =
        bind-inv ping_write (λ _. await_pong s) c2 status (sym (ap (λ o. o.0) whole) ∙ h) in
      let second = write_packet-ok (pos 1) (big_endian 8 now_ms) c2 pinged in
      let last =
        await_pong-ok s status (ping_write c2).1 (sym (ap (λ o. o.0) (whole ∙ step'')) ∙ h) in
      (
        ap (λ o. o.1.sent) (whole ∙ step'')
            ∙ last.sent
            ∙ second.sent
            ∙ ap (λ t. t ++ ping_bytes now_ms) first.sent
            ∙ append_assoc c.sent (request_bytes host port protocol_version) (ping_bytes now_ms),
        ap (λ r. (read_status unmarshal r).0) (sym first.reader) ∙ found ∙ ap ok last.same,
        (
          last.payload,
          ap (λ r. (read_packet (read_status unmarshal r).1).0) (sym first.reader)
              ∙ ap (λ r. (read_packet r).0) (sym second.reader)
              ∙ last.pong,
        ),
      )
