-- ===== src/Mcping/Status/Served.antt =====
-- readStatus against a server that answers.
use mcmon.Prelude.{
  ℕ, ◌<◌, ◌≡◌, refl, sym, ap, ◌∙◌, ℤ, pos, List, [], ◌++◌, append_assoc, arith, length,
  length-append,
}
use mcmon.Mcping.Result.{lift, ◌>>=◌, bind-ok}
use mcmon.Mcping.Reader.{BytesReader, BufioReader, pending, bytes_byte_reader}
use mcmon.Mcping.VarInt.{u32_mod, to_u32, read_var_int, write_var_int, write_string}
use mcmon.Mcping.VarInt.RoundTrip.{read_var_int-write_var_int}
use mcmon.Mcping.Packet.{packet_bytes, read_full, read_packet}
use mcmon.Mcping.Packet.Full.{read_full-exact}
use mcmon.Mcping.Packet.RoundTrip.{to_u32-small, read_packet-packet_bytes}
use mcmon.Mcping.Status.{
  Unmarshal, parse_status_json, payload_status, status_of_packet, read_status,
}

module _ (unmarshal : Unmarshal) where
  -- A payload that holds a JSON text of at least one byte, as writeString writes it, is parsed
  -- whole; what follows the text in the packet is not looked at.
  pub payload_status-write_string :
      (json more : List ℕ)
      → 0 < length json
      → length json < u32_mod
      → (payload_status unmarshal (write_string [] json ++ more)).0
        ≡ parse_status_json unmarshal json
  unfolding payload_status write_string
  payload_status-write_string json more lo hi =
      let len = to_u32 (pos (length json)) in
      let payload = (write_var_int [] (pos (length json)) ++ json) ++ more in
      let (result, left, _) =
        read_var_int-write_var_int {R = BytesReader} payload (pos (length json)) (json ++ more)
          (append_assoc (write_var_int [] (pos (length json))) json more) in
      let exact =
        read_full-exact len json more (sym (to_u32-small (length json) hi))
          (omega (arith, length-append json more)) in
      ap (λ o. o.0)
        (bind-ok read_var_int (λ n. read_full n >>= λ j. lift (parse_status_json unmarshal j))
            payload (json ++ more) len result left
          ∙ bind-ok (read_full len) (λ j. lift (parse_status_json unmarshal j)) (json ++ more) more
              json (ap (λ o. o.0) exact) (ap (λ o. o.1) exact))

  module _ (r : BufioReader) (packet_id : ℤ) (payload rest : List ℕ)
      (fits : length (write_var_int [] packet_id ++ payload) < u32_mod)
      (coming : pending r ≡ packet_bytes packet_id payload ++ rest) where
    -- Where the next packet of the connection is that of a server, readStatus decides on its id and
    -- its payload alone, and leaves what follows the packet.
    pub read_status-packet_bytes :
        ((read_status unmarshal r).0 ≡ status_of_packet unmarshal (to_u32 packet_id, payload))
        × (pending (read_status unmarshal r).1 ≡ rest)
        × ((read_status unmarshal r).1.failure ≡ r.failure)
    unfolding read_status
    read_status-packet_bytes =
        let (result, left, closing) =
          read_packet-packet_bytes r packet_id payload rest fits coming in
        let step =
          bind-ok read_packet (λ packet. lift (status_of_packet unmarshal packet)) r
            (read_packet r).1 (to_u32 packet_id, payload) result refl in
        (
          ap (λ o. o.0) step,
          ap (λ o. pending o.1) step ∙ left,
          ap (λ o. o.1.failure) step ∙ closing,
        )

  pub status_of_packet-json :
      (json more : List ℕ)
      → 0 < length json
      → length json < u32_mod
      → status_of_packet unmarshal (0, write_string [] json ++ more)
        ≡ parse_status_json unmarshal json
  unfolding status_of_packet
  status_of_packet-json json more lo hi = payload_status-write_string json more lo hi
