-- ===== src/Mcping/Packet/RoundTrip.antt =====
-- readPacket after writePacket, and readPacket on any connection.
use mcmon.Prelude.{
  ℕ, suc, ◌<◌, ◌≡◌, refl, sym, ap, ◌∙◌, ℤ, pos, List, [], ◌∷◌, ◌++◌, append_assoc, arith, length,
  take_all,
}
use mcmon.Mcping.Result.{ok, lift, bind-ok}
use mcmon.Mcping.Reader.{
  BytesReader, BufioReader, read_bytes, pending, bytes_byte_reader, bufio_byte_reader,
}
use mcmon.Mcping.VarInt.{u32_mod, to_u32, read_var_int, write_var_int}
use mcmon.Mcping.VarInt.RoundTrip.{read_var_int-write_var_int}
use mcmon.Mcping.Packet.{
  with_rest, packet_of_length, split_packet, packet_bytes, read_full_reader, read_packet,
}
use mcmon.Mcping.Packet.Full.{read_full_reader-Gives}

pub with_rest_lem : (pid : ℕ) (br : BytesReader) → (with_rest pid br).0 ≡ ok (pid, br)
unfolding with_rest read_bytes
with_rest_lem pid [] = refl
with_rest_lem pid (b ∷ bs) = rw (take_all (suc (length bs)) (b ∷ bs) (omega arith))

pub split_packet-write_var_int :
    (packet_id : ℤ) (payload : List ℕ)
    → split_packet (write_var_int [] packet_id ++ payload) ≡ ok (to_u32 packet_id, payload)
unfolding split_packet
split_packet-write_var_int packet_id payload =
    let body = write_var_int [] packet_id ++ payload in
    let (result, left, _) =
      read_var_int-write_var_int {R = BytesReader} body packet_id payload refl in
    ap (λ o. o.0) (bind-ok read_var_int with_rest body payload (to_u32 packet_id) result left)
    ∙ with_rest_lem (to_u32 packet_id) payload

pub to_u32-small : (n : ℕ) → n < u32_mod → to_u32 (pos n) ≡ n
unfolding to_u32
to_u32-small n h = omega arith

module _ (r : BufioReader) (packet_id : ℤ) (payload rest : List ℕ) where
  -- On a connection that gives the bytes of writePacket, cut into segments in any way, and then
  -- `rest`, readPacket returns the packet id modulo 2^32 and the payload, and leaves `rest`. The
  -- body must be shorter than 2^32 bytes.
  pub read_packet-packet_bytes :
      length (write_var_int [] packet_id ++ payload) < u32_mod
      → pending r ≡ packet_bytes packet_id payload ++ rest
      → ((read_packet r).0 ≡ ok (to_u32 packet_id, payload))
        × (pending (read_packet r).1 ≡ rest)
        × ((read_packet r).1.failure ≡ r.failure)
  unfolding read_packet packet_of_length packet_bytes
  read_packet-packet_bytes h e =
      let body = write_var_int [] packet_id ++ payload in
      let len = to_u32 (pos (length body)) in
      let (result, left, closing) =
        read_var_int-write_var_int r (pos (length body)) (body ++ rest)
          (e ∙ append_assoc (write_var_int [] (pos (length body))) body rest) in
      let r' = (read_var_int r).1 in
      let g = read_full_reader-Gives r' len body rest left (sym (to_u32-small (length body) h)) in
      let steps =
        bind-ok read_var_int packet_of_length r r' len result refl
        ∙ bind-ok (read_full_reader len) (λ packet. lift (split_packet packet)) r'
            (read_full_reader len r').1 body g.result refl in
      (
        ap (λ o. o.0) steps ∙ split_packet-write_var_int packet_id payload,
        ap (λ o. pending o.1) steps ∙ g.left,
        ap (λ o. o.1.failure) steps ∙ g.closing ∙ closing,
      )
