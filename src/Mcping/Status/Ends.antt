-- ===== src/Mcping/Status/Ends.antt =====
-- Reading a status ends on every connection.
use mcmon.Prelude.{
  ℕ, suc, ◌≡◌, ◌≢◌, refl, inl, inr, List, [], ◌∷◌, ◌++◌, arith, length, take, drop,
  take-append-drop, length-take,
}
use mcmon.Mcping.Result.{ok, eof, stuck}
use mcmon.Mcping.Reader.{BufioReader, BytesReader, bytes_byte_reader}
use mcmon.Mcping.VarInt.{read_var_int}
use mcmon.Mcping.VarInt.RoundTrip.{read_var_int-Verdict}
use mcmon.Mcping.Packet.{read_full}
use mcmon.Mcping.Packet.Full.{read_full-exact, read_full-short}
use mcmon.Mcping.Packet.Ends.{
  Ended, IsLive, IsLive-lift, IsLive-bind, Ended-continue, Verdict-Ended, read_packet-IsLive,
}
use mcmon.Mcping.Status.{
  Unmarshal, parse_status_json, payload_status, status_of_packet, read_status,
}
use mathlib.Core.Path.{subst}
use native.Mathlib.Decide.{dec_le}

read_full-Ended : (len : ℕ) (r : BytesReader) → Ended (read_full len r).0
read_full-Ended len [] = λ p. cc (read_full-short len [] (inr refl), p)
read_full-Ended len (x ∷ r) = elim (dec_le len (suc (length r))) [
  | no short ↦ λ p. cc (read_full-short len (x ∷ r) (inl (omega arith)), p)
  | yes enough ↦
      let front = take len (x ∷ r) in
      let back = drop len (x ∷ r) in
      let cut : front ++ back ≡ x ∷ r = take-append-drop len (x ∷ r) in
      let exact =
        read_full-exact len front back (omega (arith, length-take len (x ∷ r)))
          (rw cut (omega arith)) in
      λ p. cc (subst (λ t. read_full len t ≡ (ok front, back)) cut exact, p)
]

module _ (unmarshal : Unmarshal) where
  parse_status_json-Ended : (json : List ℕ) → Ended (parse_status_json unmarshal json)
  unfolding parse_status_json
  parse_status_json-Ended json p = ground arith

  payload_status-Ended : (payload : List ℕ) → Ended (payload_status unmarshal payload).0
  unfolding payload_status
  payload_status-Ended payload =
      Ended-continue (read_var_int payload).0 _ (read_var_int payload).1
        (Verdict-Ended 0 payload eof (read_var_int payload).0 (read_var_int payload).1 (λ p. cc)
          (read_var_int-Verdict {R = BytesReader} payload))
        (λ len br.
          Ended-continue (read_full len br).0 _ (read_full len br).1 (read_full-Ended len br)
            (λ json br'. parse_status_json-Ended json))

  status_of_packet-Ended : (packet : ℕ × List ℕ) → Ended (status_of_packet unmarshal packet)
  unfolding status_of_packet
  status_of_packet-Ended (pid, payload) = ground (arith, payload_status-Ended payload)

  pub read_status-IsLive : IsLive (read_status unmarshal)
  unfolding read_status
  read_status-IsLive = search (IsLive-lift, IsLive-bind, read_packet-IsLive, status_of_packet-Ended)

  -- Whatever the JSON decoder does and whatever bytes a connection gives, readStatus returns: none of
  -- the loops on the way takes more rounds than the model allows it. (`stuck` is the model's error
  -- for a loop that does, so no connection ends with it.)
  pub read_status-Ended : (r : BufioReader) → r.failure ≢ stuck → Ended (read_status unmarshal r).0
  read_status-Ended r open_end = read_status-IsLive.ends r open_end
