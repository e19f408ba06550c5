-- ===== src/Mcping/Packet/Segments.antt =====
-- readPacket does not depend on how the network cuts the bytes into segments.
use mcmon.Prelude.{
  ℕ, ◌≡◌, refl, sym, ap, ◌∙◌, List, ◌++◌, arith, length, take, drop, take-append-drop, length-take,
}
use mcmon.Mcping.Result.{Result, ok, err, Exec, lift, continue, ◌>>=◌}
use mcmon.Mcping.Reader.{BufioReader, pending, bufio_byte_reader}
use mcmon.Mcping.VarInt.{read_var_int}
use mcmon.Mcping.VarInt.Stream.{stream_byte_reader, stream_of, read_var_int-SameOutcome}
use mcmon.Mcping.Packet.{read_full_reader, packet_of_length, read_packet}
use mcmon.Mcping.Packet.Full.{Gives, RunsOut, read_full_reader-Gives, read_full_reader-RunsOut}
use native.Mathlib.Decide.{dec_le}

-- Two connections that will give the same bytes and then the same error.
pub record SameBytes (r s : BufioReader) : Type 0 where
  pub bytes : pending r ≡ pending s
  pub closing : r.failure ≡ s.failure

pub record SameEnds {A : Type 0} (p q : Result A × BufioReader) : Type 0 where
  pub result : p.0 ≡ q.0
  pub reader : SameBytes p.1 q.1

-- `m` does not see the segments.
pub record IsBlind {A : Type 0} (m : Exec BufioReader A) : Type 0 where
  pub at : (r s : BufioReader) → SameBytes r s → SameEnds (m r) (m s)

pub IsBlind-lift : {A : Type 0} (x : Result A) → IsBlind (lift x)
IsBlind-lift x = record { at = λ r s h. record { result = refl; reader = h } }

SameEnds-continue :
    {A B : Type 0} (x y : Result A) (f : A → Exec BufioReader B) (r s : BufioReader)
    → ((a : A) → IsBlind (f a))
    → x ≡ y
    → SameBytes r s
    → SameEnds (continue x f r) (continue y f s)
SameEnds-continue (ok a) y f r s h e same = rw (← e) ((h a).at r s same)
SameEnds-continue (err a) y f r s h e same = rw (← e) (record { result = refl; reader = same })

pub IsBlind-bind :
    {A B : Type 0} (m : Exec BufioReader A) (f : A → Exec BufioReader B)
    → IsBlind m
    → ((a : A) → IsBlind (f a))
    → IsBlind (m >>= f)
IsBlind-bind m f hm hf = record {
  at = λ r s h.
      SameEnds-continue (m r).0 (m s).0 f (m r).1 (m s).1 hf (hm.at r s h).result
        (hm.at r s h).reader;
}

read_var_int-IsBlind : IsBlind (read_var_int {R = BufioReader})
read_var_int-IsBlind = record {
  at = λ r s h.
      let same : stream_of r ≡ stream_of s =
        λ i. record { bytes = h.bytes i; ending = h.closing i } in
      let left : stream_of (read_var_int r).1 ≡ stream_of (read_var_int s).1 =
        (read_var_int-SameOutcome r).stream
        ∙ ap (λ t. (read_var_int t).1) same
        ∙ sym (read_var_int-SameOutcome s).stream in
      record {
        result =
            (read_var_int-SameOutcome r).result
            ∙ ap (λ t. (read_var_int t).0) same
            ∙ sym (read_var_int-SameOutcome s).result;
        reader = record { bytes = ap (λ t. t.bytes) left; closing = ap (λ t. t.ending) left };
      };
}

SameEnds-Gives :
    {d rest : List ℕ} {r s : BufioReader} {p q : Result (List ℕ) × BufioReader}
    → r.failure ≡ s.failure
    → Gives d rest r p
    → Gives d rest s q
    → SameEnds p q
SameEnds-Gives same g h = record {
  result = g.result ∙ sym h.result;
  reader = record { bytes = g.left ∙ sym h.left; closing = g.closing ∙ same ∙ sym h.closing };
}

SameEnds-RunsOut :
    {r s : BufioReader} {p q : Result (List ℕ) × BufioReader}
    → r.failure ≡ s.failure
    → RunsOut r p
    → RunsOut s q
    → SameEnds p q
SameEnds-RunsOut same g h = record {
  result = g.result ∙ ap err same ∙ sym h.result;
  reader = record { bytes = g.left ∙ sym h.left; closing = g.closing ∙ same ∙ sym h.closing };
}

read_full_reader-IsBlind : (len : ℕ) → IsBlind (read_full_reader len)
read_full_reader-IsBlind len = record {
  at = λ r s h. elim (dec_le len (length (pending r))) [
    | yes enough ↦
        let front = take len (pending r) in
        let back = drop len (pending r) in
        let cut : front ++ back ≡ pending r = take-append-drop len (pending r) in
        let full : length front ≡ len = omega (arith, length-take len (pending r)) in
        SameEnds-Gives h.closing (read_full_reader-Gives r len front back (sym cut) full)
          (read_full_reader-Gives s len front back (sym h.bytes ∙ sym cut) full)
    | no short ↦
        SameEnds-RunsOut h.closing (read_full_reader-RunsOut r len (omega arith))
          (read_full_reader-RunsOut s len (omega (arith, ap length h.bytes)))
  ];
}

ruleset blind_rules = (IsBlind-lift, IsBlind-bind, read_var_int-IsBlind, read_full_reader-IsBlind)

packet_of_length-IsBlind : (len : ℕ) → IsBlind (packet_of_length len)
unfolding packet_of_length
packet_of_length-IsBlind len = search blind_rules

-- readPacket gives the same result on two connections with the same bytes to come and the same
-- error behind them, and leaves the same bytes, however the network cuts them into segments.
pub read_packet-IsBlind : IsBlind read_packet
unfolding read_packet
read_packet-IsBlind = search (blind_rules, packet_of_length-IsBlind)
