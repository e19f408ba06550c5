-- ===== src/Mcping/Packet/Ends.antt =====
-- Reading a packet ends on every connection: no loop of the model runs out of fuel.
use mcmon.Prelude.{
  ℕ, ◌≡◌, ◌≢◌, refl, sym, ◌∙◌, ◌⊎◌, inl, inr, List, arith, length, take, drop, take-append-drop,
  length-take,
}
use mcmon.Mcping.Result.{Result, ok, err, Error, stuck, eof, Exec, lift, continue, ◌>>=◌}
use mcmon.Mcping.Reader.{BytesReader, BufioReader, pending, bufio_byte_reader, bytes_byte_reader}
use mcmon.Mcping.VarInt.{read_var_int}
use mcmon.Mcping.VarInt.Stream.{closing-read_var_int}
use mcmon.Mcping.VarInt.RoundTrip.{Verdict, read_var_int-Verdict}
use mcmon.Mcping.Packet.{with_rest, split_packet, read_full_reader, packet_of_length, read_packet}
use mcmon.Mcping.Packet.RoundTrip.{with_rest_lem}
use mcmon.Mcping.Packet.Full.{Gives, RunsOut, read_full_reader-Gives, read_full_reader-RunsOut}
use native.Mathlib.Decide.{dec_le}

abbrev pub Ended : {A : Type 0} → Result A → Type 0
Ended x = x ≢ err stuck

-- `m` ends on every reader, and keeps the error that closes it.
pub record IsLive {A : Type 0} (m : Exec BufioReader A) : Type 0 where
  pub ends : (r : BufioReader) → r.failure ≢ stuck → Ended (m r).0
  pub closing : (r : BufioReader) → (m r).1.failure ≡ r.failure

pub IsLive-lift : {A : Type 0} (x : Result A) → Ended x → IsLive (lift x)
IsLive-lift x h = record { ends = λ r open_end. h; closing = λ r. refl }

continue-Ended :
    {A B : Type 0} (x : Result A) (f : A → Exec BufioReader B) (r : BufioReader)
    → r.failure ≢ stuck
    → Ended x
    → ((a : A) → IsLive (f a))
    → Ended (continue x f r).0
continue-Ended (ok a) f r open_end h hf = (hf a).ends r open_end
continue-Ended (err e) f r open_end h hf = λ p. h (ground arith)

continue-closing :
    {A B : Type 0} (x : Result A) (f : A → Exec BufioReader B) (r : BufioReader)
    → ((a : A) → IsLive (f a))
    → (continue x f r).1.failure ≡ r.failure
continue-closing (ok a) f r hf = (hf a).closing r
continue-closing (err e) f r hf = refl

pub IsLive-bind :
    {A B : Type 0} (m : Exec BufioReader A) (f : A → Exec BufioReader B)
    → IsLive m
    → ((a : A) → IsLive (f a))
    → IsLive (m >>= f)
IsLive-bind m f hm hf = record {
  ends = λ r open_end.
      continue-Ended (m r).0 f (m r).1 (λ p. open_end (sym (hm.closing r) ∙ p)) (hm.ends r open_end)
        hf;
  closing = λ r. continue-closing (m r).0 f (m r).1 hf ∙ hm.closing r;
}

-- A verdict is never `stuck`.
pub Verdict-Ended :
    (n : ℕ) (bytes : List ℕ) (ending : Error) (x : Result ℕ) (rest : List ℕ)
    → ending ≢ stuck
    → Verdict n bytes ending x rest
    → Ended x
Verdict-Ended n bytes ending (ok v) rest h verdict = λ p. cc
Verdict-Ended n bytes ending (err e) rest h (inl v) = λ p. ground arith
Verdict-Ended n bytes ending (err e) rest h (inr v) = λ p. ground arith

read_var_int-IsLive : IsLive (read_var_int {R = BufioReader})
read_var_int-IsLive = record {
  ends = λ r open_end.
      Verdict-Ended 0 (pending r) r.failure (read_var_int r).0 (pending (read_var_int r).1) open_end
        (read_var_int-Verdict r);
  closing = closing-read_var_int;
}

read_full_reader-IsLive : (len : ℕ) → IsLive (read_full_reader len)
read_full_reader-IsLive len = record {
  ends = λ r open_end. elim (outcome len r) [
    | inl (d, rest, g) ↦ λ p. cc (g.result, p)
    | inr g ↦ λ p. open_end (ground (arith, g.result))
  ];
  closing = λ r. elim (outcome len r) [ inl (d, rest, g) ↦ g.closing | inr g ↦ g.closing ];
}
  where
    outcome :
        (len : ℕ) (r : BufioReader)
        → ((d : List ℕ) × (rest : List ℕ) × Gives d rest r (read_full_reader len r))
          ⊎ RunsOut r (read_full_reader len r)
    outcome len r = elim (dec_le len (length (pending r))) [
      | yes enough ↦ inl (
        take len (pending r),
        drop len (pending r),
        read_full_reader-Gives r len (take len (pending r)) (drop len (pending r))
            (sym (take-append-drop len (pending r))) (omega (arith, length-take len (pending r))),
      )
      | no short ↦ inr (read_full_reader-RunsOut r len (omega arith))
    ]

pub Ended-continue :
    {S A B : Type 0} (x : Result A) (f : A → Exec S B) (s : S)
    → Ended x
    → ((a : A) (s' : S) → Ended (f a s').0)
    → Ended (continue x f s).0
Ended-continue (ok a) f s h k = k a s
Ended-continue (err e) f s h k = λ p. h (ground arith)

split_packet-Ended : (packet : List ℕ) → Ended (split_packet packet)
unfolding split_packet
split_packet-Ended packet =
    Ended-continue (read_var_int packet).0 with_rest (read_var_int packet).1
      (Verdict-Ended 0 packet eof (read_var_int packet).0 (read_var_int packet).1 (λ p. cc)
        (read_var_int-Verdict {R = BytesReader} packet))
      (λ pid br p. cc (with_rest_lem pid br, p))

packet_of_length-IsLive : (len : ℕ) → IsLive (packet_of_length len)
unfolding packet_of_length
packet_of_length-IsLive len =
    search (IsLive-lift, IsLive-bind, read_full_reader-IsLive, split_packet-Ended)

-- readPacket returns on every connection, whatever bytes it gives and whatever error ends them, and
-- none of the model's loops runs out of fuel.
pub read_packet-IsLive : IsLive read_packet
unfolding read_packet
read_packet-IsLive = search (IsLive-bind, read_var_int-IsLive, packet_of_length-IsLive)
