-- ===== src/Mcping/Status.antt =====
-- readStatus and parseStatusJSON of internal/mcping/mcping.go. `json.Unmarshal` into the anonymous
-- struct of parseStatusJSON is the argument `unmarshal`: `none` is its error, and a pointer is an
-- `Option`.
pub mod Segments
pub mod Ends
pub mod Served
use mcmon.Prelude.{ℕ, zero, suc, ℤ, Option, none, some, List, ◌==◌, if◌then◌else◌}
use mcmon.Mcping.Result.{
  Result, ok, err, Error, invalid_status_json, unexpected_status, Exec, pure, fail, lift, continue,
  ◌>>=◌,
}
use mcmon.Mcping.Reader.{BytesReader, BufioReader, bytes_byte_reader}
use mcmon.Mcping.VarInt.{read_var_int}
use mcmon.Mcping.Packet.{read_full, read_packet}

pub record Players : Type 0 where
  pub online : Option ℤ
  pub max : Option ℤ

pub record RawStatus : Type 0 where
  pub players : Option Players

abbrev pub Unmarshal : Type 0
Unmarshal = List ℕ → Option RawStatus

pub record Status : Type 0 where
  pub players_online : Option ℤ
  pub players_max : Option ℤ

abbrev pub no_status : Status
no_status = record { players_online = none; players_max = none }

module _ (unmarshal : Unmarshal) where
  unfoldable pub parse_status_json : List ℕ → Result Status
  parse_status_json json_bytes = elim (unmarshal json_bytes) [
    | none ↦ err invalid_status_json
    | some raw ↦ elim raw.players [
      | none ↦ ok no_status
      | some p ↦ ok (record { players_online = p.online; players_max = p.max })
    ]
  ]

  -- The length-prefixed JSON text of a status payload.
  unfoldable pub payload_status : Exec BytesReader Status
  unfolding parse_status_json
  payload_status = do
    json_len ← read_var_int
    json_bytes ← read_full json_len
    lift (parse_status_json json_bytes)

  unfoldable pub status_of_packet : ℕ × List ℕ → Result Status
  unfolding payload_status
  status_of_packet (pid, payload) =
      if pid == 0 then (payload_status payload).0 else err (unexpected_status pid)

  unfoldable pub read_status : Exec BufioReader Status
  unfolding status_of_packet
  read_status = do packet ← read_packet; lift (status_of_packet packet)
