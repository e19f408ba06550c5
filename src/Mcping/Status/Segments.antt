-- ===== src/Mcping/Status/Segments.antt =====
-- readStatus does not depend on how the network cuts the bytes into segments.
use mcmon.Mcping.Reader.{BufioReader}
use mcmon.Mcping.Packet.Segments.{
  SameBytes, SameEnds, IsBlind, IsBlind-lift, IsBlind-bind, read_packet-IsBlind,
}
use mcmon.Mcping.Status.{Unmarshal, read_status}

pub read_status-IsBlind : (unmarshal : Unmarshal) → IsBlind (read_status unmarshal)
unfolding read_status
read_status-IsBlind unmarshal = search (IsBlind-lift, IsBlind-bind, read_packet-IsBlind)

-- Whatever the JSON decoder does, readStatus gives the same result on two connections with the same
-- bytes to come and the same error behind them, and leaves the same bytes to come on both.
pub read_status-SameEnds :
    (unmarshal : Unmarshal) (r s : BufioReader)
    → SameBytes r s
    → SameEnds (read_status unmarshal r) (read_status unmarshal s)
read_status-SameEnds unmarshal r s same = (read_status-IsBlind unmarshal).at r s same
