-- ===== src/Nf/Stream/RoundTrip.antt =====
-- One side sends a framed packet, the other receives it.
use kknf.Base.{ℕ, ◌+◌, ◌^◌, ◌≤◌, ◌<◌, ◌≡◌, List, ◌++◌, some, arith, length, All}
use kknf.Base.Int.{pos}
use kknf.Nf.Stream.{SendAnswer, RecvAnswer, frame, tcp_send, tcp_recv}
use kknf.Nf.Stream.Sent.{Takes, tcp_send-returns}
use kknf.Nf.Stream.Received.{Gives, tcp_recv-frame}

-- What TCPSend has given to the system for a framed packet of 1 to `max` bytes, TCPRecv at the other
-- end turns into that packet, with 0 for a code, and nothing that follows on the wire is touched;
-- however the system cuts up the two sides, as long as each call moves at least one byte.
pub tcp_recv-tcp_send :
    (max : ℕ) (buf packet rest : List ℕ) (sends : List SendAnswer) (recvs : List RecvAnswer)
    → max < 2 ^ 31
    → 0 < length packet
    → length packet ≤ max
    → All Takes sends
    → length packet + 4 ≤ length sends
    → All Gives recvs
    → length packet + 4 ≤ length recvs
    → tcp_recv max buf recvs ((tcp_send (some (frame packet)) sends).taken ++ rest)
      ≡ record { code = some (pos 0); buf = packet; wire = rest }
tcp_recv-tcp_send max buf packet rest sends recvs small some_bytes fits t st g sg =
    rw (tcp_send-returns (frame packet) sends t (unfold frame in omega arith)).1
      (tcp_recv-frame max buf packet rest recvs small some_bytes fits g sg)
