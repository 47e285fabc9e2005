-- ===== src/Nf/Server/Packets.antt =====
-- all-sync/server.hpp: the queue of UDP packets between the thread that polls and the workers.
use kknf.Base.{◌≡◌, refl, sym, List, [], ◌∷◌, ◌++◌, ◌∙◌, append-nil, append_assoc, arith}
use kknf.Nf.Addr.{Packet}
use kknf.Nf.Server.{Server, no_list, waits, got, insert_udp_recv_packet, get_udp_packet}

-- A call on the queue: packets come in, or a worker asks for one.
pub data Call : Type 0 where
  insert : List Packet → Call
  get : Call

-- The packets that a call puts in.
abbrev pub inserted : List Call → List Packet
inserted [] = []
inserted (insert ps ∷ cs) = ps ++ inserted cs
inserted (get ∷ cs) = inserted cs

-- The packets given to workers, in order, and the Server at the end.
unfoldable pub run : List Call → Server → List Packet × Server
run [] srv = ([], srv)
run (insert ps ∷ cs) srv = run cs (insert_udp_recv_packet ps srv)
run (get ∷ cs) srv = elim (get_udp_packet srv) [
  | no_list ↦ run cs srv
  | waits ↦ run cs srv
  | got srv' p ↦ let rest = run cs srv' in (p ∷ rest.0, rest.1)
]

-- For any sequence of calls, the packets given to the workers and then those still queued are those
-- queued at the start and then those put in, in order: none is lost, doubled or overtaken.
pub run-in_order :
    (cs : List Call) (srv : Server)
    → (run cs srv).0 ++ (run cs srv).1.udp_recv ≡ srv.udp_recv ++ inserted cs
unfolding run get_udp_packet insert_udp_recv_packet
run-in_order [] srv = sym (append-nil srv.udp_recv)
run-in_order (insert ps ∷ cs) srv =
    run-in_order cs (record srv { udp_recv = srv.udp_recv ++ ps })
    ∙ append_assoc srv.udp_recv ps (inserted cs)
run-in_order (get ∷ cs) srv = by srv.udp_recv refl (λ s. run-in_order cs s)
  where
    by :
        (q : List Packet)
        → srv.udp_recv ≡ q
        → ((s : Server) → (run cs s).0 ++ (run cs s).1.udp_recv ≡ s.udp_recv ++ inserted cs)
        → (run (get ∷ cs) srv).0 ++ (run (get ∷ cs) srv).1.udp_recv ≡ srv.udp_recv ++ inserted cs
    by [] e rest = ground (arith, rest srv)
    by (p ∷ ps) e rest = ground (arith, rest (record srv { udp_recv = ps }))
