-- ===== src/Nf/Front/Sum.antt =====
-- The front server of all-sync/test_bf.cc together with its two backends, test_bb1.cc and test_bb2.cc.
use kknf.Base.{ℕ, ◌≡◌, ◌≤◌, ◌∙◌, sym, ap, List, [], ◌∷◌, ◌++◌, arith, length, All}
use mathlib.Core.List.{append_cancel_left}
use kknf.Nf.Socket.{Socket}
use kknf.Nf.Stream.{frame}
use kknf.Nf.Stream.Received.{Gives}
use kknf.Nf.Server.{Server, got, get_server_ready_socket}
use kknf.Nf.Worker.{Worker, Result, Incoming, ended}
use kknf.Nf.Worker.Calls.{Brings, Carries}
use kknf.Nf.Front.{Round}
use kknf.Nf.Backend
use kknf.Nf.Backend.{ReqBb1}

-- What a backend has sent over the socket `sk` in the round from `before` to `after` comes first on
-- the wire, and each call of recv() gives some of it.
abbrev pub Relays : Worker → Worker → Socket → Incoming → Type 0
Relays before after sk i =
    (bytes : List ℕ) × (rest : List ℕ) × (after.sent ≡ before.sent ++ (sk, bytes) ∷ [])
    × (i.wire ≡ bytes ++ rest)
    × All Gives i.answers
    × (16 ≤ length i.answers)

-- The round of a backend that takes the socket `sk` and gets the packet over it.
abbrev pub Serves : ℕ → Backend.Round → Worker → Socket → ReqBb1 → Type 0
Serves index r before sk p =
    ((srv : Server) × (get_server_ready_socket index before.srv ≡ got srv sk))
    × Brings (Backend.packet p) r.request
    × Carries 16 r.answer

-- What a round has sent over the socket as its last packet of 12 bytes comes back whole.
pub Relays-frame :
    (packet : List ℕ) (r : Result (Unit {0})) (before after out : Worker) (sk : Socket)
    (i : Incoming)
    → length packet ≡ 12
    → out.sent ≡ before.sent ++ (sk, frame packet) ∷ []
    → r ≡ ended out
    → r ≡ ended after
    → Relays before after sk i
    → Brings packet i
Relays-frame packet r before after out sk i len sent e1 e2 (bytes, rest, sent', wire, g, enough) =
    let same_sent : out.sent ≡ after.sent =
      ap (λ (x : Result (Unit {0})). elim x [ ended f ↦ f.sent | _ ↦ before.sent ]) (sym e1 ∙ e2) in
    let same : frame packet ≡ bytes = cc (
      append_cancel_left before.sent ((sk, frame packet) ∷ []) ((sk, bytes) ∷ [])
        (sym sent ∙ same_sent ∙ sent')) in
    (rest, wire ∙ ap (λ bs. bs ++ rest) (sym same), g, omega (arith, enough, len))
