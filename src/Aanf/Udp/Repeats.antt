-- ===== src/Aanf/Udp/Repeats.antt =====
-- The datagram at the front is never taken off the list.
use kknf.Base.{◌≤◌, ◌≡◌, List, [], ◌∷◌, Option, none, some, true, All, length}
use kknf.Aanf.Udp.{Item, UdpSocketInfo, udp_to_write, handle_udp_write}

module _ (E : Type 0) where
  -- A caller writes a datagram, or the system says that the last one is sent.
  pub data Event : Type 0 where
    write : Item E → Event
    sent : Event

module _ {E : Type 0} where
  -- A run of events; `none` is a failed assertion.
  unfoldable pub run : List (Event E) → UdpSocketInfo E → Option (UdpSocketInfo E)
  run [] u = some u
  run (write i ∷ es) u = run es (udp_to_write i u).0
  run (sent ∷ es) u = elim (handle_udp_write u) [ none ↦ none | some v ↦ run es v ]

  abbrev pub IsFront : Item E → List (Item E) → Type 0
  IsFront i [] = ⊥
  IsFront i (j ∷ js) = j ≡ i

  -- A send is under way, the item is at the front of the list, and nothing else has been sent.
  pub record IsStuck (i : Item E) (u : UdpSocketInfo E) : Type 0 where
    pub busy : u.in_use ≡ true
    pub front : IsFront i u.send_buf_list
    pub only : All (λ j. j ≡ i) u.sends
    pub fits : length u.send_buf_list ≤ u.max_length_of_send_buf_list
