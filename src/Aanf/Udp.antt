-- ===== src/Aanf/Udp.antt =====
-- aanf/asio-based2/include: the datagrams to send and to read. UDPSocketInfo of socketinfo.hpp, and
-- UDPToWrite, HandleUDPWrite and HandleUDPRead of skeleton.hpp.
pub mod Repeats
use kknf.Base.{
  ℕ, List, [], ◌∷◌, ◌++◌, Option, none, some, Bool, true, false, ◌==◌, if◌then◌else◌, length,
}
use kknf.Base.Int.{ℤ, pos, minus_one, ltb_ℤ, pos_part}

module _ (E : Type 0) where
  -- A datagram and where it goes.
  abbrev pub Item : Type 0
  Item = E × List ℕ

  -- `sends` are the datagrams that async_send_to() has been given, in order.
  pub record UdpSocketInfo : Type 0 where
    pub max_length_of_send_buf_list : ℕ
    pub in_use : Bool
    pub send_buf_list : List Item
    pub sends : List Item

module _ {E : Type 0} where
  -- UDPSocketInfo's constructor.
  abbrev pub new_udp_socket_info : UdpSocketInfo E
  new_udp_socket_info = record {
    max_length_of_send_buf_list = 100;
    in_use = false;
    send_buf_list = [];
    sends = [];
  }

  -- Skeleton::InitUDPSocket, where bind() succeeds or not; a first read is started where it does.
  abbrev pub init_udp_socket : Bool → UdpSocketInfo E × ℤ
  init_udp_socket bound = (new_udp_socket_info, if bound then pos 0 else minus_one)

  -- UDPSocketInfo::AddSendBuf.
  unfoldable pub add_send_buf : Item E → UdpSocketInfo E → UdpSocketInfo E × ℤ
  add_send_buf item u =
      if length u.send_buf_list == u.max_length_of_send_buf_list
      then (u, minus_one)
      else (record u { send_buf_list = u.send_buf_list ++ item ∷ [] }, pos 0)

  -- UDPSocketInfo::GetSendBufListFront; an empty list has no front.
  abbrev pub get_send_buf_list_front : UdpSocketInfo E → Option (Item E)
  get_send_buf_list_front u = elim u.send_buf_list [ [] ↦ none | i ∷ is ↦ some i ]

  -- UDPSocketInfo::DeleteSendBufListFront, which nothing calls.
  abbrev pub delete_send_buf_list_front : UdpSocketInfo E → UdpSocketInfo E
  delete_send_buf_list_front u = record u {
    send_buf_list = elim u.send_buf_list [ [] ↦ [] | i ∷ is ↦ is ];
  }

  -- async_send_to() of the front: what it is given. Its buffer is that of a local copy, which is gone when
  -- the function returns, so what is sent later is what is given here only as long as the system reads the
  -- buffer before that.
  unfoldable pub send_front : UdpSocketInfo E → UdpSocketInfo E
  send_front u = elim (get_send_buf_list_front u) [
    | none ↦ u
    | some i ↦ record u { sends = u.sends ++ i ∷ [] }
  ]

  -- After AddSendBuf: the first item of an idle socket is sent at once.
  unfoldable pub after_add : UdpSocketInfo E × ℤ → UdpSocketInfo E × ℤ
  unfolding send_front
  after_add (u, ret) =
      if ltb_ℤ ret (pos 0)
      then (u, minus_one)
      else if u.in_use
      then (u, pos 0)
      else (record (send_front u) { in_use = true }, pos 0)

  -- Skeleton::UDPToWrite.
  unfoldable pub udp_to_write : Item E → UdpSocketInfo E → UdpSocketInfo E × ℤ
  unfolding add_send_buf after_add
  udp_to_write item u = after_add (add_send_buf item u)

  -- Skeleton::HandleUDPWrite, which does not look at the error; `none` is the failed assertion.
  unfoldable pub handle_udp_write : UdpSocketInfo E → Option (UdpSocketInfo E)
  unfolding send_front
  handle_udp_write u =
      if length u.send_buf_list == 0
      then if u.in_use then some (record u { in_use = false }) else none
      else some (send_front u)

-- Skeleton::HandleUDPRead, which does not look at the error: whether UDPToRead starts another read after
-- the answer of ProcessData(); `none` is the failed assertion.
unfoldable pub handle_udp_read : ℤ → Option Bool
handle_udp_read ret =
    if ltb_ℤ ret (pos 0)
    then some false
    else if pos_part ret == 0
    then none
    else if pos_part ret == 1
    then some false
    else if pos_part ret == 2
    then none
    else if pos_part ret == 3
    then some true
    else none
