-- ===== src/Aanf/Tables.antt =====
-- aanf/asio-based2/include: SocketInfo of socketinfo.hpp, and the tables of skeleton.hpp that hold
-- the sockets by the address of their far end. A SocketInfoPtr is a number; `info` is what it
-- points to. The callback of a socket and its near end are not kept.
pub mod Idle
pub mod Servers
use kknf.Base.{
  ℕ, ◌-◌, List, [], ◌∷◌, ◌++◌, Option, none, some, Bool, true, false, not, ◌&&◌, ◌||◌, ◌==◌, ltb,
  if◌then◌else◌, replicate,
}
use kknf.Base.Int.{ℤ, pos, minus_one}
use kknf.Base.Map.{Order, Map, find, assign, erase}

-- SocketInfo::SocketType.
pub data SocketType : Type 0 where
  tcp_line tcp_lv tcp_tlv tcp_http tcp_usr1 tcp_unknown : SocketType

-- std::list::remove.
unfoldable pub remove : ℕ → List ℕ → List ℕ
remove p [] = []
remove p (q ∷ qs) = let rest = remove p qs in if p == q then rest else q ∷ rest

module _ (E : Type 0) where
  -- `is_open` tells whether the descriptor of `tcp_sk_` is open; times are in milliseconds.
  pub record SocketInfo : Type 0 where
    pub type_ : SocketType
    pub remote_endpoint : E
    pub is_open : Bool
    pub create_time : ℕ
    pub access_time : ℕ
    pub in_use : Bool
    pub is_client : Bool
    pub is_connected : Bool
    pub recv_buf : List ℕ
    pub recv_buf_filled : ℕ
    pub send_buf : List ℕ

  pub record Skeleton : Type 0 where
    pub info : ℕ → SocketInfo
    pub servers : Map E ℕ
    pub clients : Map E (List ℕ)
    pub init_recv_buf_size : ℕ
    pub max_recv_buf_size : ℕ

module _ {E : Type 0} where
  -- SocketInfo's constructor, with the far end that is set next.
  unfoldable pub new_info : SocketType → E → ℕ → SocketInfo E
  new_info type_ remote now = record {
    type_ = type_;
    remote_endpoint = remote;
    is_open = true;
    create_time = now;
    access_time = now;
    in_use = false;
    is_client = false;
    is_connected = false;
    recv_buf = [];
    recv_buf_filled = 0;
    send_buf = [];
  }

  -- A write to what a pointer points to.
  unfoldable pub write : ℕ → SocketInfo E → Skeleton E → Skeleton E
  write p i s = record s { info = λ q. if q == p then i else s.info q }

  -- SocketInfo::Touch.
  unfoldable pub touch : ℕ → ℕ → Skeleton E → Skeleton E
  unfolding write
  touch now p s = write p (record (s.info p) { access_time = now }) s

  -- SocketInfo::SetRecvBuf(size_t).
  unfoldable pub set_recv_buf : ℕ → ℕ → Skeleton E → Skeleton E
  unfolding write
  set_recv_buf byte_num p s = write p (record (s.info p) { recv_buf = replicate byte_num 0 }) s

  -- The test of the loop in FindIdleTCPClientSocket.
  abbrev pub is_busy : SocketInfo E → Bool
  is_busy i = i.in_use || not i.is_connected

  -- The loop over the sockets to one address.
  unfoldable pub first_idle : (ℕ → SocketInfo E) → List ℕ → Option ℕ
  first_idle info [] = none
  first_idle info (p ∷ ps) =
      let rest = first_idle info ps in if is_busy (info p) then rest else some p

  -- The loop of SweepServerSocket: the entries that stay, and the sockets to close.
  unfoldable pub sweep_loop : ℕ → (ℕ → SocketInfo E) → Map E ℕ → Map E ℕ × List ℕ
  sweep_loop expire_time info [] = ([], [])
  sweep_loop expire_time info ((k, p) ∷ m) =
      let (kept, closed) = sweep_loop expire_time info m in
      if ltb (info p).access_time expire_time then (kept, p ∷ closed) else ((k, p) ∷ kept, closed)

  unfoldable pub close_all : List ℕ → Skeleton E → Skeleton E
  unfolding write
  close_all [] s = s
  close_all (p ∷ ps) s = close_all ps (write p (record (s.info p) { is_open = false }) s)

  -- Skeleton::SweepServerSocket, where `now` is not before `milliseconds`.
  unfoldable pub sweep_server_socket : ℕ → ℕ → Skeleton E → Skeleton E
  unfolding sweep_loop close_all
  sweep_server_socket now milliseconds s =
      let (kept, closed) = sweep_loop (now - milliseconds) s.info s.servers in
      close_all closed (record s { servers = kept })

  module _ ⦃o : Order E⦄ where
    -- Skeleton::FindTCPServerSocket.
    unfoldable pub find_tcp_server_socket : E → Skeleton E → Option ℕ
    find_tcp_server_socket key s = find key s.servers

    -- Skeleton::InsertTCPServerSocket.
    unfoldable pub insert_tcp_server_socket : E → ℕ → Skeleton E → Skeleton E × ℤ
    insert_tcp_server_socket key p s = elim (find key s.servers) [
      | some q ↦ (s, minus_one)
      | none ↦ (record s { servers = assign key p s.servers }, pos 0)
    ]

    -- Skeleton::FindIdleTCPClientSocket.
    unfoldable pub find_idle_tcp_client_socket : E → Skeleton E → Option ℕ
    unfolding first_idle
    find_idle_tcp_client_socket key s = elim (find key s.clients) [
      | none ↦ none
      | some ps ↦ first_idle s.info ps
    ]

    -- Skeleton::InsertTCPClientSocket.
    unfoldable pub insert_tcp_client_socket : E → ℕ → Skeleton E → Skeleton E
    insert_tcp_client_socket key p s = elim (find key s.clients) [
      | some ps ↦ record s { clients = assign key (ps ++ p ∷ []) s.clients }
      | none ↦ record s { clients = assign key (p ∷ []) s.clients }
    ]

    -- The socket leaves the list of its address, or the table of the server's sockets.
    unfoldable pub forget : ℕ → Skeleton E → Skeleton E × ℤ
    unfolding remove
    forget p s =
        let key = (s.info p).remote_endpoint in
        if (s.info p).is_client
        then elim (find key s.clients) [
          | none ↦ (s, minus_one)
          | some ps ↦ (record s { clients = assign key (remove p ps) s.clients }, pos 0)
        ]
        else (record s { servers = erase key s.servers }, pos 0)

    -- Skeleton::DestroySocket.
    unfoldable pub destroy_socket : ℕ → Skeleton E → Skeleton E × ℤ
    unfolding forget write
    destroy_socket p s = forget p (write p (record (s.info p) { is_open = false }) s)
