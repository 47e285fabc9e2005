-- ===== src/Aanf/Front.antt =====
-- aanf/asio-based2/test/lv_bf.cc: ProcessData() of the front server TestBF, which asks two backends and
-- adds up what they answer, and the packets of test_packet.hpp. An int is its pattern of 32 bits; in a
-- packet its low byte comes first, but for the length. What ProcessData() starts is listed as calls.
pub mod Arrive
pub mod Answers
pub mod CallBacks
pub mod Http
pub mod Datagrams
pub mod Backends
pub mod Main
use kknf.Base.{
  ℕ, ◌+◌, ◌*◌, ◌/◌, ◌%◌, ◌^◌, List, [], ◌∷◌, ◌++◌, Option, none, some, Bool, true, false, ◌&&◌, ltb,
  ◌==◌, if◌then◌else◌, length, drop,
}
use kknf.Base.Int.{ℤ, pos, minus_one}
use kknf.Base.Map.{Order, Map, find, assign, number_order}
use kknf.Nf.Stream.{htonl}
use kknf.Aanf.Tables.{SocketType, tcp_lv}

-- An int as the machine keeps it.
abbrev pub int_bytes : ℕ → List ℕ
int_bytes n = n % 256 ∷ n / 2 ^ 8 % 256 ∷ n / 2 ^ 16 % 256 ∷ n / 2 ^ 24 % 256 ∷ []

abbrev pub read_int : List ℕ → ℕ
read_int (a ∷ b ∷ c ∷ d ∷ _) = a + 256 * (b + 256 * (c + 256 * d))
read_int _ = 0

-- TestPacketBase::PacketType.
abbrev pub t_req_to_bf : ℕ
t_req_to_bf = 1

abbrev pub t_rsp_from_bf : ℕ
t_rsp_from_bf = 2

abbrev pub t_req_to_bb1 : ℕ
t_req_to_bb1 = 3

abbrev pub t_rsp_from_bb1 : ℕ
t_rsp_from_bb1 = 4

abbrev pub t_req_to_bb2 : ℕ
t_req_to_bb2 = 5

abbrev pub t_rsp_from_bb2 : ℕ
t_rsp_from_bb2 = 6

-- TestPacketBase: the length of the packet, `type_` and `seq_`; then the fields of its class.
abbrev pub packet_base : ℕ → ℕ → ℕ → List ℕ
packet_base len type_ seq = htonl len ++ int_bytes type_ ++ int_bytes seq

-- ReqToBB1, RspFromBB1, ReqToBB2 and RspFromBB2 have one field more.
abbrev pub one_field : ℕ → ℕ → ℕ → List ℕ
one_field type_ seq value = packet_base 16 type_ seq ++ int_bytes value

abbrev pub req_to_bf : ℕ → ℕ → ℕ → List ℕ
req_to_bf seq a b = packet_base 20 t_req_to_bf seq ++ int_bytes a ++ int_bytes b

-- RspFromBF, with `error_` 0.
abbrev pub rsp_from_bf : ℕ → ℕ → List ℕ
rsp_from_bf seq sum = packet_base 20 t_rsp_from_bf seq ++ int_bytes sum ++ int_bytes 0

-- Whose callback ToWriteThenCallBack gets.
pub data Backend : Type 0 where
  bb1 bb2 : Backend

module _ (E : Type 0) where
  -- ReqLocalData: `sum` is `rsp_.sum_`, `client` the address of the client.
  pub record ReqLocalData : Type 0 where
    pub bb1_rsp_arrived : Bool
    pub bb2_rsp_arrived : Bool
    pub sum : ℕ
    pub client : E

  -- TestBF, without what it has of Skeleton. The order of `ld` is never looked at.
  pub record TestBf : Type 0 where
    pub ld : Map ℕ ReqLocalData
    pub bb1_endpoint : E
    pub bb2_endpoint : E

  -- A call of the skeleton.
  pub data Call : Type 0 where
    to_write_then_read : E → SocketType → List ℕ → Bool → Call
    to_write_then_call_back : E → SocketType → List ℕ → Backend → Call
    udp_to_write : E → List ℕ → Call

  -- How ProcessData() ends: by a read past the end of the packet, or with its answer.
  pub data Processed : Type 0 where
    over_read : Processed
    answers : ℤ → TestBf → List Call → Processed

  -- How a program sends a request to a backend, and an answer to its client.
  pub record Sends : Type 0 where
    pub to_backend : Backend → E → List ℕ → Call
    pub to_client : E → List ℕ → Call

module _ {E : Type 0} where
  -- lv_bf.cc sends both with ToWriteThenRead.
  abbrev pub lv_sends : Sends E
  lv_sends = record {
    to_backend = λ which to bytes. to_write_then_read to tcp_lv bytes false;
    to_client = λ to bytes. to_write_then_read to tcp_lv bytes true;
  }

  -- The entry of a new request; `rsp_.sum_` is not set, and is what the memory held.
  abbrev pub new_req_local_data : ℕ → E → ReqLocalData E
  new_req_local_data sum client = record {
    bb1_rsp_arrived = false;
    bb2_rsp_arrived = false;
    sum = sum;
    client = client;
  }

  -- The two requests.
  abbrev pub ask_backends : Sends E → ℕ → ℕ → ℕ → E → E → List (Call E)
  ask_backends s seq a b bb1_endpoint bb2_endpoint =
      s.to_backend bb1 bb1_endpoint (one_field t_req_to_bb1 seq a)
      ∷ s.to_backend bb2 bb2_endpoint (one_field t_req_to_bb2 seq b)
      ∷ []

  -- A request, with its fields.
  unfoldable pub add_request : Sends E → ℕ → ℕ → ℕ → ℕ → E → TestBf E → Processed E
  add_request s memory seq a b from f = elim (find seq f.ld) [
    | some e ↦ answers minus_one f []
    | none ↦
        answers (pos 0) (record f { ld = assign seq (new_req_local_data memory from) f.ld })
          (ask_backends s seq a b f.bb1_endpoint f.bb2_endpoint)
  ]

  -- T_REQ_TO_BF; `memory` is what the memory of `rsp_.sum_` holds.
  unfoldable pub on_request : Sends E → ℕ → List ℕ → E → TestBf E → Processed E
  unfolding add_request
  on_request s memory buf from f =
      if ltb (length buf) 20
      then over_read
      else add_request s memory (read_int (drop 8 buf)) (read_int (drop 12 buf))
          (read_int (drop 16 buf)) from f

  -- After a response: the answer to the client, once both have arrived.
  unfoldable pub answer_client : Sends E → ℕ → TestBf E → Processed E
  answer_client s seq f = elim (find seq f.ld) [
    | none ↦ answers minus_one f []
    | some e ↦ answers (pos 1) f (
        if e.bb1_rsp_arrived && e.bb2_rsp_arrived
        then s.to_client e.client (rsp_from_bf seq e.sum) ∷ []
        else [])
  ]

  -- The response of a backend, in its entry.
  abbrev pub add_response : Backend → ℕ → ReqLocalData E → ReqLocalData E
  add_response bb1 value e = record e { sum = (e.sum + value) % 2 ^ 32; bb1_rsp_arrived = true }
  add_response bb2 value e = record e { sum = (e.sum + value) % 2 ^ 32; bb2_rsp_arrived = true }

  -- A response, with its fields.
  unfoldable pub take_response : Sends E → Backend → ℕ → ℕ → TestBf E → Processed E
  unfolding answer_client
  take_response s which seq value f = elim (find seq f.ld) [
    | none ↦ answers minus_one f []
    | some e ↦ answer_client s seq (record f { ld = assign seq (add_response which value e) f.ld })
  ]

  -- T_RSP_FROM_BB1 and T_RSP_FROM_BB2.
  unfoldable pub on_response : Sends E → Backend → List ℕ → TestBf E → Processed E
  unfolding take_response
  on_response s which buf f =
      if ltb (length buf) 16
      then over_read
      else take_response s which (read_int (drop 8 buf)) (read_int (drop 12 buf)) f

  -- What ProcessData() does with a packet.
  unfoldable pub process_packet : Sends E → ℕ → List ℕ → E → TestBf E → Processed E
  unfolding on_request on_response
  process_packet s memory buf from f =
      if ltb (length buf) 8
      then over_read
      else if read_int (drop 4 buf) == t_req_to_bf
      then on_request s memory buf from f
      else if read_int (drop 4 buf) == t_rsp_from_bb1
      then on_response s bb1 buf f
      else if read_int (drop 4 buf) == t_rsp_from_bb2
      then on_response s bb2 buf f
      else answers minus_one f []

  -- TestBF::ProcessData of lv_bf.cc.
  unfoldable pub process_data : ℕ → List ℕ → E → TestBf E → Processed E
  unfolding process_packet
  process_data memory buf from f = process_packet lv_sends memory buf from f
