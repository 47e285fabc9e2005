-- ===== src/Aanf/Front/CallBacks.antt =====
-- aanf/asio-based2/test/cb_lv_bf.cc: the front server with a callback for each backend.
use kknf.Base.{
  ℕ, ◌≡◌, ◌≤◌, List, [], ◌∷◌, some, true, ltb, ◌==◌, if◌then◌else◌, length, drop, arith, ◌≢◌,
}
use kknf.Base.Int.{pos, minus_one}
use kknf.Base.Map.{find, number_order}
use kknf.Aanf.Tables.{tcp_lv}
use kknf.Aanf.Front.{
  read_int, t_req_to_bf, t_rsp_from_bb1, t_rsp_from_bb2, rsp_from_bf, bb1, bb2, ReqLocalData,
  TestBf, to_write_then_read, to_write_then_call_back, Processed, over_read, answers, Sends,
  on_request, on_response, answer_client,
}

module _ {E : Type 0} where
  -- The requests go out with ToWriteThenCallBack, the answers with ToWriteThenRead.
  abbrev pub cb_sends : Sends E
  cb_sends = record {
    to_backend = λ which to bytes. to_write_then_call_back to tcp_lv bytes which;
    to_client = λ to bytes. to_write_then_read to tcp_lv bytes true;
  }

  -- TestBF::ProcessData of cb_lv_bf.cc: requests only.
  unfoldable pub process_request : ℕ → List ℕ → E → TestBf E → Processed E
  unfolding on_request
  process_request memory buf from f =
      if ltb (length buf) 8
      then over_read
      else if read_int (drop 4 buf) == t_req_to_bf
      then on_request cb_sends memory buf from f
      else answers minus_one f []

  -- TestBF::ReceiveRspFromBB1CallBack.
  unfoldable pub receive_rsp_from_bb1 : List ℕ → TestBf E → Processed E
  unfolding on_response
  receive_rsp_from_bb1 buf f =
      if ltb (length buf) 8
      then over_read
      else if read_int (drop 4 buf) == t_rsp_from_bb1
      then on_response cb_sends bb1 buf f
      else answers minus_one f []

  -- TestBF::ReceiveRspFromBB2CallBack, which goes on where the type is another one.
  unfoldable pub receive_rsp_from_bb2 : List ℕ → TestBf E → Processed E
  unfolding on_response answer_client
  receive_rsp_from_bb2 buf f =
      if ltb (length buf) 8
      then over_read
      else if read_int (drop 4 buf) == t_rsp_from_bb2
      then on_response cb_sends bb2 buf f
      else if ltb (length buf) 12
      then over_read
      else answer_client cb_sends (read_int (drop 8 buf)) f

  -- Where both responses have arrived for a number, a packet of another type with that number, on the
  -- connection to BB2, sends the client its answer once more and is answered with 1.
  pub receive_rsp_from_bb2-answers_again :
      (buf : List ℕ) (f : TestBf E) (e : ReqLocalData E)
      → 12 ≤ length buf
      → read_int (drop 4 buf) ≢ t_rsp_from_bb2
      → find (read_int (drop 8 buf)) f.ld ≡ some e
      → e.bb1_rsp_arrived ≡ true
      → e.bb2_rsp_arrived ≡ true
      → receive_rsp_from_bb2 buf f
        ≡ answers (pos 1) f (
            to_write_then_read e.client tcp_lv (rsp_from_bf (read_int (drop 8 buf)) e.sum) true
            ∷ [])
  unfolding receive_rsp_from_bb2
  receive_rsp_from_bb2-answers_again buf f e long other found one two = ground arith
