-- ===== src/Aanf/Front/Backends.antt =====
-- aanf/asio-based2/test/lv_bb1.cc: ProcessData() of a backend (lv_bb2.cc has the same one for BB2), and
-- lv_c.cc: the client that sends requests to the front server.
use kknf.Base.{
  ℕ, ◌+◌, ◌-◌, ◌%◌, ◌^◌, ◌≡◌, ◌<◌, refl, List, [], ◌∷◌, true, false, ltb, ◌==◌, if◌then◌else◌,
  length, drop, arith, ◌++◌,
}
use kknf.Base.Int.{ℤ, pos, minus_one}
use kknf.Aanf.Tables.{tcp_lv}
use kknf.Aanf.Front.{
  read_int, int_bytes, one_field, req_to_bf, t_req_to_bb1, t_rsp_from_bb1, Call, to_write_then_read,
}

-- How ProcessData() of a program without a state of its own ends.
pub data Answered (E : Type 0) : Type 0 where
  over_read : Answered E
  answers : ℤ → List (Call E) → Answered E

-- The client's static variables.
pub record Counters : Type 0 where
  pub a : ℕ
  pub b : ℕ
  pub seq : ℕ

module _ {E : Type 0} where
  -- TestBB1::ProcessData, with the number that `die` draws.
  unfoldable pub process_bb1 : ℕ → List ℕ → E → Answered E
  process_bb1 die buf from =
      if ltb (length buf) 8
      then over_read
      else if read_int (drop 4 buf) == t_req_to_bb1
      then if ltb (length buf) 16
        then over_read
        else answers (pos 2) (
            to_write_then_read from tcp_lv
              (one_field t_rsp_from_bb1 (read_int (drop 8 buf))
                ((read_int (drop 12 buf) + die) % 2 ^ 32))
              true
            ∷ [])
      else answers minus_one []

  -- TestClient::ProcessData of lv_c.cc: it prints the answer.
  unfoldable pub process_answer : List ℕ → Answered E
  process_answer buf = if ltb (length buf) 20 then over_read else answers (pos 1) []

  -- TestClient::PrepareDataThenSend; the ints wrap.
  unfoldable pub prepare_data_then_send : E → Counters → Counters × Call E
  prepare_data_then_send server_endpoint c = (
    record { a = (c.a + 1) % 2 ^ 32; b = (c.b + 2 ^ 32 - 1) % 2 ^ 32; seq = (c.seq + 1) % 2 ^ 32 },
    to_write_then_read server_endpoint tcp_lv (req_to_bf c.seq c.a c.b) false,
  )

  -- BB1 answers a request of the front server with the same number and its value plus what it draws.
  pub process_bb1-one_field :
      (die seq a : ℕ) (from : E)
      → seq < 2 ^ 32
      → a < 2 ^ 32
      → process_bb1 die (one_field t_req_to_bb1 seq a) from
        ≡ answers (pos 2) (
            to_write_then_read from tcp_lv (one_field t_rsp_from_bb1 seq ((a + die) % 2 ^ 32)) true
            ∷ [])
  unfolding process_bb1
  process_bb1-one_field die seq a from hs ha =
      let s : read_int (int_bytes seq ++ int_bytes a) ≡ seq = omega arith in
      let x : read_int (int_bytes a) ≡ a = omega arith in rw (s, x) refl
