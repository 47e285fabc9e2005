-- ===== src/Aanf/Front/Datagrams.antt =====
-- aanf/asio-based2/test/udp_bf.cc and udp_bb1.cc: the front server and a backend over datagrams, with
-- HandleUDPRead of the skeleton, which gets what their ProcessData() answers.
use kknf.Base.{ℕ, ◌≡◌, ◌⊎◌, List, none, some, false, arith}
use kknf.Base.Int.{ℤ}
use kknf.Base.Map.{number_order}
use kknf.Aanf.Udp.{handle_udp_read}
use kknf.Aanf.Front.{TestBf, Call, udp_to_write, Processed, answers, Sends, process_packet}

module _ {E : Type 0} where
  -- Both go out with UDPToWrite.
  abbrev pub udp_sends : Sends E
  udp_sends = record {
    to_backend = λ which to bytes. udp_to_write to bytes;
    to_client = λ to bytes. udp_to_write to bytes;
  }

  -- TestBF::ProcessData of udp_bf.cc.
  unfoldable pub process_datagram : ℕ → List ℕ → E → TestBf E → Processed E
  unfolding process_packet
  process_datagram memory buf from f = process_packet udp_sends memory buf from f

  -- Whatever datagram comes, HandleUDPRead either fails an assertion with the answer of ProcessData(), or
  -- starts no other read, so the front server gets one datagram at most.
  pub process_datagram-last :
      (memory : ℕ) (buf : List ℕ) (from : E) (f g : TestBf E) (code : ℤ) (calls : List (Call E))
      → process_datagram memory buf from f ≡ answers code g calls
      → (handle_udp_read code ≡ none) ⊎ (handle_udp_read code ≡ some false)
  unfolding process_datagram handle_udp_read
  process_datagram-last memory buf from f g code calls e = ground arith
