-- ===== src/Tests/Programs.antt =====
-- The front servers of aanf/asio-based2/test on small inputs; addresses are numbers.
use kknf.Base.{
  ℕ, ◌≡◌, ◌≢◌, inr, refl, ◌+◌, ◌-◌, ◌*◌, ◌%◌, ◌^◌, List, [], ◌∷◌, Option, some, none, true, arith,
}
use kknf.Base.Int.{ℤ, pos}
use kknf.Base.Map.{Map, find, number_order}
use kknf.Aanf.Tables.{Skeleton}
use kknf.Aanf.Accept.{AcceptorInfo}
use kknf.Aanf.Front.{bb1, bb2, TestBf, ReqLocalData, Call, lv_sends}
use kknf.Aanf.Front.Arrive.{Packet, request, response}
use kknf.Aanf.Front.Answers.{run, sent_of, sends, run-sum}
use kknf.Aanf.Front.Main.{
  Options, goes_on, read_option, read_options, check_options, listened, listen_all, start_front,
}
use kknf.Aanf.Front.Main.Ports.{ListensTo, start_front-ListensTo, listen_all-never}
use kknf.Tests.Aanf.{tables}

abbrev idle : TestBf ℕ
idle = record { ld = []; bb1_endpoint = 21; bb2_endpoint = 22 }

-- Two requests at once, and the responses of BB2 before those of BB1.
abbrev packets : List (Packet ℕ)
packets =
    request 5 40 70 1 90
    ∷ request 6 1 2 0 91
    ∷ response bb2 6 8
    ∷ response bb2 5 71
    ∷ response bb1 5 41
    ∷ response bb1 6 9
    ∷ []

no_entry : find 5 idle.ld ≡ none
unfolding find
no_entry = refl

run-sum_example :
    (g : TestBf ℕ) × (sent : List (ℕ × List (Call ℕ))) × (run lv_sends packets idle
      ≡ some (g, sent))
    × (sent_of 5 sent ≡ sends lv_sends 5 40 70 90 idle ((1 + 41 + 71) % 2 ^ 32))
run-sum_example =
    run-sum lv_sends 5 40 70 1 41 71 90 packets idle (ground arith) no_entry (inr refl)

abbrev answered : ReqLocalData ℕ
answered = record { bb1_rsp_arrived = true; bb2_rsp_arrived = true; sum = 113; client = 90 }

abbrev after : TestBf ℕ
after = record idle { ld = (5, answered) ∷ [] }

entry_found : find 5 after.ld ≡ some answered
unfolding find
entry_found = ground arith

-- The options of a start on the ports 5 and 6; a number is written as its byte, an address is one byte.
abbrev byte_number : List ℕ → ℤ
byte_number [] = pos 0
byte_number (b ∷ bs) = pos b

abbrev one_byte : List ℕ → Option ℕ
one_byte [] = none
one_byte (b ∷ bs) = some b

abbrev unread : Options ℕ
unread = record {
  timer_interval = pos 10000;
  local_ip = [];
  port_low = 0;
  port_high = 0;
  bb1_addr = 0;
  bb1_port = 0;
  bb2_addr = 0;
  bb2_port = 0;
  option_num = 0;
}

abbrev args : List (ℕ × List ℕ)
args =
    (b'L', 9 ∷ [])
    ∷ (b'p', 5 ∷ [])
    ∷ (b'P', 6 ∷ [])
    ∷ (b'a', 1 ∷ [])
    ∷ (b'b', 21 ∷ [])
    ∷ (b'c', 2 ∷ [])
    ∷ (b'd', 22 ∷ [])
    ∷ []

abbrev opts : Options ℕ
opts = record {
  timer_interval = pos 10000;
  local_ip = 9 ∷ [];
  port_low = 5;
  port_high = 6;
  bb1_addr = 1;
  bb1_port = 21;
  bb2_addr = 2;
  bb2_port = 22;
  option_num = 7;
}

args_read : read_options byte_number one_byte args unread ≡ goes_on opts
unfolding read_options read_option
args_read = refl

opts_checked : check_options opts ≡ goes_on opts
unfolding check_options
opts_checked = refl

abbrev at : ℕ → ℕ → ℕ
at addr port = addr * 65536 + port

start_front-ListensTo_example :
    (acceptors : Map ℕ AcceptorInfo) × (s : Skeleton ℕ) × (start_front byte_number one_byte
        (λ port. true)
        at
        0
        (λ port. port)
        3
        5
        args
        unread
        tables
      ≡ goes_on (listened acceptors s))
    × ListensTo (at 9) (λ port. port) 6 5 [] acceptors
start_front-ListensTo_example =
    start_front-ListensTo byte_number one_byte (λ port. true) at 0 (λ port. port) 3 5 args unread
      opts 9 tables args_read opts_checked refl (λ p q e. omega (arith, e)) (omega arith)
      (omega arith) (λ q h1 h2. refl)

listen_all-never_example :
    listen_all (λ port. true) (at 9) 0 (λ port. port) 3 (2 ^ 16 - 1) 2 65534 [] tables
    ≢ listened [] tables
listen_all-never_example =
    listen_all-never (λ port. true) (at 9) 0 (λ port. port) 3 (2 ^ 16 - 1) 2 65534 [] tables refl
      (omega arith) [] tables
