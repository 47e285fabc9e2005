-- ===== src/Aanf/Front/Main.antt =====
-- aanf/asio-based2/test/lv_bf.cc: main() of the front server up to Run(): the options, and the ports that it
-- listens to. atoi() and IPAddress::from_string() are arguments; where no option sets a value, it is what
-- the memory held.
pub mod Ports
use kknf.Base.{
  ℕ, zero, suc, ◌+◌, ◌-◌, ◌%◌, ◌^◌, List, [], ◌∷◌, Option, none, some, Bool, true, false, ltb, leb,
  ◌==◌, ◌||◌, if◌then◌else◌,
}
use kknf.Base.Int.{ℤ, pos, negsuc, minus_one, ltb_ℤ}
use kknf.Base.Map.{Order, Map}
use kknf.Aanf.Tables.{tcp_lv, Skeleton}
use kknf.Aanf.Accept.{AcceptorInfo, add_tcp_acceptor}

-- What the options set; `A` is IPAddress.
pub record Options (A : Type 0) : Type 0 where
  pub timer_interval : ℤ
  pub local_ip : List ℕ
  pub port_low : ℕ
  pub port_high : ℕ
  pub bb1_addr : A
  pub bb1_port : ℕ
  pub bb2_addr : A
  pub bb2_port : ℕ
  pub option_num : ℕ

-- How a part of main() ends: with a value, or by `return` or exit() with a code.
pub data Started (B : Type 0) : Type 0 where
  goes_on : B → Started B
  quits : ℤ → Started B

-- The low 16 bits of an int.
abbrev pub to_port : ℤ → ℕ
to_port (pos n) = n % 2 ^ 16
to_port (negsuc n) = (2 ^ 16 - suc (n % 2 ^ 16)) % 2 ^ 16

module _ {A : Type 0} (atoi : List ℕ → ℤ) (from_string : List ℕ → Option A) where
  -- One option with its argument.
  unfoldable pub read_option : ℕ → List ℕ → Options A → Started (Options A)
  read_option oc optarg o =
      let more = suc o.option_num in
      if oc == b'i'
      then goes_on (record o { timer_interval = atoi optarg })
      else if oc == b'L'
      then goes_on (record o { local_ip = optarg; option_num = more })
      else if oc == b'p'
      then goes_on (record o { port_low = to_port (atoi optarg); option_num = more })
      else if oc == b'P'
      then goes_on (record o { port_high = to_port (atoi optarg); option_num = more })
      else if oc == b'a'
      then elim (from_string optarg) [
        | none ↦ quits (pos 1)
        | some addr ↦ goes_on (record o { bb1_addr = addr; option_num = more })
      ]
      else if oc == b'b'
      then goes_on (record o { bb1_port = to_port (atoi optarg); option_num = more })
      else if oc == b'c'
      then elim (from_string optarg) [
        | none ↦ quits (pos 1)
        | some addr ↦ goes_on (record o { bb2_addr = addr; option_num = more })
      ]
      else if oc == b'd'
      then goes_on (record o { bb2_port = to_port (atoi optarg); option_num = more })
      else if oc == b'h'
      then quits (pos 0)
      else quits minus_one

  -- The loop over getopt().
  unfoldable pub read_options : List (ℕ × List ℕ) → Options A → Started (Options A)
  unfolding read_option
  read_options [] o = goes_on o
  read_options ((oc, optarg) ∷ more) o = elim (read_option oc optarg o) [
    | goes_on o' ↦ read_options more o'
    | quits code ↦ quits code
  ]

-- The checks after the loop.
unfoldable pub check_options : {A : Type 0} → Options A → Started (Options A)
check_options o =
    if ltb o.option_num 7
    then quits minus_one
    else if ltb_ℤ o.timer_interval (pos 0) || ltb_ℤ (pos 100000) o.timer_interval
    then quits minus_one
    else if ltb o.port_high o.port_low
    then quits minus_one
    else goes_on o

-- How the loop over the ports stands: at its end, in exit(1) or an exception, or still running.
pub data Listening (E : Type 0) : Type 0 where
  listened : Map E AcceptorInfo → Skeleton E → Listening E
  exits : Listening E
  running : Listening E

module _ {E : Type 0} ⦃o : Order E⦄ (opens : ℕ → Bool) (endpoint : ℕ → E) (unset : E)
    (fresh : ℕ → ℕ) (now high : ℕ) where
  -- The loop over the ports, so many rounds of it; `port` is a uint16_t. `opens` says at which ports an
  -- acceptor can listen, and `fresh` gives the new pointers.
  unfoldable pub listen_all : ℕ → ℕ → Map E AcceptorInfo → Skeleton E → Listening E
  unfolding add_tcp_acceptor
  listen_all zero port acceptors s = running
  listen_all (suc n) port acceptors s = elim (leb port high) [
    | false ↦ listened acceptors s
    | true ↦
        elim (add_tcp_acceptor (opens port) (endpoint port) tcp_lv unset (fresh port) now
          (acceptors, s)) [
            | none ↦ exits
            | some (more, s') ↦ listen_all n ((port + 1) % 2 ^ 16) more s'
          ]
  ]

-- main() from the options to AddTimerHandler, with so many rounds of the loop over the ports. The state is
-- the new TestBF, which has no sockets yet.
unfoldable pub start_front :
    {A E : Type 0} ⦃o : Order E⦄
    → (List ℕ → ℤ)
    → (List ℕ → Option A)
    → (ℕ → Bool)
    → (A → ℕ → E)
    → E
    → (ℕ → ℕ)
    → ℕ
    → ℕ
    → List (ℕ × List ℕ)
    → Options A
    → Skeleton E
    → Started (Listening E)
unfolding read_options check_options listen_all
start_front atoi from_string opens endpoint unset fresh now rounds args unread s =
    elim (read_options atoi from_string args unread) [
      | quits code ↦ quits code
      | goes_on read ↦ elim (check_options read) [
        | quits code ↦ quits code
        | goes_on opts ↦ elim (from_string opts.local_ip) [
          | none ↦ quits (pos 1)
          | some addr ↦ goes_on (
              listen_all opens (endpoint addr) unset fresh now opts.port_high rounds opts.port_low
                [] s)
        ]
      ]
    ]
