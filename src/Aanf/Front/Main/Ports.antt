-- ===== src/Aanf/Front/Main/Ports.antt =====
-- The ports that the front server of aanf/asio-based2/test/lv_bf.cc listens to.
use kknf.Base.{
  Bool, ℕ, zero, suc, ◌+◌, ◌-◌, ◌%◌, ◌^◌, ◌≤◌, ◌<◌, ◌≡◌, ◌≢◌, refl, sym, ap, subst, ◌∙◌, inl, inr,
  List, [], Option, none, some, true, leb, arith, ℕ-cases, Option-cases, Bool-cases,
}
use kknf.Base.Int.{ℤ}
use kknf.Base.Map.{Order, Map, find, assign, same-eq}
use kknf.Base.Map.Laws.{find-assign}
use kknf.Aanf.Tables.{tcp_lv, Skeleton}
use kknf.Aanf.Accept.{AcceptorInfo, add_tcp_acceptor, insert_tcp_acceptor, reset}
use kknf.Aanf.Front.Main.{
  listened, listen_all, Options, goes_on, read_options, check_options, start_front,
}

module _ {E : Type 0} ⦃o : Order E⦄ where
  find-assign_same :
      (k : E) (a : AcceptorInfo) (m : Map E AcceptorInfo) → find k (assign k a m) ≡ some a
  find-assign_same k a m = ground (arith, find-assign k k a m, o.lt_irrefl k)

  find-assign_other :
      (j k : E) (a : AcceptorInfo) (m : Map E AcceptorInfo)
      → j ≢ k
      → find j (assign k a m) ≡ find j m
  find-assign_other j k a m d = ground (arith, find-assign j k a m, same-eq j k)

-- The acceptor that AddTCPAcceptor enters.
abbrev accepts : ℕ → AcceptorInfo
accepts fresh = record { type_ = tcp_lv; sk_info = fresh; accepting = true }

module _ {E : Type 0} ⦃o : Order E⦄ (endpoint : ℕ → E) (fresh : ℕ → ℕ) (high : ℕ) where
  -- The ports from `port` on are listened to, and no other entry has changed.
  abbrev pub ListensTo : ℕ → Map E AcceptorInfo → Map E AcceptorInfo → Type 0
  ListensTo port before after =
      ((q : ℕ) → port ≤ q → q ≤ high → find (endpoint q) after ≡ some (accepts (fresh q)))
      × ((e : E) → ((q : ℕ) → port ≤ q → q ≤ high → e ≢ endpoint q) → find e after ≡ find e before)

module _ {E : Type 0} ⦃o : Order E⦄ (opens : ℕ → Bool) (endpoint : ℕ → E) (unset : E)
    (fresh : ℕ → ℕ) (now high : ℕ) where
  add-new :
      (port : ℕ) (acceptors : Map E AcceptorInfo) (s : Skeleton E)
      → opens port ≡ true
      → find (endpoint port) acceptors ≡ none
      → (s' : Skeleton E) × (add_tcp_acceptor
            (opens port)
            (endpoint port)
            tcp_lv
            unset
            (fresh port)
            now
            (acceptors, s)
          ≡ some (assign (endpoint port) (accepts (fresh port)) acceptors, s'))
  unfolding add_tcp_acceptor insert_tcp_acceptor
  add-new port acceptors s can new = (
    reset tcp_lv unset (fresh port) now s,
    rw (can, new, insert_tcp_acceptor, add_tcp_acceptor) refl,
  )

  listen_all-step :
      (n port : ℕ) (acceptors more : Map E AcceptorInfo) (s s' : Skeleton E)
      → port ≤ high
      → high < 2 ^ 16 - 1
      → add_tcp_acceptor (opens port) (endpoint port) tcp_lv unset (fresh port) now (acceptors, s)
        ≡ some (more, s')
      → listen_all opens endpoint unset fresh now high (suc n) port acceptors s
        ≡ listen_all opens endpoint unset fresh now high n (suc port) more s'
  unfolding listen_all
  listen_all-step n port acceptors more s s' le small e =
      let wrap : (port + 1) % 2 ^ 16 ≡ suc port = omega arith in ground (arith, wrap)

  -- With ports up to 65534, at each of which an acceptor can listen, the loop ends, after one round for each port and one more, and then there is a
  -- waiting acceptor for each port from the first to the last and no other new one, where no acceptor was
  -- there before and different ports have different endpoints.
  pub listen_all-ListensTo :
      (n port : ℕ) (acceptors : Map E AcceptorInfo) (s : Skeleton E)
      → ((p q : ℕ) → endpoint p ≡ endpoint q → p ≡ q)
      → high < 2 ^ 16 - 1
      → port ≤ suc high
      → suc high - port < n
      → ((q : ℕ) → port ≤ q → q ≤ high → opens q ≡ true)
      → ((q : ℕ) → port ≤ q → q ≤ high → find (endpoint q) acceptors ≡ none)
      → (after : Map E AcceptorInfo) × (s' : Skeleton E) × (listen_all opens endpoint unset fresh
            now high n port acceptors s
          ≡ listened after s')
        × ListensTo endpoint fresh high port acceptors after
  unfolding listen_all
  listen_all-ListensTo zero port acceptors s inj small le enough can new = absurd (omega arith)
  listen_all-ListensTo (suc n) port acceptors s inj small le enough can new =
      elim (Bool-cases (leb port high)) [
        | inr stop ↦ (
          acceptors,
          s,
          rw (stop, listen_all) refl,
          ((λ q h1 h2. absurd (ground arith)), λ e other. refl),
        )
        | inl on ↦
            let a = accepts (fresh port) in
            let below : port ≤ high = ground arith in
            let (s1, added) =
              add-new port acceptors s (can port (omega arith) (ground arith))
                (new port (omega arith) (ground arith)) in
            let apart : (q : ℕ) → suc port ≤ q → endpoint q ≢ endpoint port =
              λ q h e. absurd (omega (arith, inj q port e)) in
            let (after, s', done, (here, others)) =
              listen_all-ListensTo n (suc port) (assign (endpoint port) a acceptors) s1 inj small
                (ground arith) (ground arith) (λ q h1 h2. can q (omega arith) h2)
                (λ q h1 h2.
                  find-assign_other (endpoint q) (endpoint port) a acceptors (apart q h1)
                  ∙ new q (omega arith) h2) in
            let at_port : find (endpoint port) after ≡ some (accepts (fresh port)) =
              others (endpoint port) (λ q h1 h2 e. apart q h1 (sym e))
              ∙ find-assign_same (endpoint port) a acceptors in
            (
              after,
              s',
              listen_all-step n port acceptors (assign (endpoint port) a acceptors) s s1 below small
                    added
                  ∙ done,
              (
                (λ q h1 h2. elim (ℕ-cases port q) [
                  | inl same_port ↦
                      subst (λ p. find (endpoint p) after ≡ some (accepts (fresh p))) same_port
                        at_port
                  | inr d ↦ here q (omega arith) h2
                ]),
                λ e other.
                    others e (λ q h1 h2. other q (omega arith) h2)
                    ∙ find-assign_other e (endpoint port) a acceptors
                        (other port (omega arith) (ground arith)),
              ),
            )
      ]

  -- With the last port 65535 the loop never ends by itself, however long it runs: no port is beyond the
  -- last.
  pub listen_all-never :
      (n port : ℕ) (acceptors : Map E AcceptorInfo) (s : Skeleton E)
      → high ≡ 2 ^ 16 - 1
      → port < 2 ^ 16
      → (after : Map E AcceptorInfo) (s' : Skeleton E)
      → listen_all opens endpoint unset fresh now high n port acceptors s ≢ listened after s'
  unfolding listen_all
  listen_all-never zero port acceptors s e small after s' h = cc
  listen_all-never (suc n) port acceptors s e small after s' h =
      elim (Option-cases (
        add_tcp_acceptor (opens port) (endpoint port) tcp_lv unset (fresh port) now
          (acceptors, s))) [
            | inl gone ↦ ground arith
            | inr ((more, s1), added) ↦
                listen_all-never n ((port + 1) % 2 ^ 16) more s1 e (omega arith) after s'
                  (ground arith)
          ]

check_options-ports :
    {A : Type 0} (opts : Options A)
    → check_options opts ≡ goes_on opts
    → opts.port_low ≤ opts.port_high
unfolding check_options
check_options-ports opts e = ground arith

-- Where the options are read and pass the checks, with a last port up to 65534 and a local address that
-- can be read, and open(), bind() and listen() succeed at each port, main() comes to the end of its loop
-- over the ports, after one round for each port and one more, and waits for connections on each port from
-- the first to the last, and on no other address, where different ports make different endpoints.
pub start_front-ListensTo :
    {A E : Type 0} ⦃o : Order E⦄ (atoi : List ℕ → ℤ) (from_string : List ℕ → Option A)
    (opens : ℕ → Bool) (endpoint : A → ℕ → E) (unset : E) (fresh : ℕ → ℕ) (now rounds : ℕ)
    (args : List (ℕ × List ℕ)) (unread opts : Options A) (addr : A) (s : Skeleton E)
    → read_options atoi from_string args unread ≡ goes_on opts
    → check_options opts ≡ goes_on opts
    → from_string opts.local_ip ≡ some addr
    → ((p q : ℕ) → endpoint addr p ≡ endpoint addr q → p ≡ q)
    → opts.port_high < 2 ^ 16 - 1
    → suc opts.port_high - opts.port_low < rounds
    → ((q : ℕ) → opts.port_low ≤ q → q ≤ opts.port_high → opens q ≡ true)
    → (after : Map E AcceptorInfo) × (s' : Skeleton E) × (start_front atoi from_string opens
          endpoint unset fresh now rounds args unread s
        ≡ goes_on (listened after s'))
      × ListensTo (endpoint addr) fresh opts.port_high opts.port_low [] after
unfolding start_front find
start_front-ListensTo atoi from_string opens endpoint unset fresh now rounds args unread opts addr s
      read ok ip inj small enough can =
    let (after, s', done, listens) =
      listen_all-ListensTo opens (endpoint addr) unset fresh now opts.port_high rounds opts.port_low
        [] s inj small (omega (arith, check_options-ports opts ok)) enough can (λ q h1 h2. refl) in
    (after, s', rw (read, ok, ip, start_front) (ap goes_on done), listens)
