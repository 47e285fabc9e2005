-- ===== src/Aanf/Front/Arrive.antt =====
-- One packet at the front server of aanf/asio-based2/test/lv_bf.cc: what it does to the entries, and what
-- it sends.
use kknf.Base.{
  ℕ, ◌^◌, ◌<◌, ◌≡◌, ◌≢◌, refl, ◌∙◌, List, [], ◌∷◌, ◌++◌, Option, none, some, ◌&&◌, arith,
  if◌then◌else◌,
}
use kknf.Base.Int.{ℤ, pos, minus_one}
use kknf.Base.Map.{find, assign, number_order}
use kknf.Base.Map.Laws.{find-assign}
use kknf.Aanf.Front.{
  read_int, int_bytes, req_to_bf, one_field, rsp_from_bf, t_rsp_from_bb1, t_rsp_from_bb2, Backend,
  bb1, bb2, ReqLocalData, TestBf, Call, Processed, answers, Sends, new_req_local_data, ask_backends,
  add_response, add_request, take_response, on_request, on_response, answer_client, process_packet,
}

-- A packet for the front server: a request, with what the memory of its sum holds and the address of
-- its client, or the response of a backend.
pub data Packet (E : Type 0) : Type 0 where
  request : (seq a b memory : ℕ) → E → Packet E
  response : Backend → (seq value : ℕ) → Packet E

-- The type of a response.
abbrev pub t_rsp : Backend → ℕ
t_rsp bb1 = t_rsp_from_bb1
t_rsp bb2 = t_rsp_from_bb2

read_int-int_bytes : (n : ℕ) (rest : List ℕ) → n < 2 ^ 32 → read_int (int_bytes n ++ rest) ≡ n
read_int-int_bytes n rest h = omega arith

module _ {E : Type 0} where
  abbrev pub seq_of : Packet E → ℕ
  seq_of (request seq a b memory from) = seq
  seq_of (response which seq value) = seq

  -- The fields are ints.
  abbrev pub Fits : Packet E → Type 0
  Fits (request seq a b memory from) = (seq < 2 ^ 32) × (a < 2 ^ 32) × (b < 2 ^ 32)
  Fits (response which seq value) = (seq < 2 ^ 32) × (value < 2 ^ 32)

  -- A packet arrives.
  unfoldable pub arrive : Sends E → Packet E → TestBf E → Processed E
  unfolding process_packet
  arrive s (request seq a b memory from) f = process_packet s memory (req_to_bf seq a b) from f
  arrive s (response which seq value) f =
      process_packet s 0 (one_field (t_rsp which) seq value) f.bb1_endpoint f

  -- What a packet does to the entry of its `seq_`, and what it sends.
  abbrev pub entry_step :
      Sends E → E → E → Packet E → Option (ReqLocalData E) → Option (ReqLocalData E) × List (Call E)
  entry_step s e1 e2 (request seq a b memory from) none =
      (some (new_req_local_data memory from), ask_backends s seq a b e1 e2)
  entry_step s e1 e2 (request seq a b memory from) (some e) = (some e, [])
  entry_step s e1 e2 (response which seq value) none = (none, [])
  entry_step s e1 e2 (response which seq value) (some e) =
      let e' = add_response which value e in
      (
        some e',
        if e'.bb1_rsp_arrived && e'.bb2_rsp_arrived
            then s.to_client e'.client (rsp_from_bf seq e'.sum) ∷ []
            else [],
      )

  -- The state after a packet, told by its entries.
  pub record Arrived (s : Sends E) (p : Packet E) (f : TestBf E) : Type 0 where
    pub code : ℤ
    pub after : TestBf E
    pub arrives :
        arrive s p f
        ≡ answers code after (entry_step s f.bb1_endpoint f.bb2_endpoint p (find (seq_of p) f.ld)).1
    pub bb1_endpoint_lem : after.bb1_endpoint ≡ f.bb1_endpoint
    pub bb2_endpoint_lem : after.bb2_endpoint ≡ f.bb2_endpoint
    pub own :
        find (seq_of p) after.ld
        ≡ (entry_step s f.bb1_endpoint f.bb2_endpoint p (find (seq_of p) f.ld)).0
    pub others : (k : ℕ) → seq_of p ≢ k → find k after.ld ≡ find k f.ld

  pub arrive-request :
      (s : Sends E) (seq a b memory : ℕ) (from : E) (f : TestBf E)
      → Fits (request seq a b memory from)
      → arrive s (request seq a b memory from) f ≡ add_request s memory seq a b from f
  unfolding arrive on_request
  arrive-request s seq a b memory from f h =
      let hs : read_int (int_bytes seq ++ int_bytes a ++ int_bytes b) ≡ seq = omega arith in
      let ha : read_int (int_bytes a ++ int_bytes b) ≡ a = omega arith in
      let hb : read_int (int_bytes b) ≡ b = omega arith in rw (hs, ha, hb) refl

  arrive-response :
      (s : Sends E) (which : Backend) (seq value : ℕ) (f : TestBf E)
      → Fits (response which seq value)
      → arrive s (response which seq value) f ≡ take_response s which seq value f
  unfolding arrive on_response
  arrive-response s bb1 seq value f h =
      let hs : read_int (int_bytes seq ++ int_bytes value) ≡ seq = omega arith in
      let hv : read_int (int_bytes value) ≡ value = omega arith in rw (hs, hv) refl
  arrive-response s bb2 seq value f h =
      let hs : read_int (int_bytes seq ++ int_bytes value) ≡ seq = omega arith in
      let hv : read_int (int_bytes value) ≡ value = omega arith in rw (hs, hv) refl

  Arrived-request :
      (s : Sends E) (seq a b memory : ℕ) (from : E) (f : TestBf E) (o : Option (ReqLocalData E))
      → Fits (request seq a b memory from)
      → find seq f.ld ≡ o
      → Arrived s (request seq a b memory from) f
  unfolding add_request
  Arrived-request s seq a b memory from f (some e) h found = record {
    code = minus_one;
    after = f;
    arrives = arrive-request s seq a b memory from f h ∙ rw (found, add_request) refl;
    bb1_endpoint_lem = refl;
    bb2_endpoint_lem = refl;
    own = rw found refl;
    others = λ k d. refl;
  }
  Arrived-request s seq a b memory from f none h found = record {
    code = pos 0;
    after = record f { ld = assign seq (new_req_local_data memory from) f.ld };
    arrives = arrive-request s seq a b memory from f h ∙ rw (found, add_request) refl;
    bb1_endpoint_lem = refl;
    bb2_endpoint_lem = refl;
    own = rw found (ground (arith, find-assign seq seq (new_req_local_data memory from) f.ld));
    others = λ k d. ground (arith, find-assign k seq (new_req_local_data memory from) f.ld);
  }

  Arrived-response :
      (s : Sends E) (which : Backend) (seq value : ℕ) (f : TestBf E) (o : Option (ReqLocalData E))
      → Fits (response which seq value)
      → find seq f.ld ≡ o
      → Arrived s (response which seq value) f
  unfolding take_response answer_client
  Arrived-response s which seq value f none h found = record {
    code = minus_one;
    after = f;
    arrives = arrive-response s which seq value f h ∙ rw (found, take_response) refl;
    bb1_endpoint_lem = refl;
    bb2_endpoint_lem = refl;
    own = rw found refl;
    others = λ k d. refl;
  }
  Arrived-response s which seq value f (some e) h found =
      let own : find seq (assign seq (add_response which value e) f.ld)
          ≡ some (add_response which value e) =
        ground (arith, find-assign seq seq (add_response which value e) f.ld) in
      record {
        code = pos 1;
        after = record f { ld = assign seq (add_response which value e) f.ld };
        arrives =
            arrive-response s which seq value f h
            ∙ rw (found, take_response) (rw (own, answer_client) refl);
        bb1_endpoint_lem = refl;
        bb2_endpoint_lem = refl;
        own = rw found own;
        others = λ k d. ground (arith, find-assign k seq (add_response which value e) f.ld);
      }

  pub arrived : (s : Sends E) (p : Packet E) (f : TestBf E) → Fits p → Arrived s p f
  arrived s (request seq a b memory from) f h = Arrived-request s seq a b memory from f _ h refl
  arrived s (response which seq value) f h = Arrived-response s which seq value f _ h refl

  pub add_request-taken :
      (s : Sends E) (seq a b memory : ℕ) (from : E) (f : TestBf E) (e : ReqLocalData E)
      → find seq f.ld ≡ some e
      → add_request s memory seq a b from f ≡ answers minus_one f []
  unfolding add_request
  add_request-taken s seq a b memory from f e found = rw (found, add_request) refl
