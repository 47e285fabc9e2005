-- ===== src/Aanf/Front/Answers.antt =====
-- What the front server of aanf/asio-based2/test/lv_bf.cc sends for one request among others, and what
-- becomes of its entry.
use kknf.Base.{
  ℕ, ◌+◌, ◌%◌, ◌^◌, ◌≡◌, ◌⊎◌, inl, inr, refl, ap, ◌∙◌, List, [], ◌∷◌, ◌++◌, Option, none, some,
  arith, ◌==◌, if◌then◌else◌, All, ℕ-cases,
}
use mathlib.Core.Option
use kknf.Base.Int.{minus_one}
use kknf.Base.Map.{find, number_order}
use kknf.Aanf.Front.{
  one_field, rsp_from_bf, t_req_to_bb1, t_req_to_bb2, bb1, bb2, ReqLocalData, TestBf, Call,
  over_read, answers, Sends, add_response,
}
use kknf.Aanf.Front.Arrive.{
  Packet, request, response, seq_of, Fits, arrive, arrive-request, add_request-taken, entry_step,
  Arrived, arrived,
}

module _ {E : Type 0} where
  -- A history of packets: the state at its end, and what is sent after each packet, with its `seq_`.
  pub run : Sends E → List (Packet E) → TestBf E → Option (TestBf E × List (ℕ × List (Call E)))
  run s [] f = some (f, [])
  run s (p ∷ ps) f = elim (arrive s p f) [
    | over_read ↦ none
    | answers code g calls ↦ Option.map (λ r. (r.0, (seq_of p, calls) ∷ r.1)) (run s ps g)
  ]

  -- The packets of one `seq_`, and what is sent after them.
  abbrev pub of_seq : ℕ → List (Packet E) → List (Packet E)
  of_seq k [] = []
  of_seq k (p ∷ ps) = let rest = of_seq k ps in if seq_of p == k then p ∷ rest else rest

  abbrev pub sent_of : ℕ → List (ℕ × List (Call E)) → List (Call E)
  sent_of k [] = []
  sent_of k ((j, calls) ∷ more) =
      let rest = sent_of k more in if j == k then calls ++ rest else rest

  -- What is sent after the packets of one entry.
  abbrev pub entry_run : Sends E → E → E → List (Packet E) → Option (ReqLocalData E) → List (Call E)
  entry_run s e1 e2 [] o = []
  entry_run s e1 e2 (p ∷ ps) o =
      (entry_step s e1 e2 p o).1 ++ entry_run s e1 e2 ps (entry_step s e1 e2 p o).0

  -- What is sent for one `seq_` hangs on its own packets only.
  pub run-of_seq :
      (s : Sends E) (k : ℕ) (ps : List (Packet E)) (f : TestBf E)
      → All Fits ps
      → (g : TestBf E) × (sent : List (ℕ × List (Call E))) × (run s ps f ≡ some (g, sent))
        × (sent_of k sent ≡ entry_run s f.bb1_endpoint f.bb2_endpoint (of_seq k ps) (find k f.ld))
  unfolding run
  run-of_seq s k [] f h = (f, [], refl, refl)
  run-of_seq s k (p ∷ ps) f h =
      let x = arrived s p f h.0 in
      let (g, more, e, same) = run-of_seq s k ps x.after h.1 in
      (
        g,
        (seq_of p, (entry_step s f.bb1_endpoint f.bb2_endpoint p (find (seq_of p) f.ld)).1) ∷ more,
        rw (x.arrives, run) (rw (e, run) refl),
        ground (arith, same, x.own, x.bb1_endpoint_lem, x.bb2_endpoint_lem, x.others k),
      )

  entry_kept :
      (s : Sends E) (e1 e2 : E) (k : ℕ) (p : Packet E) (g f : TestBf E) (e : ReqLocalData E)
      → seq_of p ≡ k
      → find k f.ld ≡ some e
      → find (seq_of p) g.ld ≡ (entry_step s e1 e2 p (find (seq_of p) f.ld)).0
      → (e' : ReqLocalData E) × (find k g.ld ≡ some e')
  entry_kept s e1 e2 k (request seq a b memory from) g f e same found own = (e, ground (arith, own))
  entry_kept s e1 e2 k (response which seq value) g f e same found own =
      (add_response which value e, ground (arith, own))

  -- A packet leaves an entry where there is one.
  Arrived-keeps :
      (s : Sends E) (k : ℕ) (p : Packet E) (f : TestBf E) (x : Arrived s p f) (e : ReqLocalData E)
      → find k f.ld ≡ some e
      → (e' : ReqLocalData E) × (find k x.after.ld ≡ some e')
  Arrived-keeps s k p f x e found = elim (ℕ-cases (seq_of p) k) [
    | inl same ↦ entry_kept s f.bb1_endpoint f.bb2_endpoint k p x.after f e same found x.own
    | inr d ↦ (e, x.others k d ∙ found)
  ]

  -- An entry is there for ever.
  pub run-keeps :
      (s : Sends E) (k : ℕ) (ps : List (Packet E)) (f : TestBf E) (e : ReqLocalData E)
      → All Fits ps
      → find k f.ld ≡ some e
      → (g : TestBf E) × (sent : List (ℕ × List (Call E))) × (e' : ReqLocalData E) × (run s ps f
          ≡ some (g, sent))
        × (find k g.ld ≡ some e')
  unfolding run
  run-keeps s k [] f e h found = (f, [], e, refl, found)
  run-keeps s k (p ∷ ps) f e h found =
      let x = arrived s p f h.0 in
      let (e1, kept) = Arrived-keeps s k p f x e found in
      let (g, more, e2, done, found') = run-keeps s k ps x.after e1 h.1 kept in
      (
        g,
        (seq_of p, (entry_step s f.bb1_endpoint f.bb2_endpoint p (find (seq_of p) f.ld)).1) ∷ more,
        e2,
        rw (x.arrives, run) (rw (done, run) refl),
        found',
      )

  -- What is sent for a request that is answered with a sum.
  abbrev pub sends : Sends E → ℕ → ℕ → ℕ → E → TestBf E → ℕ → List (Call E)
  sends s k a b client f sum =
      s.to_backend bb1 f.bb1_endpoint (one_field t_req_to_bb1 k a)
      ∷ s.to_backend bb2 f.bb2_endpoint (one_field t_req_to_bb2 k b)
      ∷ s.to_client client (rsp_from_bf k sum)
      ∷ []

  -- In any history of requests and responses, of which those with
  -- the number `k` are a new request and then one response of each backend, in either order, ProcessData()
  -- reads no packet past its end, and sends for `k` the two requests to the backends and then one answer
  -- to the client, with what the memory of the sum held plus both values, in 32 bits.
  pub run-sum :
      (s : Sends E) (k a b memory x y : ℕ) (client : E) (ps : List (Packet E)) (f : TestBf E)
      → All Fits ps
      → find k f.ld ≡ none
      → (of_seq k ps ≡ request k a b memory client ∷ response bb1 k x ∷ response bb2 k y ∷ [])
        ⊎ (of_seq k ps ≡ request k a b memory client ∷ response bb2 k y ∷ response bb1 k x ∷ [])
      → (g : TestBf E) × (sent : List (ℕ × List (Call E))) × (run s ps f ≡ some (g, sent))
        × (sent_of k sent ≡ sends s k a b client f ((memory + x + y) % 2 ^ 32))
  run-sum s k a b memory x y client ps f h new (inl own) =
      let (g, sent, done, same) = run-of_seq s k ps f h in
      let sum : ((memory + x) % 2 ^ 32 + y) % 2 ^ 32 ≡ (memory + x + y) % 2 ^ 32 = omega arith in
      (
        g,
        sent,
        done,
        same
            ∙ ap (λ qs. entry_run s f.bb1_endpoint f.bb2_endpoint qs (find k f.ld)) own
            ∙ ap
                (entry_run s f.bb1_endpoint f.bb2_endpoint
                  (request k a b memory client ∷ response bb1 k x ∷ response bb2 k y ∷ []))
                new
            ∙ ap (λ n. sends s k a b client f n) sum,
      )
  run-sum s k a b memory x y client ps f h new (inr own) =
      let (g, sent, done, same) = run-of_seq s k ps f h in
      let sum : ((memory + y) % 2 ^ 32 + x) % 2 ^ 32 ≡ (memory + x + y) % 2 ^ 32 = omega arith in
      (
        g,
        sent,
        done,
        same
            ∙ ap (λ qs. entry_run s f.bb1_endpoint f.bb2_endpoint qs (find k f.ld)) own
            ∙ ap
                (entry_run s f.bb1_endpoint f.bb2_endpoint
                  (request k a b memory client ∷ response bb2 k y ∷ response bb1 k x ∷ []))
                new
            ∙ ap (λ n. sends s k a b client f n) sum,
      )

  -- Where a number has an entry, every later request with it is refused with -1 and nothing is sent,
  -- whatever packets come in between, its answer among them.
  pub run-refuses :
      (s : Sends E) (k a b memory : ℕ) (client : E) (ps : List (Packet E)) (f : TestBf E)
      (e : ReqLocalData E)
      → All Fits ps
      → Fits (request k a b memory client)
      → find k f.ld ≡ some e
      → (g : TestBf E) × (sent : List (ℕ × List (Call E))) × (run s ps f ≡ some (g, sent))
        × (arrive s (request k a b memory client) g ≡ answers minus_one g [])
  run-refuses s k a b memory client ps f e h fits found =
      let (g, sent, e', done, found') = run-keeps s k ps f e h found in
      (
        g,
        sent,
        done,
        arrive-request s k a b memory client g fits
            ∙ add_request-taken s k a b memory client g e' found',
      )
