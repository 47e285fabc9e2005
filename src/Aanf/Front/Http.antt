-- ===== src/Aanf/Front/Http.antt =====
-- aanf/asio-based2/test/http_bf.cc: the front server, whose clients send HTTP packets.
use kknf.Base.{
  ℕ, ◌+◌, ◌≡◌, refl, List, [], ◌∷◌, ◌++◌, Option, none, some, Bool, true, false, ◌&&◌, leb, ◌==◌,
  if◌then◌else◌, length, drop,
}
use kknf.Base.Int.{ℤ, pos, minus_one}
use kknf.Base.Map.{number_order}
use kknf.Aanf.Tables.{tcp_lv, tcp_http}
use kknf.Aanf.Http.{search_key, empty_line, content_length, field}
use kknf.Aanf.Front.{
  TestBf, to_write_then_read, Processed, answers, Sends, process_packet, rsp_from_bf,
}

-- "HTTP/1.1 200\r\nContent-Length ".
abbrev pub http_rsp_header1 : List ℕ
http_rsp_header1 =
    b'H' ∷ b'T' ∷ b'T' ∷ b'P' ∷ b'/' ∷ b'1' ∷ b'.' ∷ b'1' ∷ 32 ∷ b'2' ∷ b'0' ∷ b'0' ∷ 13 ∷ 10 ∷ b'C'
    ∷ b'o' ∷ b'n' ∷ b't' ∷ b'e' ∷ b'n' ∷ b't' ∷ b'-' ∷ b'L' ∷ b'e' ∷ b'n' ∷ b'g' ∷ b't' ∷ b'h' ∷ 32
    ∷ []

-- "\r\nServer: Nginx\r\n\r\n".
abbrev pub http_rsp_header2 : List ℕ
http_rsp_header2 =
    13 ∷ 10 ∷ b'S' ∷ b'e' ∷ b'r' ∷ b'v' ∷ b'e' ∷ b'r' ∷ b':' ∷ 32 ∷ b'N' ∷ b'g' ∷ b'i' ∷ b'n' ∷ b'x'
    ∷ 13 ∷ 10 ∷ 13 ∷ 10 ∷ []

-- The size of RspFromBF, through lexical_cast.
abbrev pub rsp_length : List ℕ
rsp_length = b'2' ∷ b'0' ∷ []

-- The answer to a client.
unfoldable pub http_answer : List ℕ → List ℕ
http_answer rsp = http_rsp_header1 ++ rsp_length ++ http_rsp_header2 ++ rsp

-- The content behind the empty line of an HTTP packet.
unfoldable pub http_content : List ℕ → Option (List ℕ)
unfolding search_key
http_content buf = elim (search_key empty_line buf) [
  | none ↦ none
  | some i ↦ some (drop (i + 4) buf)
]

-- std::string's operator==.
unfoldable pub string_eq : List ℕ → List ℕ → Bool
string_eq [] [] = true
string_eq [] (y ∷ ys) = false
string_eq (x ∷ xs) [] = false
string_eq (x ∷ xs) (y ∷ ys) = x == y && string_eq xs ys

-- Where the server listens.
pub record Listens : Type 0 where
  pub local_ip : List ℕ
  pub port_low : ℕ
  pub port_high : ℕ

-- Whether a packet to this address is one of a client.
unfoldable pub is_from_client : Listens → List ℕ → ℕ → Bool
unfolding string_eq
is_from_client l to_ip to_port =
    string_eq to_ip l.local_ip && leb l.port_low to_port && leb to_port l.port_high

module _ {E : Type 0} where
  -- The backends get LV packets, the client an HTTP packet.
  abbrev pub http_sends : Sends E
  http_sends = record {
    to_backend = λ which to bytes. to_write_then_read to tcp_lv bytes false;
    to_client = λ to bytes. to_write_then_read to tcp_http (http_answer bytes) true;
  }

  -- TestBF::ProcessData of http_bf.cc.
  unfoldable pub process_http : Listens → ℕ → List ℕ → E → List ℕ → ℕ → TestBf E → Processed E
  unfolding process_packet is_from_client http_content http_answer
  process_http l memory buf from to_ip to_port f =
      if is_from_client l to_ip to_port
      then elim (http_content buf) [
        | none ↦ answers minus_one f []
        | some content ↦ process_packet http_sends memory content from f
      ]
      else process_packet http_sends memory buf from f

-- The answer of the front server, as the skeleton and a program read HTTP packets: its head announces
-- 20 bytes, where the cast reads "20" as 20, and its content is just the RspFromBF of 20 bytes.
pub http_answer_lem :
    (cast : List ℕ → Option ℤ) (seq sum : ℕ)
    → cast rsp_length ≡ some (pos 20)
    → (content_length cast (http_answer (rsp_from_bf seq sum)) ≡ field (pos 20))
      × (http_content (http_answer (rsp_from_bf seq sum)) ≡ some (rsp_from_bf seq sum))
      × (length (rsp_from_bf seq sum) ≡ 20)
unfolding content_length http_content http_answer
http_answer_lem cast seq sum h = (rw h refl, refl, refl)
