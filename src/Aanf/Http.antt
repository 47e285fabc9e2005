-- ===== src/Aanf/Http.antt =====
-- aanf/asio-based2/include/skeleton.hpp: the handlers that read a packet of type T_TCP_HTTP, a head
-- that ends with an empty line, and a content. What the reads bring, boost::lexical_cast<int>() and the
-- answer of ProcessData() or of the callback are arguments.
pub mod Bounds
pub mod Content
use kknf.Base.{
  ℕ, suc, ◌+◌, ◌-◌, ◌^◌, ◌%◌, List, [], ◌∷◌, ◌++◌, Option, none, some, Bool, true, false, not, ◌&&◌,
  ◌==◌, if◌then◌else◌, length, take, drop, replicate,
}
use kknf.Base.Int.{ℤ, pos, ltb_ℤ, pos_part, sub_ℕ, ◌+ℤ◌, ◌-ℤ◌}
use kknf.Base.Map.{Order}
use kknf.Nf.Stream.{to_int}
use kknf.Aanf.Tables.{Skeleton, write, touch, set_recv_buf, destroy_socket}
use kknf.Aanf.Read.{
  Started, nothing, reads, to_size, same_int, Handled, processed, dropped, aborted,
}

abbrev pub carriage_return : ℕ
carriage_return = 13

-- "\r\n\r\n".
abbrev pub empty_line : List ℕ
empty_line = 13 ∷ 10 ∷ 13 ∷ 10 ∷ []

-- "100-continue".
abbrev pub continue_key : List ℕ
continue_key = 49 ∷ 48 ∷ 48 ∷ 45 ∷ 99 ∷ 111 ∷ 110 ∷ 116 ∷ 105 ∷ 110 ∷ 117 ∷ 101 ∷ []

-- "Content-Length ", with a space and no colon.
abbrev pub length_key : List ℕ
length_key =
    67 ∷ 111 ∷ 110 ∷ 116 ∷ 101 ∷ 110 ∷ 116 ∷ 45 ∷ 76 ∷ 101 ∷ 110 ∷ 103 ∷ 116 ∷ 104 ∷ 32 ∷ []

-- "HTTP/1.1 100\r\n\r\n".
abbrev pub continue_head : List ℕ
continue_head = 72 ∷ 84 ∷ 84 ∷ 80 ∷ 47 ∷ 49 ∷ 46 ∷ 49 ∷ 32 ∷ 49 ∷ 48 ∷ 48 ∷ empty_line

abbrev pub starts_with : List ℕ → List ℕ → Bool
starts_with [] bs = true
starts_with (k ∷ ks) [] = false
starts_with (k ∷ ks) (b ∷ bs) = k == b && starts_with ks bs

-- std::search for a key that is not empty: how many bytes stand in front of it.
unfoldable pub search_key : List ℕ → List ℕ → Option ℕ
search_key key [] = none
search_key key (b ∷ bs) =
    let rest = search_key key bs in
    if starts_with key (b ∷ bs) then some 0 else elim rest [ none ↦ none | some i ↦ some (suc i) ]

-- The bytes in front of the one that std::find finds.
unfoldable pub until : ℕ → List ℕ → List ℕ
until c [] = []
until c (b ∷ bs) = let rest = until c bs in if b == c then [] else b ∷ rest

-- The sum of two ints, which wraps.
abbrev pub add_int : ℤ → ℤ → ℤ
add_int a b = to_int (to_size (a +ℤ b) % 2 ^ 32)

-- std::vector::resize.
abbrev pub resize : ℕ → List ℕ → List ℕ
resize n bytes = take n bytes ++ replicate (n - length bytes) 0

-- What is found of the length of the content.
pub data ContentLength : Type 0 where
  no_field : ContentLength
  bad_field : ContentLength
  field : ℤ → ContentLength

unfoldable pub content_length : (List ℕ → Option ℤ) → List ℕ → ContentLength
unfolding search_key until
content_length cast bytes = elim (search_key length_key bytes) [
  | none ↦ no_field
  | some i ↦ elim (cast (until carriage_return (drop (i + 15) bytes))) [
    | none ↦ bad_field
    | some len ↦ field len
  ]
]

-- The head contains "100-continue".
abbrev pub wants_continue : List ℕ → Bool
unfolding search_key
wants_continue bytes = elim (search_key continue_key bytes) [ none ↦ false | some m ↦ true ]

-- How the handler of a head ends: without another read; with a read of the content, from an offset, so
-- many bytes; or with the packet handled at once. The mark tells whether a 100 is written as well.
pub data HeadHandled (E : Type 0) : Type 0 where
  stopped : Skeleton E → HeadHandled E
  reads_on : Skeleton E → (offset : ℕ) → (count : ℕ) → Bool → HeadHandled E
  served : Handled E → Bool → HeadHandled E

module _ {E : Type 0} where
  -- Skeleton::HTTPHeadReadCompletionCondition, with how many bytes async_read() is to read next at most.
  unfoldable pub http_head_read_completion_condition : Bool → ℕ → ℕ → Skeleton E → Skeleton E × ℕ
  unfolding write search_key
  http_head_read_completion_condition true byte_num p s = (s, 0)
  http_head_read_completion_condition false byte_num p s =
      let i = s.info p in
      let filled = i.recv_buf_filled + byte_num in
      let t = write p (record i { recv_buf_filled = filled }) s in
      elim (search_key empty_line i.recv_buf) [
        | some n ↦ (t, 0)
        | none ↦
            if length i.recv_buf == filled
            then (t, 0)
            else (t, to_size (sub_ℕ (length i.recv_buf) filled))
      ]

  -- Skeleton::ToReadHTTPHeadThenReadHTTPContent.
  unfoldable pub to_read_http_head : ℕ → Skeleton E → Skeleton E × Started
  unfolding set_recv_buf
  to_read_http_head p s = (set_recv_buf s.init_recv_buf_size p s, reads 0 s.init_recv_buf_size)

  -- The buffer grows to the length of the packet.
  unfoldable pub grow : ℤ → ℕ → Skeleton E → Skeleton E
  unfolding write
  grow total p s =
      let i = s.info p in
      if ltb_ℤ (pos (length i.recv_buf)) total
      then write p
          (record i { recv_buf = i.recv_buf ++ replicate (pos_part total - length i.recv_buf) 0 }) s
      else s

  -- The answer to "100-continue" in the send buffer.
  unfoldable pub answer_continue : Bool → ℕ → Skeleton E → Skeleton E
  unfolding write
  answer_continue found p s =
      if found then write p (record (s.info p) { send_buf = continue_head }) s else s

  unfoldable pub answer_after : Bool → ℕ → Handled E → Handled E
  unfolding answer_continue
  answer_after found p (processed packet s st) = processed packet (answer_continue found p s) st
  answer_after found p (dropped s) = dropped (answer_continue found p s)
  answer_after found p aborted = aborted

  module _ ⦃o : Order E⦄ where
    -- Skeleton::HandleWriteThenReadHTTPHead.
    unfoldable pub handle_write_then_read_http_head :
        Bool → ℕ → ℕ → Skeleton E → Skeleton E × Started
    unfolding to_read_http_head touch destroy_socket
    handle_write_then_read_http_head true now p s = ((destroy_socket p s).0, nothing)
    handle_write_then_read_http_head false now p s = to_read_http_head p (touch now p s)

    -- What the answer of ProcessData() brings about.
    unfoldable pub after_content : List ℕ → ℤ → ℕ → Skeleton E → Handled E
    unfolding write to_read_http_head destroy_socket
    after_content packet ret p s =
        let i = s.info p in
        if ltb_ℤ ret (pos 0)
        then processed packet (destroy_socket p s).0 nothing
        else if pos_part ret == 0
        then if i.is_client then aborted else processed packet s nothing
        else if pos_part ret == 1
        then if i.is_client && i.in_use
          then processed packet (write p (record i { in_use = false }) s) nothing
          else aborted
        else if pos_part ret == 2
        then if i.in_use && not i.is_client then processed packet s nothing else aborted
        else if pos_part ret == 3
        then if i.is_client
          then aborted
          else processed packet (to_read_http_head p s).0 (to_read_http_head p s).1
        else aborted

    -- Skeleton::HandleReadHTTPContentThenProcess.
    unfoldable pub handle_read_http_content : Bool → (List ℕ → ℤ) → ℕ → ℕ → Skeleton E → Handled E
    unfolding after_content touch write
    handle_read_http_content true process now p s = dropped s
    handle_read_http_content false process now p s =
        let i = s.info p in
        let packet = resize i.recv_buf_filled i.recv_buf in
        let t = write p (record i { recv_buf = packet; recv_buf_filled = 0 }) s in
        after_content packet (process packet) p (touch now p t)

    -- From the check of the whole length on: `total` is the length of the head and the content.
    unfoldable pub read_content : ℤ → Bool → ℕ → (List ℕ → ℤ) → ℕ → ℕ → Skeleton E → HeadHandled E
    unfolding grow answer_continue answer_after handle_read_http_content destroy_socket
    read_content total found byte_num process now p s =
        let left = to_int (to_size (total -ℤ pos byte_num) % 2 ^ 32) in
        if ltb_ℤ (pos s.max_recv_buf_size) total
        then stopped (destroy_socket p s).0
        else if same_int left (pos 0)
        then served
            (answer_after found p (handle_read_http_content false process now p (grow total p s)))
            found
        else reads_on (answer_continue found p (grow total p s)) byte_num (to_size left) found

    -- Skeleton::HandleReadHTTPHeadThenReadHTTPContent, after `byte_num` bytes have come.
    unfoldable pub handle_read_http_head :
        Bool → ℕ → (List ℕ → Option ℤ) → (List ℕ → ℤ) → ℕ → ℕ → Skeleton E → HeadHandled E
    unfolding read_content content_length search_key touch destroy_socket
    handle_read_http_head true byte_num cast process now p s = stopped (destroy_socket p s).0
    handle_read_http_head false byte_num cast process now p s =
        let bytes = (s.info p).recv_buf in
        let t = touch now p s in
        elim (search_key empty_line bytes) [
          | none ↦ stopped t
          | some n ↦ elim (content_length cast bytes) [
            | no_field ↦ stopped (destroy_socket p t).0
            | bad_field ↦ stopped t
            | field len ↦
                read_content (add_int len (pos (n + 4))) (wants_continue bytes) byte_num process now
                  p t
          ]
        ]
