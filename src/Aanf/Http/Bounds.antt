-- ===== src/Aanf/Http/Bounds.antt =====
-- The read of the content against the buffer.
use kknf.Base.{
  ℕ, refl, ◌+◌, ◌-◌, ◌^◌, ◌%◌, ◌≤◌, ◌<◌, ◌≡◌, ◌↔◌, List, false, Bool, none, some, Option, length,
  length-append, length-replicate, replicate, arith,
}
use kknf.Base.Int.{ℤ, pos, negsuc, ◌-ℤ◌, ◌≤ℤ◌}
use kknf.Base.Map.{Order}
use kknf.Nf.Stream.{to_int}
use kknf.Aanf.Tables.{Skeleton, write, touch}
use kknf.Aanf.Read.{to_size}
use kknf.Aanf.Http.{
  empty_line, search_key, wants_continue, content_length, no_field, bad_field, field, reads_on,
  ContentLength, add_int, grow, answer_continue, read_content, handle_read_http_head,
}

-- What add_int gives.
abbrev IsInt : ℤ → Type 0
IsInt (pos n) = n < 2 ^ 31
IsInt (negsuc n) = n < 2 ^ 31

add_int-IsInt : (a b : ℤ) → IsInt (add_int a b)
add_int-IsInt a b = ground arith

-- How many bytes a read of what is left of `total` may write.
abbrev left_of : ℤ → ℕ → ℕ
left_of total byte_num = to_size (to_int (to_size (total -ℤ pos byte_num) % 2 ^ 32))

left_fits :
    (total : ℤ) (byte_num room size : ℕ)
    → IsInt total
    → byte_num ≤ size
    → size < 2 ^ 31
    → room < 2 ^ 31
    → (pos size ≤ℤ total → pos room ≡ total)
    → (total ≤ℤ pos size → room ≡ size)
    → (byte_num + left_of total byte_num ≤ room) ↔ (pos byte_num ≤ℤ total)
unfolding ◌-ℤ◌
left_fits (pos n) byte_num room size w b c d h g = ground arith
left_fits (negsuc n) byte_num room size w b c d h g = ground arith

-- The length of the packet that a head announces.
abbrev pub packet_size : (List ℕ → Option ℤ) → List ℕ → Option ℤ
packet_size cast bytes = elim (search_key empty_line bytes) [
  | none ↦ none
  | some n ↦ elim (content_length cast bytes) [
    | no_field ↦ none
    | bad_field ↦ none
    | field len ↦ some (add_int len (pos (n + 4)))
  ]
]

module _ {E : Type 0} where
  grow-length :
      (total : ℤ) (p : ℕ) (s : Skeleton E)
      → let size = length (s.info p).recv_buf in
        let room = length ((grow total p s).info p).recv_buf in
        (pos size ≤ℤ total → pos room ≡ total) × (total ≤ℤ pos size → room ≡ size)
  unfolding grow write
  grow-length (negsuc n) p s = (λ h. ground arith, λ h. ground arith)
  grow-length (pos n) p s =
      let bytes = (s.info p).recv_buf in
      let zeros = replicate {A = ℕ} (n - length bytes) 0 in
      let longer = length-append bytes zeros in
      let count = length-replicate {A = ℕ} (n - length bytes) 0 in
      (λ h. ground (arith, longer, count), λ h. ground arith)

  answer_continue-recv_buf :
      (found : Bool) (p : ℕ) (s : Skeleton E)
      → ((answer_continue found p s).info p).recv_buf ≡ (s.info p).recv_buf
  unfolding answer_continue write
  answer_continue-recv_buf found p s = ground arith

  module _ ⦃o : Order E⦄ where
    read_content-fits :
        (total : ℤ) (found k : Bool) (process : List ℕ → ℤ) (byte_num now p offset count : ℕ)
        (s t : Skeleton E)
        → IsInt total
        → byte_num ≤ length (s.info p).recv_buf
        → length (s.info p).recv_buf < 2 ^ 31
        → s.max_recv_buf_size < 2 ^ 31
        → read_content total found byte_num process now p s ≡ reads_on t offset count k
        → (offset + count ≤ length (t.info p).recv_buf) ↔ (pos byte_num ≤ℤ total)
    unfolding read_content
    read_content-fits total found k process byte_num now p offset count s t w b c d e =
        let size = length (s.info p).recv_buf in
        let room = length ((grow total p s).info p).recv_buf in
        let (above, below) = grow-length total p s in
        let fits : room < 2 ^ 31
            → (byte_num + left_of total byte_num ≤ room) ↔ (pos byte_num ≤ℤ total) =
          λ r. left_fits total byte_num room size w b c r above below in
        ground (arith, answer_continue-recv_buf found p (grow total p s))

    -- Where HandleReadHTTPHeadThenReadHTTPContent reads on, after `byte_num` bytes have come into a buffer
    -- that has room for them, with a size and a limit that are ints: the head announces the length of a
    -- packet, and the read stays within the buffer exactly if no more bytes have come than that.
    pub handle_read_http_head-fits :
        (cast : List ℕ → Option ℤ) (process : List ℕ → ℤ) (byte_num now p offset count : ℕ)
        (k : Bool) (s t : Skeleton E)
        → byte_num ≤ length (s.info p).recv_buf
        → length (s.info p).recv_buf < 2 ^ 31
        → s.max_recv_buf_size < 2 ^ 31
        → handle_read_http_head false byte_num cast process now p s ≡ reads_on t offset count k
        → (total : ℤ) × (packet_size cast (s.info p).recv_buf ≡ some total)
          × ((offset + count ≤ length (t.info p).recv_buf) ↔ (pos byte_num ≤ℤ total))
    unfolding handle_read_http_head touch write
    handle_read_http_head-fits cast process byte_num now p offset count k s t b c d e =
        by (search_key empty_line (s.info p).recv_buf) refl
          (content_length cast (s.info p).recv_buf) refl
      where
        by :
            (at : Option ℕ)
            → search_key empty_line (s.info p).recv_buf ≡ at
            → (l : ContentLength) → content_length cast (s.info p).recv_buf ≡ l
            → (total : ℤ) × (packet_size cast (s.info p).recv_buf ≡ some total)
              × ((offset + count ≤ length (t.info p).recv_buf) ↔ (pos byte_num ≤ℤ total))
        by none f l g = absurd (ground (arith, e, f))
        by (some n) f no_field g = absurd (ground (arith, e, f, g))
        by (some n) f bad_field g = absurd (ground (arith, e, f, g))
        by (some n) f (field len) g = (
          add_int len (pos (n + 4)),
          ground (arith, f, g),
          read_content-fits (add_int len (pos (n + 4))) (wants_continue (s.info p).recv_buf) k
              process byte_num now p offset count (touch now p s) t
              (add_int-IsInt len (pos (n + 4))) (ground arith) (ground arith) (ground arith)
              (ground (arith, e, f, g)),
        )
