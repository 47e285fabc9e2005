-- ===== src/Tests/Read.antt =====
-- aanf/asio-based2: packets with a length, on small inputs.
use kknf.Base.{ℕ, ◌+◌, ◌≡◌, ◌≤◌, ◌↔◌, refl, List, [], ◌∷◌, ◌++◌, true, false, length}
use kknf.Base.Int.{pos, ◌≤ℤ◌, ◌-ℤ◌}
use kknf.Nf.Stream.{ntohl, htonl, to_int}
use kknf.Aanf.Tables.{Skeleton, write, touch}
use kknf.Aanf.Read.{reads, make_room, handle_read_l_then_read_v}
use kknf.Aanf.Read.Bounds.{handle_read_l_then_read_v-fits}
use kknf.Base.Map.{number_order}
use kknf.Tests.Aanf.{tables}

-- Pointer 1 is a client's socket in use with this in its buffer.
abbrev holding : List ℕ → Skeleton ℕ
holding bytes = record tables {
  info = λ p. record (tables.info 1) { in_use = true; recv_buf = bytes };
}

abbrev header : List ℕ
header = 0 ∷ 0 ∷ 0 ∷ 6 ∷ []

abbrev body : List ℕ
body = 8 ∷ 9 ∷ []

abbrev after_length : Skeleton ℕ
after_length = make_room (to_int (ntohl header)) 1 (touch 70 1 (holding header))

reads_on : handle_read_l_then_read_v false 70 1 (holding header) ≡ (after_length, reads 4 2)
unfolding handle_read_l_then_read_v ◌-ℤ◌
reads_on = refl

handle_read_l_then_read_v-fits_example :
    (4 + 2 ≤ length (after_length.info 1).recv_buf)
    ↔ (pos 4 ≤ℤ to_int (ntohl ((holding header).info 1).recv_buf))
handle_read_l_then_read_v-fits_example =
    handle_read_l_then_read_v-fits 70 1 4 2 (holding header) after_length refl reads_on

abbrev packet : List ℕ
packet = htonl (4 + length body) ++ body

abbrev idle : Skeleton ℕ
idle = let t = touch 70 1 (holding packet) in write 1 (record (t.info 1) { in_use = false }) t
