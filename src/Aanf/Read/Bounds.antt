-- ===== src/Aanf/Read/Bounds.antt =====
-- The read of the data field against the buffer.
use kknf.Base.{
  ℕ, ◌+◌, ◌^◌, ◌≤◌, ◌<◌, ◌≡◌, ◌↔◌, false, length, length-drop, length-replicate, replicate, arith,
}
use kknf.Base.Int.{ℤ, pos, negsuc, ◌-ℤ◌, ◌≤ℤ◌}
use kknf.Base.Map.{Order}
use kknf.Nf.Stream.{ntohl, to_int}
use kknf.Aanf.Tables.{Skeleton, write, touch, set_recv_buf}
use kknf.Aanf.Read.{reads, to_size, put_len, make_room, handle_read_l_then_read_v}

-- Int of 32 bits.
abbrev pub IsInt : ℤ → Type 0
IsInt (pos n) = n < 2 ^ 31
IsInt (negsuc n) = n ≤ 2 ^ 32

to_int-IsInt : (u : ℕ) → IsInt (to_int u)
to_int-IsInt u = ground arith

count_fits :
    (len : ℤ) (room : ℕ)
    → IsInt len
    → (pos 4 ≤ℤ len → pos room ≡ len)
    → (len ≤ℤ pos 4 → room ≡ 4)
    → (4 + to_size (len -ℤ pos 4) ≤ room) ↔ (pos 4 ≤ℤ len)
unfolding ◌-ℤ◌
count_fits (pos n) room w h g = ground arith
count_fits (negsuc n) room w h g = ground arith

module _ {E : Type 0} where
  make_room-length :
      (len : ℤ) (p : ℕ) (s : Skeleton E)
      → length (s.info p).recv_buf ≡ 4
      → (pos 4 ≤ℤ len → pos (length ((make_room len p s).info p).recv_buf) ≡ len)
        × (len ≤ℤ pos 4 → length ((make_room len p s).info p).recv_buf ≡ 4)
  unfolding make_room put_len set_recv_buf write
  make_room-length (negsuc n) p s h = (λ g. ground arith, λ g. ground arith)
  make_room-length (pos n) p s h = (
    λ g. ground (arith, length-drop {A = ℕ} 4 (replicate n 0), length-replicate {A = ℕ} n 0),
    λ g. ground arith,
  )

  module _ ⦃o : Order E⦄ where
    -- Where HandleReadLThenReadV reads on, after the four bytes of the length have come, the read stays
    -- within the buffer exactly if the length that the peer has sent is 4 or more.
    pub handle_read_l_then_read_v-fits :
        (now p offset count : ℕ) (s t : Skeleton E)
        → length (s.info p).recv_buf ≡ 4
        → handle_read_l_then_read_v false now p s ≡ (t, reads offset count)
        → (offset + count ≤ length (t.info p).recv_buf)
          ↔ (pos 4 ≤ℤ to_int (ntohl (s.info p).recv_buf))
    unfolding handle_read_l_then_read_v touch write
    handle_read_l_then_read_v-fits now p offset count s t h e =
        let len = to_int (ntohl (s.info p).recv_buf) in
        let (above, below) = make_room-length len p (touch now p s) (ground arith) in
        let fits =
          count_fits len (length ((make_room len p (touch now p s)).info p).recv_buf)
            (to_int-IsInt (ntohl (s.info p).recv_buf)) above below in
        ground (arith, fits)
