-- ===== src/Nf/Stream/Bytes.antt =====
-- The length fields of packets, four bytes with the highest first.
use kknf.Base.{ℕ, ◌^◌, ◌<◌, ◌≡◌, List, ◌++◌, arith}
use kknf.Nf.Stream.{ntohl, htonl}

-- A number of 32 bits comes back from its length field, whatever follows.
pub ntohl-htonl : (n : ℕ) (bs : List ℕ) → n < 2 ^ 32 → ntohl (htonl n ++ bs) ≡ n
ntohl-htonl n bs h = omega arith
