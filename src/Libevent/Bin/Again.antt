-- ===== src/Libevent/Bin/Again.antt =====
-- What ReadHandler makes of the bytes after a packet, and of a packet without data.
use kknf.Base.{Option, ℕ, ◌≡◌, List, none, length}
use kknf.Libevent.Bin.{BinSocket, ReadAnswer, crashed, read_handler, read_packet_data}

-- Once NetFrame has taken the block of a packet away (`recv_mb_ = 0`), the next call of ReadHandler
-- goes through the null pointer, whatever there is to read: `len_field_read_` is still 4.
pub read_handler-second_packet :
    (max : ℕ) (pool : Option ℕ) (a b : ReadAnswer) (sk : BinSocket) (wire : List ℕ)
    → length sk.len_bytes ≡ 4
    → read_handler max pool a b (record sk { recv_mb = none }) wire ≡ crashed
unfolding read_handler read_packet_data
read_handler-second_packet max pool a b sk wire e = rw e
