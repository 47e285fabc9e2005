-- ===== src/Nf/Addr.antt =====
-- all-sync/socketaddr.hpp: the keys of the pool of client sockets, and datagrams.
-- A std::string is the list of its bytes; its `<` is the lexicographic order.
pub mod Order
use kknf.Base.{ℕ, Bool, true, false, List, [], ◌∷◌, ltb, if◌then◌else◌}

pub record SocketAddr : Type 0 where
  pub ip : List ℕ
  pub port : ℕ

pub record Packet : Type 0 where
  pub from_ : SocketAddr
  pub to_ : SocketAddr
  pub bytes : List ℕ

-- std::string's operator<.
string_lt : List ℕ → List ℕ → Bool
string_lt xs [] = false
string_lt [] (y ∷ ys) = true
string_lt (x ∷ xs) (y ∷ ys) =
    let rest = string_lt xs ys in if ltb x y then true else if ltb y x then false else rest

-- SocketAddr's operator<; `ip_ > o.ip_` is `o.ip_ < ip_`.
unfoldable pub addr_lt : SocketAddr → SocketAddr → Bool
unfolding string_lt
addr_lt a o =
    if string_lt a.ip o.ip
    then true
    else if string_lt o.ip a.ip
    then false
    else if ltb a.port o.port
    then true
    else false
