-- ===== src/Nf/Addr/Order.antt =====
-- The comparison of addresses is a strict total order, so it may be the order of a std::map.
use kknf.Base.{ℕ, ◌≡◌, ◌≢◌, ◌⊎◌, inl, inr, refl, true, false, List, [], ◌∷◌, arith, Bool-cases}
use kknf.Base.Map.{Order}
use kknf.Nf.Addr.{SocketAddr, string_lt, addr_lt}

string_lt_irrefl : (xs : List ℕ) → string_lt xs xs ≡ false
unfolding string_lt
string_lt_irrefl [] = refl
string_lt_irrefl (x ∷ xs) = ground (arith, string_lt_irrefl xs)

string_lt_trans :
    (xs ys zs : List ℕ) → string_lt xs ys ≡ true → string_lt ys zs ≡ true → string_lt xs zs ≡ true
unfolding string_lt
string_lt_trans [] [] zs h g = ground arith
string_lt_trans [] (y ∷ ys) [] h g = ground arith
string_lt_trans [] (y ∷ ys) (z ∷ zs) h g = refl
string_lt_trans (x ∷ xs) [] zs h g = ground arith
string_lt_trans (x ∷ xs) (y ∷ ys) [] h g = ground arith
string_lt_trans (x ∷ xs) (y ∷ ys) (z ∷ zs) h g = ground (arith, string_lt_trans xs ys zs)

string_lt_connex : (xs ys : List ℕ) → string_lt xs ys ≡ false → string_lt ys xs ≡ false → xs ≡ ys
unfolding string_lt
string_lt_connex [] [] h g = refl
string_lt_connex [] (y ∷ ys) h g = ground arith
string_lt_connex (x ∷ xs) [] h g = ground arith
string_lt_connex (x ∷ xs) (y ∷ ys) h g = ground (arith, string_lt_connex xs ys)

pub addr_lt_irrefl : (a : SocketAddr) → addr_lt a a ≡ false
unfolding addr_lt
addr_lt_irrefl a = ground (arith, string_lt_irrefl a.ip)

-- `operator<` of addresses is transitive.
pub addr_lt_trans :
    (a b c : SocketAddr) → addr_lt a b ≡ true → addr_lt b c ≡ true → addr_lt a c ≡ true
unfolding addr_lt
addr_lt_trans a b c h g = ground (
  arith,
  string_lt_trans a.ip b.ip c.ip,
  string_lt_trans c.ip a.ip b.ip,
  string_lt_trans b.ip c.ip a.ip,
  string_lt_connex a.ip b.ip,
  string_lt_connex b.ip c.ip,
  string_lt_irrefl a.ip,
  string_lt_irrefl b.ip,
)

pub addr_lt_connex : (a b : SocketAddr) → addr_lt a b ≡ false → addr_lt b a ≡ false → a ≡ b
unfolding addr_lt
addr_lt_connex a b h g = ground (arith, string_lt_connex a.ip b.ip)

instance abbrev pub addr_order : Order SocketAddr
addr_order = record {
  lt = addr_lt;
  lt_irrefl = addr_lt_irrefl;
  lt_trans = addr_lt_trans;
  lt_connex = addr_lt_connex;
}

-- Of two addresses exactly one of three holds: the first is less, the second is less, or they are
-- equal. So a std::map over this order tells two keys apart exactly if they differ.
pub addr_lt_trichotomy :
    (a b : SocketAddr)
    → ((addr_lt a b ≡ true) × (addr_lt b a ≡ false) × (a ≢ b))
      ⊎ ((addr_lt a b ≡ false) × (addr_lt b a ≡ true) × (a ≢ b))
      ⊎ ((addr_lt a b ≡ false) × (addr_lt b a ≡ false) × (a ≡ b))
addr_lt_trichotomy a b = elim (Bool-cases (addr_lt a b)) [
  | inl l ↦
      inl (l, ground (arith, addr_lt_trans a b a, addr_lt_irrefl a), λ e. cc (addr_lt_irrefl a))
  | inr nl ↦ elim (Bool-cases (addr_lt b a)) [
    | inl g ↦ inr (inl (nl, g, λ e. cc (addr_lt_irrefl a)))
    | inr ng ↦ inr (inr (nl, ng, addr_lt_connex a b nl ng))
  ]
]
