-- ===== src/Libevent/Line/Search.antt =====
-- What the search of ReadHandler for a line feed passes over, and where it ends.
use kknf.Base.{
  ℕ, zero, suc, ◌+◌, ◌<◌, ◌≡◌, ◌≢◌, refl, ap, ◌∙◌, List, [], ◌∷◌, ◌++◌, some, none, false, arith,
  length, get_elem?, ◌==◌, All,
}
use kknf.Libevent.Line.{test_byte, find_line_feed}

abbrev pub NotLineFeed : ℕ → Type 0
NotLineFeed c = c ≢ 10

pub get_elem?-append_length {ℓ} :
    {A : Type ℓ} (xs ys : List A) (i : ℕ) → get_elem? (xs ++ ys) (length xs + i) ≡ get_elem? ys i
get_elem?-append_length [] ys i = ap (get_elem? ys) (omega arith)
get_elem?-append_length (x ∷ xs) ys i =
    let e : suc (length xs) + i ≡ suc (length xs + i) = omega arith in
    rw e (get_elem?-append_length xs ys i)

-- No line feed among the `n` bytes after index `lo`.
abbrev pub Clear : List ℕ → ℕ → ℕ → Type 0
Clear block lo zero = Unit {0}
Clear block lo (suc n) =
    ((c : ℕ) × (get_elem? block (lo + suc n) ≡ some c) × NotLineFeed c) × Clear block lo n

not_feed : (c : ℕ) → NotLineFeed c → (c == 10) ≡ false
not_feed c d = ground arith

find_step :
    (block : List ℕ) (lo m c : ℕ)
    → get_elem? block (lo + suc m) ≡ some c
    → NotLineFeed c
    → find_line_feed block lo (suc m) ≡ find_line_feed block lo m
unfolding find_line_feed test_byte
find_step block lo m c at d = rw (at, not_feed c d)

pub find_hit :
    (block : List ℕ) (lo m : ℕ)
    → get_elem? block (lo + suc m) ≡ some 10
    → find_line_feed block lo (suc m) ≡ some (some (lo + suc m))
unfolding find_line_feed test_byte
find_hit block lo m at = rw at

-- The search passes over them.
pub find-Clear :
    (block : List ℕ) (lo n k : ℕ)
    → Clear block (lo + n) k
    → find_line_feed block lo (n + k) ≡ find_line_feed block lo n
find-Clear block lo n zero h = ap (find_line_feed block lo) (omega arith)
find-Clear block lo n (suc k) h =
    let (c, at, d) = h.0 in
    let e : n + suc k ≡ suc (n + k) = omega arith in
    let i : lo + suc (n + k) ≡ (lo + n) + suc k = omega arith in
    rw e (find_step block lo (n + k) c (rw i at) d ∙ find-Clear block lo n k h.1)

pub find_none :
    (block : List ℕ) (lo n : ℕ)
    → Clear block (lo + 0) n
    → find_line_feed block lo (0 + n) ≡ some none
unfolding find_line_feed
find_none block lo n h = find-Clear block lo 0 n h

-- The bytes of a list without line feeds.
elem-NotLineFeed :
    (t z : List ℕ) (i : ℕ)
    → All NotLineFeed t
    → i < length t
    → (c : ℕ) × (get_elem? (t ++ z) i ≡ some c) × NotLineFeed c
elem-NotLineFeed [] z i h l = absurd (omega arith)
elem-NotLineFeed (x ∷ t) z zero h l = (x, refl, h.0)
elem-NotLineFeed (x ∷ t) z (suc i) h l = elem-NotLineFeed t z i h.1 (omega arith)

pub list-Clear :
    (front t z : List ℕ) (lo k : ℕ)
    → length front ≡ suc lo
    → All NotLineFeed t
    → k < suc (length t)
    → Clear (front ++ (t ++ z)) lo k
list-Clear front t z lo zero e h l = tt
list-Clear front t z lo (suc k) e h l =
    let i : lo + suc k ≡ length front + k = omega arith in
    let (c, at, d) = elem-NotLineFeed t z k h (omega arith) in
    (
      (c, rw i (get_elem?-append_length front (t ++ z) k ∙ at), d),
      list-Clear front t z lo k e h (omega arith),
    )
