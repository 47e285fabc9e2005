-- ===== src/Libevent/Line/Lines.antt =====
-- Which lines ReadHandler finds in what has come.
use kknf.Base.{
  Option, true, leb, ℕ, suc, ◌+◌, ◌-◌, ◌≡◌, refl, ap, ap₂, sym, subst, ◌∙◌, ◌≤◌, ltb, drop-drop,
  List, [], ◌∷◌, ◌++◌, append_assoc, some, none, false, arith, length, drop, get_elem?, All,
  All-append, length-append, take-length_append, drop-length_append,
}
use kknf.Base.Int.{pos}
use kknf.Libevent.Line.{
  LineSocket, fits_block, line_code, find_line_feed, split_at, after_search, put_bytes, read_lines,
}
use kknf.Libevent.Line.Search.{
  NotLineFeed, get_elem?-append_length, Clear, find-Clear, find_none, find_hit, list-Clear,
}

big_enough : (n m : ℕ) → n ≤ m → leb n m ≡ true
big_enough n m h = ground arith

enough : (n m : ℕ) → m ≤ n → ltb n m ≡ false
enough n m h = ground arith

hit :
    (old pre z : List ℕ) (x : ℕ)
    → get_elem? ((old ++ (x ∷ (pre ++ (10 ∷ [])))) ++ z) (length old + suc (length pre)) ≡ some 10
hit old pre z x =
    let e : (old ++ (x ∷ (pre ++ (10 ∷ [])))) ++ z ≡ (old ++ (x ∷ pre)) ++ (10 ∷ z) =
      simp append_assoc in
    let i : length old + suc (length pre) ≡ length (old ++ (x ∷ pre)) + 0 =
      omega (arith, length-append old (x ∷ pre)) in
    rw (e, i) (get_elem?-append_length (old ++ (x ∷ pre)) (10 ∷ z) 0)

-- Where the block is after a read: what waited, what came, and the bytes that were there before.
put_bytes_lem :
    (old bs fill rest : List ℕ)
    → length fill ≡ length bs
    → put_bytes bs (record { block = old ++ (fill ++ rest); used_num = length old; lines = none })
      ≡ record { block = old ++ (bs ++ rest); used_num = length old + length bs; lines = none }
unfolding put_bytes
put_bytes_lem old bs fill rest e =
    let behind : drop (length old + length bs) (old ++ (fill ++ rest)) ≡ rest =
      sym (drop-drop (length old) (length bs) (length old + length bs) (old ++ (fill ++ rest)) refl)
      ∙ ap (drop (length bs)) (drop-length_append old (fill ++ rest))
      ∙ ap (λ n. drop n (fill ++ rest)) (sym e)
      ∙ drop-length_append fill rest in
    rw (take-length_append old (fill ++ rest), behind)

-- A block cut behind its first `front` bytes.
split_at_lem :
    (front t fr : List ℕ) (pos2 endpos used room : ℕ)
    → length front ≤ room
    → length front ≡ suc pos2
    → endpos ≡ pos2 + length t
    → split_at
        (some room)
        pos2
        endpos
        (record { block = front ++ (t ++ fr); used_num = used; lines = none })
      ≡ line_code (pos 1) (record {
        block = t ++ drop (length t) (front ++ (t ++ fr));
        used_num = length t;
        lines = some front;
      })
unfolding split_at fits_block
split_at_lem front t fr pos2 endpos used room big e e' =
    let count : endpos - pos2 ≡ length t = omega arith in
    let cut : pos2 + 1 ≡ length front = omega arith in
    let behind : ltb (length (front ++ (t ++ fr))) (endpos + 1) ≡ false =
      enough (length (front ++ (t ++ fr))) (endpos + 1)
        (omega (arith, length-append front (t ++ fr), length-append t fr)) in
    let taken : leb (length front) room ≡ true = big_enough (length front) room big in
    rw (
      count,
      cut,
      taken,
      behind,
      take-length_append front (t ++ fr),
      drop-length_append front (t ++ fr),
      take-length_append t fr,
    )

-- Where the last line feed that came is not the first byte that came, the search finds it.
find_last :
    (old pre post fr : List ℕ) (x s : ℕ)
    → All NotLineFeed post
    → NotLineFeed s
    → find_line_feed
        ((old ++ (x ∷ (pre ++ (10 ∷ [])))) ++ ((post ++ (s ∷ [])) ++ fr))
        (length old)
        (suc (length pre) + length (post ++ (s ∷ [])))
      ≡ some (some (length old + suc (length pre)))
find_last old pre post fr x s h d =
    let t : List ℕ = post ++ (s ∷ []) in
    let front : List ℕ = old ++ (x ∷ (pre ++ (10 ∷ []))) in
    let long : length front ≡ suc (length old + suc (length pre)) =
      omega (arith, length-append old (x ∷ (pre ++ (10 ∷ []))), length-append pre (10 ∷ [])) in
    let clear =
      list-Clear front t fr (length old + suc (length pre)) (length t) long
        (All-append NotLineFeed post (s ∷ []) h (d, tt)) (omega arith) in
    find-Clear (front ++ (t ++ fr)) (length old) (suc (length pre)) (length t) clear
    ∙ find_hit (front ++ (t ++ fr)) (length old) (length pre) (hit old pre (t ++ fr) x)

read_lines_eq :
    (pool : Option ℕ) (b errno : ℕ) (bs : List ℕ) (sk after : LineSocket)
    → put_bytes (b ∷ bs) sk ≡ after
    → read_lines pool (b ∷ bs) errno sk
      ≡ after_search pool after.used_num after
          (find_line_feed after.block sk.used_num (length (b ∷ bs)))
unfolding read_lines
read_lines_eq pool b errno bs sk after e =
    ap (λ k. after_search pool k.used_num k (find_line_feed k.block sk.used_num (length (b ∷ bs))))
      e

-- A socket with `old` in use, in front of the rest of its block.
abbrev pub waiting : List ℕ → List ℕ → LineSocket
waiting old behind = record { block = old ++ behind; used_num = length old; lines = none }

-- What ReadHandler makes of bytes with a line feed after the first of them, where they leave a byte of
-- the block free, the byte `s` that stands there is not a line feed, no line waits for the caller
-- (`recv_mb_` is null), and GetMemBlock gives a block long enough: it answers 1, and hands on what waited
-- and all that came up to the last line feed. What came after it goes on waiting, and with it the byte
-- `s`, which has not come.
pub read_lines-hands_on :
    (old pre post fill fr : List ℕ) (x s errno room : ℕ)
    → length old + length pre + 2 ≤ room
    → length fill ≡ length pre + length post + 2
    → All NotLineFeed post
    → NotLineFeed s
    → (block' : List ℕ) × (read_lines
          (some room)
          (x ∷ (pre ++ (10 ∷ post)))
          errno
          (waiting old (fill ++ (s ∷ fr)))
        ≡ line_code (pos 1) (record {
          block = (post ++ (s ∷ [])) ++ block';
          used_num = length post + 1;
          lines = some (old ++ (x ∷ (pre ++ (10 ∷ []))));
        }))
unfolding after_search
read_lines-hands_on old pre post fill fr x s errno room big e h d =
    let bs : List ℕ = pre ++ (10 ∷ post) in
    let t : List ℕ = post ++ (s ∷ []) in
    let front : List ℕ = old ++ (x ∷ (pre ++ (10 ∷ []))) in
    let num : length (x ∷ bs) ≡ suc (length pre) + length t =
      omega (arith, length-append pre (10 ∷ post), length-append post (s ∷ [])) in
    let block : old ++ ((x ∷ bs) ++ (s ∷ fr)) ≡ front ++ (t ++ fr) = simp append_assoc in
    let long : length front ≡ suc (length old + suc (length pre)) =
      omega (arith, length-append old (x ∷ (pre ++ (10 ∷ []))), length-append pre (10 ∷ [])) in
    let one_more : length t ≡ length post + 1 = length-append post (s ∷ []) in
    let put =
      put_bytes_lem old (x ∷ bs) fill (s ∷ fr) (omega (arith, length-append pre (10 ∷ post))) in
    (
      drop (length t) (front ++ (t ++ fr)),
      read_lines_eq (some room) x errno bs (waiting old (fill ++ (s ∷ fr)))
            (record {
              block = old ++ ((x ∷ bs) ++ (s ∷ fr));
              used_num = length old + length (x ∷ bs);
              lines = none;
            })
            put
          ∙ rw (num, block, find_last old pre post fr x s h d)
              (split_at_lem front t fr (length old + suc (length pre))
                  (length old + (suc (length pre) + length t))
                  (length old + (suc (length pre) + length t)) room (omega (arith, long)) long
                  (omega arith)
                ∙ ap
                    (λ n. line_code (pos 1) (record {
                      block = t ++ drop (length t) (front ++ (t ++ fr));
                      used_num = n;
                      lines = some front;
                    }))
                    one_more),
    )

-- Where a line feed comes as the first byte of a read, and none after it, ReadHandler does not find
-- it: it answers 0, and the line goes on waiting with what came after it.
pub read_lines-misses_first :
    (pool : Option ℕ) (old post fill fr : List ℕ) (s errno : ℕ)
    → length fill ≡ length post + 1
    → All NotLineFeed post
    → NotLineFeed s
    → read_lines pool (10 ∷ post) errno (waiting old (fill ++ (s ∷ fr)))
      ≡ line_code (pos 0) (record {
        block = old ++ ((10 ∷ post) ++ (s ∷ fr));
        used_num = length old + length (10 ∷ post);
        lines = none;
      })
unfolding after_search
read_lines-misses_first pool old post fill fr s errno e h d =
    let t : List ℕ = post ++ (s ∷ []) in
    let front : List ℕ = old ++ (10 ∷ []) in
    let num : length (10 ∷ post) ≡ 0 + length t = omega (arith, length-append post (s ∷ [])) in
    let block : old ++ ((10 ∷ post) ++ (s ∷ fr)) ≡ front ++ (t ++ fr) = simp append_assoc in
    let clear =
      list-Clear front t fr (length old) (length t) (omega (arith, length-append old (10 ∷ [])))
        (All-append NotLineFeed post (s ∷ []) h (d, tt)) (omega arith) in
    let clear' : Clear (front ++ (t ++ fr)) (length old + 0) (length t) =
      subst (λ k. Clear (front ++ (t ++ fr)) k (length t)) (omega arith) clear in
    let none_found : find_line_feed (front ++ (t ++ fr)) (length old) (0 + length t) ≡ some none =
      find_none (front ++ (t ++ fr)) (length old) (length t) clear' in
    let found : find_line_feed (old ++ ((10 ∷ post) ++ (s ∷ fr))) (length old) (length (10 ∷ post))
        ≡ some none =
      ap₂ (λ bs n. find_line_feed bs (length old) n) block num ∙ none_found in
    let put = put_bytes_lem old (10 ∷ post) fill (s ∷ fr) (omega arith) in
    read_lines_eq pool 10 errno post (waiting old (fill ++ (s ∷ fr)))
      (record {
        block = old ++ ((10 ∷ post) ++ (s ∷ fr));
        used_num = length old + length (10 ∷ post);
        lines = none;
      })
      put
    ∙ ap
        (after_search pool (length old + length (10 ∷ post)) (record {
          block = old ++ ((10 ∷ post) ++ (s ∷ fr));
          used_num = length old + length (10 ∷ post);
          lines = none;
        }))
        found
