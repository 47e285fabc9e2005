-- ===== src/Nf/Pools/Lines.antt =====
-- What the workers for lines answer, and when.
use kknf.Base.{
  ℕ, ◌≡◌, ◌≢◌, ◌≤◌, ◌∙◌, refl, List, [], ◌∷◌, ◌++◌, none, arith, length, All, take, min, ap,
  take-length_append,
}
use kknf.Base.Int.{ℤ}
use kknf.Nf.Socket.{Socket}
use kknf.Nf.Stream.{SendAnswer, gave}
use kknf.Nf.Server.{Server, got, get_server_ready_socket}
use kknf.Nf.Worker.{Worker, ended, take_ready_socket}
use kknf.Nf.Worker.Calls.{>>=-next, take_ready_socket-got}
use kknf.Nf.Pools.{cmd_line, answer_line, process_line}

-- A byte that is neither the end of a line nor the end of a C string.
abbrev pub IsText : ℕ → Type 0
IsText c = (c ≢ b'\n') × (c ≢ 0)

cmd_line-none : (piece : List ℕ) → All IsText piece → cmd_line piece ≡ none
unfolding cmd_line
cmd_line-none [] h = refl
cmd_line-none (c ∷ piece) h = ground (arith, cmd_line-none piece h.1)

module _ (index : ℕ) (note : ℤ) (answers : List SendAnswer) (f : Worker) (srv : Server)
    (sk : Socket) where
  -- Where the first recv() gives a piece of a line without its end, the round closes and deletes the
  -- socket and sends nothing, whatever follows on the wire.
  pub process_line-drops_piece :
      (piece rest : List ℕ)
      → get_server_ready_socket index f.srv ≡ got srv sk
      → All IsText piece
      → length piece ≤ 1024
      → process_line index note answers (gave (length piece)) (piece ++ rest) f
        ≡ ended (record f { srv = record srv { closed = srv.closed ++ sk ∷ [] } })
  unfolding process_line
  process_line-drops_piece piece rest e h fits =
      let k : min (length piece) 1024 ≡ length piece = omega arith in
      >>=-next (take_ready_socket index) _ f (take_ready_socket-got index f srv sk e)
      ∙ ap
          (λ m.
            answer_line index note answers sk (cmd_line (take m (piece ++ rest)))
              (record f { srv = srv }))
          k
      ∙ ap (λ buf. answer_line index note answers sk (cmd_line buf) (record f { srv = srv }))
          (take-length_append piece rest)
      ∙ ap (λ l. answer_line index note answers sk l (record f { srv = srv }))
          (cmd_line-none piece h)
