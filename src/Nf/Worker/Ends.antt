-- ===== src/Nf/Worker/Ends.antt =====
-- all-sync/test_bf.cc, Process(): rules for what holds where a part of a round ends.
use kknf.Base.{◌≡◌, ap, subst}
use kknf.Nf.Worker.{Worker, Result, next, ended, blocked, over_read, failed, M, ◌>>=◌}

-- One thing holds where the round ends, another where the part goes on with a value.
abbrev pub Holds : {A : Type 0} → (Worker → Type 0) → (A → Worker → Type 0) → Result A → Type 0
Holds E N (next a f) = N a f
Holds E N (ended f) = E f
Holds E N blocked = Unit
Holds E N over_read = Unit
Holds E N failed = Unit

module _ {A B : Type 0} (E : Worker → Type 0) (N : A → Worker → Type 0)
    (K : B → Worker → Type 0) where
  after :
      (r : Result A) (k : A → M B) (f : Worker)
      → Holds E N r
      → ((a : A) (g : Worker) → N a g → Holds E K (k a g))
      → Holds E K (((λ _. r) >>= k) f)
  after (next a g) k f h then = then a g h
  after (ended g) k f h then = h
  after blocked k f h then = tt
  after over_read k f h then = tt
  after failed k f h then = tt

  -- One part after another.
  pub >>=-Holds :
      (m : M A) (k : A → M B) (f : Worker)
      → Holds E N (m f)
      → ((a : A) (g : Worker) → N a g → Holds E K (k a g))
      → Holds E K ((m >>= k) f)
  >>=-Holds m k f h then = after (m f) k f h then

-- What holds where a round ends.
pub ended-Holds :
    {A : Type 0} (E : Worker → Type 0) (N : A → Worker → Type 0) (r : Result A) {f : Worker}
    → Holds E N r
    → r ≡ ended f
    → E f
ended-Holds E N (next a g) h e = absurd (cc)
ended-Holds {A} E N (ended g) {f} h e =
    let same : g ≡ f = ap (λ (r : Result A). elim r [ ended g' ↦ g' | _ ↦ f ]) e in subst E same h
ended-Holds E N blocked h e = absurd (cc)
ended-Holds E N over_read h e = absurd (cc)
ended-Holds E N failed h e = absurd (cc)
