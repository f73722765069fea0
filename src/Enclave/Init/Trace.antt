-- ===== src/Enclave/Init/Trace.antt =====
-- src/init/init.rs: how a computation extends the record of calls, seen through a function on
-- calls.
use artos_nautilus_server.Prelude.{
  ◌≡◌, refl, sym, ap, ◌∙◌, List, [], ◌∷◌, ◌++◌, append-nil, append_assoc,
}
use artos_nautilus_server.Enclave.System.{System, State, M, ◌>>=◌, ◌>>◌, Call, ask, tell}
use artos_nautilus_server.Enclave.Init.{skip}

module _ {X : Type 0} (h : Call → List X) where
  -- What `h` sees of a record of calls.
  unfoldable pub project : List Call → List X
  project [] = []
  project (c ∷ cs) = h c ++ project cs

  project-append : (cs ds : List Call) → project (cs ++ ds) ≡ project cs ++ project ds
  unfolding project
  project-append [] ds = refl
  project-append (c ∷ cs) ds =
      rw (project-append cs ds) (sym (append_assoc (h c) (project cs) (project ds)))

  pub project-snoc : (cs : List Call) (c : Call) → project (cs ++ (c ∷ [])) ≡ project cs ++ h c
  unfolding project
  project-snoc cs c = project-append cs (c ∷ []) ∙ ap (λ l. project cs ++ l) (append-nil (h c))

  module _ (sys : System) where
    -- From any state the computation adds exactly `xs` to what `h` sees.
    pub record Adds {A : Type 0} (m : M sys A) (xs : List X) : Type 0 where
      pub adds : (s : State sys) → project (m s).1.calls ≡ project s.calls ++ xs

    pub Adds-ask :
        {A : Type 0} (c : Call) (on : sys.World → A × sys.World) → Adds (ask sys c on) (h c)
    unfolding ask
    Adds-ask c on = record { adds = λ s. project-snoc s.calls c }

    pub Adds-tell : (c : Call) → Adds (tell sys c) (h c)
    unfolding tell
    Adds-tell c = record { adds = λ s. project-snoc s.calls c }

    pub Adds-skip : Adds (skip sys) []
    unfolding skip
    Adds-skip = record { adds = λ s. sym (append-nil (project s.calls)) }

    pub Adds-bind :
        {A B : Type 0} {m : M sys A} {f : A → M sys B} (xs ys : List X)
        → Adds m xs
        → ((a : A) → Adds (f a) ys)
        → Adds (◌>>=◌ sys m f) (xs ++ ys)
    unfolding ◌>>=◌
    Adds-bind {m} {f} xs ys hm hf = record {
      adds = λ s.
          (hf (m s).0).adds (m s).1
          ∙ (ap (λ l. l ++ ys) (hm.adds s) ∙ append_assoc (project s.calls) xs ys);
    }

    pub Adds-seq :
        {A B : Type 0} {m : M sys A} {k : M sys B} (xs ys : List X)
        → Adds m xs
        → Adds k ys
        → Adds (◌>>◌ sys m k) (xs ++ ys)
    unfolding ◌>>◌
    Adds-seq {m} {k} xs ys hm hk = record {
      adds = λ s.
          hk.adds (m s).1 ∙ (ap (λ l. l ++ ys) (hm.adds s) ∙ append_assoc (project s.calls) xs ys);
    }
