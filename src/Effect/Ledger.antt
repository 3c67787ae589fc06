-- ===== src/Effect/Ledger.antt =====
-- What a program says, against what it is asked to do: some calls are answered with something to do, and
-- the calls that it says are blocks that do it. `Owed xs h₀`: since `h₀`, the program has said a
-- sequence of blocks, which did in its order all that it was asked to, but for `xs`.
use mathlib.Core.List.{append_assoc}
use rabbitmq_cxx.Base.{◌≡◌, refl, sym, ◌∙◌, ap, Bool, false, List, [], ◌∷◌, ◌++◌}
use rabbitmq_cxx.Amqp.{Call, Trace, Library}
use rabbitmq_cxx.Effect.Keeps.{Account}
use rabbitmq_cxx.Effect.Blocks.{keep, keep-append, keep-nil, flat, flat-nil}

-- The calls that are said, the blocks and the calls of each, the newest first, what a block does, and
-- what a call after others asks for.
pub record Trade : Type 1 where
  pub Block : Type 0
  pub Task : Type 0
  pub is_said : Call → Bool
  pub block : Block → Trace
  pub does : Block → List Task
  pub asks : Library → Call → Trace → List Task

unfoldable pub asked_for : (T : Trade) → Library → Trace → Trace → List T.Task
asked_for T lib [] h = []
asked_for T lib (c ∷ d) h = T.asks lib c (d ++ h) ++ asked_for T lib d h

unfoldable pub done_by : (T : Trade) → List T.Block → List T.Task
done_by T [] = []
done_by T (b ∷ bs) = T.does b ++ done_by T bs

abbrev pub Owed : (T : Trade) → List T.Task → Trace → Account
Owed T xs h₀ lib t =
    (d : Trace) × (bs : List T.Block) × (t ≡ d ++ h₀)
    × (keep T.is_said d ≡ flat T.block bs)
    × (asked_for T lib d h₀ ≡ xs ++ done_by T bs)

module _ (T : Trade) (h₀ : Trace) (lib : Library) where
  pub Owed-nothing : Owed T [] h₀ lib h₀
  unfolding asked_for done_by
  Owed-nothing = ([], [], refl, keep-nil T.is_said ∙ sym (flat-nil T.block), refl)

  keep-quiet :
      (c : Call) (d : Trace) → T.is_said c ≡ false → keep T.is_said (c ∷ d) ≡ keep T.is_said d
  unfolding keep
  keep-quiet c d e = rw e refl

  -- A call that is not said and asks for nothing, and one that asks for something.
  pub Owed-quiet :
      (xs : List T.Task) (c : Call) (h : Trace)
      → T.is_said c ≡ false
      → T.asks lib c h ≡ []
      → Owed T xs h₀ lib h
      → Owed T xs h₀ lib (c ∷ h)
  unfolding asked_for
  Owed-quiet xs c h e q (d, bs, p, k, a) =
      let q' = (rw p at q) in
      (c ∷ d, bs, ap (λ (t : Trace). c ∷ t) p, keep-quiet c d e ∙ k, rw q' a)

  pub Owed-asked :
      (x : T.Task) (c : Call) (h : Trace)
      → T.is_said c ≡ false
      → T.asks lib c h ≡ x ∷ []
      → Owed T [] h₀ lib h
      → Owed T (x ∷ []) h₀ lib (c ∷ h)
  unfolding asked_for
  Owed-asked x c h e q (d, bs, p, k, a) =
      let q' = (rw p at q) in
      (c ∷ d, bs, ap (λ (t : Trace). c ∷ t) p, keep-quiet c d e ∙ k, rw (q', a) refl)

  asked_for-append :
      (e d : Trace)
      → asked_for T lib (e ++ d) h₀ ≡ asked_for T lib e (d ++ h₀) ++ asked_for T lib d h₀
  unfolding asked_for
  asked_for-append [] d = refl
  asked_for-append (c ∷ e) d =
      rw
        (
          asked_for-append e d,
          append_assoc e d h₀,
          append_assoc (T.asks lib c (e ++ (d ++ h₀))) (asked_for T lib e (d ++ h₀))
              (asked_for T lib d h₀),
        )
        refl

  -- The calls of a block, which asks for nothing, and does all that was left to do.
  pub Owed-done :
      (xs : List T.Task) (b : T.Block) (e h : Trace)
      → keep T.is_said e ≡ T.block b
      → asked_for T lib e h ≡ []
      → T.does b ≡ xs
      → Owed T xs h₀ lib h
      → Owed T [] h₀ lib (e ++ h)
  unfolding done_by flat
  Owed-done xs b e h said nothing does (d, bs, p, k, a) =
      let nothing' = (rw p at nothing) in
      (
        e ++ d,
        b ∷ bs,
        rw p (sym (append_assoc e d h₀)),
        rw (keep-append T.is_said e d, said, k) refl,
        rw (asked_for-append e d, nothing', does) a,
      )
