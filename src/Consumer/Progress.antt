-- ===== src/Consumer/Progress.antt =====
-- How the worker of examples/advconsumer.cpp ends.
use rabbitmq_cxx.Base.{
  ℕ, zero, suc, ◌<◌, ◌≡◌, ◌≢◌, refl, false, List, [], ◌∷◌, ◌++◌, ◌∙◌, Bool-cases, ◌⊎◌, inl, inr, ap,
  arith,
}
use rabbitmq_cxx.Consumer.{Tag, Message, Consumer, Worker, Thread, System, stop}
use rabbitmq_cxx.Consumer.Steps.{Steps-trans, Step, Steps, here, next, Reachable}
use rabbitmq_cxx.Consumer.Locks.{
  Locks, thread_receives, thread_acks, total, Step-Locks, Reachable-Locks,
}

-- A thread stands where the weight is not zero.
someone :
    (w : Thread → ℕ) (ps : List Thread)
    → total w ps ≢ 0
    → (ls : List Thread) × (p : Thread) × (rs : List Thread) × (ps ≡ ls ++ p ∷ rs) × (w p ≢ 0)
unfolding total
someone w [] h = absurd (h refl)
someone w (p ∷ ps) h = elim (nat_cases (w p)) [
  | inl e ↦
      let (ls, q, rs, eq, k) = someone w ps (λ z. h (omega (arith, e, z))) in
      (p ∷ ls, q, rs, ap (λ (xs : List Thread). p ∷ xs) eq, k)
  | inr k ↦ ([], p, ps, refl, k)
]
  where
    nat_cases : (k : ℕ) → (k ≡ 0) ⊎ (k ≢ 0)
    nat_cases zero = inl refl
    nat_cases (suc k) = inr (λ e. omega (arith, e))

-- Steps after which the worker has fewer of its own ahead of it, with the program still stopped.
abbrev rank : Worker → ℕ
rank Worker.finished = 0
rank Worker.outer = 1
rank Worker.inner = 2
rank Worker.clearing_acks = 2
rank Worker.cleared = 3
rank Worker.clearing_messages = 4
rank Worker.failed = 5
rank Worker.acking = 6
rank Worker.connecting = 6
rank Worker.polled = 7
rank (Worker.delivering m) = 8
rank Worker.polling = 9

-- Once the program is stopped it stays so, and with every step the worker stands still or gets nearer
-- to its end: it makes at most nine more steps.
stopped-rank :
    {s t : System}
    → Step s t
    → s.consumer.run ≡ false
    → (t.consumer.run ≡ false) × ((t.worker ≡ s.worker) ⊎ (rank t.worker < rank s.worker))
stopped-rank {s} (Step.take_message ls rs e) off = (go s.consumer.messages, inl refl)
  where
    go : (ms : List Message) → (rabbitmq_cxx.Consumer.pop_message s.consumer ms).1.run ≡ false
    go [] = off
    go (m ∷ ms) = off
stopped-rank (Step.lock_receive ls rs e u) off = (off, inl refl)
stopped-rank (Step.lock_acknowledge ls rs t e u) off = (off, inl refl)
stopped-rank (Step.hand_back ls rs t e) off = (off, inl refl)
stopped-rank (Step.give_up ls rs e) off = (off, inl refl)
stopped-rank Step.halt off = (refl, inl refl)
stopped-rank (Step.enter w r) off = cc
stopped-rank (Step.leave w r) off = (off, inr (ground arith))
stopped-rank (Step.connect w) off = (off, inr (ground arith))
stopped-rank (Step.connect_fails w) off = (off, inr (ground arith))
stopped-rank (Step.poll w r) off = cc
stopped-rank (Step.quit w r) off = (off, inr (ground arith))
stopped-rank (Step.timeout w) off = (off, inr (ground arith))
stopped-rank (Step.poll_fails w) off = (off, inr (ground arith))
stopped-rank (Step.envelope m w e) off = (off, inr (ground arith))
stopped-rank (Step.emplace m w) off = (off, inr (ground arith))
stopped-rank (Step.lock_acks w u) off = (off, inr (ground arith))
stopped-rank (Step.ack_none w q) off = (off, inr (ground arith))
stopped-rank (Step.ack_front t ts w q) off = (off, inr (ground arith))
stopped-rank (Step.ack_fails t ts w q) off = (off, inr (ground arith))
stopped-rank (Step.lock_clear w u) off = (off, inr (ground arith))
stopped-rank (Step.clear_messages w) off = (off, inr (ground arith))
stopped-rank (Step.lock_clear_acks w u) off = (off, inr (ground arith))
stopped-rank (Step.clear_acks w) off = (off, inr (ground arith))

-- A thread behind a mutex can leave it, and the worker stays where it is.
module _ (s : System) where
  frees_acks :
      total thread_acks s.threads ≢ 0
      → (t : System) × Step s t × (t.ack_mtx ≡ false) × (t.worker ≡ s.worker)
  frees_acks h = let (ls, p, rs, e, k) = someone thread_acks s.threads h in go ls p rs e k
    where
      go :
          (ls : List Thread) (p : Thread) (rs : List Thread)
          → s.threads ≡ ls ++ p ∷ rs
          → thread_acks p ≢ 0
          → (t : System) × Step s t × (t.ack_mtx ≡ false) × (t.worker ≡ s.worker)
      go ls (Thread.acknowledging t) rs e k = (_, Step.hand_back ls rs t e, refl, refl)
      go ls Thread.idle rs e k = absurd (k refl)
      go ls Thread.receiving rs e k = absurd (k refl)
      go ls (Thread.working t) rs e k = absurd (k refl)
      go ls Thread.over rs e k = absurd (k refl)

  frees_messages :
      total thread_receives s.threads ≢ 0
      → (t : System) × Step s t × (t.message_mtx ≡ false) × (t.worker ≡ s.worker)
  frees_messages h = let (ls, p, rs, e, k) = someone thread_receives s.threads h in go ls p rs e k
    where
      go :
          (ls : List Thread) (p : Thread) (rs : List Thread)
          → s.threads ≡ ls ++ p ∷ rs
          → thread_receives p ≢ 0
          → (t : System) × Step s t × (t.message_mtx ≡ false) × (t.worker ≡ s.worker)
      go ls Thread.receiving rs e k = (_, Step.take_message ls rs e, refl, refl)
      go ls (Thread.acknowledging t) rs e k = absurd (k refl)
      go ls Thread.idle rs e k = absurd (k refl)
      go ls (Thread.working t) rs e k = absurd (k refl)
      go ls Thread.over rs e k = absurd (k refl)

-- A state that the stopped program can come to, in which the worker has fewer steps ahead.
abbrev Nearer : System → Type 0
Nearer s =
    (t : System) × Steps s t × Locks t × (t.consumer.run ≡ false) × (rank t.worker < rank s.worker)

module _ (s : System) (locks : Locks s) (off : s.consumer.run ≡ false) where
  by_step : (t : System) → Step s t → rank t.worker < rank s.worker → Nearer s
  by_step t st lt = (t, next here st, Step-Locks st locks, (stopped-rank st off).0, lt)

  -- Another thread makes way first.
  by_steps : (t u : System) → Step s t → Step t u → rank u.worker < rank s.worker → Nearer s
  by_steps t u st su lt = (
    u,
    next (next here st) su,
    Step-Locks su (Step-Locks st locks),
    (stopped-rank su (stopped-rank st off).0).0,
    lt,
  )

  wait_polled : s.worker ≡ Worker.polled → Nearer s
  wait_polled e = elim (Bool-cases s.ack_mtx) [
    | inl taken ↦
        let (t, st, open_, same) = frees_acks s (λ n. ground (arith, locks.acks)) in
        by_steps t _ st (Step.lock_acks (same ∙ e) open_) (ground arith)
    | inr open_ ↦ by_step _ (Step.lock_acks e open_) (ground arith)
  ]

  wait_cleared : s.worker ≡ Worker.cleared → Nearer s
  wait_cleared e = elim (Bool-cases s.ack_mtx) [
    | inl taken ↦
        let (t, st, open_, same) = frees_acks s (λ n. ground (arith, locks.acks)) in
        by_steps t _ st (Step.lock_clear_acks (same ∙ e) open_) (ground arith)
    | inr open_ ↦ by_step _ (Step.lock_clear_acks e open_) (ground arith)
  ]

  wait_failed : s.worker ≡ Worker.failed → Nearer s
  wait_failed e = elim (Bool-cases s.message_mtx) [
    | inl taken ↦
        let (t, st, open_, same) = frees_messages s (λ n. ground (arith, locks.messages)) in
        by_steps t _ st (Step.lock_clear (same ∙ e) open_) (ground arith)
    | inr open_ ↦ by_step _ (Step.lock_clear e open_) (ground arith)
  ]

  unlocks : s.worker ≡ Worker.acking → (ts : List Tag) → s.consumer.ack_queue ≡ ts → Nearer s
  unlocks e [] q = by_step _ (Step.ack_none e q) (ground arith)
  unlocks e (t ∷ ts) q = by_step _ (Step.ack_front t ts e q) (ground arith)

  advance : (w : Worker) → s.worker ≡ w → (s.worker ≡ Worker.finished) ⊎ Nearer s
  advance Worker.finished e = inl e
  advance Worker.outer e = inr (by_step _ (Step.leave e off) (ground arith))
  advance Worker.connecting e = inr (by_step _ (Step.connect e) (ground arith))
  advance Worker.inner e = inr (by_step _ (Step.quit e off) (ground arith))
  advance Worker.polling e = inr (by_step _ (Step.timeout e) (ground arith))
  advance (Worker.delivering m) e = inr (by_step _ (Step.emplace m e) (ground arith))
  advance Worker.polled e = inr (wait_polled e)
  advance Worker.acking e = inr (unlocks e s.consumer.ack_queue refl)
  advance Worker.failed e = inr (wait_failed e)
  advance Worker.clearing_messages e = inr (by_step _ (Step.clear_messages e) (ground arith))
  advance Worker.cleared e = inr (wait_cleared e)
  advance Worker.clearing_acks e = inr (by_step _ (Step.clear_acks e) (ground arith))

finishes :
    (n : ℕ) (s : System)
    → rank s.worker < n
    → Locks s
    → s.consumer.run ≡ false
    → (t : System) × Steps s t × (t.worker ≡ Worker.finished)
finishes zero s lt locks off = absurd (omega arith)
finishes (suc n) s lt locks off = elim (advance s locks off s.worker refl) [
  | inl e ↦ (s, here, e)
  | inr (t, st, locks', off', near) ↦
      let (u, su, e) = finishes n t (omega arith) locks' off' in (u, Steps-trans st su, e)
]

-- There is no deadlock: once the program is stopped, in whatever reachable state, the worker can
-- come to its end.
pub stopped_finishes :
    (n : ℕ) (s : System)
    → Reachable n s
    → s.consumer.run ≡ false
    → (t : System) × Steps s t × (t.worker ≡ Worker.finished)
stopped_finishes n s r off =
    finishes (suc (rank s.worker)) s (omega arith) (Reachable-Locks n r) off
