-- ===== src/Consumer/Scope/Cleanup.antt =====
-- What is left of a connection and its channel when the block of the worker in
-- examples/advconsumer.cpp is left.
use rabbitmq_cxx.Base.{ℕ, ◌+◌, ◌≡◌, ◌≢◌, refl, false, List, ◌∷◌, Option, arith, ◌==◌}
use rabbitmq_cxx.Amqp.{Trace, Library, Entries, new_connection, destroy_connection}
use rabbitmq_cxx.Effect.{
  Effect, Outcome, done, throws, terminated, ◌>>=◌, ◌>>◌, throw, pure, perform, continue, handle,
  defer, try_catch, choose,
}
use rabbitmq_cxx.Effect.Calls.{Adds, count, Adds-defer}
use rabbitmq_cxx.Effect.Pays.{owed}
use rabbitmq_cxx.Effect.Last.{EndsWith, EndsWith-notify, EndsWith-bind, EndsWith-defer}
use rabbitmq_cxx.Connection
use rabbitmq_cxx.Connection.{Connection, Options, initial, build, establish, delete_state}
use rabbitmq_cxx.Connection.Lifecycle.{
  is_destroy_connection, delete_state-Returns, close-Returns, establish-Survives,
}
use rabbitmq_cxx.Connection.Ownership.{close-frees_nothing, establish-frees_nothing}
use rabbitmq_cxx.Channel
use rabbitmq_cxx.Channel.{Channel}
use rabbitmq_cxx.Channel.Lifecycle.{is_channel_close, destruct_live}
use rabbitmq_cxx.Consumer.Scope.{Settings, options, subscribe, poll, use_channel, session}
use rabbitmq_cxx.Consumer.Scope.Beside.{construct-Adds, body-Adds, use_channel-Adds}
use rabbitmq_cxx.Consumer.Scope.Kinds.{is_destroy_connection-IsBeside, is_channel_close-IsBeside}
use rabbitmq_cxx.Consumer.Scope.Survives.{
  channel_construct-Survives, body-Survives, use_channel-Survives,
}

module _ (c : Connection) (live : (c.state == 0) ≡ false) where
  delete_state-last : EndsWith is_destroy_connection (destroy_connection c.state) (delete_state c)
  unfolding delete_state choose
  delete_state-last = rw live EndsWith-notify

  destruct-last :
      EndsWith is_destroy_connection (destroy_connection c.state) (Connection.destruct c)
  unfolding Connection.destruct
  destruct-last = EndsWith-bind _ _ (close-frees_nothing c) (close-Returns c) λ u. delete_state-last

  -- An object that is built and then destroyed, with a use of it in between.
  build-last :
      {A : Type 0} (o : Options) (f : Connection → Effect A)
      → EndsWith is_destroy_connection (destroy_connection c.state) (f c)
      → EndsWith is_destroy_connection (destroy_connection c.state) (build c o >>= f)
  unfolding build ◌>>=◌ try_catch throw pure
  build-last {A} o f ends = record {
    at = λ lib h.
        let r = establish c o lib h in
        go lib h r.0 r.1 ((establish-Survives c o).at lib h)
          ((establish-frees_nothing c o).at lib h);
  }
    where
      go :
          (lib : Library) (h : Trace) (r : Outcome (Unit {0})) (t : Trace)
          → r ≢ terminated
          → count is_destroy_connection t ≡ count is_destroy_connection h + 0
          → let fail =
              λ (e : rabbitmq_cxx.Exceptions.Exception). delete_state c >> throw {A = Unit {0}} e in
            let built = handle r fail lib t in
            let made = continue built.0 (λ u. pure c) lib built.1 in
            (s : Trace) × ((continue made.0 f lib made.1).1 ≡ destroy_connection c.state ∷ s)
            × (count is_destroy_connection s ≡ count is_destroy_connection h)
      go lib h (done u) t alive n = let (s, q, m) = ends.at lib t in (s, q, omega (arith, m, n))
      go lib h (throws x) t alive n =
          let (u, e) = (delete_state-Returns c).at lib t in
          let (s, q, m) = delete_state-last.at lib t in (s, rw e q, omega (arith, m, n))
      go lib h terminated t alive n = absurd (alive refl)

-- If a connection was allocated, the last call of the block is the one that destroys it, however the
-- block is left, and no call before destroys it: it is not used after it is gone, and does not leak.
pub session-destroys_last :
    (fuel : ℕ) (s : Settings) (arg : Entries) (rounds : List (Option ℕ)) (lib : Library) (h : Trace)
    → (lib.answer h new_connection == 0) ≡ false
    → (t : Trace) × ((session fuel s arg rounds lib h).1
        ≡ destroy_connection (lib.answer h new_connection) ∷ t)
      × (count is_destroy_connection t ≡ count is_destroy_connection h)
unfolding session Connection.construct ◌>>=◌ perform initial count
session-destroys_last fuel s arg rounds lib h live =
    let c : Connection = initial (lib.answer h new_connection) in
    EndsWith.at
      (build-last c live (options s)
        (λ d. defer (Connection.destruct d) (use_channel fuel s arg rounds d))
        (EndsWith-defer _ _
          (use_channel-Adds is_destroy_connection is_destroy_connection-IsBeside (λ e. refl)
            (λ a b. refl) fuel s arg rounds c)
          (use_channel-Survives fuel s arg rounds c) (destruct-last c live)))
      lib (new_connection ∷ h)

construct-live :
    (c : Connection) (n : ℕ) (lib : Library) (h : Trace) (ch : Channel)
    → (Channel.construct c n lib h).0 ≡ done ch
    → ch.moved ≡ false
unfolding Channel.construct ◌>>=◌ Channel.initial
construct-live c n lib h ch e = ground arith

-- The broker is asked to close the channel exactly once if it was opened, however the block is left,
-- and not at all if its constructor throws.
pub use_channel-closes :
    (fuel : ℕ) (s : Settings) (arg : Entries) (rounds : List (Option ℕ)) (c : Connection)
    (lib : Library) (h : Trace)
    → count is_channel_close (use_channel fuel s arg rounds c lib h).1
        + owed (Channel.construct c 1 lib h).0
      ≡ count is_channel_close h + 1
unfolding use_channel ◌>>=◌
use_channel-closes fuel s arg rounds c lib h =
    let r = Channel.construct c 1 lib h in
    go r.0 r.1 ((channel_construct-Survives c 1).at lib h) (λ ch e. construct-live c 1 lib h ch e)
      ((construct-Adds is_channel_close is_channel_close-IsBeside.around c 1).at lib h)
  where
    go :
        (o : Outcome Channel) (t : Trace)
        → o ≢ terminated
        → ((ch : Channel) → o ≡ done ch → ch.moved ≡ false)
        → count is_channel_close t ≡ count is_channel_close h + 0
        → let body =
            λ (ch : Channel). subscribe ch arg s.queues_to_consume >> poll fuel c ch rounds in
          count is_channel_close (continue o (λ ch. defer (Channel.destruct ch) (body ch)) lib t).1
            + owed o
          ≡ count is_channel_close h + 1
    go (done ch) t alive live n = omega (
      arith,
      n,
      Adds.at
          (Adds-defer _ _ (destruct_live ch (live ch refl))
            (body-Adds is_channel_close is_channel_close-IsBeside (λ e. refl) ch fuel s arg rounds
              c)
            (body-Survives ch fuel s arg rounds c))
          lib t,
    )
    go (throws x) t alive live n = omega (arith, n)
    go terminated t alive live n = absurd (alive refl)
