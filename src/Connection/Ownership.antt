-- ===== src/Connection/Ownership.antt =====
-- Who frees the connection that the constructor of include/rmqcxx/Connection.hpp allocates, and
-- how often the broker is asked to close it.
use rabbitmq_cxx.Base.{
  ℕ, ◌+◌, ◌≡◌, refl, true, false, Option, none, some, ◌∷◌, arith, Bool-cases, inl, inr, ◌==◌,
  if◌then◌else◌,
}
use rabbitmq_cxx.Amqp.{Trace, Library, Entries, new_connection, connection_close}
use rabbitmq_cxx.Base.Int.{ℤ}
use rabbitmq_cxx.Effect.{Effect, done, pure, perform, choose, ◌>>=◌, ◌>>◌, try_catch}
use rabbitmq_cxx.Effect.Calls.{Adds, count, adds_rules, Adds-notify_one, Adds-perform_one}
use rabbitmq_cxx.Effect.Pays.{
  Pays, Pays-bind, Pays-try_catch, Pays-Returns, Adds-bind_paid, Adds-bind_last, owed, pays_rules,
}
use rabbitmq_cxx.Effect.Survives.{survives_rules}
use rabbitmq_cxx.Connection.{
  Connection, Options, reply_success, close, delete_state, destruct, construct, build, initial,
  establish, connect, open_socket, set_handshake, log_in, send_login,
}
use rabbitmq_cxx.Connection.Replies.{IsOther, process_reply-Adds}
use rabbitmq_cxx.Connection.Aside.{IsAside, close-Adds_none, establish-Adds}
use rabbitmq_cxx.Connection.Lifecycle.{
  is_destroy_connection, is_connection_close, close-Adds, close-Returns, delete_state-Returns,
  send_login-Returns, build-Survives,
}

destroy-IsOther : IsOther is_destroy_connection
destroy-IsOther = record { description = λ s. refl; name = λ m. refl }

close-IsOther : IsOther is_connection_close
close-IsOther = record { description = λ s. refl; name = λ m. refl }

destroy-IsAside : IsAside is_destroy_connection
destroy-IsAside = record {
  other = destroy-IsOther;
  closing = λ s code. refl;
  reply = λ s. refl;
  release = λ s. refl;
  socket = λ s. refl;
  opening = λ s a n tv. refl;
  handshake = λ s tv. refl;
  login = λ s v a b c m xs. refl;
  login_properties = λ s v a b c es m xs. refl;
}

pub close-frees_nothing : (c : Connection) → Adds is_destroy_connection 0 (close c)
close-frees_nothing = close-Adds_none is_destroy_connection destroy-IsAside

pub establish-frees_nothing :
    (c : Connection) (o : Options) → Adds is_destroy_connection 0 (establish c o)
establish-frees_nothing = establish-Adds is_destroy_connection destroy-IsAside

module _ (c : Connection) (allocated : (c.state == 0) ≡ false) where
  delete_state-frees : Adds is_destroy_connection 1 (delete_state c)
  unfolding delete_state choose
  delete_state-frees = rw allocated (Adds-notify_one _ refl)

  build-Pays : (o : Options) → Pays is_destroy_connection (build c o)
  unfolding build
  build-Pays o =
      Pays-bind _ _
        (Pays-try_catch _ _ (establish-frees_nothing c o) (delete_state-Returns c)
          delete_state-frees)
        (λ u. Pays-Returns (pure c) (search survives_rules) (search adds_rules))

  pub destruct-frees : Adds is_destroy_connection 1 (destruct c)
  unfolding destruct
  destruct-frees =
      Adds-bind_last _ _ (close-frees_nothing c) (close-Returns c) (λ u. delete_state-frees)

build_null-frees_nothing :
    (c : Connection) (o : Options)
    → (c.state == 0) ≡ true
    → Adds is_destroy_connection 0 (build c o >>= destruct)
unfolding build establish choose delete_state ◌>>=◌ try_catch
build_null-frees_nothing c o e = record { at = λ lib h. rw e (omega arith) }

build-state :
    (c : Connection) (o : Options) (lib : Library) (h : Trace) (d : Connection)
    → (build c o lib h).0 ≡ done d
    → d ≡ c
unfolding build ◌>>=◌
build-state c o lib h d e = ground arith

lifetime_live :
    (c : Connection)
    → (c.state == 0) ≡ false
    → (o : Options) → Adds is_destroy_connection 1 (build c o >>= destruct)
lifetime_live c live o =
    Adds-bind_paid (λ d. d ≡ c) (build c o) destruct (build-Pays c live o) (build-Survives c o)
      (build-state c o) (λ d e. rw e (destruct-frees c live))

-- A connection object from its construction to its destruction, if it comes to that.
unfoldable pub lifetime : Options → Effect (Unit {0})
lifetime o = do c ← construct o; destruct c

-- Whatever the library answers, the connection that it allocated is destroyed exactly once over
-- the life of the object, also when the constructor throws; a null one is never destroyed.
pub lifetime-frees_once :
    (o : Options) (lib : Library) (h : Trace)
    → count is_destroy_connection (lifetime o lib h).1
      ≡ count is_destroy_connection h + (if lib.answer h new_connection == 0 then 0 else 1)
unfolding lifetime construct ◌>>=◌ count initial
lifetime-frees_once o lib h = elim (Bool-cases (lib.answer h new_connection == 0)) [
  | inl null ↦ rw null (
      (build_null-frees_nothing (initial (lib.answer h new_connection)) o null).at lib
        (new_connection ∷ h))
  | inr live ↦
      rw live
        ((lifetime_live (initial (lib.answer h new_connection)) live o).at lib (new_connection ∷ h))
]

send_login-asks_nothing :
    (c : Connection) (o : Options) (ps : Option Entries)
    → Adds is_connection_close 0 (send_login c o ps)
unfolding send_login perform count
send_login-asks_nothing c o none = record { at = λ lib h. omega arith }
send_login-asks_nothing c o (some ps) = record { at = λ lib h. omega arith }

connect_with :
    (c : Connection) (o : Options) (s : ℕ)
    → (s == 0) ≡ false
    → connect c o s ≡ (do open_socket c o s; set_handshake c o o.handshake_timeout; log_in c o)
unfolding connect choose
connect_with c o s e = rw e

module _ (c : Connection) (live : (c.state == 0) ≡ false) where
  pub close-asks : Adds is_connection_close 1 (close c)
  close-asks =
      close-Adds is_connection_close close-IsOther c
        (Adds-perform_one (connection_close c.state reply_success) refl) refl refl live

  open_socket-Pays : (o : Options) (s : ℕ) → Pays is_connection_close (open_socket c o s)
  unfolding open_socket
  open_socket-Pays o s = search (pays_rules, adds_rules, survives_rules, close-Returns, close-asks)

  set_handshake-Pays : (o : Options) (t : Option ℤ) → Pays is_connection_close (set_handshake c o t)
  unfolding set_handshake
  set_handshake-Pays o none =
      search (pays_rules, adds_rules, survives_rules, close-Returns, close-asks)
  set_handshake-Pays o (some t) =
      search (pays_rules, adds_rules, survives_rules, close-Returns, close-asks)

  log_in-Pays : (o : Options) → Pays is_connection_close (log_in c o)
  unfolding log_in
  log_in-Pays o =
      Pays-bind _ _
        (Pays-Returns _ (send_login-Returns c o o.properties)
          (send_login-asks_nothing c o o.properties))
        (λ r.
          Pays-try_catch _ _ (process_reply-Adds is_connection_close close-IsOther c.context r)
            (close-Returns c) close-asks)

  -- Once there are a connection and a socket that are not null, the constructor asks the broker to
  -- close exactly once if it throws, and not at all if it succeeds.
  pub connect-closes :
      (o : Options) (s : ℕ) (lib : Library) (h : Trace)
      → (s == 0) ≡ false
      → count is_connection_close (connect c o s lib h).1
        ≡ count is_connection_close h + owed (connect c o s lib h).0
  unfolding connect
  connect-closes o s lib h socket = rw (connect_with c o s socket) (
      Pays.at
        (Pays-bind _ _ (open_socket-Pays o s)
          (λ u. Pays-bind _ _ (set_handshake-Pays o o.handshake_timeout) λ v. log_in-Pays o))
        lib h)
