-- ===== src/Connection/Lifecycle.antt =====
-- Construction, closing and destruction of a connection in include/rmqcxx/Connection.hpp.
use rabbitmq_cxx.Base.{ℕ, ◌≡◌, refl, Bool, true, false, Bytes, Option, none, some, ◌==◌}
use rabbitmq_cxx.Base.Int.{ℤ}
use rabbitmq_cxx.Amqp.{
  Call, destroy_connection, connection_close, get_rpc_reply, maybe_release_buffers, Entries,
}
use rabbitmq_cxx.Effect.{perform, choose}
use rabbitmq_cxx.Effect.Calls.{
  Adds, Adds-pure, Adds-bind, Adds-try_catch, Adds-defer_none, adds_rules,
}
use rabbitmq_cxx.Effect.Survives.{
  Survives, Returns, Returns-perform, Survives-Returns, survives_rules,
}
use rabbitmq_cxx.Connection.{
  Connection, Options, reply_success, conclude, rpc, close, delete_state, destruct, construct,
  build, establish, connect, open_socket, set_handshake, log_in, send_login,
}
use rabbitmq_cxx.Connection.Replies.{
  IsOther, rpc-Survives, process_reply-Survives, process_reply-Adds,
}

-- Closing never throws.
pub close-Returns : (c : Connection) → Returns (close c)
unfolding close
close-Returns c =
    search (survives_rules, rpc-Survives, Returns-perform (connection_close c.state reply_success))
      depth 8

pub delete_state-Returns : (c : Connection) → Returns (delete_state c)
unfolding delete_state
delete_state-Returns c = search survives_rules

delete_state-Survives : (c : Connection) → Survives (delete_state c)
delete_state-Survives c = Survives-Returns _ (delete_state-Returns c)

close-Survives : (c : Connection) → Survives (close c)
close-Survives c = Survives-Returns _ (close-Returns c)

-- The destructor neither throws nor ends the program, whatever the library answers.
pub destruct-Returns : (c : Connection) → Returns (destruct c)
unfolding destruct
destruct-Returns c = search (survives_rules, close-Returns, delete_state-Returns)

abbrev pub is_destroy_connection : Call → Bool
is_destroy_connection (destroy_connection c) = true
is_destroy_connection _ = false

abbrev pub is_connection_close : Call → Bool
is_connection_close (connection_close c code) = true
is_connection_close _ = false

pub close-Adds_null :
    (p : Call → Bool) (c : Connection) → (c.state == 0) ≡ true → Adds p 0 (close c)
unfolding close choose
close-Adds_null p c e = rw e (Adds-pure tt)

module _ (p : Call → Bool) (q : IsOther p) where
  pub conclude-Adds :
      (c : Connection) (release : Bool) (context : Bytes)
      → p (get_rpc_reply c.state) ≡ false
      → p (maybe_release_buffers c.state) ≡ false
      → Adds p 0 (conclude c release context)
  unfolding conclude
  conclude-Adds c release context g m = search (adds_rules, process_reply-Adds p q)

  -- Closing asks the broker once, unless the connection was moved from.
  pub close-Adds :
      (c : Connection) {n : ℕ}
      → Adds p n (perform (connection_close c.state reply_success))
      → p (get_rpc_reply c.state) ≡ false
      → p (maybe_release_buffers c.state) ≡ false
      → (c.state == 0) ≡ false
      → Adds p n (close c)
  unfolding close choose rpc
  close-Adds c a g m e = rw e (
      Adds-try_catch _ _
        (Adds-bind _ _ (Adds-defer_none _ _ (conclude-Adds c false c.context g m) a)
          (λ r. Adds-pure tt))
        (λ x. Adds-pure tt))

open_socket-Survives : (c : Connection) (o : Options) (s : ℕ) → Survives (open_socket c o s)
unfolding open_socket
open_socket-Survives c o s = search (survives_rules, close-Survives)

set_handshake-Survives :
    (c : Connection) (o : Options) (t : Option ℤ) → Survives (set_handshake c o t)
unfolding set_handshake
set_handshake-Survives c o none = search survives_rules
set_handshake-Survives c o (some t) = search (survives_rules, close-Survives)

pub send_login-Returns :
    (c : Connection) (o : Options) (ps : Option Entries) → Returns (send_login c o ps)
unfolding send_login perform
send_login-Returns c o none = record { at = λ lib h. (_, refl) }
send_login-Returns c o (some ps) = record { at = λ lib h. (_, refl) }

send_login-Survives :
    (c : Connection) (o : Options) (ps : Option Entries) → Survives (send_login c o ps)
send_login-Survives c o ps = Survives-Returns _ (send_login-Returns c o ps)

log_in-Survives : (c : Connection) (o : Options) → Survives (log_in c o)
unfolding log_in
log_in-Survives c o =
    search (survives_rules, close-Survives, send_login-Survives, process_reply-Survives)

connect-Survives : (c : Connection) (o : Options) (s : ℕ) → Survives (connect c o s)
unfolding connect
connect-Survives c o s =
    search (survives_rules, open_socket-Survives, set_handshake-Survives, log_in-Survives)

pub establish-Survives : (c : Connection) (o : Options) → Survives (establish c o)
unfolding establish
establish-Survives c o = search (survives_rules, connect-Survives)

pub build-Survives : (c : Connection) (o : Options) → Survives (build c o)
unfolding build
build-Survives c o = search (survives_rules, establish-Survives, delete_state-Survives)

-- Constructing a connection never ends the program, whatever the library answers: it returns the
-- connection or throws.
pub construct-Survives : (o : Options) → Survives (construct o)
unfolding construct
construct-Survives o = search (survives_rules, build-Survives)
