-- ===== src/Connection/Aside.antt =====
-- Calls that the construction and the closing of a connection in include/rmqcxx/Connection.hpp do not
-- make.
use rabbitmq_cxx.Base.{
  ℕ, ◌≡◌, Bool, false, Bytes, List, Option, none, some, Bool-cases, inl, inr, ◌==◌,
}
use rabbitmq_cxx.Base.Int.{ℤ}
use rabbitmq_cxx.Amqp.{
  Call, Timeval, Entries, SaslMethod, connection_close, get_rpc_reply, maybe_release_buffers,
  tcp_socket_new, socket_open_noblock, set_handshake_timeout, login, login_with_properties,
}
use rabbitmq_cxx.Effect.Calls.{Adds, Adds-bind, Adds-perform, adds_rules}
use rabbitmq_cxx.Connection.{
  Connection, Options, reply_success, close, establish, connect, open_socket, set_handshake, log_in,
  send_login,
}
use rabbitmq_cxx.Connection.Replies.{IsOther, process_reply-Adds}
use rabbitmq_cxx.Connection.Lifecycle.{close-Adds, close-Adds_null}

-- A test that none of these calls passes.
pub record IsAside (p : Call → Bool) : Type 0 where
  pub other : IsOther p
  pub closing : (s code : ℕ) → p (connection_close s code) ≡ false
  pub reply : (s : ℕ) → p (get_rpc_reply s) ≡ false
  pub release : (s : ℕ) → p (maybe_release_buffers s) ≡ false
  pub socket : (s : ℕ) → p (tcp_socket_new s) ≡ false
  pub opening :
      (s : ℕ) (a : Bytes) (n : ℕ) (tv : Timeval) → p (socket_open_noblock s a n tv) ≡ false
  pub handshake : (s : ℕ) (tv : Timeval) → p (set_handshake_timeout s tv) ≡ false
  pub login :
      (s : ℕ) (v : Bytes) (a b c : ℕ) (m : SaslMethod) (xs : List Bytes)
      → p (login s v a b c m xs) ≡ false
  pub login_properties :
      (s : ℕ) (v : Bytes) (a b c : ℕ) (es : Entries) (m : SaslMethod) (xs : List Bytes)
      → p (login_with_properties s v a b c es m xs) ≡ false

module _ (p : Call → Bool) (aside : IsAside p) where
  pub close-Adds_none : (c : Connection) → Adds p 0 (close c)
  close-Adds_none c = elim (Bool-cases (c.state == 0)) [
    | inl null ↦ close-Adds_null p c null
    | inr live ↦
        close-Adds p aside.other c
          (Adds-perform (connection_close c.state reply_success) (aside.closing c.state _))
          (aside.reply c.state) (aside.release c.state) live
  ]

  open_socket-Adds : (c : Connection) (o : Options) (s : ℕ) → Adds p 0 (open_socket c o s)
  unfolding open_socket
  open_socket-Adds c o s =
      Adds-bind _ _ (Adds-perform (socket_open_noblock s _ _ _) (aside.opening s _ _ _))
        λ r. search (adds_rules, close-Adds_none)

  set_handshake-Adds :
      (c : Connection) (o : Options) (t : Option ℤ) → Adds p 0 (set_handshake c o t)
  unfolding set_handshake
  set_handshake-Adds c o none = search adds_rules
  set_handshake-Adds c o (some t) =
      Adds-bind _ _ (Adds-perform (set_handshake_timeout c.state _) (aside.handshake c.state _))
        λ r. search (adds_rules, close-Adds_none)

  send_login-Adds :
      (c : Connection) (o : Options) (ps : Option Entries) → Adds p 0 (send_login c o ps)
  unfolding send_login
  send_login-Adds c o none = Adds-perform (login _ _ _ _ _ _ _) (aside.login _ _ _ _ _ _ _)
  send_login-Adds c o (some ps) =
      Adds-perform (login_with_properties _ _ _ _ _ _ _ _) (aside.login_properties _ _ _ _ _ _ _ _)

  log_in-Adds : (c : Connection) (o : Options) → Adds p 0 (log_in c o)
  unfolding log_in
  log_in-Adds c o =
      search (adds_rules, close-Adds_none, send_login-Adds, process_reply-Adds p aside.other)

  connect-Adds : (c : Connection) (o : Options) (s : ℕ) → Adds p 0 (connect c o s)
  unfolding connect
  connect-Adds c o s = search (adds_rules, open_socket-Adds, set_handshake-Adds, log_in-Adds)

  pub establish-Adds : (c : Connection) (o : Options) → Adds p 0 (establish c o)
  unfolding establish
  establish-Adds c o = search (adds_rules, aside.socket c.state, connect-Adds)
