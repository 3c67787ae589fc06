-- ===== src/Connection.antt =====
-- include/rmqcxx/Connection.hpp: construction, destruction, RPCs and the RPC timeout. Consuming is
-- in the child `Consume`. The pointer of a connection is 0 when it is null or was moved from.
pub mod Timeout
pub mod Replies
pub mod Writes
pub mod Aside
pub mod Lifecycle
pub mod Ownership
pub mod Moves
pub mod Consume
use rabbitmq_cxx.Base.{ℕ, Bool, true, false, Bytes, List, [], ◌∷◌, ◌++◌, Option, none, some, ◌==◌}
use mathlib.Core.Option
use rabbitmq_cxx.Base.Int.{ℤ}
use rabbitmq_cxx.Base.Text.{text, to_string}
use rabbitmq_cxx.Amqp.{
  Status, ReplyType, Method, Reply, SaslMethod, Entries, Timeval, new_connection,
  destroy_connection, tcp_socket_new, socket_open_noblock, set_handshake_timeout, login,
  login_with_properties, get_rpc_timeout, set_rpc_timeout, get_rpc_reply, maybe_release_buffers,
  error_string2, method_name, connection_close,
}
use rabbitmq_cxx.Exceptions.{
  Exception, exception, connection_exception, socket_exception, operation_exception, rpc_exception,
  library_exception, new_channel_close, new_connection_close,
}
use rabbitmq_cxx.Effect.{
  Effect, pure, throw, ◌>>=◌, ◌>>◌, notify, perform, choose, defer, try_catch,
}
use rabbitmq_cxx.Duration.{Period, time_value, duration_value}

pub record Connection : Type 0 where
  pub state : ℕ
  pub context : Bytes

-- AMQP_REPLY_SUCCESS
abbrev pub reply_success : ℕ
reply_success = 200

-- `AMQP_STATUS_OK == status`
unfoldable pub is_ok : Status → Bool
is_ok Status.ok = true
is_ok Status.timeout = false
is_ok Status.unexpected_state = false
is_ok Status.socket_error = false
is_ok (Status.other n) = false

unfoldable pub unhandled_response : Bytes → Reply → Effect (Unit {0})
unhandled_response context reply = do
  name ← perform (method_name reply.reply)
  throw (
      rpc_exception reply
        (context ++ (text "Unhandled Server Response Exception, method name: " ++ name)))

-- The inner switch of processReply, on the method of the reply.
unfoldable pub server_exception : Bytes → Reply → Method → Effect (Unit {0})
server_exception context reply (Method.connection_close decoded) =
    throw (new_connection_close decoded (context ++ text "Connection close received. "))
server_exception context reply (Method.channel_close decoded) =
    throw (new_channel_close 0 decoded (context ++ text "Channel close received. "))
server_exception context reply (Method.basic_ack a) = unhandled_response context reply
server_exception context reply (Method.basic_return r) = unhandled_response context reply
server_exception context reply (Method.other n) = unhandled_response context reply

-- The outer switch of processReply, on the type of the reply.
unfoldable pub switch_reply : Bytes → Reply → ReplyType → Effect (Unit {0})
switch_reply context reply ReplyType.normal = pure tt
switch_reply context reply ReplyType.none =
    throw (rpc_exception reply (context ++ text "Missing RPC Reply!"))
switch_reply context reply ReplyType.library_exception = do
  description ← perform (error_string2 reply.library_error)
  throw (library_exception reply (context ++ (text "Library exception: " ++ description)))
switch_reply context reply ReplyType.server_exception = server_exception context reply reply.reply
switch_reply context reply (ReplyType.other n) =
    throw (rpc_exception reply (context ++ text "Unhandled reply type!"))

-- processReply
unfoldable pub process_reply : Bytes → Reply → Effect (Unit {0})
process_reply context reply = switch_reply context reply reply.reply_type

-- What the deferred function of `rpc` does once the method has returned.
unfoldable pub conclude : Connection → Bool → Bytes → Effect (Unit {0})
conclude c maybe_release context = do
  reply ← perform (get_rpc_reply c.state)
  process_reply (c.context ++ context) reply
  choose maybe_release (notify (maybe_release_buffers c.state)) (pure tt)

-- The private `rpc`. The method gets the connection's pointer.
unfoldable pub rpc : {A : Type 0} → Connection → Bool → Bytes → (ℕ → Effect A) → Effect A
rpc c maybe_release context f = defer (conclude c maybe_release context) (f c.state)

-- The public `rpc`.
unfoldable pub rpc_public : {A : Type 0} → Connection → (ℕ → Effect A) → Effect A
rpc_public c f = rpc c true (text "") f

-- close
unfoldable pub close : Connection → Effect (Unit {0})
close c = choose (c.state == 0) (pure tt) (
    try_catch (do rpc c false c.context (λ s. perform (connection_close s reply_success)); pure tt)
      (λ e. pure tt))

-- The deleter of the member `connection_`, which a unique_ptr does not call on null.
unfoldable pub delete_state : Connection → Effect (Unit {0})
delete_state c = choose (c.state == 0) (pure tt) (notify (destroy_connection c.state))

-- ~Connection
unfoldable pub destruct : Connection → Effect (Unit {0})
destruct c = do close c; delete_state c

-- Connection(Connection&& other), which is defaulted: the new object, and what `other` is left as. A
-- unique_ptr that was moved from is null; the string is const, and so is copied.
unfoldable pub move_construct : Connection → Connection × Connection
move_construct other = (other, record other { state = 0 })

pub record Options : Type 0 where
  pub address : Bytes
  pub port : ℕ
  pub vhost : Bytes
  pub max_channels : ℕ
  pub max_frame_size : ℕ
  pub heartbeat : ℕ
  pub connect_period : Period
  pub connect_timeout : ℤ
  pub handshake_period : Period
  pub handshake_timeout : Option ℤ
  pub properties : Option Entries
  pub sasl_method : SaslMethod
  pub args : List Bytes

unfoldable pub open_socket : Connection → Options → ℕ → Effect (Unit {0})
open_socket c o socket = do
  status ←
      perform (
        socket_open_noblock socket o.address o.port (time_value o.connect_period o.connect_timeout))
  choose (is_ok status) (pure tt)
      do close c; throw (socket_exception socket status (text "Failed to open socket!"))

unfoldable pub set_handshake : Connection → Options → Option ℤ → Effect (Unit {0})
set_handshake c o none = pure tt
set_handshake c o (some timeout) = do
  status ← perform (set_handshake_timeout c.state (time_value o.handshake_period timeout))
  choose (is_ok status) (pure tt)
      do close c; throw (operation_exception status (text "Failed to set handshake timeout!"))

unfoldable pub send_login : Connection → Options → Option Entries → Effect Reply
send_login c o none =
    perform (login c.state o.vhost o.max_channels o.max_frame_size o.heartbeat o.sasl_method o.args)
send_login c o (some properties) = perform (
    login_with_properties c.state o.vhost o.max_channels o.max_frame_size o.heartbeat properties
      o.sasl_method o.args)

unfoldable pub log_in : Connection → Options → Effect (Unit {0})
log_in c o = do
  reply ← send_login c o o.properties
  try_catch (process_reply c.context reply) (λ e. do close c; throw e)

-- The body of the constructor once there is a socket, and the whole body.
unfoldable pub connect : Connection → Options → ℕ → Effect (Unit {0})
connect c o socket =
    choose (socket == 0)
      (throw
        (socket_exception socket Status.socket_error (text "Failed to allocate socket object!")))
      do open_socket c o socket; set_handshake c o o.handshake_timeout; log_in c o

unfoldable pub establish : Connection → Options → Effect (Unit {0})
establish c o =
    choose (c.state == 0) (throw (exception (text "Failed to allocate connection object!")))
      do socket ← perform (tcp_socket_new c.state); connect c o socket

-- The members as they are initialised.
unfoldable pub initial : ℕ → Connection
initial state = record {
  state = state;
  context = text "Connection(" ++ (to_string state ++ text "): ");
}

-- The members are destroyed when the body throws.
unfoldable pub build : Connection → Options → Effect Connection
build c o = do try_catch (establish c o) (λ e. do delete_state c; throw e); pure c

-- Connection(...)
unfoldable pub construct : Options → Effect Connection
construct o = do state ← perform new_connection; build (initial state) o

-- The constructors that use plain and external SASL.
unfoldable pub plain_options : Options → Bytes → Bytes → Options
plain_options o username password = record o {
  handshake_timeout = none;
  properties = none;
  sasl_method = SaslMethod.plain;
  args = username ∷ password ∷ [];
}

unfoldable pub external_options : Options → Bytes → Options
external_options o info = record o {
  handshake_timeout = none;
  properties = none;
  sasl_method = SaslMethod.sasl_external;
  args = info ∷ [];
}

-- getRpcTimeout: `none` where the destination is left alone and the result is false.
unfoldable pub read_rpc_timeout : Connection → Period → Effect (Option ℤ)
read_rpc_timeout c p = do
  found ← perform (get_rpc_timeout c.state)
  pure (Option.map (duration_value p) found)

-- setRpcTimeout
unfoldable pub write_rpc_timeout : Connection → Period → ℤ → Effect (Unit {0})
write_rpc_timeout c p val = do
  status ← perform (set_rpc_timeout c.state (time_value p val))
  choose (is_ok status) (pure tt) (throw (connection_exception (text "Failed to set RPC timeout!")))
