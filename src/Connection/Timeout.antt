-- ===== src/Connection/Timeout.antt =====
-- getRpcTimeout and setRpcTimeout of include/rmqcxx/Connection.hpp.
use rabbitmq_cxx.Base.{◌≡◌, refl, some, ◌∷◌}
use rabbitmq_cxx.Base.Int.{ℤ}
use rabbitmq_cxx.Amqp.{Status, Trace, Library, get_rpc_timeout, set_rpc_timeout}
use rabbitmq_cxx.Effect.{done, ◌>>=◌, ◌>>◌, perform, choose, pure}
use rabbitmq_cxx.Duration.{microseconds, time_value}
use rabbitmq_cxx.Duration.RoundTrip.{duration_value-time_value_us}
use rabbitmq_cxx.Connection.{Connection, is_ok, read_rpc_timeout, write_rpc_timeout}

-- If the library accepts the timeout and answers with the one it was given, a number of
-- microseconds that is set as the RPC timeout is read back unchanged.
pub read_rpc_timeout-write_rpc_timeout :
    (c : Connection) (d : ℤ) (lib : Library) (h : Trace)
    → let k = set_rpc_timeout c.state (time_value microseconds d) in
      lib.answer h k ≡ Status.ok
      → lib.answer (k ∷ h) (get_rpc_timeout c.state) ≡ some (time_value microseconds d)
      → (write_rpc_timeout c microseconds d >> read_rpc_timeout c microseconds) lib h
        ≡ (done (some d), get_rpc_timeout c.state ∷ k ∷ h)
unfolding read_rpc_timeout write_rpc_timeout ◌>>=◌ choose perform is_ok pure
read_rpc_timeout-write_rpc_timeout c d lib h accepted kept =
    rw (accepted, kept, duration_value-time_value_us d) refl
