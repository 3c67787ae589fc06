-- ===== src/Exchange/Failure.antt =====
-- The RPCs of include/rmqcxx/Exchange.hpp: `rpc` is declared noexcept, though its documentation
-- announces exceptions.
use rabbitmq_cxx.Base.{ℕ, ◌≡◌, Bool, true, false, Bytes, Bool-cases, inl, inr}
use rabbitmq_cxx.Amqp.{Trace, Library, get_rpc_reply}
use rabbitmq_cxx.Effect.{Effect, Outcome, done, terminated, no_throw}
use rabbitmq_cxx.Connection.Replies.{is_normal}
use rabbitmq_cxx.Channel.Rpc.{channel_rpc-normal, channel_rpc-throws}
use rabbitmq_cxx.Exchange
use rabbitmq_cxx.Exchange.{Exchange}

abbrev pub ends : {A : Type 0} → Bool → A → Outcome A
ends true a = done a
ends false a = terminated

-- After a method that has returned, an RPC on an exchange returns its result if the reply is normal,
-- and otherwise calls std::terminate.
pub exchange_rpc_lem :
    {A : Type 0} (e : Exchange) (f : ℕ → ℕ → Bytes → Effect A) (lib : Library) (h : Trace) (a : A)
    (t : Trace)
    → f e.channel.connection.state e.channel.channel e.name lib h ≡ (done a, t)
    → (Exchange.rpc e f lib h).0
      ≡ ends (is_normal (lib.answer t (get_rpc_reply e.channel.connection.state)).reply_type) a
unfolding Exchange.rpc no_throw
exchange_rpc_lem e f lib h a t called =
    elim (Bool-cases
      (is_normal (lib.answer t (get_rpc_reply e.channel.connection.state)).reply_type)) [
        | inl n ↦
            rw n (
              rw
                (channel_rpc-normal e.channel e.context (λ s ch. f s ch e.name) lib h a t called n))
        | inr n ↦
            let (x, b, p) =
              channel_rpc-throws e.channel e.context (λ s ch. f s ch e.name) lib h a t called n in
            rw n (rw p)
      ]
