-- ===== src/Channel/Rpc.antt =====
-- The private `rpc` of include/rmqcxx/Channel.hpp, and publishing.
use rabbitmq_cxx.Base.{ℕ, ◌≡◌, refl, Bool, true, false, Bytes, ◌++◌, ◌∷◌, arith}
use rabbitmq_cxx.Amqp.{
  Trace, Library, get_rpc_reply, maybe_release_buffers_on_channel, basic_publish,
}
use rabbitmq_cxx.Exceptions.{Exception, channel_exception}
use rabbitmq_cxx.Effect.{Effect, Outcome, done, throws, perform, defer, notify, ◌>>=◌}
use rabbitmq_cxx.Connection
use rabbitmq_cxx.Connection.{is_ok}
use rabbitmq_cxx.Connection.Replies.{is_normal, rpc-normal, rpc-throws}
use rabbitmq_cxx.Channel
use rabbitmq_cxx.Channel.{Channel, rpc_own, publish, publish_failure}

module _ {A : Type 0} (c : Channel) (context : Bytes) (f : ℕ → ℕ → Effect A) (lib : Library)
    (h : Trace) (a : A) (t : Trace)
    (called : f c.connection.state c.channel lib h ≡ (done a, t)) where
  -- With a normal reply: the result, and the calls made after those of the method itself.
  pub channel_rpc-normal :
      is_normal (lib.answer t (get_rpc_reply c.connection.state)).reply_type ≡ true
      → Channel.rpc c context f lib h ≡ (
        done a,
        maybe_release_buffers_on_channel c.connection.state c.channel
            ∷ get_rpc_reply c.connection.state
            ∷ t,
      )
  unfolding Channel.rpc defer notify
  channel_rpc-normal n =
      rw (
        rpc-normal c.connection false (c.context ++ context) (λ s. f s c.channel) lib h a t called
          n)

  -- With a reply that is not normal, after a method that has returned, an RPC on a channel throws,
  -- and the channel's buffers are released all the same, last.
  pub channel_rpc-throws :
      is_normal (lib.answer t (get_rpc_reply c.connection.state)).reply_type ≡ false
      → (e : Exception) × (before : Trace) × (Channel.rpc c context f lib h
          ≡ (throws e, maybe_release_buffers_on_channel c.connection.state c.channel ∷ before))
  unfolding Channel.rpc defer notify
  channel_rpc-throws n =
      let (e, p) =
        rpc-throws c.connection false (c.context ++ context) (λ s. f s c.channel) lib h a t called
          n in
      (
        e,
        (Connection.rpc c.connection false (c.context ++ context) (λ s. f s c.channel) lib h).1,
        ground (arith, p),
      )

-- What `publish` comes to, by the status of the publish call.
abbrev pub published : Bool → Exception → Outcome (Unit {0})
published true e = done tt
published false e = throws e

-- With a normal reply, publishing succeeds exactly when the call returns AMQP_STATUS_OK, and else
-- throws a ChannelException; the calls are the publish call, the request for its reply and the
-- release of the channel's buffers.
publish_lem :
    (c : Channel) (exchange routing_key : Bytes) (mandatory immediate : Bool) (body : Bytes)
    (properties : ℕ) (lib : Library) (h : Trace)
    → let k =
        basic_publish c.connection.state c.channel exchange routing_key mandatory immediate
          properties body in
      is_normal (lib.answer (k ∷ h) (get_rpc_reply c.connection.state)).reply_type ≡ true
      → publish c exchange routing_key mandatory immediate body properties lib h ≡ (
        published (is_ok (lib.answer h k)) (
            channel_exception c.channel
              (publish_failure c exchange routing_key mandatory immediate body)),
        maybe_release_buffers_on_channel c.connection.state c.channel
            ∷ get_rpc_reply c.connection.state
            ∷ k
            ∷ h,
      )
unfolding publish rpc_own ◌>>=◌ perform
publish_lem c exchange routing_key mandatory immediate body properties lib h n =
    rw
      (channel_rpc-normal c c.context
        (λ s ch.
          perform (basic_publish s ch exchange routing_key mandatory immediate properties body))
        lib h _ _ refl n)
      (ground arith)
