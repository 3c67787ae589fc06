-- ===== src/Examples/Consumer/Protocol.antt =====
-- What examples/consumer.cpp does with the envelopes it gets, as far as it can be seen from outside.
use mathlib.Core.List.{append_assoc}
use rabbitmq_cxx.Base.{ℕ, ◌≡◌, refl, sym, ◌∙◌, Bool, true, false, [], ◌∷◌, ◌++◌, ◌==◌}
use rabbitmq_cxx.Base.Text.{text}
use rabbitmq_cxx.Amqp.{
  Call, Trace, Library, RawEnvelope, print, basic_ack, destroy_envelope,
  maybe_release_buffers_on_channel,
}
use rabbitmq_cxx.Effect.{
  Outcome, done, throws, terminated, pure, ◌>>=◌, ◌>>◌, notify, choose, continue,
}
use rabbitmq_cxx.Effect.Writes.{anything, Writes, Writes-notify}
use rabbitmq_cxx.Effect.Blocks.{keep, keep-append, quiet, silence, Says, Says-perform, Says-defer}
use rabbitmq_cxx.AmqpStruct.{AmqpStruct, destruct_envelope}
use rabbitmq_cxx.Connection
use rabbitmq_cxx.Connection.{Connection}
use rabbitmq_cxx.Connection.Writes.{Replies, conclude-Writes}
use rabbitmq_cxx.Connection.Consume.{Delivery, run, finish}
use rabbitmq_cxx.Connection.Consume.Writes.{
  AllWrite, ignore_returned-Writes, ignore_acknowledge-Writes,
}
use rabbitmq_cxx.Connection.Consume.Writes.Anything.{finish-adds_nothing, anything-Utters}
use rabbitmq_cxx.Connection.Consume.Callers.{statements, set_done}
use rabbitmq_cxx.Channel
use rabbitmq_cxx.Channel.{Channel, rpc_own, ack}
use rabbitmq_cxx.Examples.Consumer.{received, closures}

-- The lines on std::cout, the acknowledgements, and the destruction of envelopes.
abbrev pub is_said : Call → Bool
is_said (print l) = true
is_said (basic_ack s n t m) = true
is_said (destroy_envelope e) = true
is_said _ = false

pub data Block : Type 0 where
  -- nothing came in time
  missed : Block
  -- an envelope was handled, with a complaint or without
  handled : RawEnvelope → Bool → Block
  -- an envelope was not handed out
  dropped : RawEnvelope → Block

abbrev pub complaint : Bool → Trace
complaint true = print (text "Failed to acknowledge envelope!") ∷ []
complaint false = []

-- The calls of a block, the newest first.
abbrev pub block : Channel → Block → Trace
block channel missed = print (text "timeout") ∷ []
block channel (handled e complains) =
    destroy_envelope e ∷ complaint complains
    ++ basic_ack channel.connection.state channel.channel e.delivery_tag false
      ∷ print (text "Received: " ++ e.message.body)
      ∷ []
block channel (dropped e) = destroy_envelope e ∷ []

silence-Replies : Replies (silence is_said)
silence-Replies = record {
  name = λ m. quiet is_said _ refl;
  description = λ s. quiet is_said _ refl;
}

ack-Says :
    (ch : Channel) (tag : ℕ)
    → Says is_said (basic_ack ch.connection.state ch.channel tag false ∷ []) (ack ch tag false)
unfolding ack rpc_own Channel.rpc Connection.rpc
ack-Says ch tag =
    Says-defer _ _ (Writes-notify _ (quiet is_said (maybe_release_buffers_on_channel _ _) refl)) (
      Says-defer _ _
        (conclude-Writes (silence is_said) silence-Replies ch.connection false _
          (quiet is_said _ refl) (quiet is_said _ refl))
        (Says-perform (basic_ack ch.connection.state ch.channel tag false) (unfold keep in refl)))

module _ (ch : Channel) (e : RawEnvelope) where
  abbrev pub acked : Trace
  acked =
      basic_ack ch.connection.state ch.channel e.delivery_tag false
      ∷ print (text "Received: " ++ e.message.body)
      ∷ []

  pub received-says :
      (lib : Library) (h : Trace)
      → (b : Bool) × (d : Trace) × ((received ch e lib h).1 ≡ d ++ h)
        × (keep is_said d ≡ complaint b ++ acked)
  unfolding received ◌>>=◌ notify choose pure keep
  received-says lib h =
      let line : Call = print (text "Received: " ++ e.message.body) in
      let r = ack ch e.delivery_tag false lib (line ∷ h) in
      go r.0 r.1 ((ack-Says ch e.delivery_tag).at lib (line ∷ h))
    where
      line : Call
      line = print (text "Received: " ++ e.message.body)

      plain :
          (t : Trace)
          → (d : Trace) × (t ≡ d ++ line ∷ h)
            × (keep is_said d ≡ basic_ack ch.connection.state ch.channel e.delivery_tag false ∷ [])
          → (b : Bool) × (d : Trace) × (t ≡ d ++ h) × (keep is_said d ≡ complaint b ++ acked)
      plain t (d, q, k) = (
        false,
        d ++ line ∷ [],
        q ∙ sym (append_assoc d (line ∷ []) h),
        rw (keep-append is_said d (line ∷ []), k) refl,
      )

      go :
          (o : Outcome ℕ) (t : Trace)
          → (d : Trace) × (t ≡ d ++ line ∷ h)
            × (keep is_said d ≡ basic_ack ch.connection.state ch.channel e.delivery_tag false ∷ [])
          → let k = λ (r : ℕ).
            choose (r == 0) (pure tt) (notify (print (text "Failed to acknowledge envelope!"))) in
            (b : Bool) × (d : Trace) × ((continue o k lib t).1 ≡ d ++ h)
            × (keep is_said d ≡ complaint b ++ acked)
      go (done r) t s = complains (r == 0)
        where
          complains :
              (ok : Bool)
              → let m =
                  choose ok (pure tt) (notify (print (text "Failed to acknowledge envelope!"))) in
                (b : Bool) × (d : Trace) × ((m lib t).1 ≡ d ++ h)
                × (keep is_said d ≡ complaint b ++ acked)
          complains true = plain t s
          complains false =
              let (b, d, q, k) = plain t s in
              (true, print (text "Failed to acknowledge envelope!") ∷ d, rw q refl, rw k refl)
      go (throws x) t s = plain t s
      go terminated t s = plain t s

module _ (ch : Channel) where
  -- What consuming hands out is handled, and destroyed when the callback is left.
  deliver-Writes :
      (e : AmqpStruct RawEnvelope)
      → Writes anything do
        d ← run (set_done (statements (received ch e.memory)))
        destruct_envelope (record e { moved = d.keeps })
        finish d
  unfolding run ◌>>=◌ destruct_envelope choose notify
  deliver-Writes e = record {
    at = λ lib h.
        let (b, d, q, k) = received-says ch e.memory lib h in
        let r : Delivery = (set_done (statements (received ch e.memory)) lib h).0 in
        (
          destroy_envelope e.memory ∷ d,
          rw
              (
                finish-adds_nothing r lib
                    (destroy_envelope e.memory ∷ (received ch e.memory lib h).1),
                q,
              )
              refl,
          tt,
        );
  }

  pub closures-AllWrite : AllWrite anything (closures ch)
  closures-AllWrite = record {
    envelope = deliver-Writes;
    returned = λ m r. ignore_returned-Writes anything anything-Utters m;
    acknowledge = λ a. ignore_acknowledge-Writes anything anything-Utters;
  }
