-- ===== src/Consumer/Scope/Acks.antt =====
-- The acknowledgements of one round of the worker's inner loop in examples/advconsumer.cpp.
use rabbitmq_cxx.Base.{ℕ, ◌≡◌, refl, Bool, true, false, not, ◌&&◌, ◌==◌, Option, none, some, arith}
use rabbitmq_cxx.Base.Int.{pos}
use rabbitmq_cxx.Amqp.{
  Call, Timeval, RawEnvelope, basic_ack, get_rpc_reply, maybe_release_buffers,
  maybe_release_buffers_on_channel, consume_message, destroy_envelope, on_envelope,
}
use rabbitmq_cxx.Effect.Calls.{
  Adds, Adds-pure, Adds-bind, Adds-defer_none, Adds-notify, Adds-perform_one,
}
use rabbitmq_cxx.Duration.{seconds}
use rabbitmq_cxx.Connection
use rabbitmq_cxx.Connection.{Connection}
use rabbitmq_cxx.Connection.Lifecycle.{conclude-Adds}
use rabbitmq_cxx.Connection.Consume.Callers.{only_envelope}
use rabbitmq_cxx.Connection.Consume.Counting.{IsApart}
use rabbitmq_cxx.Connection.Consume.Loop.{consume_envelope_for}
use rabbitmq_cxx.Connection.Consume.Loop.Rounds.{consume_timed-Adds, only_envelope-LeavesAll}
use rabbitmq_cxx.Channel
use rabbitmq_cxx.Channel.{Channel, rpc_own, ack}
use rabbitmq_cxx.Consumer.Scope.{acknowledge_front}

abbrev pub is_basic_ack : Call → Bool
is_basic_ack (basic_ack s n t m) = true
is_basic_ack _ = false

abbrev is_id : Option ℕ → ℕ → Bool
is_id none t = false
is_id (some id) t = t == id

-- The acknowledgement of the tag in front, and of no tags before it, on the channel.
abbrev pub is_ack_of : Channel → Option ℕ → Call → Bool
is_ack_of ch front (basic_ack s n t m) =
    (s == ch.connection.state) && (n == ch.channel) && is_id front t && not m
is_ack_of ch front _ = false

-- How many tags are acknowledged.
abbrev pub asked : Option ℕ → ℕ
asked none = 0
asked (some id) = 1

-- A test that only acknowledgements pass.
record IsOfAcks (p : Call → Bool) : Type 0 where
  apart : IsApart p
  reply : (s : ℕ) → p (get_rpc_reply s) ≡ false
  release : (s : ℕ) → p (maybe_release_buffers s) ≡ false
  release_channel : (s n : ℕ) → p (maybe_release_buffers_on_channel s n) ≡ false
  message : (s : ℕ) (tv : Option Timeval) → p (consume_message s tv) ≡ false
  envelope : (e : RawEnvelope) → p (destroy_envelope e) ≡ false
  callback : (e : RawEnvelope) → p (on_envelope e) ≡ false

-- A test that the tag in front is acknowledged by one call that passes it.
pub record Acks (p : Call → Bool) (ch : Channel) (front : Option ℕ) : Type 0 where
  pub consume : (fuel : ℕ) (c : Connection) → Adds p 0 (consume_envelope_for fuel c seconds (pos 0))
  pub acknowledge : Adds p (asked front) (acknowledge_front ch front)

module _ (p : Call → Bool) (of_acks : IsOfAcks p) where
  consume-asks_nothing :
      (fuel : ℕ) (c : Connection) → Adds p 0 (consume_envelope_for fuel c seconds (pos 0))
  unfolding consume_envelope_for
  consume-asks_nothing fuel c =
      consume_timed-Adds p of_acks.apart of_acks.envelope of_acks.release only_envelope
        (only_envelope-LeavesAll p of_acks.callback) of_acks.message c fuel seconds (pos 0)

  acknowledge_front-asks :
      (ch : Channel) (front : Option ℕ)
      → ((id : ℕ) → front ≡ some id → p (basic_ack ch.connection.state ch.channel id false) ≡ true)
      → Adds p (asked front) (acknowledge_front ch front)
  unfolding acknowledge_front ack rpc_own Channel.rpc Connection.rpc
  acknowledge_front-asks ch none own = Adds-pure tt
  acknowledge_front-asks ch (some id) own =
      Adds-bind _ _
        (Adds-defer_none _ _ (Adds-notify _ (of_acks.release_channel _ _)) (
          Adds-defer_none _ _
            (conclude-Adds p of_acks.apart.description ch.connection false _ (of_acks.reply _)
              (of_acks.release _))
            (Adds-perform_one (basic_ack ch.connection.state ch.channel id false) (own id refl))))
        λ r. Adds-pure tt

is_basic_ack-IsOfAcks : IsOfAcks is_basic_ack
is_basic_ack-IsOfAcks = record {
  apart = record {
    description = record { description = λ s. refl; name = λ m. refl };
    clock = refl;
    wait = λ s tv. refl;
    read = λ s n. refl;
    message = λ m. refl;
  };
  reply = λ s. refl;
  release = λ s. refl;
  release_channel = λ s n. refl;
  message = λ s tv. refl;
  envelope = λ e. refl;
  callback = λ e. refl;
}

is_ack_of-IsOfAcks : (ch : Channel) (front : Option ℕ) → IsOfAcks (is_ack_of ch front)
is_ack_of-IsOfAcks ch front = record {
  apart = record {
    description = record { description = λ s. refl; name = λ m. refl };
    clock = refl;
    wait = λ s tv. refl;
    read = λ s n. refl;
    message = λ m. refl;
  };
  reply = λ s. refl;
  release = λ s. refl;
  release_channel = λ s n. refl;
  message = λ s tv. refl;
  envelope = λ e. refl;
  callback = λ e. refl;
}

pub is_basic_ack-Acks : (ch : Channel) (front : Option ℕ) → Acks is_basic_ack ch front
is_basic_ack-Acks ch front = record {
  consume = consume-asks_nothing is_basic_ack is_basic_ack-IsOfAcks;
  acknowledge = acknowledge_front-asks is_basic_ack is_basic_ack-IsOfAcks ch front (λ id e. refl);
}

is_ack_of-own :
    (ch : Channel) (front : Option ℕ) (id : ℕ)
    → front ≡ some id
    → is_ack_of ch front (basic_ack ch.connection.state ch.channel id false) ≡ true
is_ack_of-own ch front id e = rw e (ground arith)

pub is_ack_of-Acks : (ch : Channel) (front : Option ℕ) → Acks (is_ack_of ch front) ch front
is_ack_of-Acks ch front = record {
  consume = consume-asks_nothing (is_ack_of ch front) (is_ack_of-IsOfAcks ch front);
  acknowledge =
      acknowledge_front-asks (is_ack_of ch front) (is_ack_of-IsOfAcks ch front) ch front
        (is_ack_of-own ch front);
}
