-- ===== src/Consumer/Scope/Kinds.antt =====
-- Kinds of calls that the worker of examples/advconsumer.cpp does not make while it has a channel.
use rabbitmq_cxx.Base.{ℕ, ◌≡◌, refl, Bool, false, Bytes, Option}
use rabbitmq_cxx.Amqp.{
  Call, Timeval, Entries, RawEnvelope, channel_open, basic_consume, basic_ack, load_consumer_tag,
  get_rpc_reply, maybe_release_buffers, maybe_release_buffers_on_channel, consume_message,
  destroy_envelope,
}
use rabbitmq_cxx.Connection.Lifecycle.{is_destroy_connection}
use rabbitmq_cxx.Connection.Consume.Counting.{IsApart}
use rabbitmq_cxx.Connection.Consume.Reports.Callbacks.{is_on_envelope, is_on_envelope-IsApart}
use rabbitmq_cxx.Channel.Lifecycle.{is_channel_close}

-- A test that no call passes which the worker makes itself while it has a channel, but for
-- acknowledgements.
pub record IsAround (p : Call → Bool) : Type 0 where
  pub apart : IsApart p
  pub opening : (s n : ℕ) → p (channel_open s n) ≡ false
  pub reply : (s : ℕ) → p (get_rpc_reply s) ≡ false
  pub release : (s : ℕ) → p (maybe_release_buffers s) ≡ false
  pub release_channel : (s n : ℕ) → p (maybe_release_buffers_on_channel s n) ≡ false
  pub message : (s : ℕ) (tv : Option Timeval) → p (consume_message s tv) ≡ false
  pub envelope : (e : RawEnvelope) → p (destroy_envelope e) ≡ false
  pub subscribe :
      (s n : ℕ) (q t : Bytes) (a b c : Bool) (es : Entries)
      → p (basic_consume s n q t a b c es) ≡ false
  pub tag : (n : ℕ) → p (load_consumer_tag n) ≡ false

-- The same, with acknowledgements.
pub record IsBeside (p : Call → Bool) : Type 0 where
  pub around : IsAround p
  pub acknowledge : (s n t : ℕ) (m : Bool) → p (basic_ack s n t m) ≡ false

is_destroy_connection-IsApart : IsApart is_destroy_connection
is_destroy_connection-IsApart = record {
  description = record { description = λ s. refl; name = λ m. refl };
  clock = refl;
  wait = λ s tv. refl;
  read = λ s n. refl;
  message = λ m. refl;
}

pub is_destroy_connection-IsBeside : IsBeside is_destroy_connection
is_destroy_connection-IsBeside = record {
  around = record {
    apart = is_destroy_connection-IsApart;
    opening = λ s n. refl;
    reply = λ s. refl;
    release = λ s. refl;
    release_channel = λ s n. refl;
    message = λ s tv. refl;
    envelope = λ e. refl;
    subscribe = λ s n q t a b c es. refl;
    tag = λ n. refl;
  };
  acknowledge = λ s n t m. refl;
}

is_channel_close-IsApart : IsApart is_channel_close
is_channel_close-IsApart = record {
  description = record { description = λ s. refl; name = λ m. refl };
  clock = refl;
  wait = λ s tv. refl;
  read = λ s n. refl;
  message = λ m. refl;
}

pub is_channel_close-IsBeside : IsBeside is_channel_close
is_channel_close-IsBeside = record {
  around = record {
    apart = is_channel_close-IsApart;
    opening = λ s n. refl;
    reply = λ s. refl;
    release = λ s. refl;
    release_channel = λ s n. refl;
    message = λ s tv. refl;
    envelope = λ e. refl;
    subscribe = λ s n q t a b c es. refl;
    tag = λ n. refl;
  };
  acknowledge = λ s n t m. refl;
}

pub is_on_envelope-IsBeside : IsBeside is_on_envelope
is_on_envelope-IsBeside = record {
  around = record {
    apart = is_on_envelope-IsApart;
    opening = λ s n. refl;
    reply = λ s. refl;
    release = λ s. refl;
    release_channel = λ s n. refl;
    message = λ s tv. refl;
    envelope = λ e. refl;
    subscribe = λ s n q t a b c es. refl;
    tag = λ n. refl;
  };
  acknowledge = λ s n t m. refl;
}
