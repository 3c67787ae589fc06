-- ===== src/Consumer/Scope/Quiet.antt =====
-- Calls that the parts of the block of the worker in examples/advconsumer.cpp do not make, other than
-- the two halves of a round.
use rabbitmq_cxx.Base.{ℕ, ◌≡◌, refl, ◌∙◌, Bool, false}
use rabbitmq_cxx.Amqp.{
  Call, Trace, Library, Entries, new_connection, destroy_connection, channel_close,
}
use rabbitmq_cxx.Effect.{Effect}
use rabbitmq_cxx.Effect.Calls.{
  count, Adds, Adds-pure, Adds-bind, Adds-defer_none, Adds-perform, adds_rules,
}
use rabbitmq_cxx.Effect.Guard.{count-guard, Adds-guard}
use rabbitmq_cxx.Connection
use rabbitmq_cxx.Connection.{Connection, Options, build, delete_state, initial}
use rabbitmq_cxx.Connection.Aside.{IsAside, close-Adds_none, establish-Adds}
use rabbitmq_cxx.Connection.Consume.Reports.Callbacks.{is_on_envelope}
use rabbitmq_cxx.Channel
use rabbitmq_cxx.Channel.{Channel}
use rabbitmq_cxx.Consumer.Scope.{Settings, options}
use rabbitmq_cxx.Consumer.Scope.Acks.{is_basic_ack}
use rabbitmq_cxx.Consumer.Scope.Beside.{construct-Adds, subscribe-Adds, destruct_channel-Adds}
use rabbitmq_cxx.Consumer.Scope.Kinds.{IsAround, is_on_envelope-IsBeside}
use rabbitmq_cxx.Consumer.Scope.Joining.{within, closing, joining}

-- A test that no call passes which these parts make.
pub record IsAway (p : Call → Bool) : Type 0 where
  pub aside : IsAside p
  pub around : IsAround p
  pub new : p new_connection ≡ false
  pub destroy : (s : ℕ) → p (destroy_connection s) ≡ false
  pub channel : (s n : ℕ) → p (channel_close s n) ≡ false

pub is_on_envelope-IsAway : IsAway is_on_envelope
is_on_envelope-IsAway = record {
  aside = record {
    other = record { description = λ s. refl; name = λ m. refl };
    closing = λ s code. refl;
    reply = λ s. refl;
    release = λ s. refl;
    socket = λ s. refl;
    opening = λ s a n tv. refl;
    handshake = λ s tv. refl;
    login = λ s v a b c m xs. refl;
    login_properties = λ s v a b c es m xs. refl;
  };
  around = is_on_envelope-IsBeside.around;
  new = refl;
  destroy = λ s. refl;
  channel = λ s n. refl;
}

pub is_basic_ack-IsAway : IsAway is_basic_ack
is_basic_ack-IsAway = record {
  aside = record {
    other = record { description = λ s. refl; name = λ m. refl };
    closing = λ s code. refl;
    reply = λ s. refl;
    release = λ s. refl;
    socket = λ s. refl;
    opening = λ s a n tv. refl;
    handshake = λ s tv. refl;
    login = λ s v a b c m xs. refl;
    login_properties = λ s v a b c es m xs. refl;
  };
  around = record {
    apart = record {
      description = record { description = λ s. refl; name = λ m. refl };
      clock = refl;
      wait = λ s tv. refl;
      read = λ s n. refl;
      message = λ m. refl;
    };
    opening = λ s n. refl;
    reply = λ s. refl;
    release = λ s. refl;
    release_channel = λ s n. refl;
    message = λ s tv. refl;
    envelope = λ e. refl;
    subscribe = λ s n q t a b c es. refl;
    tag = λ n. refl;
  };
  new = refl;
  destroy = λ s. refl;
  channel = λ s n. refl;
}

module _ (p : Call → Bool) (away : IsAway p) where
  connection_construct-Adds : (o : Options) → Adds p 0 (Connection.construct o)
  unfolding Connection.construct build delete_state
  connection_construct-Adds o =
      Adds-bind _ _ (Adds-perform new_connection away.new)
        λ n. search (adds_rules, away.destroy, establish-Adds p away.aside) depth 8

  connection_destruct-Adds : (c : Connection) → Adds p 0 (Connection.destruct c)
  unfolding Connection.destruct delete_state
  connection_destruct-Adds c = search (adds_rules, away.destroy, close-Adds_none p away.aside)

  channel_destruct-Adds : (ch : Channel) → Adds p 0 (Channel.destruct ch)
  channel_destruct-Adds = destruct_channel-Adds p away.around away.channel

  pub count-within :
      {A : Type 0} (c : Connection) (ch : Channel) (m : Effect A) (lib : Library) (h : Trace)
      → count p (within c ch m lib h).1 ≡ count p (m lib h).1
  unfolding within
  count-within c ch m lib h =
      count-guard _ _ lib h (connection_destruct-Adds c)
      ∙ count-guard _ _ lib h (channel_destruct-Adds ch)

  pub within-Adds :
      {A : Type 0} (c : Connection) (ch : Channel) {n : ℕ} (m : Effect A)
      → Adds p n m
      → Adds p n (within c ch m)
  within-Adds c ch m a = record { at = λ lib h. count-within c ch m lib h ∙ a.at lib h }

  pub closing-Adds :
      {A : Type 0} (c : Connection) (ch : Channel) (a : A) → Adds p 0 (closing c ch a)
  unfolding closing
  closing-Adds c ch a =
      Adds-defer_none _ _ (connection_destruct-Adds c)
        (Adds-defer_none _ _ (channel_destruct-Adds ch) (Adds-pure a))

  pub joining-Adds : (s : Settings) (arg : Entries) → Adds p 0 (joining s arg)
  unfolding joining
  joining-Adds s arg = Adds-bind _ _ (connection_construct-Adds (options s)) λ c.
      Adds-bind _ _ (Adds-guard _ _ (connection_destruct-Adds c) (construct-Adds p away.around c 1))
        λ ch.
          Adds-bind _ _
            (within-Adds c ch _ (subscribe-Adds p away.around ch arg s.queues_to_consume))
            λ u. Adds-pure _
