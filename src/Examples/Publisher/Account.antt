-- ===== src/Examples/Publisher/Account.antt =====
-- What examples/publisher.cpp says, against the messages that amqp_read_message hands it.
use rabbitmq_cxx.Base.{ℕ, ◌≡◌, refl, Bool, true, false, List, [], ◌∷◌, Option}
use rabbitmq_cxx.Amqp.{
  Call, Trace, Library, Timeval, RawMessage, RawEnvelope, consume_message, read_message,
  destroy_envelope, maybe_release_buffers, clock_now,
}
use rabbitmq_cxx.Effect.{perform, notify}
use rabbitmq_cxx.Effect.Keeps.{
  Account, Keeps, keeps_rules, Keeps-pure, Keeps-choose, Keeps-notify, Keeps-perform,
}
use rabbitmq_cxx.Effect.Ledger.{Trade, Owed, Owed-quiet}
use rabbitmq_cxx.AmqpStruct.{AmqpStruct, destruct_envelope}
use rabbitmq_cxx.Connection.{Connection}
use rabbitmq_cxx.Connection.Consume.{run}
use rabbitmq_cxx.Connection.Consume.Callers.{ignore}
use rabbitmq_cxx.Connection.Consume.Keeps.{IsKept}
use rabbitmq_cxx.Examples.Publisher.Protocol.{Block, missed, handled, dropped, is_said, block}
use rabbitmq_cxx.Connection.Replies.{is_normal}

-- A message, and whether it is one to handle: the reply to reading it is normal.
abbrev pub Task : Type 0
Task = RawMessage × Bool

abbrev pub tasks_of : Library → Call → Trace → List Task
tasks_of lib (read_message s n) h =
    let got = lib.answer h (read_message s n) in (got.1, is_normal got.0.reply_type) ∷ []
tasks_of lib _ h = []

abbrev pub does : Block → List Task
does missed = []
does (handled m method) = (m, true) ∷ []
does (dropped m) = (m, false) ∷ []

abbrev pub trade : Trade
trade = record {
  Block = Block;
  Task = Task;
  is_said = is_said;
  block = block;
  does = does;
  asks = tasks_of;
}

module _ (h₀ : Trace) where
  owes : List Task → Account
  owes xs = Owed trade xs h₀

  quiet_call :
      (xs : List Task) (c : Call)
      → is_said c ≡ false
      → ((lib : Library) (h : Trace) → tasks_of lib c h ≡ [])
      → IsKept (owes xs) c
  unfolding owes
  quiet_call xs c e q lib h = Owed-quiet trade h₀ lib xs c h e (q lib h)

  module _ (c : Connection) where
    destruct_envelope-Keeps : (e : AmqpStruct RawEnvelope) → Keeps (owes []) (destruct_envelope e)
    unfolding destruct_envelope
    destruct_envelope-Keeps e =
        Keeps-choose _ _ _ (Keeps-pure tt)
          (Keeps-notify (destroy_envelope e.memory) (quiet_call [] _ refl (λ lib h. refl)))

    release-Keeps : (s : ℕ) → Keeps (owes []) (notify (maybe_release_buffers s))
    release-Keeps s = Keeps-notify (maybe_release_buffers s) (quiet_call [] _ refl (λ lib h. refl))

    consume_message-Keeps :
        (s : ℕ) (tv : Option Timeval) → Keeps (owes []) (perform (consume_message s tv))
    consume_message-Keeps s tv =
        Keeps-perform (consume_message s tv) (quiet_call [] _ refl (λ lib h. refl))

    clock_now-Keeps : Keeps (owes []) (perform clock_now)
    clock_now-Keeps = Keeps-perform clock_now (quiet_call [] _ refl (λ lib h. refl))

    ignore-Keeps : Keeps (owes []) (run ignore)
    unfolding run
    ignore-Keeps = record { at = λ lib h k. k }

    ruleset parts = (
      keeps_rules, destruct_envelope-Keeps, release-Keeps, consume_message-Keeps, clock_now-Keeps,
      ignore-Keeps,
    )
