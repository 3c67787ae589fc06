-- ===== src/Examples/Consumer/Account.antt =====
-- What examples/consumer.cpp says, against the envelopes that amqp_consume_message hands it.
use rabbitmq_cxx.Base.{Bool, true, false, not, ◌&&◌, ◌==◌, List, [], ◌∷◌}
use rabbitmq_cxx.Amqp.{Call, Trace, Library, ReplyType, RawEnvelope, consume_message}
use rabbitmq_cxx.Effect.{Effect, ◌>>◌}
use rabbitmq_cxx.Effect.Survives.{Survives}
use rabbitmq_cxx.Effect.Keeps.{Account, Keeps}
use rabbitmq_cxx.Effect.Ledger.{Trade, Owed}
use rabbitmq_cxx.AmqpStruct.{AmqpStruct}
use rabbitmq_cxx.Connection.{Connection}
use rabbitmq_cxx.Connection.Replies.{is_normal}
use rabbitmq_cxx.Channel.{Channel}
use rabbitmq_cxx.Examples.Consumer.Protocol.{Block, missed, handled, dropped, is_said, block}

-- An envelope, and whether it is one to handle: the reply is normal, and the channel is not 0.
abbrev pub Task : Type 0
Task = RawEnvelope × Bool

abbrev pub task_of : ReplyType → RawEnvelope → Task
task_of t e = (e, is_normal t && not (e.channel == 0))

abbrev pub tasks_of : Library → Call → Trace → List Task
tasks_of lib (consume_message s tv) h =
    let got = lib.answer h (consume_message s tv) in task_of got.0.reply_type got.1 ∷ []
tasks_of lib _ h = []

abbrev pub does : Block → List Task
does missed = []
does (handled e complains) = (e, true) ∷ []
does (dropped e) = (e, false) ∷ []

abbrev pub trade : Channel → Trade
trade ch = record {
  Block = Block;
  Task = Task;
  is_said = is_said;
  block = block ch;
  does = does;
  asks = tasks_of;
}

module _ (ch : Channel) (h₀ : Trace) where
  owes : List Task → Account
  owes xs = Owed (trade ch) xs h₀
