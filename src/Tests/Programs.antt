-- ===== src/Tests/Programs.antt =====
-- The theorems on the programs of examples/ at concrete inputs.
use rabbitmq_cxx.Base.{◌≢◌, refl, arith, none, []}
use rabbitmq_cxx.Amqp.{no_entries}
use rabbitmq_cxx.Effect.{done}
use rabbitmq_cxx.Connection.Consume.Loop.Lost.{IsLost}
use rabbitmq_cxx.Examples.Consumer
use rabbitmq_cxx.Examples.Publisher
use rabbitmq_cxx.Examples.Lost.{mains-end}
use rabbitmq_cxx.Tests.Samples.{disconnected}

disconnected-IsLost : IsLost disconnected 0
disconnected-IsLost = record { type = λ h s tv le. refl; error = λ h s tv le. refl }

mains-end_example :
    ((Consumer.main 1 1 no_entries disconnected []).0 ≢ done none)
    × ((Publisher.main 1 1 disconnected []).0 ≢ done none)
mains-end_example =
    mains-end disconnected 0 0 0 disconnected-IsLost (omega arith) (omega arith) no_entries []
