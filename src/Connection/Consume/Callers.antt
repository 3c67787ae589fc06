-- ===== src/Connection/Consume/Callers.antt =====
-- The closures that the methods of include/rmqcxx/Connection.hpp pass to consume: those that hand
-- on to the client's callback, and those that ignore what they get.
use rabbitmq_cxx.Base.{ℕ, Bool, true, false, Option, none, some, ◌∷◌}
use rabbitmq_cxx.Effect.{Effect, Outcome}
use rabbitmq_cxx.Exceptions.{Exception, foreign}
use rabbitmq_cxx.Amqp.{
  RawEnvelope, RawMessage, Return, Ack, on_envelope, on_returned_message, on_acknowledge,
}
use rabbitmq_cxx.Connection.Consume.{Callback, Closures}

-- What a callback of the client throws is none of the library's.
abbrev pub foreign_of : Option ℕ → Option Exception
foreign_of none = none
foreign_of (some n) = some (foreign n)

-- [] (const X&) {}
abbrev pub ignore : Callback
ignore lib h = (record { raises = none; keeps = false; flagged = false }, h)

-- [&callback, &done] (Envelope v) { done = true; callback(std::move(v)); }, or with `flag` false
-- the callback itself
abbrev pub call_envelope : Bool → RawEnvelope → Callback
call_envelope flag e lib h =
    let r = lib.answer h (on_envelope e) in
    (record { raises = foreign_of r.raises; keeps = r.keeps; flagged = flag }, on_envelope e ∷ h)

abbrev pub call_returned : Bool → RawMessage → Return → Callback
call_returned flag m method lib h =
    let r = lib.answer h (on_returned_message m method) in
    (
      record { raises = foreign_of r.raises; keeps = r.keeps; flagged = flag },
      on_returned_message m method ∷ h,
    )

abbrev pub call_acknowledge : Bool → Ack → Callback
call_acknowledge flag a lib h =
    let r = lib.answer h (on_acknowledge a) in
    (record { raises = foreign_of r; keeps = false; flagged = flag }, on_acknowledge a ∷ h)

-- consume, as the client calls it
abbrev pub all_callbacks : Closures
all_callbacks = record {
  envelope = call_envelope false;
  returned = call_returned false;
  acknowledge = call_acknowledge false;
}

-- consumeEnvelope, consumeReturnedMessage and consumeAcknowledge
abbrev pub only_envelope : Closures
only_envelope = record {
  envelope = call_envelope true;
  returned = λ _ _. ignore;
  acknowledge = λ _. ignore;
}

abbrev pub only_returned : Closures
only_returned = record {
  envelope = λ _. ignore;
  returned = call_returned true;
  acknowledge = λ _. ignore;
}

abbrev pub only_acknowledge : Closures
only_acknowledge = record {
  envelope = λ _. ignore;
  returned = λ _ _. ignore;
  acknowledge = call_acknowledge true;
}

-- A closure that sets `done` of its caller and passes on.
abbrev pub set_done : Callback → Callback
set_done k lib h = let r = k lib h in (record r.0 { flagged = true }, r.1)

-- consumeEnvelope and consumeReturnedMessage, with the code that they are called with
abbrev pub envelopes_to : (RawEnvelope → Callback) → Closures
envelopes_to k = record {
  envelope = λ e. set_done (k e);
  returned = λ _ _. ignore;
  acknowledge = λ _. ignore;
}

abbrev pub returned_to : (RawMessage → Return → Callback) → Closures
returned_to k = record {
  envelope = λ _. ignore;
  returned = λ m method. set_done (k m method);
  acknowledge = λ _. ignore;
}

abbrev raised : Outcome (Unit {0}) → Option Exception
raised (Outcome.throws x) = some x
raised _ = none

-- Statements of a program as a callback, which must not end the program: they let their argument go
-- when they end.
abbrev pub statements : Effect (Unit {0}) → Callback
statements m lib h =
    let r = m lib h in (record { raises = raised r.0; keeps = false; flagged = false }, r.1)
