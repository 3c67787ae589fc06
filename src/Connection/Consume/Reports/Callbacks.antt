-- ===== src/Connection/Consume/Reports/Callbacks.antt =====
-- The closures that the consuming methods of include/rmqcxx/Connection.hpp make: how often they call the
-- client's callbacks, and what they tell.
use rabbitmq_cxx.Base.{ℕ, none, some, refl, Bool, true, false, Option, arith}
use rabbitmq_cxx.Amqp.{
  Call, Trace, Library, Timeval, on_envelope, on_returned_message, on_acknowledge,
}
use rabbitmq_cxx.Effect.Calls.{count}
use rabbitmq_cxx.Connection.{Connection}
use rabbitmq_cxx.Connection.Consume.{Consumed, consume_impl}
use rabbitmq_cxx.Connection.Consume.Callers.{
  foreign_of, all_callbacks, only_envelope, only_returned, only_acknowledge,
}
use rabbitmq_cxx.Connection.Consume.Counting.{IsApart}
use rabbitmq_cxx.Connection.Consume.Reports.{IsForeign, Fits, Reports, AllTell, IsOutside}
use rabbitmq_cxx.Connection.Consume.Reports.Consuming.{consume_impl-Reports}

abbrev pub is_on_envelope : Call → Bool
is_on_envelope (on_envelope e) = true
is_on_envelope _ = false

abbrev pub is_on_returned_message : Call → Bool
is_on_returned_message (on_returned_message m r) = true
is_on_returned_message _ = false

abbrev pub is_on_acknowledge : Call → Bool
is_on_acknowledge (on_acknowledge a) = true
is_on_acknowledge _ = false

abbrev pub is_callback : Call → Bool
is_callback (on_envelope e) = true
is_callback (on_returned_message m r) = true
is_callback (on_acknowledge a) = true
is_callback _ = false

-- What is reported: the result, or the flag.
abbrev pub result_of : Consumed → Bool
result_of r = r.result

abbrev pub flag_of : Consumed → Bool
flag_of r = r.flagged

pub is_on_envelope-IsApart : IsApart is_on_envelope
is_on_envelope-IsApart = record {
  description = record { description = λ s. refl; name = λ m. refl };
  clock = refl;
  wait = λ s tv. refl;
  read = λ s n. refl;
  message = λ m. refl;
}

is_on_envelope-IsOutside : IsOutside is_on_envelope
is_on_envelope-IsOutside = record {
  apart = is_on_envelope-IsApart;
  destroy = λ e. refl;
  consume = λ s tv. refl;
  release = λ s. refl;
}

is_on_returned_message-IsApart : IsApart is_on_returned_message
is_on_returned_message-IsApart = record {
  description = record { description = λ s. refl; name = λ m. refl };
  clock = refl;
  wait = λ s tv. refl;
  read = λ s n. refl;
  message = λ m. refl;
}

is_on_returned_message-IsOutside : IsOutside is_on_returned_message
is_on_returned_message-IsOutside = record {
  apart = is_on_returned_message-IsApart;
  destroy = λ e. refl;
  consume = λ s tv. refl;
  release = λ s. refl;
}

is_on_acknowledge-IsApart : IsApart is_on_acknowledge
is_on_acknowledge-IsApart = record {
  description = record { description = λ s. refl; name = λ m. refl };
  clock = refl;
  wait = λ s tv. refl;
  read = λ s n. refl;
  message = λ m. refl;
}

is_on_acknowledge-IsOutside : IsOutside is_on_acknowledge
is_on_acknowledge-IsOutside = record {
  apart = is_on_acknowledge-IsApart;
  destroy = λ e. refl;
  consume = λ s tv. refl;
  release = λ s. refl;
}

is_callback-IsApart : IsApart is_callback
is_callback-IsApart = record {
  description = record { description = λ s. refl; name = λ m. refl };
  clock = refl;
  wait = λ s tv. refl;
  read = λ s n. refl;
  message = λ m. refl;
}

is_callback-IsOutside : IsOutside is_callback
is_callback-IsOutside = record {
  apart = is_callback-IsApart;
  destroy = λ e. refl;
  consume = λ s tv. refl;
  release = λ s. refl;
}

foreign_of-IsForeign : (r : Option ℕ) → IsForeign (foreign_of r)
foreign_of-IsForeign none = tt
foreign_of-IsForeign (some n) = tt

only_envelope-AllTell : AllTell is_on_envelope flag_of only_envelope
unfolding count
only_envelope-AllTell = record {
  envelope = λ e. record {
    at = λ lib h. omega arith;
    raises = λ lib h. foreign_of-IsForeign (lib.answer h (on_envelope e)).raises;
  };
  returned = λ m r. record { at = λ lib h. omega arith; raises = λ lib h. tt };
  acknowledge = λ a. record { at = λ lib h. omega arith; raises = λ lib h. tt };
}

only_returned-AllTell : AllTell is_on_returned_message flag_of only_returned
unfolding count
only_returned-AllTell = record {
  envelope = λ e. record { at = λ lib h. omega arith; raises = λ lib h. tt };
  returned = λ m r. record {
    at = λ lib h. omega arith;
    raises = λ lib h. foreign_of-IsForeign (lib.answer h (on_returned_message m r)).raises;
  };
  acknowledge = λ a. record { at = λ lib h. omega arith; raises = λ lib h. tt };
}

only_acknowledge-AllTell : AllTell is_on_acknowledge flag_of only_acknowledge
unfolding count
only_acknowledge-AllTell = record {
  envelope = λ e. record { at = λ lib h. omega arith; raises = λ lib h. tt };
  returned = λ m r. record { at = λ lib h. omega arith; raises = λ lib h. tt };
  acknowledge = λ a. record {
    at = λ lib h. omega arith;
    raises = λ lib h. foreign_of-IsForeign (lib.answer h (on_acknowledge a));
  };
}

all_callbacks-AllTell : AllTell is_callback result_of all_callbacks
unfolding count
all_callbacks-AllTell = record {
  envelope = λ e. record {
    at = λ lib h. omega arith;
    raises = λ lib h. foreign_of-IsForeign (lib.answer h (on_envelope e)).raises;
  };
  returned = λ m r. record {
    at = λ lib h. omega arith;
    raises = λ lib h. foreign_of-IsForeign (lib.answer h (on_returned_message m r)).raises;
  };
  acknowledge = λ a. record {
    at = λ lib h. omega arith;
    raises = λ lib h. foreign_of-IsForeign (lib.answer h (on_acknowledge a));
  };
}

module _ (c : Connection) (tv : Option Timeval) where
  pub only_envelope-Reports : Reports is_on_envelope flag_of (consume_impl c only_envelope tv)
  only_envelope-Reports =
      consume_impl-Reports is_on_envelope flag_of is_on_envelope-IsOutside refl c only_envelope
        only_envelope-AllTell tv

  pub only_returned-Reports :
      Reports is_on_returned_message flag_of (consume_impl c only_returned tv)
  only_returned-Reports =
      consume_impl-Reports is_on_returned_message flag_of is_on_returned_message-IsOutside refl c
        only_returned only_returned-AllTell tv

  pub only_acknowledge-Reports :
      Reports is_on_acknowledge flag_of (consume_impl c only_acknowledge tv)
  only_acknowledge-Reports =
      consume_impl-Reports is_on_acknowledge flag_of is_on_acknowledge-IsOutside refl c
        only_acknowledge only_acknowledge-AllTell tv

  -- With the client's three callbacks, consumeImpl calls exactly one of them, once, if it returns
  -- true, none if it returns false or throws an exception of the library, and at most one if it
  -- throws one that comes from a callback. It never ends the program.
  pub consume_impl-calls_one :
      (lib : Library) (h : Trace)
      → let r = consume_impl c all_callbacks tv lib h in
        Fits result_of r.0 (count is_callback h) (count is_callback r.1)
  consume_impl-calls_one = Reports.at (
      consume_impl-Reports is_callback result_of is_callback-IsOutside refl c all_callbacks
        all_callbacks-AllTell tv)
