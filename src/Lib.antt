-- ===== src/Lib.antt =====
-- A model of rabbitmq-cxx, C++ headers around the C client rabbitmq-c.
--
-- The program. A Connection (include/rmqcxx/Connection.hpp) owns the pointer that
-- amqp_new_connection returns, logs in with it, and has the one function through which all RPCs
-- go: `rpc` calls a function of the C library and, in a deferred function, asks for the reply,
-- turns it into an exception if it is one, and may release the buffers. A Channel
-- (include/rmqcxx/Channel.hpp) refers to a connection, a Queue and an Exchange
-- (include/rmqcxx/Queue.hpp, include/rmqcxx/Exchange.hpp) to a channel, and each has an `rpc` that
-- passes on to the one below it. A connection also consumes: `consumeImpl` waits for a message or
-- another frame and calls one of three callbacks, and the consume methods loop over it.
--
-- The model. rabbitmq-c is a parameter: Amqp.antt has its types and the data type `Call` of every
-- call that leaves the headers, the clock and what the examples print included, and a `Library`
-- answers each call with a value that may depend on all calls before it (`Trace`, the newest
-- first). Nothing is assumed about the answers, unless a theorem names it. The C++ code is an
-- `Effect`, a function from a library and a trace to an outcome and the longer trace; an outcome is
-- a value, an exception, or the end of the program by std::terminate (Effect.antt). `defer` is the
-- class of include/rmqcxx/util.hpp, `try_catch` is catch (...), `no_throw` is noexcept.
--
--   Base, Base/Int, Base/Text    tests, integers over the native numbers, std::to_string
--   Amqp, Exceptions             rabbitmq-c as it is used; include/rmqcxx/Exceptions.hpp
--   Effect                       outcomes; Survives, Finishes, Calls, Pays, Last and Balance count calls
--                                and follow outcomes; Writes is on languages of calls, Blocks on those
--                                that are said; Keeps is on what a statement keeps of the calls
--                                so far, Ledger on what a program is asked to do and does; Guard
--                                cuts the scope of a deferred function into parts
--   Duration                     timeValue and durationValue of include/rmqcxx/util.hpp
--   AmqpStruct, ReturnedMessage  include/rmqcxx/AMQPStruct.hpp, the destructors of
--                                include/rmqcxx/Message.hpp and include/rmqcxx/Envelope.hpp, and
--                                include/rmqcxx/ReturnedMessage.hpp
--   Memory                       blocks of memory, the C structs of tables that point into them, and
--                                bytes and container of include/rmqcxx/util.hpp
--   FieldValue, TableEntry, Table  the three headers of these names; FieldValue/Reading follows the
--                                pointers of a value, Table/Ownership is on copies and moves,
--                                Table/Arguments on tables as arguments of the methods below
--   Connection                   construction, moves, destruction, rpc, processReply, RPC timeouts;
--                                Writes and Aside, the former in Consume too, are on the calls that
--                                are made, and those that are not
--   Connection/Consume           consumeImpl and consume; Envelopes and Messages count what they
--                                destroy, Reports how often they call back, Keeps what holds of
--                                the calls when the callbacks keep it; Loop has
--                                consumeEnvelope, consumeReturnedMessage and consumeAcknowledge,
--                                Loop/Once, Loop/Ends and Loop/Lost their rounds; Overflow the
--                                arithmetic of their deadlines in 64 bits
--   Channel, Queue, Exchange     the three headers of these names; the two Arguments over the memory
--                                that the arguments of their methods are in
--   Consumer                     examples/advconsumer.cpp, its data, and in Steps a step relation over
--                                its threads: Locks, Race, Progress, Accounts of tags, Order, Sessions;
--                                Consumer/Scope is what its worker does with a connection, over the
--                                classes of the headers; Scope/Joining cuts it where others come in;
--                                Scope/Refines, Scope/Runs and Scope/Execution tie it to the steps,
--                                for a round, a connection and the whole program
--   Examples                     examples/consumer.cpp and examples/publisher.cpp, over the headers;
--                                Protocol is what each says in a block, Account sets it against
--                                what the library hands over, Ends and Lost are on their end
--   Tests                        the theorems at concrete inputs
--
-- The functions keep their names in snake case. A `switch` is a function by clauses over the value
-- it switches on (`switch_reply`, `switch_consumed`, `switch_error`, `switch_wait`,
-- `switch_method`), and the constructor of a connection is cut at its early exits (`construct`,
-- `build`, `establish`, `connect`, `open_socket`, `set_handshake`, `send_login`, `log_in`).
--
-- Bounds and fuel. Integers have no bound: Duration/Overflow and Connection/Consume/Overflow are
-- on the 64 bits of std::chrono, and a conversion to a narrower type is not modelled. The clock
-- counts nanoseconds. The consume loops of Connection/Consume/Loop.antt take fuel, one unit a
-- round, and are `none` when it runs out. The broker decides how many rounds there are: no number
-- is enough for every library, and if nothing arrives from some call on, one unit more than that
-- call's number is enough for the timed loops (Loop/Ends), and for the block of the worker
-- (Consumer/Scope/Ends). The two programs of Examples loop until an exception is caught, and so
-- end when the connection is lost (Examples/Lost); while nothing arrives, they go on for ever, as
-- they are meant to. The loops without a timeout wait for as long as the broker has them wait.
-- Nothing else needs fuel, but for the digits of a number, which are at most as many as the number
-- is large, and the reading of a value, where it bounds how deep tables nest.
--
-- Not modelled: the defaulted move of a table entry; the reference to the connection in an
-- exception; the number type int of a table's size, and that of the
-- options, which are natural numbers here; exceptions that are not of the library, such
-- as that memory runs out; the destruction of a program's objects by an exception that leaves
-- main, which is up to the implementation (Examples has it done); the memory behind a pointer that
-- an example prints from. A step of Consumer has any of the outcomes that the headers allow;
-- Consumer/Scope/Execution ties all steps of the worker to the calls of the headers. There,
-- destroying the connection and the channel is one with what an exception leaves, so that no other
-- thread comes in between, and an exception that is not of the library, which would end the
-- program, is left out. The tests are left out.
mod Base
pub mod Amqp
pub mod Exceptions
pub mod Memory
pub mod FieldValue
pub mod TableEntry
pub mod Table
pub mod Effect
pub mod Duration
pub mod AmqpStruct
pub mod ReturnedMessage
pub mod Connection
pub mod Channel
pub mod Queue
pub mod Exchange
pub mod Consumer
pub mod Examples
mod Tests
