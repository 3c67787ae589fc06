-- ===== src/Consumer.antt =====
-- examples/advconsumer.cpp: a worker thread that consumes and acknowledges over one connection, and
-- processing threads that take messages from a queue and hand tags back in another. Their steps
-- are in the module of this name. The number of a session is the number of connections made so far.
-- It is not in the program, and nor are the histories.
pub mod Steps
pub mod Locks
pub mod Race
pub mod Progress
pub mod Accounts
pub mod Sessions
pub mod Order
pub mod Scope
use rabbitmq_cxx.Base.{
  ℕ, suc, ◌≡◌, Bool, true, false, List, [], ◌∷◌, ◌++◌, Option, none, some, map, Bytes,
}

-- A delivery tag, with the session that it belongs to.
pub record Tag : Type 0 where
  pub session : ℕ
  pub id : ℕ

-- Consumer::Message
pub record Message : Type 0 where
  pub tag : Tag
  pub body : Bytes

-- The members that the threads share.
pub record Consumer : Type 0 where
  pub run : Bool
  pub messages : List Message
  pub ack_queue : List Tag

-- start, before the worker is made
abbrev pub start : Consumer → Consumer
start c = record c { run = true }

abbrev pub stop : Consumer → Consumer
stop c = record c { run = false }

-- receive, once the mutex is locked
abbrev pub pop_message : Consumer → List Message → Option Message × Consumer
pop_message c [] = (none, c)
pop_message c (m ∷ ms) = (some m, record c { messages = ms })

abbrev pub receive : Consumer → Option Message × Consumer
receive c = pop_message c c.messages

-- acknowledge, once the mutex is locked
abbrev pub acknowledge : Tag → Consumer → Consumer
acknowledge t c = record c { ack_queue = c.ack_queue ++ t ∷ [] }

-- Where the worker stands.
pub data Worker : Type 0 where
  -- the test of the outer loop
  outer : Worker
  -- making the connection, the channel and the queues
  connecting : Worker
  -- the test of the inner loop
  inner : Worker
  -- in consumeEnvelope
  polling : Worker
  -- in the callback of consumeEnvelope
  delivering : Message → Worker
  -- before the mutex of the tags, and behind it
  polled : Worker
  acking : Worker
  -- the handler of exceptions: before each mutex, and behind it
  failed : Worker
  clearing_messages : Worker
  cleared : Worker
  clearing_acks : Worker
  finished : Worker

-- Where a processing thread stands.
pub data Thread : Type 0 where
  idle : Thread
  -- in receive and acknowledge, behind their mutex
  receiving : Thread
  acknowledging : Tag → Thread
  -- with a message
  working : Tag → Thread
  over : Thread

pub record Sent : Type 0 where
  pub session : ℕ
  pub tag : Tag

pub record System : Type 0 where
  pub consumer : Consumer
  pub message_mtx : Bool
  pub ack_mtx : Bool
  pub worker : Worker
  pub threads : List Thread
  pub session : ℕ
  -- what arrived, what a processing thread took, what was acknowledged in which session, and what was
  -- dropped after an exception, the newest first
  pub delivered : List Tag
  pub taken : List Tag
  pub acknowledged : List Sent
  pub dropped : List Tag

abbrev pub received : Option Message → Thread
received none = Thread.idle
received (some m) = Thread.working m.tag

abbrev pub tag_of : Option Message → List Tag
tag_of none = []
tag_of (some m) = m.tag ∷ []
