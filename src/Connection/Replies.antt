-- ===== src/Connection/Replies.antt =====
-- processReply and rpc of include/rmqcxx/Connection.hpp: replies, exceptions and the calls made.
use rabbitmq_cxx.Base.{ℕ, ◌≡◌, refl, Bool, true, false, Bytes, ◌++◌, ◌∷◌, arith, if◌then◌else◌}
use rabbitmq_cxx.Amqp.{
  Call, Status, error_string2, method_name, Trace, Library, Reply, ReplyType, Method, get_rpc_reply,
  maybe_release_buffers,
}
use rabbitmq_cxx.Exceptions.{Exception}
use rabbitmq_cxx.Effect.{Effect, done, throws, ◌>>=◌, pure, defer, pure}
use rabbitmq_cxx.Effect.Calls.{Adds, adds_rules}
use rabbitmq_cxx.Effect.Survives.{Survives, Returns, Survives-defer_throwing, survives_rules}
use rabbitmq_cxx.Connection.{
  Connection, process_reply, switch_reply, server_exception, unhandled_response, conclude, rpc,
}

unhandled_response-Survives :
    (context : Bytes) (reply : Reply) → Survives (unhandled_response context reply)
unfolding unhandled_response
unhandled_response-Survives context reply = search survives_rules

server_exception-Survives :
    (context : Bytes) (reply : Reply) (m : Method) → Survives (server_exception context reply m)
unfolding server_exception
server_exception-Survives context reply (Method.connection_close d) = search survives_rules
server_exception-Survives context reply (Method.channel_close d) = search survives_rules
server_exception-Survives context reply _ = unhandled_response-Survives context reply

switch_reply-Survives :
    (context : Bytes) (reply : Reply) (t : ReplyType) → Survives (switch_reply context reply t)
unfolding switch_reply
switch_reply-Survives context reply ReplyType.server_exception =
    server_exception-Survives context reply reply.reply
switch_reply-Survives context reply _ = search survives_rules

pub process_reply-Survives :
    (context : Bytes) (reply : Reply) → Survives (process_reply context reply)
unfolding process_reply
process_reply-Survives context reply = switch_reply-Survives context reply reply.reply_type

-- Calls that processReply does not make.
pub record IsOther (p : Call → Bool) : Type 0 where
  pub description : (s : Status) → p (error_string2 s) ≡ false
  pub name : (m : Method) → p (method_name m) ≡ false

module _ (p : Call → Bool) (o : IsOther p) where
  unhandled_response-Adds :
      (context : Bytes) (reply : Reply) → Adds p 0 (unhandled_response context reply)
  unfolding unhandled_response
  unhandled_response-Adds context reply = search (adds_rules, o.name)

  server_exception-Adds :
      (context : Bytes) (reply : Reply) (m : Method) → Adds p 0 (server_exception context reply m)
  unfolding server_exception
  server_exception-Adds context reply (Method.connection_close d) = search adds_rules
  server_exception-Adds context reply (Method.channel_close d) = search adds_rules
  server_exception-Adds context reply _ = unhandled_response-Adds context reply

  switch_reply-Adds :
      (context : Bytes) (reply : Reply) (t : ReplyType) → Adds p 0 (switch_reply context reply t)
  unfolding switch_reply
  switch_reply-Adds context reply ReplyType.server_exception =
      server_exception-Adds context reply reply.reply
  switch_reply-Adds context reply ReplyType.library_exception = search (adds_rules, o.description)
  switch_reply-Adds context reply _ = search adds_rules

  pub process_reply-Adds :
      (context : Bytes) (reply : Reply) → Adds p 0 (process_reply context reply)
  unfolding process_reply
  process_reply-Adds context reply = switch_reply-Adds context reply reply.reply_type

pub conclude-Survives :
    (c : Connection) (release : Bool) (context : Bytes) → Survives (conclude c release context)
unfolding conclude
conclude-Survives c release context = search (survives_rules, process_reply-Survives)

-- No RPC ends the program, though the deferred function throws.
pub rpc-Survives :
    {A : Type 0} (c : Connection) (release : Bool) (context : Bytes) (f : ℕ → Effect A)
    → Returns (f c.state)
    → Survives (rpc c release context f)
unfolding rpc
rpc-Survives c release context f r =
    Survives-defer_throwing _ _ (conclude-Survives c release context) r

abbrev pub is_normal : ReplyType → Bool
is_normal ReplyType.normal = true
is_normal _ = false

server_exception-throws :
    (context : Bytes) (reply : Reply) (m : Method) (lib : Library) (h : Trace)
    → (e : Exception) × ((server_exception context reply m lib h).0 ≡ throws e)
unfolding server_exception unhandled_response ◌>>=◌
server_exception-throws context reply (Method.basic_ack a) lib h = (_, refl)
server_exception-throws context reply (Method.basic_return r) lib h = (_, refl)
server_exception-throws context reply (Method.channel_close d) lib h = (_, refl)
server_exception-throws context reply (Method.connection_close d) lib h = (_, refl)
server_exception-throws context reply (Method.other n) lib h = (_, refl)

pub switch_reply-throws :
    (context : Bytes) (reply : Reply) (t : ReplyType) (lib : Library) (h : Trace)
    → is_normal t ≡ false
    → (e : Exception) × ((switch_reply context reply t lib h).0 ≡ throws e)
unfolding switch_reply server_exception unhandled_response ◌>>=◌
switch_reply-throws context reply ReplyType.normal lib h n = cc
switch_reply-throws context reply ReplyType.none lib h n = (_, refl)
switch_reply-throws context reply ReplyType.library_exception lib h n = (_, refl)
switch_reply-throws context reply ReplyType.server_exception lib h n =
    server_exception-throws context reply reply.reply lib h
switch_reply-throws context reply (ReplyType.other k) lib h n = (_, refl)

pub switch_reply-normal :
    (context : Bytes) (reply : Reply) (t : ReplyType) (lib : Library) (h : Trace)
    → is_normal t ≡ true
    → switch_reply context reply t lib h ≡ (done tt, h)
unfolding switch_reply pure
switch_reply-normal context reply ReplyType.normal lib h n = refl
switch_reply-normal context reply _ lib h n = cc

module _ {A : Type 0} (c : Connection) (release : Bool) (context : Bytes) (f : ℕ → Effect A)
    (lib : Library) (h : Trace) (a : A) (t : Trace) (called : f c.state lib h ≡ (done a, t)) where
  -- With a normal reply an RPC returns what the method returned, asks for the reply right after the
  -- method, and releases the buffers exactly if it is told to.
  pub rpc-normal :
      is_normal (lib.answer t (get_rpc_reply c.state)).reply_type ≡ true
      → rpc c release context f lib h ≡ (
        done a,
        if release
            then maybe_release_buffers c.state ∷ get_rpc_reply c.state ∷ t
            else get_rpc_reply c.state ∷ t,
      )
  unfolding rpc conclude process_reply defer ◌>>=◌
  rpc-normal n = rw (called, switch_reply-normal _ _ _ lib _ n) (ground arith)

  -- With a reply that is not normal an RPC throws, though the method has returned.
  pub rpc-throws :
      is_normal (lib.answer t (get_rpc_reply c.state)).reply_type ≡ false
      → (e : Exception) × ((rpc c release context f lib h).0 ≡ throws e)
  unfolding rpc conclude process_reply defer ◌>>=◌
  rpc-throws n =
      let (e, p) =
        switch_reply-throws (c.context ++ context) (lib.answer t (get_rpc_reply c.state)) _ lib
          (get_rpc_reply c.state ∷ t) n in
      (e, rw called (ground (arith, p)))
