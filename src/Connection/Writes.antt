-- ===== src/Connection/Writes.antt =====
-- What processReply and the deferred function of rpc in include/rmqcxx/Connection.hpp call, as words of a
-- language.
use rabbitmq_cxx.Base.{Bool, Bytes, [], ◌∷◌}
use rabbitmq_cxx.Amqp.{
  Status, ReplyType, Method, Reply, error_string2, method_name, get_rpc_reply,
  maybe_release_buffers,
}
use rabbitmq_cxx.Effect.{perform}
use rabbitmq_cxx.Effect.Writes.{
  Language, anything, Writes, Writes-pure, Writes-throw, Writes-choose, Writes-bind, Writes-perform,
  Writes-notify,
}
use rabbitmq_cxx.Connection.{
  Connection, conclude, process_reply, switch_reply, server_exception, unhandled_response,
}

-- A language with the calls that describe a reply.
pub record Replies (K : Language) : Type 0 where
  pub name : (m : Method) → K.IsWord (method_name m ∷ [])
  pub description : (s : Status) → K.IsWord (error_string2 s ∷ [])

pub anything-Replies : Replies anything
anything-Replies = record { name = λ m. tt; description = λ s. tt }

module _ (K : Language) (replies : Replies K) where
  method_name-Writes : (m : Method) → Writes K (perform (method_name m))
  method_name-Writes m = Writes-perform (method_name m) (replies.name m)

  error_string2-Writes : (t : Status) → Writes K (perform (error_string2 t))
  error_string2-Writes t = Writes-perform (error_string2 t) (replies.description t)

  ruleset said = (
    Writes-pure, Writes-throw, Writes-choose, Writes-bind, method_name-Writes, error_string2-Writes,
  )

  unhandled_response-Writes :
      (context : Bytes) (r : Reply) → Writes K (unhandled_response context r)
  unfolding unhandled_response
  unhandled_response-Writes context r = search said

  server_exception-Writes :
      (context : Bytes) (r : Reply) (m : Method) → Writes K (server_exception context r m)
  unfolding server_exception
  server_exception-Writes context r (Method.connection_close d) = Writes-throw _
  server_exception-Writes context r (Method.channel_close d) = Writes-throw _
  server_exception-Writes context r _ = unhandled_response-Writes context r

  switch_reply-Writes :
      (context : Bytes) (r : Reply) (t : ReplyType) → Writes K (switch_reply context r t)
  unfolding switch_reply
  switch_reply-Writes context r ReplyType.server_exception =
      server_exception-Writes context r r.reply
  switch_reply-Writes context r _ = search said

  pub process_reply-Writes : (context : Bytes) (r : Reply) → Writes K (process_reply context r)
  unfolding process_reply
  process_reply-Writes context r = switch_reply-Writes context r r.reply_type

  pub conclude-Writes :
      (c : Connection) (release : Bool) (context : Bytes)
      → K.IsWord (get_rpc_reply c.state ∷ [])
      → K.IsWord (maybe_release_buffers c.state ∷ [])
      → Writes K (conclude c release context)
  unfolding conclude
  conclude-Writes c release context g m =
      Writes-bind _ _ (Writes-perform (get_rpc_reply c.state) g) λ r.
        Writes-bind _ _ (process_reply-Writes _ r) λ u.
          Writes-choose release _ _ (Writes-notify (maybe_release_buffers c.state) m)
            (Writes-pure tt)
