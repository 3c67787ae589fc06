-- ===== src/Exceptions.antt =====
-- include/rmqcxx/Exceptions.hpp, with the decoder of close methods of include/rmqcxx/util.hpp.
-- An exception keeps the fields of its class but the references to the connection and the channel
-- objects; the text is what `what()` returns.
use rabbitmq_cxx.Base.{ℕ, Bytes, [], ◌++◌}
use rabbitmq_cxx.Base.Text.{text, to_string}
use rabbitmq_cxx.Amqp.{Status, Reply, Frame, Close}

pub data Exception : Type 0 where
  exception : Bytes → Exception
  connection_exception : Bytes → Exception
  -- the socket, 0 for null
  socket_exception : ℕ → Status → Bytes → Exception
  operation_exception : Status → Bytes → Exception
  rpc_exception : Reply → Bytes → Exception
  frame_status_exception : Reply → Status → Bytes → Exception
  frame_exception : Reply → Frame → Bytes → Exception
  channel_close_exception : ℕ → Bytes → Exception
  connection_close_exception : Bytes → Exception
  library_exception : Reply → Bytes → Exception
  -- the channel's number
  channel_exception : ℕ → Bytes → Exception
  -- whatever a callback of the client throws
  foreign : ℕ → Exception

-- impl::decodeCloseMethod, and decodeAmqpMethod for both close methods
unfoldable pub decode_amqp_method : Close → Bytes
decode_amqp_method decoded =
    text "Code: " ++ (to_string decoded.reply_code ++ (text " Message: " ++ decoded.reply_text))

-- The constructors that extend their reason.
unfoldable pub new_channel_close : ℕ → Close → Bytes → Exception
new_channel_close channel decoded reason =
    channel_close_exception channel (reason ++ (text " " ++ decode_amqp_method decoded))

unfoldable pub new_connection_close : Close → Bytes → Exception
new_connection_close decoded reason =
    connection_close_exception (reason ++ (text " " ++ decode_amqp_method decoded))

-- what(), of the library's exceptions: the reason that the constructor of the base class got
unfoldable pub what : Exception → Bytes
what (exception reason) = reason
what (connection_exception reason) = reason
what (socket_exception socket status reason) = reason
what (operation_exception status reason) = reason
what (rpc_exception reply reason) = reason
what (frame_status_exception reply status reason) = reason
what (frame_exception reply frame reason) = reason
what (channel_close_exception channel reason) = reason
what (connection_close_exception reason) = reason
what (library_exception reply reason) = reason
what (channel_exception channel reason) = reason
what (foreign n) = []
