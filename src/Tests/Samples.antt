-- ===== src/Tests/Samples.antt =====
-- A library for the tests: every RPC and every consumption gets the reply that it is made with, and
-- every other call succeeds. Callbacks keep nothing and throw nothing.
use rabbitmq_cxx.Base.{Option, some, true, false, none, [], ◌∷◌, ℕ, List, length}
use rabbitmq_cxx.Base.Int.{pos}
use rabbitmq_cxx.Amqp.{
  Call, Answer, Trace, Timeval, Library, Reply, ReplyType, Method, Status, Frame, FrameType,
  SaslMethod,
}
use rabbitmq_cxx.Connection.{Connection, Options}
use rabbitmq_cxx.Channel.{Channel}
use rabbitmq_cxx.Queue.{Queue}
use rabbitmq_cxx.Exchange.{Exchange}
use rabbitmq_cxx.Consumer.Scope.{Settings}
use rabbitmq_cxx.Duration.{seconds}

abbrev pub normal_reply : Reply
normal_reply = record {
  reply_type = ReplyType.normal;
  reply = Method.other 0;
  library_error = Status.ok;
}

abbrev pub missing_reply : Reply
missing_reply = record normal_reply { reply_type = ReplyType.none }

abbrev frame : Frame
frame = record { frame_type = FrameType.other 8; channel = 0; payload = Method.other 0 }

abbrev pub answer_with : Reply → (c : Call) → Answer c
answer_with r Call.new_connection = 7
answer_with r (Call.tcp_socket_new c) = 8
answer_with r (Call.socket_open_noblock s a p tv) = Status.ok
answer_with r (Call.set_handshake_timeout c tv) = Status.ok
answer_with r (Call.login c v mc mf hb m args) = r
answer_with r (Call.login_with_properties c v mc mf hb ps m args) = r
answer_with r (Call.get_rpc_timeout c) = none
answer_with r (Call.set_rpc_timeout c tv) = Status.ok
answer_with r (Call.get_rpc_reply c) = r
answer_with r (Call.error_string2 s) = []
answer_with r (Call.method_name m) = []
answer_with r (Call.consume_message c tv) =
    (r, record { channel = 1; delivery_tag = 5; message = record { body = b'x' ∷ [] } })
answer_with r (Call.simple_wait_frame_noblock c tv) = (Status.timeout, frame)
answer_with r (Call.read_message c ch) = (r, record { body = [] })
answer_with r (Call.connection_close c code) = r
answer_with r (Call.channel_open c ch) = 1
answer_with r (Call.channel_close c ch) = r
answer_with r (Call.basic_ack c ch tag multiple) = 0
answer_with r (Call.basic_nack c ch tag multiple requeue) = 0
answer_with r (Call.basic_qos c ch size count per) = 1
answer_with r (Call.channel_flow c ch active) = 1
answer_with r (Call.basic_recover c ch requeue) = 1
answer_with r (Call.basic_publish c ch ex key m i ps b) = Status.ok
answer_with r (Call.queue_declare c ch q p d e a t) = 1
answer_with r (Call.queue_bind c ch q ex key t) = 1
answer_with r (Call.queue_unbind c ch q ex key t) = 1
answer_with r (Call.exchange_bind c ch d s key t) = 1
answer_with r (Call.exchange_unbind c ch d s key t) = 1
answer_with r (Call.basic_consume c ch q tag nl na e t) = 1
answer_with r (Call.queue_delete c ch q u e) = 1
answer_with r (Call.queue_purge c ch q) = 1
answer_with r (Call.exchange_declare c ch ex ty p d a i t) = 1
answer_with r (Call.exchange_delete c ch ex u) = 1
answer_with r (Call.load_active p) = true
answer_with r (Call.load_message_count p) = 3
answer_with r (Call.load_consumer_tag p) = b't' ∷ []
answer_with r (Call.load_queue p) = b'q' ∷ []
answer_with r (Call.load_consumer_count p) = 1
answer_with r Call.clock_now = pos 0
answer_with r (Call.on_envelope e) = record { raises = none; keeps = false }
answer_with r (Call.on_returned_message m b) = record { raises = none; keeps = false }
answer_with r (Call.on_acknowledge a) = none
answer_with r (Call.destroy_connection c) = tt
answer_with r (Call.maybe_release_buffers c) = tt
answer_with r (Call.maybe_release_buffers_on_channel c ch) = tt
answer_with r (Call.destroy_envelope e) = tt
answer_with r (Call.destroy_message m) = tt
answer_with r (Call.print l) = tt
answer_with r (Call.print_error l) = tt

abbrev pub library_with : Reply → Library
library_with r = record { answer = λ h c. answer_with r c }

abbrev pub nothing_left : Reply
nothing_left = record {
  reply_type = ReplyType.library_exception;
  reply = Method.other 0;
  library_error = Status.timeout;
}

abbrev answer_quiet : (k : Call) → Answer k
answer_quiet (Call.consume_message c tv) =
    (nothing_left, record { channel = 0; delivery_tag = 0; message = record { body = [] } })
answer_quiet k = answer_with normal_reply k

-- RPCs succeed, and no message ever arrives.
abbrev pub quiet : Library
quiet = record { answer = λ h k. answer_quiet k }

abbrev answer_lost : (k : Call) → Answer k
answer_lost (Call.consume_message c tv) = (
  record nothing_left { library_error = Status.socket_error },
  record { channel = 0; delivery_tag = 0; message = record { body = [] } },
)
answer_lost k = answer_with normal_reply k

-- RPCs succeed, and waiting for a message reports that the socket is gone.
abbrev pub disconnected : Library
disconnected = record { answer = λ h k. answer_lost k }

abbrev returned_frame : Frame
returned_frame = record {
  frame_type = FrameType.method;
  channel = 1;
  payload =
      Method.basic_return
        (record { reply_code = 312; reply_text = []; exchange = []; routing_key = [] });
}

abbrev answer_returning : (k : Call) → Answer k
answer_returning (Call.consume_message c tv) = (
  record nothing_left { library_error = Status.unexpected_state },
  record { channel = 0; delivery_tag = 0; message = record { body = [] } },
)
answer_returning (Call.simple_wait_frame_noblock c tv) = (Status.ok, returned_frame)
answer_returning k = answer_with normal_reply k

-- Every frame returns a message that was published.
abbrev pub returning : Library
returning = record { answer = λ h k. answer_returning k }

abbrev answer_ticking : Trace → (k : Call) → Answer k
answer_ticking h Call.clock_now = pos (length h)
answer_ticking h k = answer_returning k

-- The same, with a clock that goes forward.
abbrev pub ticking : Library
ticking = record { answer = answer_ticking }

abbrev pub last_timeout : Trace → Option Timeval
last_timeout [] = none
last_timeout (Call.set_rpc_timeout c tv ∷ h) = some tv
last_timeout (_ ∷ h) = last_timeout h

abbrev pub answer_remembering : Trace → (k : Call) → Answer k
answer_remembering h (Call.get_rpc_timeout c) = last_timeout h
answer_remembering h k = answer_with normal_reply k

-- It keeps the RPC timeout that it was given.
abbrev pub remembering : Library
remembering = record { answer = answer_remembering }

abbrev pub connection : Connection
connection = record { state = 7; context = [] }

abbrev pub channel : Channel
channel = record { connection = connection; channel = 1; context = []; moved = false }

abbrev pub queue : Queue
queue = record { channel = channel; name = b'q' ∷ []; context = [] }

abbrev pub exchange : Exchange
exchange = record { channel = channel; name = b'e' ∷ []; context = []; moved = false }

abbrev pub options : Options
options = record {
  address = [];
  port = 5672;
  vhost = [];
  max_channels = 0;
  max_frame_size = 131072;
  heartbeat = 1;
  connect_period = seconds;
  connect_timeout = pos 1;
  handshake_period = seconds;
  handshake_timeout = none;
  properties = none;
  sasl_method = SaslMethod.plain;
  args = [];
}

-- The consumer with threads, with one queue, and two rounds of its worker.
abbrev pub settings : Settings
settings = record {
  host = [];
  port = 5672;
  vhost = [];
  username = [];
  password = [];
  queues_to_consume = (b'q' ∷ []) ∷ [];
}

abbrev pub two_rounds : List (Option ℕ)
two_rounds = some 5 ∷ none ∷ []
