-- ===== src/Amqp.antt =====
-- The interface of rabbitmq-c that the headers use. The library itself is a parameter: a `Library`
-- answers each call, and its answer may depend on all the calls before. The types keep the fields
-- that the wrapper reads; an enumerator of the C enums that no `switch` names is `other`.
use rabbitmq_cxx.Base.{ℕ, Bool, Bytes, Option, List}
use rabbitmq_cxx.Base.Int.{ℤ}

-- struct timeval
pub record Timeval : Type 0 where
  pub tv_sec : ℤ
  pub tv_usec : ℤ

-- amqp_status_enum
pub data Status : Type 0 where
  ok timeout unexpected_state socket_error : Status
  other : ℤ → Status

-- amqp_response_type_enum
pub data ReplyType : Type 0 where
  none normal library_exception server_exception : ReplyType
  other : ℕ → ReplyType

-- amqp_channel_close_t and amqp_connection_close_t, as far as both are read
pub record Close : Type 0 where
  pub reply_code : ℕ
  pub reply_text : Bytes

-- amqp_basic_ack_t
pub record Ack : Type 0 where
  pub delivery_tag : ℕ
  pub multiple : Bool

-- amqp_basic_return_t
pub record Return : Type 0 where
  pub reply_code : ℕ
  pub reply_text : Bytes
  pub exchange : Bytes
  pub routing_key : Bytes

-- amqp_method_t: the `id`, and with it the struct that `decoded` points to.
pub data Method : Type 0 where
  basic_ack : Ack → Method
  basic_return : Return → Method
  channel_close : Close → Method
  connection_close : Close → Method
  other : ℕ → Method

-- amqp_rpc_reply_t
pub record Reply : Type 0 where
  pub reply_type : ReplyType
  pub reply : Method
  pub library_error : Status

pub data FrameType : Type 0 where
  method : FrameType
  other : ℕ → FrameType

-- amqp_frame_t
pub record Frame : Type 0 where
  pub frame_type : FrameType
  pub channel : ℕ
  pub payload : Method

-- amqp_message_t
pub record RawMessage : Type 0 where
  pub body : Bytes

-- amqp_envelope_t
pub record RawEnvelope : Type 0 where
  pub channel : ℕ
  pub delivery_tag : ℕ
  pub message : RawMessage

-- amqp_sasl_method_enum
pub data SaslMethod : Type 0 where
  plain sasl_external : SaslMethod
  other : ℕ → SaslMethod

-- AMQP_FIELD_KIND_*
pub data Kind : Type 0 where
  boolean i8 u8 i16 u16 i32 u32 i64 u64 f32 f64 decimal utf8 bytes table array : Kind
  other : ℕ → Kind

-- What a table holds, as the broker reads it.
mutual
  pub data Value : Type 0 where
    boolean : Bool → Value
    i8 i16 i32 i64 : ℤ → Value
    u8 u16 u32 u64 : ℕ → Value
    f32 f64 decimal : ℕ → Value
    -- with the kind, which is utf8 or bytes
    bytes : Kind → List ℕ → Value
    table : Entries → Value
    array : Items → Value

  pub data Entries : Type 0 where
    no_entries : Entries
    entry : List ℕ → Value → Entries → Entries

  pub data Items : Type 0 where
    no_items : Items
    item : Value → Items → Items

-- What a callback that the client passed in came to: whether it threw, and whether it moved its
-- argument on to an owner that outlives the call.
pub record Ending : Type 0 where
  pub raises : Option ℕ
  pub keeps : Bool

-- Every call that leaves the headers. A connection, socket or result is a pointer, 0 for null.
pub data Call : Type 0 where
  new_connection : Call
  destroy_connection : ℕ → Call
  tcp_socket_new : ℕ → Call
  socket_open_noblock : ℕ → Bytes → ℕ → Timeval → Call
  set_handshake_timeout : ℕ → Timeval → Call
  login : ℕ → Bytes → ℕ → ℕ → ℕ → SaslMethod → List Bytes → Call
  login_with_properties : ℕ → Bytes → ℕ → ℕ → ℕ → Entries → SaslMethod → List Bytes → Call
  get_rpc_timeout : ℕ → Call
  set_rpc_timeout : ℕ → Timeval → Call
  get_rpc_reply : ℕ → Call
  maybe_release_buffers : ℕ → Call
  maybe_release_buffers_on_channel : ℕ → ℕ → Call
  error_string2 : Status → Call
  method_name : Method → Call
  consume_message : ℕ → Option Timeval → Call
  simple_wait_frame_noblock : ℕ → Option Timeval → Call
  read_message : ℕ → ℕ → Call
  destroy_envelope : RawEnvelope → Call
  destroy_message : RawMessage → Call
  connection_close channel_open channel_close : ℕ → ℕ → Call
  basic_ack : ℕ → ℕ → ℕ → Bool → Call
  basic_nack : ℕ → ℕ → ℕ → Bool → Bool → Call
  basic_qos : ℕ → ℕ → ℕ → ℕ → Bool → Call
  channel_flow basic_recover : ℕ → ℕ → Bool → Call
  basic_publish : ℕ → ℕ → Bytes → Bytes → Bool → Bool → ℕ → Bytes → Call
  queue_declare : ℕ → ℕ → Bytes → Bool → Bool → Bool → Bool → Entries → Call
  queue_bind queue_unbind exchange_bind exchange_unbind :
      ℕ → ℕ → Bytes → Bytes → Bytes → Entries → Call
  basic_consume : ℕ → ℕ → Bytes → Bytes → Bool → Bool → Bool → Entries → Call
  queue_delete : ℕ → ℕ → Bytes → Bool → Bool → Call
  queue_purge : ℕ → ℕ → Bytes → Call
  exchange_declare : ℕ → ℕ → Bytes → Bytes → Bool → Bool → Bool → Bool → Entries → Call
  exchange_delete : ℕ → ℕ → Bytes → Bool → Call
  -- reads through a result pointer: ->active, ->message_count, ->consumer_tag, ->queue,
  -- ->consumer_count
  load_active load_message_count load_consumer_tag load_queue load_consumer_count : ℕ → Call
  -- std::chrono::high_resolution_clock::now()
  clock_now : Call
  -- the client's callbacks
  on_envelope : RawEnvelope → Call
  on_returned_message : RawMessage → Return → Call
  on_acknowledge : Ack → Call
  -- a line that a program writes to std::cout, or to std::cerr
  print print_error : Bytes → Call

-- What each call hands back, its out parameters included.
abbrev pub Answer : Call → Type 0
Answer new_connection = ℕ
Answer (tcp_socket_new c) = ℕ
Answer (socket_open_noblock s a p tv) = Status
Answer (set_handshake_timeout c tv) = Status
Answer (login c v mc mf hb m args) = Reply
Answer (login_with_properties c v mc mf hb ps m args) = Reply
Answer (get_rpc_timeout c) = Option Timeval
Answer (set_rpc_timeout c tv) = Status
Answer (get_rpc_reply c) = Reply
Answer (error_string2 s) = Bytes
Answer (method_name m) = Bytes
Answer (consume_message c tv) = Reply × RawEnvelope
Answer (simple_wait_frame_noblock c tv) = Status × Frame
Answer (read_message c ch) = Reply × RawMessage
Answer (connection_close c code) = Reply
Answer (channel_open c ch) = ℕ
Answer (channel_close c ch) = Reply
Answer (basic_ack c ch tag multiple) = ℕ
Answer (basic_nack c ch tag multiple requeue) = ℕ
Answer (basic_qos c ch size count per) = ℕ
Answer (channel_flow c ch active) = ℕ
Answer (basic_recover c ch requeue) = ℕ
Answer (basic_publish c ch ex key m i ps b) = Status
Answer (queue_declare c ch q p d e a t) = ℕ
Answer (queue_bind c ch q ex key t) = ℕ
Answer (queue_unbind c ch q ex key t) = ℕ
Answer (exchange_bind c ch d s key t) = ℕ
Answer (exchange_unbind c ch d s key t) = ℕ
Answer (basic_consume c ch q tag nl na e t) = ℕ
Answer (queue_delete c ch q u e) = ℕ
Answer (queue_purge c ch q) = ℕ
Answer (exchange_declare c ch ex ty p d a i t) = ℕ
Answer (exchange_delete c ch ex u) = ℕ
Answer (load_active p) = Bool
Answer (load_message_count p) = ℕ
Answer (load_consumer_tag p) = Bytes
Answer (load_queue p) = Bytes
Answer (load_consumer_count p) = ℕ
Answer clock_now = ℤ
Answer (on_envelope e) = Ending
Answer (on_returned_message m r) = Ending
Answer (on_acknowledge a) = Option ℕ
Answer _ = Unit {0}

-- The calls made so far, the newest first.
abbrev pub Trace : Type 0
Trace = List Call

-- rabbitmq-c, the broker, the clock and the client's callbacks, as one parameter.
pub record Library : Type 0 where
  pub answer : Trace → (c : Call) → Answer c
