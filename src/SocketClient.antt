-- ===== src/SocketClient.antt =====
-- Services/Helpers/WebOSTVServiceSocketClient.m: the commands to a webOS TV over a web socket.
-- A message stands for its JSON text, and two messages are equal where their texts are. The key
-- `req<id>` of a connection is `req id`. `sent` is what was handed to a socket so far, the last
-- message last. The socket itself, the configuration's key and certificates, and the saved
-- subscriptions are not modelled, nor are the delegate's notices of a socket that closed or failed:
-- the socket's calls are the steps.
pub mod Answers
pub mod Delivery
pub mod Keeping
pub mod Replies
use connect_sdk_i_os_core.Prelude.{
  ℕ, suc, ◌+◌, String, ◌≡◌, Bool, true, false, not, ◌&&◌, ◌||◌, List, [], ◌∷◌, ◌++◌, Option, none,
  some, if◌then◌else◌, is_set, select, text_eq, ◌==◌, any, is_equal_to_string,
}

pub data MessageType : Type 0 where
  hello register request subscribe unsubscribe : MessageType

pub record Message : Type 0 where
  pub id : ℕ
  pub type : MessageType
  pub uri : Option String
  pub payload : String

-- `LGSR_CONNECTING` and its kin.
pub data ReadyState : Type 0 where
  connecting open_state closing closed : ReadyState

-- What waits for an answer. A subscription and the registration stay behind an answer.
pub data CommandKind : Type 0 where
  hello_command register_command plain_command subscription : CommandKind

-- `object` is the command object; the flags tell whether its blocks are set.
pub record Command : Type 0 where
  pub kind : CommandKind
  pub object : ℕ
  pub callback_complete : Bool
  pub callback_error : Bool

-- A command that the client makes for itself: both blocks are set.
unfoldable pub own : CommandKind → ℕ → Command
own kind object = record {
  kind = kind;
  object = object;
  callback_complete = true;
  callback_error = true;
}

-- The key `hello`, or `req<id>`.
pub data Key : Type 0 where
  hello_key : Key
  req : ℕ → Key

unfoldable pub key_eq : Key → Key → Bool
key_eq hello_key hello_key = true
key_eq hello_key (req n) = false
key_eq (req m) hello_key = false
key_eq (req m) (req n) = m == n

abbrev pub Connections : Type 0
Connections = List (Key × Command)

unfoldable pub connection_for : Key → Connections → Option Command
connection_for k [] = none
connection_for k ((j, c) ∷ cs) = if key_eq j k then some c else connection_for k cs

unfoldable pub set_connection : Key → Command → Connections → Connections
set_connection k c [] = (k, c) ∷ []
set_connection k c ((j, d) ∷ cs) =
    if key_eq j k then (k, c) ∷ cs else (j, d) ∷ set_connection k c cs

unfoldable pub remove_connection : Key → Connections → Connections
remove_connection k [] = []
remove_connection k ((j, d) ∷ cs) =
    let rest = remove_connection k cs in if key_eq j k then rest else (j, d) ∷ rest

-- `has_delegate` is whether the delegate is set; `uid` is `_UID`; `socket` is the state of `_socket`, if it is set.
pub record Client : Type 0 where
  pub has_delegate : Bool
  pub uid : ℕ
  pub connected : Bool
  pub socket : Option ReadyState
  pub command_queue : List Message
  pub active_connections : Connections
  pub sent : List Message

-- `[_socket send:m]` for each message of a list; without a socket the call does nothing.
unfoldable pub handed : Client → List Message → List Message
handed c ms = if is_set c.socket then c.sent ++ ms else c.sent

-- `isEqual:` on messages is a parameter of the development: see `same`.
module _ (same : Message → Message → Bool) where
  unfoldable pub contains_message : Message → List Message → Bool
  contains_message m queue = any (λ x. same x m) queue

  -- `if ([_commandQueue containsObject:m]) [_commandQueue removeObject:m]`.
  unfoldable pub unqueue : Message → List Message → List Message
  unfolding contains_message
  unqueue m queue = if contains_message m queue then select (λ x. not (same x m)) queue else queue

  -- `[_socket send:m]` and the tidying of the queue.
  unfoldable pub transmit : Client → Message → Client
  transmit c m = record c { sent = handed c (m ∷ []); command_queue = unqueue m c.command_queue }

  -- `helloTv`, for the command object `object`.
  unfoldable pub hello_tv : Client → ℕ → String → Client
  hello_tv c object payload =
      let id = suc c.uid in
      transmit
        (record c {
          uid = id;
          active_connections =
              set_connection hello_key (own hello_command object) c.active_connections;
        })
        (record { id = id; type = hello; uri = none; payload = payload })

  -- `registerWithTv`.
  unfoldable pub register_with_tv : Client → ℕ → String → Client
  register_with_tv c object payload =
      let id = suc c.uid in
      transmit
        (record c {
          uid = id;
          active_connections =
              set_connection (req id) (own register_command object) c.active_connections;
        })
        (record { id = id; type = register; uri = none; payload = payload })

  -- `webSocketDidOpen:`.
  unfoldable pub web_socket_did_open : Client → ℕ → String → Client
  web_socket_did_open c object payload = hello_tv (record c { connected = true }) object payload

  -- `openSocket`, by the state of the socket: an open socket is greeted again, and a new one starts
  -- to connect. `object` and `payload` are the greeting's, if it comes to that.
  unfoldable pub open_from : Option ReadyState → Client → ℕ → String → Client
  open_from (some open_state) c object payload = web_socket_did_open c object payload
  open_from (some connecting) c object payload = c
  open_from (some closing) c object payload = record c { socket = some connecting }
  open_from (some closed) c object payload = record c { socket = some connecting }
  open_from none c object payload = record c { socket = some connecting }

  unfoldable pub open_socket : Client → ℕ → String → Client
  open_socket c object payload = open_from c.socket c object payload

  -- `[_commandQueue addObject:payload]`.
  unfoldable pub enqueue : Client → Message → Client
  enqueue c m = record c { command_queue = c.command_queue ++ m ∷ [] }

  -- `sendStringOverSocket:` behind its first guard, by the state of the socket.
  unfoldable pub dispatch : Option ReadyState → Client → ℕ → String → Message → Client
  dispatch (some open_state) c object payload m = transmit c m
  dispatch (some connecting) c object payload m = enqueue c m
  dispatch (some closing) c object payload m = enqueue c m
  dispatch (some closed) c object payload m = open_socket (enqueue c m) object payload
  dispatch none c object payload m = open_socket (enqueue c m) object payload

  -- `if (_socket == nil) [self openSocket]`.
  unfoldable pub ensure_socket : Client → ℕ → String → Client
  ensure_socket c object payload = if is_set c.socket then c else open_socket c object payload

  unfoldable pub send_string_over_socket : Client → ℕ → String → Message → Client
  send_string_over_socket c object payload m =
      let c' = ensure_socket c object payload in dispatch c'.socket c' object payload m

  -- `sendCommand:withPayload:toURL:`, with the identifier that it answers. A command without a URL
  -- is encoded as a registration.
  unfoldable pub send_command : Client → ℕ → String → Command → Option String → String → Client × ℕ
  send_command c object hello_payload command uri payload =
      let id = suc c.uid in
      (
        send_string_over_socket
            (record c {
              uid = id;
              active_connections = set_connection (req id) command c.active_connections;
            })
            object hello_payload
            (record {
              id = id;
              type = elim uri [ none ↦ register | some _ ↦ request ];
              uri = uri;
              payload = payload;
            }),
        id,
      )

-- The part of the registration's success block that sends what waits: the queue in its order.
unfoldable pub flush_queue : Client → Client
flush_queue c = record c { sent = handed c c.command_queue; command_queue = [] }

-- `disconnectWithError:`. A socket that is connecting or open is asked to close.
abbrev pub close_from : Option ReadyState → Option ReadyState
close_from none = none
close_from (some connecting) = some closing
close_from (some open_state) = some closing
close_from (some closing) = some closing
close_from (some closed) = some closed

unfoldable pub disconnect_with_error : Client → Client
disconnect_with_error c = record c { connected = false; socket = close_from c.socket }

-- `webSocket:didCloseWithCode:reason:wasClean:`.
unfoldable pub web_socket_did_close : Client → Client
web_socket_did_close c = record c { connected = false; active_connections = []; socket = none }
