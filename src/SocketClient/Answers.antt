-- ===== src/SocketClient/Answers.antt =====
-- Services/Helpers/WebOSTVServiceSocketClient.m: the answers of the television and the failure of the
-- socket.
use connect_sdk_i_os_core.Prelude.{
  ℕ, String, Bool, true, false, ◌||◌, List, [], ◌∷◌, ◌++◌, Option, none, some, if◌then◌else◌,
}
use connect_sdk_i_os_core.SocketClient.{
  Client, Command, CommandKind, Connections, Message, connection_for, open_socket,
  remove_connection, hello_command, register_command, plain_command, subscription, hello_key, req,
}

-- What an answer sets off: the blocks of a command, by its object, and the delegate's calls.
pub data SocketEvent : Type 0 where
  runs_complete runs_error : ℕ → SocketEvent
  did_connect close_by_response : SocketEvent

pub data ReplyType : Type 0 where
  error_reply registered_reply hello_reply other_reply : ReplyType

-- A command's block for success, if the command is there and has one.
unfoldable pub complete : Option Command → List SocketEvent
complete none = []
complete (some command) =
    if command.callback_complete then runs_complete command.object ∷ [] else []

-- A command's block for errors, likewise; the delegate is told behind it.
unfoldable pub fail : Client → Option Command → List SocketEvent
fail c none = []
fail c (some command) =
    if command.callback_error
    then runs_error command.object ∷ (if c.has_delegate then close_by_response ∷ [] else [])
    else []

-- The blocks that an answer runs, with the command that waits for its identifier.
unfoldable pub answer : Client → ReplyType → Option Command → List SocketEvent
answer c error_reply waiting = fail c waiting
answer c registered_reply waiting =
    (if c.has_delegate then did_connect ∷ [] else []) ++ complete waiting
answer c hello_reply waiting =
    complete (connection_for hello_key c.active_connections) ++ complete waiting
answer c other_reply waiting = complete waiting

abbrev pub is_subscription_kind : CommandKind → Bool
is_subscription_kind hello_command = false
is_subscription_kind register_command = false
is_subscription_kind plain_command = false
is_subscription_kind subscription = true

unfoldable pub is_subscription : Option Command → Bool
is_subscription none = false
is_subscription (some command) = is_subscription_kind command.kind

-- The greeting's command goes when it is answered.
unfoldable pub forget_hello : ReplyType → Connections → Connections
forget_hello error_reply cs = cs
forget_hello registered_reply cs = cs
forget_hello hello_reply cs = remove_connection hello_key cs
forget_hello other_reply cs = cs

-- `webSocket:didReceiveMessage:`, behind the delegate's consent, for a message with the identifier
-- `id`, if it has one. `pairing` is whether its payload is a dictionary with a pairing type.
unfoldable pub did_receive_message :
    Client → Option ℕ → ReplyType → Bool → Client × List SocketEvent
did_receive_message c none type pairing =
    (record c { active_connections = forget_hello type c.active_connections }, answer c type none)
did_receive_message c (some id) type pairing =
    let waiting = connection_for (req id) c.active_connections in
    let kept = forget_hello type c.active_connections in
    (
      record c {
        active_connections =
            if is_subscription waiting || pairing then kept else remove_connection (req id) kept;
      },
      answer c type waiting,
    )

-- The error blocks of all commands.
unfoldable pub fail_all : Connections → List SocketEvent
fail_all [] = []
fail_all ((k, command) ∷ cs) =
    (if command.callback_error then runs_error command.object ∷ [] else []) ++ fail_all cs

-- `webSocket:didFailWithError:`; `retry` is whether the error was a refused certificate.
unfoldable pub web_socket_did_fail :
    (Message → Message → Bool) → Client → ℕ → String → Bool → Client × List SocketEvent
web_socket_did_fail same c object payload retry =
    let failed : Client = record c { connected = false; active_connections = [] } in
    (
      if retry then open_socket same failed object payload else failed,
      fail_all c.active_connections,
    )
