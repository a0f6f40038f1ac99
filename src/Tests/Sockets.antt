-- ===== src/Tests/Sockets.antt =====
-- Services/Helpers/WebOSTVServiceSocketClient.m at work.
use mathlib.Core.Bool.{false≢true}
use native.Mathlib.Decide.{ℕ_discrete}
use connect_sdk_i_os_core.Prelude.{
  ◌⊎◌, sym, ◌∙◌, Bool-cases, text_eq_iff, ℕ, String, ◌≡◌, refl, Bool, true, false, [], ◌∷◌, some,
  inl, inr, text_eq,
}
use connect_sdk_i_os_core.SocketClient.{
  Message, MessageType, request, connecting, open_state, Command, plain_command, Client,
  send_string_over_socket, send_command, flush_queue, web_socket_did_close,
}
use connect_sdk_i_os_core.SocketClient.Answers.{other_reply, complete, did_receive_message}
use connect_sdk_i_os_core.SocketClient.Delivery.{
  Run, HasMute, done, more, changes, Run-Keeps, flush_queue-loses,
}
use connect_sdk_i_os_core.SocketClient.Keeping.{IsKept}
use connect_sdk_i_os_core.SocketClient.Replies.{send_command-answered}

-- The television is being called.
abbrev calling : Client
calling = record {
  has_delegate = true;
  uid = 4;
  connected = false;
  socket = some connecting;
  command_queue = [];
  active_connections = [];
  sent = [];
}

abbrev volume_up : Message
volume_up = record { id = 5; type = request; uri = some "ssap://audio/volumeUp"; payload = "{}" }

MessageType-discrete : Discrete MessageType
MessageType-discrete = hlevel

String-discrete : Discrete String
String-discrete x y = elim (Bool-cases (text_eq x y)) [
  | inl e ↦ yes ((text_eq_iff x y).0 e)
  | inr e ↦ no (λ p. false≢true (sym e ∙ (text_eq_iff x y).1 p))
]

Message-discrete : Discrete Message
Message-discrete = hlevel (ℕ_discrete, String-discrete, MessageType-discrete)

abbrev is_yes : {P : Type 0} → Dec P → Bool
is_yes (yes p) = true
is_yes (no p) = false

of_yes : {P : Type 0} → (d : Dec P) → is_yes d ≡ true → P
of_yes (yes p) e = p
of_yes (no p) e = absurd (false≢true e)

abbrev alike : Message → Message → Bool
alike x y = is_yes (Message-discrete x y)

alike_exact : (x y : Message) → alike x y ≡ true → x ≡ y
alike_exact x y e = of_yes (Message-discrete x y) e

abbrev queued : Client
queued = send_string_over_socket alike calling 7 "{}" volume_up

abbrev opened : Client
opened = record queued { socket = some open_state }

abbrev waiting : Client
waiting = record calling { command_queue = volume_up ∷ [] }

waiting_opens : Run alike waiting (record waiting { socket = some open_state })
waiting_opens = more _ _ _ (changes waiting (some open_state)) (done _)

Run-Keeps_example :
    IsKept volume_up (record waiting { socket = some open_state })
    ⊎ HasMute alike waiting (record waiting { socket = some open_state }) waiting_opens
Run-Keeps_example =
    Run-Keeps alike alike_exact waiting (record waiting { socket = some open_state }) volume_up
      waiting_opens (inl refl)

flush_queue-loses_example : ¬ IsKept volume_up (flush_queue (web_socket_did_close waiting))
flush_queue-loses_example = flush_queue-loses waiting volume_up (inl refl) (λ m. m)

abbrev volume : Command
volume = record {
  kind = plain_command;
  object = 9;
  callback_complete = true;
  callback_error = false;
}

abbrev sent_volume : Client × ℕ
sent_volume = send_command alike calling 7 "{}" volume (some "ssap://audio/volumeUp") "{}"

send_command-answered_example :
    (did_receive_message sent_volume.0 (some sent_volume.1) other_reply false).1
    ≡ complete (some volume)
send_command-answered_example =
    send_command-answered alike calling 7 "{}" volume (some "ssap://audio/volumeUp") "{}" false
