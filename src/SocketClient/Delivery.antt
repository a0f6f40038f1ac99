-- ===== src/SocketClient/Delivery.antt =====
-- Services/Helpers/WebOSTVServiceSocketClient.m: what becomes of a message handed to the client.
use connect_sdk_i_os_core.Prelude.{
  ℕ, String, ◌≡◌, refl, ◌⊎◌, inl, inr, Bool, true, [], Option, Option-cases, none, is_set, Has,
  Has-of_append,
}
use connect_sdk_i_os_core.SocketClient.{
  Message, ReadyState, Command, Client, handed, register_with_tv, web_socket_did_open, open_socket,
  send_string_over_socket, send_command, flush_queue, disconnect_with_error, web_socket_did_close,
}
use connect_sdk_i_os_core.SocketClient.Answers.{ReplyType, did_receive_message, web_socket_did_fail}
use connect_sdk_i_os_core.SocketClient.Keeping.{
  IsKept, Keeps, web_socket_did_open-Keeps, register_with_tv-Keeps, flush_queue-Keeps,
  send_command-Keeps, send_string-Keeps, open_socket-Keeps, did_receive_message-Keeps,
  did_fail-Keeps,
}

module _ (same : Message → Message → Bool) where
  -- What happens to the client, one call at a time. The socket changes its state by itself. The
  -- success block of the registration runs on the main queue, at any time, also behind a close.
  pub data Step : Client → Client → Type 0 where
    sends :
        (c : Client) (object : ℕ) (hello : String) (command : Command) (uri : Option String)
        (payload : String)
        → Step c (send_command same c object hello command uri payload).0
    sends_text :
        (c : Client) (object : ℕ) (hello : String) (m : Message)
        → Step c (send_string_over_socket same c object hello m)
    connects : (c : Client) (object : ℕ) (hello : String) → Step c (open_socket same c object hello)
    opens :
        (c : Client) (object : ℕ) (hello : String)
        → Step c (web_socket_did_open same c object hello)
    registers :
        (c : Client) (object : ℕ) (payload : String)
        → Step c (register_with_tv same c object payload)
    registered : (c : Client) → Step c (flush_queue c)
    changes : (c : Client) (s : Option ReadyState) → Step c (record c { socket = s })
    disconnects : (c : Client) → Step c (disconnect_with_error c)
    closes : (c : Client) → Step c (web_socket_did_close c)
    receives :
        (c : Client) (id : Option ℕ) (type : ReplyType) (pairing : Bool)
        → Step c (did_receive_message c id type pairing).0
    fails :
        (c : Client) (object : ℕ) (hello : String) (retry : Bool)
        → Step c (web_socket_did_fail same c object hello retry).0

  -- Any number of calls.
  pub data Run : Client → Client → Type 0 where
    done : (c : Client) → Run c c
    more : (c d e : Client) → Step c d → Run d e → Run c e

  -- The client greets, registers or sends what waits while it has no socket.
  abbrev pub IsMute : (c d : Client) → Step c d → Type 0
  IsMute _ _ (sends c object hello command uri payload) = ⊥
  IsMute _ _ (sends_text c object hello m) = ⊥
  IsMute _ _ (connects c object hello) = ⊥
  IsMute _ _ (opens c object hello) = c.socket ≡ none
  IsMute _ _ (registers c object payload) = c.socket ≡ none
  IsMute _ _ (registered c) = c.socket ≡ none
  IsMute _ _ (changes c s) = ⊥
  IsMute _ _ (disconnects c) = ⊥
  IsMute _ _ (closes c) = ⊥
  IsMute _ _ (receives c id type pairing) = ⊥
  IsMute _ _ (fails c object hello retry) = ⊥

  -- Some call of the run is such a call.
  abbrev pub HasMute : (c d : Client) → Run c d → Type 0
  HasMute _ _ (done c) = ⊥
  HasMute _ _ (more c d e s r) = IsMute c d s ⊎ HasMute d e r

  module _ (exact : (x y : Message) → same x y ≡ true → x ≡ y) where
    with_socket :
        (c d : Client)
        → (is_set c.socket ≡ true → Keeps c d)
        → (x : Message) → IsKept x c
        → IsKept x d ⊎ (c.socket ≡ none)
    with_socket c d keeps x h = elim (Option-cases c.socket) [
      | inl e ↦ inr e
      | inr (s, e) ↦ inl (keeps (rw e refl) x h)
    ]

    Step-Keeps :
        (c d : Client) (s : Step c d) (x : Message) → IsKept x c → IsKept x d ⊎ IsMute c d s
    unfolding disconnect_with_error web_socket_did_close
    Step-Keeps _ _ (sends c object hello command uri payload) x h =
        inl (send_command-Keeps same exact c object hello command uri payload x h)
    Step-Keeps _ _ (sends_text c object hello m) x h =
        inl (send_string-Keeps same exact c object hello m x h)
    Step-Keeps _ _ (connects c object hello) x h =
        inl (open_socket-Keeps same exact c object hello x h)
    Step-Keeps _ _ (opens c object hello) x h =
        with_socket c (web_socket_did_open same c object hello)
          (web_socket_did_open-Keeps same exact c object hello) x h
    Step-Keeps _ _ (registers c object payload) x h =
        with_socket c (register_with_tv same c object payload)
          (register_with_tv-Keeps same exact c object payload) x h
    Step-Keeps _ _ (registered c) x h =
        with_socket c (flush_queue c) (flush_queue-Keeps same exact c) x h
    Step-Keeps _ _ (changes c s) x h = inl h
    Step-Keeps _ _ (disconnects c) x h = inl h
    Step-Keeps _ _ (closes c) x h = inl h
    Step-Keeps _ _ (receives c id type pairing) x h =
        inl (did_receive_message-Keeps same exact c id type pairing x h)
    Step-Keeps _ _ (fails c object hello retry) x h =
        inl (did_fail-Keeps same exact c object hello retry x h)

    -- Behind any number of calls, what was handed to a socket or waits still does so, or one of the
    -- calls greeted, registered or sent what waits while the client had no socket; if messages that
    -- `isEqual:` calls equal are equal.
    pub Run-Keeps :
        (c d : Client) (x : Message) (r : Run c d) → IsKept x c → IsKept x d ⊎ HasMute c d r
    Run-Keeps _ _ x (done c) h = inl h
    Run-Keeps _ _ x (more c e d s r) h = elim (Step-Keeps c e s x h) [
      | inr lost ↦ inr (inl lost)
      | inl k ↦ elim (Run-Keeps e d x r k) [ inl k' ↦ inl k' | inr lost ↦ inr (inr lost) ]
    ]

-- What waits when the socket closes is lost if the success block of a registration runs behind the
-- close: a message that had not been handed to a socket neither has been then nor waits any more.
pub flush_queue-loses :
    (c : Client) (x : Message)
    → Has x c.command_queue
    → ¬ Has x c.sent
    → ¬ IsKept x (flush_queue (web_socket_did_close c))
unfolding flush_queue web_socket_did_close handed
flush_queue-loses c x waits unsent k = elim (Has-of_append x c.sent [] k) [
  | inl m ↦ unsent m
  | inr b ↦ b
]
