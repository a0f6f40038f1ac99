-- ===== src/SocketClient/Keeping.antt =====
-- Services/Helpers/WebOSTVServiceSocketClient.m: what each call leaves of the messages handed to the
-- client.
use connect_sdk_i_os_core.Prelude.{
  ℕ, String, ◌≡◌, sym, refl, ◌⊎◌, inl, inr, Bool, true, false, not, List, [], ◌∷◌, ◌++◌, Option,
  none, some, is_set, Bool-cases, Has, Has-select, Has-append_left, Has-append_right, Has-of_append,
}
use connect_sdk_i_os_core.SocketClient.{
  Message, ReadyState, connecting, open_state, closing, closed, Command, Client, contains_message,
  unqueue, transmit, handed, hello_tv, register_with_tv, web_socket_did_open, open_from,
  open_socket, enqueue, dispatch, ensure_socket, send_string_over_socket, send_command, flush_queue,
}
use connect_sdk_i_os_core.SocketClient.Answers.{ReplyType, did_receive_message, web_socket_did_fail}

-- The message was handed to a socket, or waits in the queue.
abbrev pub IsKept : Message → Client → Type 0
IsKept x c = Has x (c.sent ++ c.command_queue)

abbrev pub Keeps : Client → Client → Type 0
Keeps c d = (x : Message) → IsKept x c → IsKept x d

module _ (same : Message → Message → Bool) (exact : (x y : Message) → same x y ≡ true → x ≡ y) where
  Has-unqueue :
      (m x : Message) (queue : List Message) → Has x queue → (x ≡ m) ⊎ Has x (unqueue same m queue)
  unfolding unqueue
  Has-unqueue m x queue h = elim (Bool-cases (same x m)) [
    | inl e ↦ inl (exact x m e)
    | inr e ↦ inr (elim (Bool-cases (contains_message same m queue)) [
      | inl t ↦ rw t (Has-select (λ y. not (same y m)) x queue h (rw e))
      | inr t ↦ rw t h
    ])
  ]

  transmit-Keeps : (c : Client) (m : Message) → is_set c.socket ≡ true → Keeps c (transmit same c m)
  unfolding transmit handed
  transmit-Keeps c m p x h = rw p (elim (Has-of_append x c.sent c.command_queue h) [
    | inl a ↦ Has-append_left x (c.sent ++ m ∷ []) rest (Has-append_left x c.sent (m ∷ []) a)
    | inr b ↦ elim (Has-unqueue m x c.command_queue b) [
      | inl e ↦
          Has-append_left x (c.sent ++ m ∷ []) rest
            (Has-append_right x c.sent (m ∷ []) (inl (sym e)))
      | inr r ↦ Has-append_right x (c.sent ++ m ∷ []) rest r
    ]
  ])
    where
      rest : List Message
      rest = unqueue same m c.command_queue

  hello_tv-Keeps :
      (c : Client) (object : ℕ) (hello : String)
      → is_set c.socket ≡ true
      → Keeps c (hello_tv same c object hello)
  unfolding hello_tv
  hello_tv-Keeps c object hello p x h = transmit-Keeps _ _ p x h

  pub register_with_tv-Keeps :
      (c : Client) (object : ℕ) (payload : String)
      → is_set c.socket ≡ true
      → Keeps c (register_with_tv same c object payload)
  unfolding register_with_tv
  register_with_tv-Keeps c object payload p x h = transmit-Keeps _ _ p x h

  pub web_socket_did_open-Keeps :
      (c : Client) (object : ℕ) (hello : String)
      → is_set c.socket ≡ true
      → Keeps c (web_socket_did_open same c object hello)
  unfolding web_socket_did_open
  web_socket_did_open-Keeps c object hello p x h = hello_tv-Keeps _ object hello p x h

  open_from-Keeps :
      (s : Option ReadyState) (c : Client) (object : ℕ) (hello : String)
      → s ≡ c.socket
      → Keeps c (open_from same s c object hello)
  unfolding open_from
  open_from-Keeps (some open_state) c object hello e x h =
      web_socket_did_open-Keeps c object hello (rw (sym e) refl) x h
  open_from-Keeps (some connecting) c object hello e x h = h
  open_from-Keeps (some closing) c object hello e x h = h
  open_from-Keeps (some closed) c object hello e x h = h
  open_from-Keeps none c object hello e x h = h

  pub open_socket-Keeps :
      (c : Client) (object : ℕ) (hello : String) → Keeps c (open_socket same c object hello)
  unfolding open_socket
  open_socket-Keeps c object hello x h = open_from-Keeps c.socket c object hello refl x h

  enqueue-Keeps : (c : Client) (m : Message) → Keeps c (enqueue same c m)
  unfolding enqueue
  enqueue-Keeps c m x h = elim (Has-of_append x c.sent c.command_queue h) [
    | inl a ↦ Has-append_left x c.sent (c.command_queue ++ m ∷ []) a
    | inr b ↦
        Has-append_right x c.sent (c.command_queue ++ m ∷ [])
          (Has-append_left x c.command_queue (m ∷ []) b)
  ]

  enqueue-IsKept : (c : Client) (m : Message) → IsKept m (enqueue same c m)
  unfolding enqueue
  enqueue-IsKept c m =
      Has-append_right m c.sent (c.command_queue ++ m ∷ [])
        (Has-append_right m c.command_queue (m ∷ []) (inl refl))

  transmit-IsKept :
      (c : Client) (m : Message) → is_set c.socket ≡ true → IsKept m (transmit same c m)
  unfolding transmit handed
  transmit-IsKept c m p = rw p (
      Has-append_left m (c.sent ++ m ∷ []) (unqueue same m c.command_queue)
        (Has-append_right m c.sent (m ∷ []) (inl refl)))

  dispatch-Keeps :
      (s : Option ReadyState) (c : Client) (object : ℕ) (hello : String) (m : Message)
      → s ≡ c.socket
      → Keeps c (dispatch same s c object hello m)
  unfolding dispatch
  dispatch-Keeps (some open_state) c object hello m e x h = transmit-Keeps c m (rw (sym e) refl) x h
  dispatch-Keeps (some connecting) c object hello m e x h = enqueue-Keeps c m x h
  dispatch-Keeps (some closing) c object hello m e x h = enqueue-Keeps c m x h
  dispatch-Keeps (some closed) c object hello m e x h =
      open_socket-Keeps _ object hello x (enqueue-Keeps c m x h)
  dispatch-Keeps none c object hello m e x h =
      open_socket-Keeps _ object hello x (enqueue-Keeps c m x h)

  pub dispatch-IsKept :
      (s : Option ReadyState) (c : Client) (object : ℕ) (hello : String) (m : Message)
      → s ≡ c.socket
      → IsKept m (dispatch same s c object hello m)
  unfolding dispatch
  dispatch-IsKept (some open_state) c object hello m e = transmit-IsKept c m (rw (sym e) refl)
  dispatch-IsKept (some connecting) c object hello m e = enqueue-IsKept c m
  dispatch-IsKept (some closing) c object hello m e = enqueue-IsKept c m
  dispatch-IsKept (some closed) c object hello m e =
      open_socket-Keeps _ object hello m (enqueue-IsKept c m)
  dispatch-IsKept none c object hello m e = open_socket-Keeps _ object hello m (enqueue-IsKept c m)

  ensure_socket-Keeps :
      (c : Client) (object : ℕ) (hello : String) → Keeps c (ensure_socket same c object hello)
  unfolding ensure_socket
  ensure_socket-Keeps c object hello x h = elim (Bool-cases (is_set c.socket)) [
    | inl e ↦ rw e h
    | inr e ↦ rw e (open_socket-Keeps c object hello x h)
  ]

  pub send_string-Keeps :
      (c : Client) (object : ℕ) (hello : String) (m : Message)
      → Keeps c (send_string_over_socket same c object hello m)
  unfolding send_string_over_socket
  send_string-Keeps c object hello m x h =
      dispatch-Keeps _ _ object hello m refl x (ensure_socket-Keeps c object hello x h)

  pub send_command-Keeps :
      (c : Client) (object : ℕ) (hello : String) (command : Command) (uri : Option String)
      (payload : String)
      → Keeps c (send_command same c object hello command uri payload).0
  unfolding send_command
  send_command-Keeps c object hello command uri payload x h = send_string-Keeps _ object hello _ x h

  pub did_receive_message-Keeps :
      (c : Client) (id : Option ℕ) (type : ReplyType) (pairing : Bool)
      → Keeps c (did_receive_message c id type pairing).0
  unfolding did_receive_message
  did_receive_message-Keeps c none type pairing x h = h
  did_receive_message-Keeps c (some id) type pairing x h = h

  pub did_fail-Keeps :
      (c : Client) (object : ℕ) (hello : String) (retry : Bool)
      → Keeps c (web_socket_did_fail same c object hello retry).0
  unfolding web_socket_did_fail
  did_fail-Keeps c object hello true x h = open_socket-Keeps _ object hello x h
  did_fail-Keeps c object hello false x h = h

  pub flush_queue-Keeps : (c : Client) → is_set c.socket ≡ true → Keeps c (flush_queue c)
  unfolding flush_queue handed
  flush_queue-Keeps c p x h = rw p (Has-append_left x (c.sent ++ c.command_queue) [] h)
