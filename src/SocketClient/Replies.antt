-- ===== src/SocketClient/Replies.antt =====
-- Services/Helpers/WebOSTVServiceSocketClient.m: which command an answer belongs to.
use connect_sdk_i_os_core.Prelude.{
  ℕ, suc, ◌≤◌, String, ◌≡◌, ◌∙◌, refl, Bool, true, false, [], ◌∷◌, Option, none, some, arith,
  is_set, Bool-cases, inl, inr,
}
use connect_sdk_i_os_core.SocketClient.{
  Message, ReadyState, connecting, open_state, closing, closed, Command, Connections, Client, Key,
  hello_key, req, key_eq, connection_for, set_connection, transmit, hello_tv, web_socket_did_open,
  open_from, open_socket, enqueue, dispatch, ensure_socket, send_string_over_socket, send_command,
}
use connect_sdk_i_os_core.SocketClient.Answers.{other_reply, complete, answer, did_receive_message}

key_eq_refl : (k : Key) → key_eq k k ≡ true
unfolding key_eq
key_eq_refl hello_key = refl
key_eq_refl (req n) = ground arith

connection_for-set :
    (k : Key) (c : Command) (cs : Connections) → connection_for k (set_connection k c cs) ≡ some c
unfolding connection_for set_connection
connection_for-set k c [] = rw (key_eq_refl k)
connection_for-set k c ((j, d) ∷ cs) = elim (Bool-cases (key_eq j k)) [
  | inl e ↦ rw (e, connection_for, key_eq_refl k)
  | inr e ↦ rw (e, connection_for, e) (connection_for-set k c cs)
]

key_eq-false : (j k i : Key) → key_eq j k ≡ true → key_eq k i ≡ false → key_eq j i ≡ false
unfolding key_eq
key_eq-false hello_key hello_key i e f = f
key_eq-false hello_key (req n) i e f = ground arith
key_eq-false (req m) hello_key i e f = ground arith
key_eq-false (req m) (req n) hello_key e f = refl
key_eq-false (req m) (req n) (req l) e f = ground arith

connection_for-set_other :
    (k i : Key) (c : Command) (cs : Connections)
    → key_eq k i ≡ false
    → connection_for i (set_connection k c cs) ≡ connection_for i cs
unfolding connection_for set_connection
connection_for-set_other k i c [] h = rw h
connection_for-set_other k i c ((j, d) ∷ cs) h = elim (Bool-cases (key_eq j k)) [
  | inl e ↦ rw (e, connection_for, h, key_eq-false j k i e h)
  | inr e ↦ elim (Bool-cases (key_eq j i)) [
    | inl f ↦ rw (e, connection_for, f)
    | inr f ↦ rw (e, connection_for, f) (connection_for-set_other k i c cs h)
  ]
]

-- An identifier given out before is not the next one.
fresh_key : (uid n : ℕ) → n ≤ uid → key_eq (req (suc uid)) (req n) ≡ false
unfolding key_eq
fresh_key uid n h = ground arith

-- The command that waits for the answer to `n`.
abbrev pub waits : ℕ → Client → Option Command
waits n c = connection_for (req n) c.active_connections

module _ (same : Message → Message → Bool) where
  open_from-waits :
      (s : Option ReadyState) (c : Client) (object : ℕ) (hello : String) (n : ℕ)
      → waits n (open_from same s c object hello) ≡ waits n c
  unfolding open_from web_socket_did_open hello_tv transmit key_eq
  open_from-waits (some open_state) c object hello n =
      connection_for-set_other hello_key (req n) _ c.active_connections refl
  open_from-waits (some connecting) c object hello n = refl
  open_from-waits (some closing) c object hello n = refl
  open_from-waits (some closed) c object hello n = refl
  open_from-waits none c object hello n = refl

  open_socket-waits :
      (c : Client) (object : ℕ) (hello : String) (n : ℕ)
      → waits n (open_socket same c object hello) ≡ waits n c
  unfolding open_socket
  open_socket-waits c object hello n = open_from-waits c.socket c object hello n

  dispatch-waits :
      (s : Option ReadyState) (c : Client) (object : ℕ) (hello : String) (m : Message) (n : ℕ)
      → waits n (dispatch same s c object hello m) ≡ waits n c
  unfolding dispatch transmit enqueue
  dispatch-waits (some open_state) c object hello m n = refl
  dispatch-waits (some connecting) c object hello m n = refl
  dispatch-waits (some closing) c object hello m n = refl
  dispatch-waits (some closed) c object hello m n =
      open_socket-waits (enqueue same c m) object hello n
  dispatch-waits none c object hello m n = open_socket-waits (enqueue same c m) object hello n

  ensure_socket-waits :
      (c : Client) (object : ℕ) (hello : String) (n : ℕ)
      → waits n (ensure_socket same c object hello) ≡ waits n c
  unfolding ensure_socket
  ensure_socket-waits c object hello n = elim (Bool-cases (is_set c.socket)) [
    | inl e ↦ rw e
    | inr e ↦ rw e (open_socket-waits c object hello n)
  ]

  send_string-waits :
      (c : Client) (object : ℕ) (hello : String) (m : Message) (n : ℕ)
      → waits n (send_string_over_socket same c object hello m) ≡ waits n c
  unfolding send_string_over_socket
  send_string-waits c object hello m n =
      dispatch-waits _ (ensure_socket same c object hello) object hello m n
      ∙ ensure_socket-waits c object hello n

  -- A command that was sent waits under the identifier that the call answers, and every command that
  -- waited under an identifier given out before still does.
  pub send_command-waits :
      (c : Client) (object : ℕ) (hello : String) (command : Command) (uri : Option String)
      (payload : String)
      → (waits
            (send_command same c object hello command uri payload).1
            (send_command same c object hello command uri payload).0
          ≡ some command)
        × ((n : ℕ)
            → n ≤ c.uid
            → waits n (send_command same c object hello command uri payload).0 ≡ waits n c)
  unfolding send_command
  send_command-waits c object hello command uri payload = (
    send_string-waits _ object hello _ (suc c.uid)
        ∙ connection_for-set (req (suc c.uid)) command c.active_connections,
    λ n h.
        send_string-waits _ object hello _ n
        ∙ connection_for-set_other (req (suc c.uid)) (req n) command c.active_connections
            (fresh_key c.uid n h),
  )

  -- An answer to a command that was just sent, which is no error, greeting or registration, runs the
  -- command's success block, if it has one, and no other.
  pub send_command-answered :
      (c : Client) (object : ℕ) (hello : String) (command : Command) (uri : Option String)
      (payload : String) (pairing : Bool)
      → (did_receive_message
          (send_command same c object hello command uri payload).0
          (some (send_command same c object hello command uri payload).1)
          other_reply
          pairing).1
        ≡ complete (some command)
  unfolding did_receive_message answer
  send_command-answered c object hello command uri payload pairing =
      rw ((send_command-waits c object hello command uri payload).0)
