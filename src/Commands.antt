-- ===== src/Commands.antt =====
-- Services/Commands/: requests to a service, and subscriptions with the blocks that wait for them.
-- A block is a number: two references to one block are one number. A delegate answers the call id.
pub mod Callbacks
use connect_sdk_i_os_core.Prelude.{
  ℕ, String, ◌≡◌, ◌∙◌, sym, ap, refl, ◌↔◌, ◌⊎◌, inl, inr, Bool, true, false, not, ◌&&◌, ◌||◌, List,
  [], ◌∷◌, ◌++◌, Option, none, some, if◌then◌else◌, ◌==◌, Has, Distinct, Bool-cases, arith,
}

-- The payload stands as a number.
pub record ServiceCommand : Type 0 where
  pub has_delegate : Bool
  pub callback_complete : Option (List ℕ)
  pub callback_error : Option (List ℕ)
  pub http_method : String
  pub payload : Option ℕ
  pub target : Option String

-- `initWithDelegate:target:payload:`.
unfoldable pub command_with_delegate : Bool → Option String → Option ℕ → ServiceCommand
command_with_delegate has_delegate target payload = record {
  has_delegate = has_delegate;
  callback_complete = none;
  callback_error = none;
  http_method = "POST";
  payload = payload;
  target = target;
}

-- Whether a subscription is made or ended.
pub data ServiceSubscriptionType : Type 0 where
  unsubscribe_type subscribe_type : ServiceSubscriptionType

-- What a command asks of its delegate.
pub data CommandRequest : Type 0 where
  sends_command : Option ℕ → Option String → CommandRequest
  sends_subscription :
      ServiceSubscriptionType → Option ℕ → Option String → Option ℕ → CommandRequest
  sends_async : Option ℕ → Option String → CommandRequest

-- A call id of `none` is `kUnsetCallId`, -1.
pub record ServiceSubscription : Type 0 where
  pub command : ServiceCommand
  pub call_id : Option ℕ
  pub success_calls : Option (List ℕ)
  pub failure_calls : Option (List ℕ)
  pub is_subscribed : Bool

-- `subscriptionWithDelegate:target:payload:callId:`.
unfoldable pub subscription_with_delegate :
    Bool → Option String → Option ℕ → Option ℕ → ServiceSubscription
subscription_with_delegate has_delegate target payload call_id = record {
  command = command_with_delegate has_delegate target payload;
  call_id = call_id;
  success_calls = none;
  failure_calls = none;
  is_subscribed = false;
}

-- `send`, of a delegate that has the method.
unfoldable pub send : ServiceCommand → List CommandRequest
send c = if c.has_delegate then sends_command c.payload c.target ∷ [] else []

unfoldable pub send_asynchronously : ServiceCommand → List CommandRequest
send_asynchronously c = if c.has_delegate then sends_async c.payload c.target ∷ [] else []

abbrev pub calls_of : Option (List ℕ) → List ℕ
calls_of none = []
calls_of (some calls) = calls

unfoldable pub has_call : ℕ → List ℕ → Bool
has_call x [] = false
has_call x (y ∷ ys) = y == x || has_call x ys

-- A block that is nil or already there is not added.
unfoldable pub add_call : Option ℕ → List ℕ → List ℕ
add_call none calls = calls
add_call (some x) calls = if has_call x calls then calls else calls ++ x ∷ []

unfoldable pub add_success : ServiceSubscription → Option ℕ → ServiceSubscription
add_success s success =
    let calls = add_call success (calls_of s.success_calls) in
    record s {
      success_calls = some calls;
      command = record s.command { callback_complete = some calls };
    }

unfoldable pub add_failure : ServiceSubscription → Option ℕ → ServiceSubscription
add_failure s failure =
    let calls = add_call failure (calls_of s.failure_calls) in
    record s {
      failure_calls = some calls;
      command = record s.command { callback_error = some calls };
    }

-- The request for a subscription or its end.
abbrev pub request_of : ServiceSubscription → ServiceSubscriptionType → CommandRequest
request_of s type = sends_subscription type s.command.payload s.command.target s.call_id

-- `answer` is the call id that the delegate answers.
unfoldable pub subscribe :
    ServiceSubscription → Option ℕ → ServiceSubscription × List CommandRequest
subscribe s answer =
    if s.command.has_delegate
    then (record s { call_id = answer; is_subscribed = true }, request_of s subscribe_type ∷ [])
    else (s, [])

unfoldable pub unsubscribe :
    ServiceSubscription → Option ℕ → ServiceSubscription × List CommandRequest
unsubscribe s answer =
    if s.command.has_delegate
    then (
      record s {
        call_id = answer;
        is_subscribed = false;
        success_calls = none;
        failure_calls = none;
      },
      request_of s unsubscribe_type ∷ [],
    )
    else (record s { success_calls = none; failure_calls = none }, [])

-- The blocks that run when an answer arrives.
abbrev pub runs_on_success : ServiceSubscription → List ℕ
runs_on_success s = calls_of s.command.callback_complete

unfoldable pub add_successes : ServiceSubscription → List (Option ℕ) → ServiceSubscription
add_successes s [] = s
add_successes s (b ∷ bs) = add_successes (add_success s b) bs
