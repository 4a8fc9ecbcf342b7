-- ===== src/Controller/Conversation.antt =====
-- `worker_conv_callback`: the conversation function that PAM calls in the worker thread.
-- The mutex is held from the first message to the end, but for the wait on the condition variable: the
-- callback is cut there into the part up to a wait and the part after it.
pub mod Answers
use i3lock.Prelude.{
  ℕ, suc, ◌+◌, List, [], ◌∷◌, ◌++◌, Bool, true, false, not, ◌&&◌, ◌||◌, Option, none, some, ltb,
  ◌==◌, if◌then◌else◌, length,
}
use i3lock.Memory.{text_of}
use i3lock.Pam.{
  EventType, Event, PamCode, pam_success, pam_buf_err, pam_conv_err, Style, echo_off, echo_on_style,
  error_msg, text_info, other_style, Message, Response,
}
use i3lock.Controller.{Ctrl, next_id, wipe_deferred, wipe_pending, stop_waiting, post}
use i3lock.Controller.Text.{pam_message_text_is_valid, event_set_text}

-- What became of one message: a reply, a wait, or the callback's early return.
pub data Outcome : Type 0 where
  continues : Response → Ctrl → Outcome
  blocks : Ctrl → Outcome
  fails : PamCode → Ctrl → Outcome

unfoldable pub prompt_event : Ctrl → ℕ → Bool → Option (List ℕ) → Event
prompt_event c prompt_id hidden text = record {
  type = EventType.prompt;
  transaction_id = c.active_transaction_id;
  prompt_id = prompt_id;
  echo_on = not hidden;
  is_error = false;
  text = event_set_text text;
}

unfoldable pub status_event : Ctrl → Bool → Option (List ℕ) → Event
status_event c is_error text = record {
  type = EventType.status;
  transaction_id = c.active_transaction_id;
  prompt_id = 0;
  echo_on = false;
  is_error = is_error;
  text = event_set_text text;
}

-- A reply by `strdup`, which fails for lack of memory.
unfoldable pub reply_with : Bool → List ℕ → Ctrl → Outcome
reply_with strdup_ok value c = if strdup_ok then continues (some value) c else fails pam_buf_err c

-- The first hidden prompt takes the staged password.
unfoldable pub use_deferred : Bool → Ctrl → Outcome
unfolding reply_with wipe_deferred
use_deferred strdup_ok c = reply_with strdup_ok (text_of c.deferred_input) (wipe_deferred c)

-- The assignments before the prompt is posted.
unfoldable pub begin_wait : Ctrl → Ctrl
unfolding wipe_deferred
begin_wait c = record (wipe_deferred c) {
  next_prompt_id = next_id c.next_prompt_id;
  waiting_prompt_id = c.next_prompt_id;
  waiting_for_answer = true;
  answer_submitted = false;
}

-- Any other prompt is posted to the UI, and the worker waits.
unfoldable pub ask : Bool → Option (List ℕ) → Ctrl → Outcome
unfolding begin_wait stop_waiting post prompt_event
ask hidden text c =
    let (posted, c') = post (begin_wait c) (prompt_event c c.next_prompt_id hidden text) in
    if posted then blocks c' else fails pam_conv_err (stop_waiting c')

-- `prompts_seen` is an `int`, reset for each attempt; it is taken not to overflow.
unfoldable pub on_prompt : Bool → Bool → Option (List ℕ) → Ctrl → Outcome
unfolding use_deferred ask
on_prompt strdup_ok hidden text c =
    let seen = record c { prompts_seen = c.prompts_seen + 1 } in
    if c.prompts_seen + 1 == 1 && (hidden && c.deferred_input_submitted)
    then use_deferred strdup_ok seen
    else ask hidden text seen

unfoldable pub on_status : Bool → Option (List ℕ) → Ctrl → Outcome
unfolding post status_event
on_status is_error text c = continues none (post c (status_event c is_error text)).1

unfoldable pub on_style : Bool → Style → Option (List ℕ) → Ctrl → Outcome
unfolding on_prompt on_status
on_style strdup_ok echo_off text c = on_prompt strdup_ok true text c
on_style strdup_ok echo_on_style text c = on_prompt strdup_ok false text c
on_style strdup_ok text_info text c = on_status false text c
on_style strdup_ok error_msg text c = on_status true text c
on_style strdup_ok (other_style n) text c = fails pam_conv_err c

-- One round of the loop, up to its end or to the wait.
unfoldable pub on_message : Bool → Message → Ctrl → Outcome
unfolding on_style
on_message strdup_ok m c =
    if c.shutdown_requested || c.cancellation_requested
    then fails pam_conv_err c
    else on_style strdup_ok m.msg_style m.msg c

-- The test that ends the wait.
unfoldable pub wait_is_over : Ctrl → Bool
wait_is_over c = c.answer_submitted || (c.cancellation_requested || c.shutdown_requested)

-- The rest of the round, behind the wait.
unfoldable pub on_wake : Bool → Ctrl → Outcome
unfolding stop_waiting wipe_pending reply_with
on_wake strdup_ok c =
    if c.shutdown_requested || c.cancellation_requested
    then fails pam_conv_err (wipe_pending (stop_waiting c))
    else reply_with strdup_ok (text_of c.pending_response) (stop_waiting (wipe_pending c))

-- Where the callback stands when it gives the mutex up: in a wait, with the messages left and the
-- replies so far, or at its return. `none` is a `*resp` of NULL: all replies were wiped and freed.
pub data Talk : Type 0 where
  waits : List Message → List Response → Ctrl → Talk
  returns : PamCode → Option (List Response) → Ctrl → Talk

-- `strdup_ok i` tells whether the copy of the reply to message `i` gets its memory.
unfoldable pub converse : (ℕ → Bool) → List Message → List Response → Ctrl → Talk
converse strdup_ok [] replies c = returns pam_success (some replies) c
converse strdup_ok (m ∷ ms) replies c = elim (on_message (strdup_ok (length replies)) m c) [
  | continues reply c' ↦ converse strdup_ok ms (replies ++ (reply ∷ [])) c'
  | blocks c' ↦ waits ms replies c'
  | fails code c' ↦ returns code none c'
]

unfoldable pub resume : (ℕ → Bool) → List Message → List Response → Ctrl → Talk
resume strdup_ok ms replies c = elim (on_wake (strdup_ok (length replies)) c) [
  | continues reply c' ↦ converse strdup_ok ms (replies ++ (reply ∷ [])) c'
  | blocks c' ↦ waits ms replies c'
  | fails code c' ↦ returns code none c'
]

-- The messages, if no pointer is NULL and no text too long.
unfoldable pub checked_messages : List (Option Message) → Option (List Message)
checked_messages [] = some []
checked_messages (none ∷ ms) = none
checked_messages (some m ∷ ms) =
    if pam_message_text_is_valid m.msg
    then elim (checked_messages ms) [ none ↦ none | some rest ↦ some (m ∷ rest) ]
    else none

-- The callback up to its first wait. `msg` is the array of `num_msg` pointers, or NULL; a negative
-- `num_msg` is refused as 0 is. PAM_MAX_NUM_MSG belongs to the PAM headers.
unfoldable pub worker_conv_callback :
    ℕ → Option (List (Option Message)) → Bool → Bool → (ℕ → Bool) → Ctrl → Talk
worker_conv_callback pam_max_num_msg none resp_given calloc_ok strdup_ok c =
    returns pam_conv_err none c
worker_conv_callback pam_max_num_msg (some msg) resp_given calloc_ok strdup_ok c =
    if length msg == 0 || (ltb pam_max_num_msg (length msg) || not resp_given)
    then returns pam_conv_err none c
    else elim (checked_messages msg) [
      | none ↦ returns pam_conv_err none c
      | some ms ↦ if calloc_ok then converse strdup_ok ms [] c else returns pam_buf_err none c
    ]
