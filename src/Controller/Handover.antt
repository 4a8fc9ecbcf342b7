-- ===== src/Controller/Handover.antt =====
-- How a credential travels: from the UI into secure storage, from there to PAM, and out of storage.
use i3lock.Prelude.{
  ℕ, ◌+◌, ◌-◌, ◌≡◌, ◌≢◌, refl, List, Bool, true, false, not, ◌&&◌, ◌||◌, ◌==◌, some, length, take,
  replicate, arith,
}
use i3lock.Memory.{text_of, stage, secure_wipe}
use i3lock.Memory.Strings.{text_of-stage, length-stage, length-secure_wipe, secure_wipe_all}
use i3lock.Pam.{pam_conv_err, echo_off, Message}
use i3lock.Controller.{
  Ctrl, secure_buffer_size, wipe_deferred, wipe_pending, stop_waiting, is_busy, start_auth,
  accepts_answer, submit_answer, cancel_auth,
}
use i3lock.Controller.Conversation.{Outcome, continues, fails, on_message, wait_is_over, on_wake}
use i3lock.Controller.Worker.{begin_attempt}

abbrev pub zeros : List ℕ
zeros = replicate secure_buffer_size 0

-- A text as it fits secure storage.
abbrev pub fitted : List ℕ → List ℕ
fitted s = take (secure_buffer_size - 1) (text_of s)

-- The round answered PAM with `value`, and kept no copy of the deferred input.
pub record Delivered (value : List ℕ) (o : Outcome) : Type 0 where
  pub after : Ctrl
  pub answered : o ≡ continues (some value) after
  pub wiped : after.deferred_input ≡ zeros
  pub spent : after.deferred_input_submitted ≡ false
  pub counted : after.prompts_seen ≡ 1

staged-Delivered :
    (d : Ctrl) (m : Message)
    → d.shutdown_requested ≡ false
    → d.cancellation_requested ≡ false
    → d.prompts_seen ≡ 0
    → d.deferred_input_submitted ≡ true
    → length d.deferred_input ≡ secure_buffer_size
    → m.msg_style ≡ echo_off
    → Delivered (text_of d.deferred_input) (on_message true m d)
unfolding on_message wipe_deferred
staged-Delivered d m up wanted first staged size hidden = record {
  after = wipe_deferred (record d { prompts_seen = d.prompts_seen + 1 });
  answered = ground (arith, first);
  wiped = secure_wipe_all d.deferred_input secure_buffer_size size;
  spent = refl;
  counted = omega (arith, first);
}

-- If the first message of an attempt is a hidden prompt, and the copy of the reply gets its memory, then the
-- password that started the attempt is the reply, and it is wiped from storage as it is handed over.
pub first_prompt_gets_password :
    (c : Ctrl) (password : List ℕ) (m : Message)
    → c.initialised ≡ true
    → is_busy c ≡ false
    → length c.deferred_input ≡ secure_buffer_size
    → m.msg_style ≡ echo_off
    → Delivered (fitted password) (on_message true m (begin_attempt (start_auth password c).1))
unfolding start_auth begin_attempt is_busy
first_prompt_gets_password c password m ready free size hidden =
    rw (← text_of-stage secure_buffer_size c.deferred_input password (omega arith) size) (
      rw (let runs : (not c.initialised || is_busy c) ≡ false = ground arith in runs) (
        staged-Delivered _ m (ground arith) refl refl refl
          (length-stage secure_buffer_size c.deferred_input password (omega arith) size) hidden))

-- An answer that is accepted ends the worker's wait and goes to PAM, and none of it stays behind.
pub answer_reaches_pam :
    (c : Ctrl) (transaction_id prompt_id : ℕ) (answer : List ℕ)
    → length c.pending_response ≡ secure_buffer_size
    → (submit_answer transaction_id prompt_id answer c).0 ≡ true
    → let c' = (submit_answer transaction_id prompt_id answer c).1 in
      (wait_is_over c' ≡ true)
      × (after : Ctrl) × (on_wake true c' ≡ continues (some (fitted answer)) after)
      × (after.pending_response ≡ zeros)
      × (after.waiting_for_answer ≡ false)
unfolding submit_answer accepts_answer wait_is_over on_wake
answer_reaches_pam c t p answer size taken =
    let staged = stage secure_buffer_size c.pending_response answer in
    let guard : (c.initialised && accepts_answer t p c) ≡ true = ground arith in
    let text : text_of staged ≡ fitted answer =
      text_of-stage secure_buffer_size c.pending_response answer (omega arith) size in
    let full = length-stage secure_buffer_size c.pending_response answer (omega arith) size in
    rw guard (
      refl,
      stop_waiting (wipe_pending (record c { pending_response = staged; answer_submitted = true })),
      ground (arith, text),
      unfold stop_waiting wipe_pending in secure_wipe_all staged secure_buffer_size full,
      unfold stop_waiting in refl,
    )

-- After Escape during a prompt the worker's wait ends, PAM is refused, and both buffers are wiped.
pub cancel_refuses_pam :
    (c : Ctrl) (transaction_id : ℕ) (strdup_ok : Bool)
    → c.initialised ≡ true
    → transaction_id ≢ 0
    → c.active_transaction_id ≡ transaction_id
    → c.auth_in_progress ≡ true
    → c.terminal_ack_pending ≡ false
    → length c.pending_response ≡ secure_buffer_size
    → length c.deferred_input ≡ secure_buffer_size
    → let c' = cancel_auth transaction_id c in
      (wait_is_over c' ≡ true)
      × (after : Ctrl) × (on_wake strdup_ok c' ≡ fails pam_conv_err after)
      × (after.pending_response ≡ zeros)
      × (after.deferred_input ≡ zeros)
      × (after.cancellation_requested ≡ true)
unfolding cancel_auth wait_is_over on_wake
cancel_refuses_pam c t ok ready some_id active busy unacked psize dsize =
    let called : (not c.initialised || t == 0) ≡ false = ground arith in
    let kept : (c.terminal_ack_pending && c.terminal_transaction_id == t) ≡ false = ground arith in
    let own : (c.active_transaction_id == t && (c.auth_requested || c.auth_in_progress)) ≡ true =
      ground arith in
    let wiped = secure_wipe c.pending_response secure_buffer_size in
    let full = length-secure_wipe c.pending_response secure_buffer_size (omega arith) in
    rw (called, kept, own)
      (
        ground arith,
        wipe_pending (
            stop_waiting (
              wipe_pending (
                wipe_deferred
                  (record c { cancellation_requested = true; auth_requested = false })))),
        ground arith,
        unfold stop_waiting wipe_pending in
            secure_wipe_all wiped secure_buffer_size (omega (arith, full)),
        unfold stop_waiting wipe_pending wipe_deferred in
            secure_wipe_all c.deferred_input secure_buffer_size dsize,
        unfold stop_waiting wipe_pending wipe_deferred in refl,
      )
