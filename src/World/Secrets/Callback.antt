-- ===== src/World/Secrets/Callback.antt =====
-- `Secrets` and the conversation callback: each round, and the whole up to a wait or the return.
use i3lock.Prelude.{
  ℕ, ◌+◌, List, [], ◌∷◌, ◌++◌, Bool, true, false, not, ◌&&◌, ◌||◌, ◌==◌, Option, none, some,
  if◌then◌else◌, ltb, length, arith,
}
use i3lock.Memory.{text_of}
use i3lock.Memory.Strings.{secure_wipe_all}
use i3lock.Pam.{
  pam_conv_err, pam_buf_err, Style, echo_off, echo_on_style, error_msg, text_info, other_style,
  Message, Response,
}
use i3lock.Controller.{Ctrl, secure_buffer_size, wipe_deferred, wipe_pending, stop_waiting, post}
use i3lock.Controller.Conversation.{
  Outcome, continues, blocks, fails, use_deferred, ask, begin_wait, prompt_event, on_prompt,
  on_style, on_message, on_wake, Talk, waits, returns, converse, resume, worker_conv_callback,
  checked_messages, reply_with,
}
use i3lock.World.{Pc, in_pam, waiting}
use i3lock.World.Secrets.{Secrets, wiped_length, channel-Secrets}

-- What a round of the callback leaves, for the places where the worker may then stand.
abbrev pub Leaves : ℕ → Outcome → Type 0
Leaves txn (continues r c) = Secrets c (in_pam txn)
Leaves txn (blocks c) =
    (ms : List Message) (replies : List Response) → Secrets c (waiting txn ms replies)
Leaves txn (fails code c) = Secrets c (in_pam txn)

Leaves-if :
    (txn : ℕ) (b : Bool) (o o' : Outcome)
    → Leaves txn o
    → Leaves txn o'
    → Leaves txn (if b then o else o')
Leaves-if txn true o o' h h' = h
Leaves-if txn false o o' h h' = h'

wipe_deferred-Secrets : (c : Ctrl) (pc : Pc) → Secrets c pc → Secrets (wipe_deferred c) pc
unfolding wipe_deferred
wipe_deferred-Secrets c pc s = ground (
  arith,
  wiped_length c.deferred_input s.deferred_size,
  secure_wipe_all c.deferred_input secure_buffer_size s.deferred_size,
)

module _ (txn : ℕ) where
  deferred-Leaves : (ok : Bool) (c : Ctrl) → Secrets c (in_pam txn) → Leaves txn (use_deferred ok c)
  unfolding use_deferred
  deferred-Leaves ok c s =
      Leaves-if txn ok (continues (some (text_of c.deferred_input)) (wipe_deferred c))
        (fails pam_buf_err (wipe_deferred c)) (wipe_deferred-Secrets c _ s)
        (wipe_deferred-Secrets c _ s)

  ask-Leaves :
      (hidden : Bool) (text : Option (List ℕ)) (c : Ctrl)
      → Secrets c (in_pam txn)
      → Leaves txn (ask hidden text c)
  unfolding ask
  ask-Leaves hidden text c s =
      Leaves-if txn posted.0 (blocks posted.1) (fails pam_conv_err (stop_waiting posted.1))
        (λ ms replies. ground (arith, wipe_deferred-Secrets c (in_pam txn) s))
        (ground (arith, wipe_deferred-Secrets c (in_pam txn) s))
    where
      posted : Bool × Ctrl
      posted = post (begin_wait c) (prompt_event c c.next_prompt_id hidden text)

  prompt-Leaves :
      (ok hidden : Bool) (text : Option (List ℕ)) (c : Ctrl)
      → Secrets c (in_pam txn)
      → Leaves txn (on_prompt ok hidden text c)
  unfolding on_prompt
  prompt-Leaves ok hidden text c s =
      let seen = record c { prompts_seen = c.prompts_seen + 1 } in
      let same : Secrets seen (in_pam txn) = ground arith in
      Leaves-if txn (c.prompts_seen + 1 == 1 && (hidden && c.deferred_input_submitted))
        (use_deferred ok seen) (ask hidden text seen) (deferred-Leaves ok seen same)
        (ask-Leaves hidden text seen same)

  style-Leaves :
      (ok : Bool) (style : Style) (text : Option (List ℕ)) (c : Ctrl)
      → Secrets c (in_pam txn)
      → Leaves txn (on_style ok style text c)
  unfolding on_style
  style-Leaves ok echo_off text c s = prompt-Leaves ok true text c s
  style-Leaves ok echo_on_style text c s = prompt-Leaves ok false text c s
  style-Leaves ok text_info text c s = channel-Secrets c _ _ s
  style-Leaves ok error_msg text c s = channel-Secrets c _ _ s
  style-Leaves ok (other_style n) text c s = s

  message-Leaves :
      (ok : Bool) (m : Message) (c : Ctrl) → Secrets c (in_pam txn) → Leaves txn (on_message ok m c)
  unfolding on_message
  message-Leaves ok m c s =
      Leaves-if txn (c.shutdown_requested || c.cancellation_requested) (fails pam_conv_err c)
        (on_style ok m.msg_style m.msg c) s (style-Leaves ok m.msg_style m.msg c s)

  wake-Leaves :
      (ok : Bool) (ms : List Message) (replies : List Response) (c : Ctrl)
      → Secrets c (waiting txn ms replies)
      → Leaves txn (on_wake ok c)
  unfolding on_wake
  wake-Leaves ok ms replies c s =
      let clean = secure_wipe_all c.pending_response secure_buffer_size s.pending_size in
      let size = wiped_length c.pending_response s.pending_size in
      let answered = stop_waiting (wipe_pending c) in
      let ended : Secrets answered (in_pam txn) = ground (arith, clean, size) in
      Leaves-if txn (c.shutdown_requested || c.cancellation_requested)
        (fails pam_conv_err (wipe_pending (stop_waiting c)))
        (reply_with ok (text_of c.pending_response) answered) (ground (arith, clean, size))
        (Leaves-if txn ok (continues (some (text_of c.pending_response)) answered)
          (fails pam_buf_err answered) ended ended)

  abbrev pub Settled : Talk → Type 0
  Settled (waits ms replies c) = Secrets c (waiting txn ms replies)
  Settled (returns code reply c) = Secrets c (in_pam txn)

  pub converse-Settled :
      (ok : ℕ → Bool) (ms : List Message) (replies : List Response) (c : Ctrl)
      → Secrets c (in_pam txn)
      → Settled (converse ok ms replies c)
  unfolding converse
  converse-Settled ok [] replies c s = s
  converse-Settled ok (m ∷ ms) replies c s =
      go (on_message (ok (length replies)) m c) (message-Leaves (ok (length replies)) m c s)
        (λ replies' c'. converse-Settled ok ms replies' c')
    where
      go :
          (o : Outcome)
          → Leaves txn o
          → ((rs : List Response) (d : Ctrl)
              → Secrets d (in_pam txn)
              → Settled (converse ok ms rs d))
          → Settled (elim o [
            | continues reply c' ↦ converse ok ms (replies ++ (reply ∷ [])) c'
            | blocks c' ↦ waits ms replies c'
            | fails code c' ↦ returns code none c'
          ])
      go (continues reply c') h rest = rest _ c' h
      go (blocks c') h rest = h ms replies
      go (fails code c') h rest = h

  pub resume-Settled :
      (ok : ℕ → Bool) (ms : List Message) (replies : List Response) (c : Ctrl)
      → Secrets c (waiting txn ms replies)
      → Settled (resume ok ms replies c)
  unfolding resume
  resume-Settled ok ms replies c s =
      go (on_wake (ok (length replies)) c) (wake-Leaves (ok (length replies)) ms replies c s)
    where
      go :
          (o : Outcome)
          → Leaves txn o
          → Settled (elim o [
            | continues reply c' ↦ converse ok ms (replies ++ (reply ∷ [])) c'
            | blocks c' ↦ waits ms replies c'
            | fails code c' ↦ returns code none c'
          ])
      go (continues reply c') h = converse-Settled ok ms _ c' h
      go (blocks c') h = h ms replies
      go (fails code c') h = h

  Settled-if : (b : Bool) (t t' : Talk) → Settled t → Settled t' → Settled (if b then t else t')
  Settled-if true t t' h h' = h
  Settled-if false t t' h h' = h'

  pub callback-Settled :
      (most : ℕ) (msg : Option (List (Option Message))) (given calloc_ok : Bool) (ok : ℕ → Bool)
      (c : Ctrl)
      → Secrets c (in_pam txn)
      → Settled (worker_conv_callback most msg given calloc_ok ok c)
  unfolding worker_conv_callback
  callback-Settled most none given calloc_ok ok c s = s
  callback-Settled most (some msg) given calloc_ok ok c s =
      Settled-if (length msg == 0 || (ltb most (length msg) || not given))
        (returns pam_conv_err none c) (checked (checked_messages msg)) s (go (checked_messages msg))
    where
      checked : Option (List Message) → Talk
      checked r = elim r [
        | none ↦ returns pam_conv_err none c
        | some ms ↦ if calloc_ok then converse ok ms [] c else returns pam_buf_err none c
      ]

      go : (r : Option (List Message)) → Settled (checked r)
      go none = s
      go (some ms) =
          Settled-if calloc_ok (converse ok ms [] c) (returns pam_buf_err none c)
            (converse-Settled ok ms [] c s) s
