-- ===== src/Controller/Conversation/Answers.antt =====
-- What the callback answers to PAM: how many replies, and with which values.
use i3lock.Prelude.{
  ℕ, suc, ◌+◌, ◌≡◌, refl, ◌⊎◌, inl, inr, List, [], ◌∷◌, ◌++◌, Bool, true, false, not, ◌||◌, ◌==◌,
  Option, none, some, ltb, length, length-append, arith, Bool-cases, Option-cases,
}
use i3lock.Pam.{
  PamCode, pam_success, pam_buf_err, pam_conv_err, Style, echo_off, echo_on_style, error_msg,
  text_info, other_style, Message, Response,
}
use i3lock.Controller.{Ctrl}
use i3lock.Controller.Conversation.{
  Outcome, continues, blocks, fails, on_prompt, on_style, on_message, on_wake, Talk, waits, returns,
  converse, resume, checked_messages, worker_conv_callback,
}

-- The codes of an early return.
abbrev pub IsRefusal : PamCode → Type 0
IsRefusal code = (code ≡ pam_buf_err) ⊎ (code ≡ pam_conv_err)

-- `n` messages: a wait has one reply for each message behind it, a successful return one for each
-- message, and a failure none at all.
abbrev pub Aligned : ℕ → Talk → Type 0
Aligned n (waits ms replies c) = length replies + suc (length ms) ≡ n
Aligned n (returns code (some replies) c) = (code ≡ pam_success) × (length replies ≡ n)
Aligned n (returns code none c) = IsRefusal code

prompt-IsRefusal :
    (ok hidden : Bool) (text : Option (List ℕ)) (c : Ctrl) {code : PamCode} {c' : Ctrl}
    → on_prompt ok hidden text c ≡ fails code c'
    → IsRefusal code
unfolding on_prompt
prompt-IsRefusal ok hidden text c e = ground arith

style-IsRefusal :
    (ok : Bool) (style : Style) (text : Option (List ℕ)) (c : Ctrl) {code : PamCode} {c' : Ctrl}
    → on_style ok style text c ≡ fails code c'
    → IsRefusal code
unfolding on_style
style-IsRefusal ok echo_off text c e = prompt-IsRefusal ok true text c e
style-IsRefusal ok echo_on_style text c e = prompt-IsRefusal ok false text c e
style-IsRefusal ok text_info text c e = cc
style-IsRefusal ok error_msg text c e = cc
style-IsRefusal ok (other_style n) text c e = inr (ground arith)

message-IsRefusal :
    (ok : Bool) (m : Message) (c : Ctrl) {code : PamCode} {c' : Ctrl}
    → on_message ok m c ≡ fails code c'
    → IsRefusal code
unfolding on_message
message-IsRefusal ok m c e = elim (Bool-cases (c.shutdown_requested || c.cancellation_requested)) [
  | inl stop ↦ inr (ground (arith, stop))
  | inr go ↦ style-IsRefusal ok m.msg_style m.msg c (rw (go, on_message) at e)
]

wake-IsRefusal :
    (ok : Bool) (c : Ctrl) {code : PamCode} {c' : Ctrl}
    → on_wake ok c ≡ fails code c'
    → IsRefusal code
unfolding on_wake
wake-IsRefusal ok c e = ground arith

module _ (n : ℕ) where
  converse-Aligned :
      (ok : ℕ → Bool) (ms : List Message) (replies : List Response) (c : Ctrl)
      → length replies + length ms ≡ n
      → Aligned n (converse ok ms replies c)
  unfolding converse
  converse-Aligned ok [] replies c e = (refl, omega arith)
  converse-Aligned ok (m ∷ ms) replies c e =
      go (on_message (ok (length replies)) m c) refl
        (λ r. converse-Aligned ok ms (replies ++ (r ∷ [])))
    where
      go :
          (o : Outcome)
          → on_message (ok (length replies)) m c ≡ o
          → ((r : Response) (d : Ctrl)
              → length (replies ++ (r ∷ [])) + length ms ≡ n
              → Aligned n (converse ok ms (replies ++ (r ∷ [])) d))
          → Aligned n (elim o [
            | continues reply c' ↦ converse ok ms (replies ++ (reply ∷ [])) c'
            | blocks c' ↦ waits ms replies c'
            | fails code c' ↦ returns code none c'
          ])
      go (continues reply c') at rest =
          rest reply c' (omega (arith, length-append replies (reply ∷ [])))
      go (blocks c') at rest = e
      go (fails code c') at rest = message-IsRefusal (ok (length replies)) m c at

  -- The same after the wait for the answer to the message behind the replies so far.
  pub resume-Aligned :
      (ok : ℕ → Bool) (ms : List Message) (replies : List Response) (c : Ctrl)
      → length replies + suc (length ms) ≡ n
      → Aligned n (resume ok ms replies c)
  unfolding resume
  resume-Aligned ok ms replies c e = go (on_wake (ok (length replies)) c) refl
    where
      go :
          (o : Outcome)
          → on_wake (ok (length replies)) c ≡ o
          → Aligned n (elim o [
            | continues reply c' ↦ converse ok ms (replies ++ (reply ∷ [])) c'
            | blocks c' ↦ waits ms replies c'
            | fails code c' ↦ returns code none c'
          ])
      go (continues reply c') at =
          converse-Aligned ok ms _ c' (omega (arith, length-append replies (reply ∷ [])))
      go (blocks c') at = e
      go (fails code c') at = wake-IsRefusal (ok (length replies)) c at

length-checked :
    (msg : List (Option Message)) {ms : List Message}
    → checked_messages msg ≡ some ms
    → length ms ≡ length msg
unfolding checked_messages
length-checked [] e = ground arith
length-checked (none ∷ msg) e = cc
length-checked (some m ∷ msg) e = elim (Option-cases (checked_messages msg)) [
  | inl nothing ↦ ground (arith, nothing)
  | inr (rest, some_rest) ↦ ground (arith, some_rest, length-checked msg some_rest)
]

-- For an array of `num_msg` pointers the callback returns PAM_SUCCESS with `num_msg` replies, or an
-- error code with `*resp` NULL, or waits with as many replies as messages are behind it.
pub callback-Aligned :
    (most : ℕ) (msg : List (Option Message)) (given calloc_ok : Bool) (ok : ℕ → Bool) (c : Ctrl)
    → Aligned (length msg) (worker_conv_callback most (some msg) given calloc_ok ok c)
unfolding worker_conv_callback
callback-Aligned most msg given calloc_ok ok c =
    elim (Bool-cases (length msg == 0 || (ltb most (length msg) || not given))) [
      | inl bad ↦ rw (bad, worker_conv_callback) (inr refl)
      | inr good ↦ elim (Option-cases (checked_messages msg)) [
        | inl invalid ↦ rw (good, invalid, worker_conv_callback) (inr refl)
        | inr (ms, valid) ↦ elim (Bool-cases calloc_ok) [
          | inr full ↦ rw (good, valid, full, worker_conv_callback) (inl refl)
          | inl room ↦
              rw (good, valid, room, worker_conv_callback)
                (converse-Aligned (length msg) ok ms [] c (omega (arith, length-checked msg valid)))
        ]
      ]
    ]
