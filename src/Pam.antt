-- ===== src/Pam.antt =====
-- What the UI and the PAM worker exchange (include/pam_controller.h), and the parts of the PAM
-- interface that the code names: return codes, message styles, messages and responses.
use i3lock.Prelude.{ℕ, List, [], Bool, true, false, Option}

-- `pam_event_type_t`
pub data EventType : Type 0 where
  ready status prompt success failure cancelled fatal : EventType

-- `pam_event_t`. `text` is the C string that the array holds.
pub record Event : Type 0 where
  pub type : EventType
  pub transaction_id : ℕ
  pub prompt_id : ℕ
  pub echo_on : Bool
  pub is_error : Bool
  pub text : List ℕ

-- An event of all zeros: what a wiped slot holds.
abbrev pub blank_event : Event
blank_event = record {
  type = ready;
  transaction_id = 0;
  prompt_id = 0;
  echo_on = false;
  is_error = false;
  text = [];
}

-- The return codes that the code tells apart.
pub data PamCode : Type 0 where
  pam_success pam_abort pam_system_err pam_service_err pam_buf_err pam_conv_err : PamCode
  other_code : ℕ → PamCode

-- `msg_style`
pub data Style : Type 0 where
  echo_off echo_on_style error_msg text_info : Style
  other_style : ℕ → Style

-- `struct pam_message`; `none` is a NULL text.
pub record Message : Type 0 where
  pub msg_style : Style
  pub msg : Option (List ℕ)

-- `resp` of `struct pam_response`; `none` is NULL. `resp_retcode` is 0 throughout.
abbrev pub Response : Type 0
Response = Option (List ℕ)

unfoldable pub event_is_terminal : EventType → Bool
event_is_terminal success = true
event_is_terminal failure = true
event_is_terminal cancelled = true
event_is_terminal fatal = true
event_is_terminal _ = false

unfoldable pub is_status : EventType → Bool
is_status status = true
is_status _ = false

unfoldable pub is_success : PamCode → Bool
is_success pam_success = true
is_success _ = false
