-- ===== src/Controller/Lifecycle.antt =====
-- The start and the end of the controller: `pam_controller_init`, `reset_controller_init_state` and
-- `pam_controller_cleanup` of pam_controller.c, in the build for Linux.
use i3lock.Prelude.{
  ℕ, ◌≡◌, ◌⊎◌, List, Bool, true, false, not, ◌&&◌, ◌||◌, if◌then◌else◌, replicate, arith,
}
use i3lock.Pam.{blank_event}
use i3lock.Queue.{max_events}
use i3lock.Controller.{Ctrl, secure_buffer_size, is_busy, start_auth, request_shutdown}

-- What the controller takes from the system.
pub record Resources : Type 0 where
  pub username : Bool
  pub display : Bool
  pub secure : Bool
  pub secure_mlocked : Bool
  pub pipe : Bool
  pub mutex : Bool
  pub cond : Bool

abbrev pub nothing : Resources
nothing = record {
  username = false;
  display = false;
  secure = false;
  secure_mlocked = false;
  pipe = false;
  mutex = false;
  cond = false;
}

-- `flags` is what `ctrl` notes of its resources, by a pointer or a flag; `held` is what the system has
-- given and not got back. `sigpipe_ignored` tells that the action for SIGPIPE is SIG_IGN.
pub record Process : Type 0 where
  pub ctrl : Ctrl
  pub flags : Resources
  pub held : Resources
  pub sigpipe_ignored : Bool

-- The results of the calls, and whether a display was given.
pub record Startup : Type 0 where
  pub username_ok : Bool
  pub display_given : Bool
  pub display_ok : Bool
  pub calloc_ok : Bool
  pub mlock_ok : Bool
  pub pipe_ok : Bool
  pub nonblocking_read_ok : Bool
  pub nonblocking_write_ok : Bool
  pub mutex_ok : Bool
  pub cond_ok : Bool
  pub thread_ok : Bool

-- A `ctrl` of all zeros, with a pipe of the given capacity to come.
abbrev pub zero_ctrl : ℕ → Ctrl
zero_ctrl pipe_capacity = record {
  channel = record {
    events = replicate max_events blank_event;
    event_count = 0;
    pipe_bytes = 0;
    pipe_capacity = pipe_capacity;
  };
  auth_requested = false;
  auth_in_progress = false;
  shutdown_requested = false;
  cancellation_requested = false;
  waiting_for_answer = false;
  answer_submitted = false;
  deferred_input_submitted = false;
  fatal_error = false;
  terminal_ack_pending = false;
  initialised = false;
  next_transaction_id = 0;
  next_prompt_id = 0;
  active_transaction_id = 0;
  terminal_transaction_id = 0;
  waiting_prompt_id = 0;
  prompts_seen = 0;
  deferred_input = replicate secure_buffer_size 0;
  pending_response = replicate secure_buffer_size 0;
}

-- The system gets back what is noted.
unfoldable pub give_back : Resources → Resources → Resources
give_back flags held = record {
  username = held.username && not flags.username;
  display = held.display && not flags.display;
  secure = held.secure && not flags.secure;
  secure_mlocked = held.secure_mlocked && not (flags.secure && flags.secure_mlocked);
  pipe = held.pipe && not flags.pipe;
  mutex = held.mutex && not flags.mutex;
  cond = held.cond && not flags.cond;
}

unfoldable pub reset_controller_init_state : Process → Process
unfolding give_back
reset_controller_init_state p = record {
  ctrl = zero_ctrl p.ctrl.channel.pipe_capacity;
  flags = nothing;
  held = give_back p.flags p.held;
  sigpipe_ignored = p.sigpipe_ignored;
}

-- A resource is obtained and noted.
unfoldable pub take_username : Resources → Resources
take_username r = record r { username = true }

unfoldable pub take_display : Bool → Resources → Resources
take_display given r = record r { display = given }

unfoldable pub take_secure : Resources → Resources
take_secure r = record r { secure = true }

unfoldable pub take_mlock : Resources → Resources
take_mlock r = record r { secure_mlocked = true }

unfoldable pub take_pipe : Resources → Resources
take_pipe r = record r { pipe = true }

unfoldable pub take_mutex : Resources → Resources
take_mutex r = record r { mutex = true }

unfoldable pub take_cond : Resources → Resources
take_cond r = record r { cond = true }

unfoldable pub obtained : (Resources → Resources) → Process → Process
obtained f p = record p { flags = f p.flags; held = f p.held }

unfoldable pub give_up : Process → Bool × Process
unfolding reset_controller_init_state
give_up p = (false, reset_controller_init_state p)

-- `sigaction`, whose result is not read, and the start of the worker.
unfoldable pub launch : Bool → Process → Bool × Process
unfolding give_up
launch thread_ok p =
    let numbered = record (p.ctrl) { next_transaction_id = 1; next_prompt_id = 1 } in
    let ignoring = record p { ctrl = numbered; sigpipe_ignored = true } in
    if not thread_ok
    then give_up ignoring
    else (true, record ignoring { ctrl = record numbered { initialised = true } })

-- The calls in their order, each on the state with what was obtained before it.
unfoldable pub obtain : Startup → Process → Bool × Process
unfolding take_username take_display take_secure take_mlock take_pipe take_mutex take_cond obtained
    give_up launch
obtain s p₀ =
    let p₁ = obtained take_username p₀ in
    let p₂ = obtained (take_display s.display_given) p₁ in
    let p₃ = obtained take_secure p₂ in
    let p₄ = obtained take_mlock p₃ in
    let p₅ = obtained take_pipe p₄ in
    let p₆ = obtained take_mutex p₅ in
    let p₇ = obtained take_cond p₆ in
    if not s.username_ok
    then give_up p₀
    else if s.display_given && not s.display_ok
    then give_up p₁
    else if not s.calloc_ok
    then give_up p₂
    else if not s.mlock_ok
    then give_up p₃
    else if not s.pipe_ok
    then give_up p₄
    else if not s.nonblocking_read_ok || not s.nonblocking_write_ok
    then give_up p₅
    else if not s.mutex_ok
    then give_up p₅
    else if not s.cond_ok
    then give_up p₆
    else launch s.thread_ok p₇

unfoldable pub pam_controller_init : Startup → Process → Bool × Process
unfolding obtain
pam_controller_init s p = if p.ctrl.initialised then (true, p) else obtain s p

-- `pam_controller_cleanup` up to the join.
unfoldable pub request_join : Ctrl → Ctrl
unfolding request_shutdown
request_join c = if c.initialised then request_shutdown c else c

-- It behind the join: the memory of `ctrl` keeps everything else.
unfoldable pub after_join : Process → Process
after_join p = if not p.ctrl.initialised then p else (record p {
  ctrl = record (p.ctrl) {
    channel = record (p.ctrl.channel) {
      events = replicate max_events blank_event;
      event_count = 0;
    };
    deferred_input = replicate secure_buffer_size 0;
    pending_response = replicate secure_buffer_size 0;
    initialised = false;
  };
  flags = record (p.flags) { username = false; display = false; secure = false };
  held = nothing;
})

-- All of it, where the worker has nothing left to do that changes `ctrl`.
unfoldable pub pam_controller_cleanup : Process → Process
unfolding request_join after_join
pam_controller_cleanup p = after_join (record p { ctrl = request_join p.ctrl })

-- The calls that the start of the worker comes behind succeed.
abbrev pub before_thread : Startup → Bool
before_thread s =
    s.username_ok
    && (not (s.display_given && not s.display_ok)
        && (s.calloc_ok
            && (s.mlock_ok
                && (s.pipe_ok
                    && (not (not s.nonblocking_read_ok || not s.nonblocking_write_ok)
                        && (s.mutex_ok && s.cond_ok))))))

abbrev pub all_ok : Startup → Bool
all_ok s = before_thread s && s.thread_ok

-- The process before anything was started.
abbrev pub unstarted : ℕ → Process
unstarted pipe_capacity = record {
  ctrl = zero_ctrl pipe_capacity;
  flags = nothing;
  held = nothing;
  sigpipe_ignored = false;
}

-- From a process in which nothing was started, the controller starts exactly if every call that it needs
-- succeeds. Otherwise the process is again as it was, whatever had been obtained up to the call that failed
-- being given back, but for the action for SIGPIPE: that stays SIG_IGN exactly if only the start of the
-- thread failed.
pub init_all_or_nothing :
    (s : Startup) (pipe_capacity : ℕ)
    → let (started, p) = pam_controller_init s (unstarted pipe_capacity) in
      (started ≡ all_ok s)
      × ((started ≡ true)
          ⊎ (p ≡ record (unstarted pipe_capacity) { sigpipe_ignored = before_thread s }))
unfolding pam_controller_init obtain launch give_up reset_controller_init_state give_back obtained
    take_username take_display take_secure take_mlock take_pipe take_mutex take_cond
init_all_or_nothing s n = ground arith

-- A controller that was cleaned up refuses every attempt, also when it is started again: the shutdown
-- flag is never reset.
pub restarted_refuses :
    (s : Startup) (p : Process) (password : List ℕ)
    → p.ctrl.initialised ≡ true
    → all_ok s ≡ true
    → let (started, q) = pam_controller_init s (pam_controller_cleanup p) in
      (started ≡ true) × ((start_auth password q.ctrl).0 ≡ 0)
unfolding pam_controller_init pam_controller_cleanup request_join after_join request_shutdown obtain
    obtained launch start_auth is_busy
restarted_refuses s p password on ok = ground (arith, on, ok)
