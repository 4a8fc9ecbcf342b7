-- ===== src/Lib.antt =====
-- i3lock: the lock screen's input handling, its PAM controller and the texts that it shows.
--
-- The program has two threads. The main thread (i3lock.c) runs the event loop: it takes key presses and
-- the events of PAM, keeps the input buffer and the state of the indicator, and ends when the screen is
-- unlocked. The worker thread (pam_controller.c) runs one PAM attempt at a time. The main thread calls the
-- controller's API, which stages credentials and flags under a mutex; the worker answers by events in a
-- bounded queue, and a byte in a pipe wakes the main loop.
--
-- Which file models what:
--   Memory, Utf8: C strings and fixed buffers as lists of bytes; the UTF-8 helpers of i3lock.c,
--     pam_controller.c and unlock_indicator.c.
--   Pam: the events of include/pam_controller.h, and what the code names of the PAM interface.
--   Queue: `ctrl.events`, `post_event_locked`, `remove_event_at_locked` and the drain of
--     pam_controller.c. Queue/Bounded is its abstract view, a list.
--   Controller: `ctrl` as a record and each API call as a function on it. Controller/Text is
--     `event_set_text`, Controller/Conversation `worker_conv_callback`, Controller/Worker `worker_main`,
--     Controller/Lifecycle `pam_controller_init` and `pam_controller_cleanup`; Controller/Handover and
--     Controller/Cycle hold proofs about their interplay.
--   World: the two threads as a step relation. A step is what one thread does while it holds the mutex, or
--     a result of PAM, which is arbitrary. World/Channel, World/Secrets, World/Delivery and World/Provenance
--     hold the invariants, World/Fresh the state at the start.
--   Ui: the variables of i3lock.c. Ui/Auth is `input_done` and what it calls, Ui/Events
--     `handle_pam_event`, Ui/Keys `handle_key_press`. Ui/Buffer, Ui/Typing, Ui/Submit,
--     Ui/Refused, Ui/Unlock and Ui/Keys/Text hold proofs.
--   Panel: the truncation and wrapping of texts in unlock_indicator.c; Panel/Layout the panel's
--     lines. Panel/Progress, Panel/Lines and Panel/Truncated hold proofs.
--   Keyboard: the layout and modifier strings of unlock_indicator.c.
--   Image: the reader of raw images and the test for PNG of i3lock.c.
--   Monitors: randr.c, with the replies of the server as arguments. Monitors/Outputs,
--     Monitors/Xinerama and Monitors/Flags hold proofs.
--   Grab: `grab_pointer_and_keyboard` of xcb.c. A try is told by its number.
--   Keymap: `load_keymap`, `load_compose_table` and `process_xkb_event`.
--   Options: the loop over the command line in `main`; Options/Color adds `get_colorpixel` of xcb.c.
--   Launch: `main` behind the options, up to the event loop.
--   App: the whole program. App/Events is `xcb_check_cb` and `handle_screen_resize`, and App/Run the step
--     relation: the callbacks of the event loop above Ui, and the steps of World; behind the loop `main`
--     requests the shutdown, the worker goes on, and the join returns when it has stopped. The other files
--     under App, World/Calls and Ui/Effects hold proofs: App/Refine the invariant, App/Screen, App/Handlers
--     and App/PamEvents about the handlers, App/Unlock and App/Loop about the runs, App/Join and
--     App/Finish their end, App/Safety, App/EventSafety and App/Bounds the accesses to arrays, App/Once
--     what is done once, App/Cover and App/Fit the window's size, App/Drawn the reads of a redraw. App/Start
--     is the state in which `main` enters the loop.
--   Drawing: what unlock_indicator.c decides to draw in the circle, on which areas, and its pixmap.
--   Window: the visual and the focused window of xcb.c, `raise_loop` and the end of `main`.
--   Dpi: which value dpi.c takes.
--   Tests: concrete states, and each theorem at a concrete input.
--
-- State is passed explicitly: a handler takes the state and returns the new one, and a handler of the
-- lock screen that calls the controller takes and returns its state too. Numbers are natural; counters of
-- 64 bits and products of `size_t` wrap around. An access outside `password`, or outside the text that is
-- truncated, is the result `none`; so is a redraw's read of a monitor that is not in the array of randr.c.
--
-- Fuel: the loops of Panel that measure and shorten run on fuel, which is more than the length of what is left of
-- the text. A loop that has not ended when the fuel has gives no result, `none`, and a line that is wrapped so
-- makes no progress.
--
-- What belongs to the environment is an argument: the results of PAM, of the allocator and of system calls,
-- what libxkbcommon makes of a key, cairo's measurements, the bytes of a file.
--
-- Not modelled: the drawing itself, the windows, cursors and properties of xcb.c, and the arithmetic of dpi.c, which
-- are calls of XCB and cairo or computed with floating-point numbers; of `main` the choice of the image
-- and the windows; the branch for OpenBSD; the threads' scheduling beyond the order of their critical
-- sections, and the main loop's beyond that it runs one callback at a time.
pub mod Prelude
pub mod Memory
pub mod Utf8
pub mod Pam
pub mod Queue
pub mod Controller
pub mod World
pub mod Ui
pub mod Panel
pub mod Image
pub mod Keyboard
pub mod Monitors
pub mod Keymap
pub mod Grab
pub mod Options
pub mod Launch
pub mod App
pub mod Drawing
pub mod Window
pub mod Dpi
pub mod Tests
