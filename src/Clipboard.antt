-- ===== src/Clipboard.antt =====
-- wallet-extension/src/core/clipboard.ts: the system's clipboard, the browser's timers with the functions
-- that they run, and the module's variable. A function runs up to its next await; where the awaited call
-- ends, the call takes effect and the function goes on, and other functions may run in between. Whether
-- the browser lets the call read or write the clipboard is an argument. A callback does not throw.
pub mod Cleared
mod Tests
use xv.Prelude.{
  ◌-◌, ◌+◌, ◌*◌, ◌==◌, leb, if◌then◌else◌, Option, none, some, List, [], ◌∷◌, Bool, true, false, ℕ,
}
use xv.Prelude.Text.{Text, text_eq}

abbrev pub default_clear_timeout_ms : ℕ
default_clear_timeout_ms = 60000

abbrev pub sensitive_clear_timeout_ms : ℕ
sensitive_clear_timeout_ms = 30000

-- A callback is known by a number.
pub record CopyOptions : Type 0 where
  pub clear_after_ms : Option ℕ
  pub sensitive : Bool
  pub on_clear : Option ℕ

-- The function that is scheduled, with what it holds.
pub record Scheduled : Type 0 where
  pub timer_id : ℕ
  pub due : ℕ
  pub text : Text
  pub callback : Option ℕ

-- What a scheduled function that has started waits for: a read, the write that empties the clipboard, or
-- the one in its catch block.
pub data Phase : Type 0 where
  reading clearing clearing_blind : Phase

pub record Running : Type 0 where
  pub job : Scheduled
  pub phase : Phase

-- `called` lists the callbacks that have run, the last first; `clears_in_flight` counts the calls of
-- `clearClipboard` that wait for their write.
pub record Clipboard : Type 0 where
  pub content : Text
  pub clear_timeout_id : Option ℕ
  pub next_id : ℕ
  pub pending : List Scheduled
  pub running : List Running
  pub clears_in_flight : ℕ
  pub called : List ℕ

abbrev pub init : Text → Clipboard
init content = record {
  content = content;
  clear_timeout_id = none;
  next_id = 1;
  pending = [];
  running = [];
  clears_in_flight = 0;
  called = [];
}

abbrev pub without : ℕ → List Scheduled → List Scheduled
without id [] = []
without id (p ∷ l) = let rest = without id l in if p.timer_id == id then rest else p ∷ rest

-- if (clearTimeoutId) clearTimeout(clearTimeoutId): the identifiers are positive.
abbrev pub clear_if_set : Option ℕ → List Scheduled → List Scheduled
clear_if_set none l = l
clear_if_set (some id) l = without id l

-- options.clearAfterMs ?? (options.sensitive ? ... : ...)
abbrev pub timeout_of : CopyOptions → ℕ
timeout_of options = elim options.clear_after_ms [
  | some ms ↦ ms
  | none ↦ if options.sensitive then sensitive_clear_timeout_ms else default_clear_timeout_ms
]

-- The write ends, and the rest runs.
unfoldable pub secure_copy : Bool → ℕ → Text → CopyOptions → Clipboard → Clipboard × Bool
secure_copy writable now text options c =
    let job : Scheduled = record {
      timer_id = c.next_id;
      due = now + timeout_of options;
      text = text;
      callback = options.on_clear;
    } in
    if writable
    then (
      record c {
        content = text;
        clear_timeout_id = some c.next_id;
        next_id = c.next_id + 1;
        pending = job ∷ clear_if_set c.clear_timeout_id c.pending;
      },
      true,
    )
    else (c, false)

abbrev call : Option ℕ → List ℕ → List ℕ
call none log = log
call (some f) log = f ∷ log

abbrev pub without_running : ℕ → List Running → List Running
without_running id [] = []
without_running id (p ∷ l) =
    let rest = without_running id l in if p.job.timer_id == id then rest else p ∷ rest

abbrev pub find_running : ℕ → List Running → Option Running
find_running id [] = none
find_running id (p ∷ l) =
    let rest = find_running id l in if p.job.timer_id == id then some p else rest

-- The end of the scheduled function: clearTimeoutId = null, whatever is there by then.
abbrev pub finished : ℕ → Clipboard → Clipboard
finished id c = record c { clear_timeout_id = none; running = without_running id c.running }

abbrev pub awaits : Phase → Scheduled → Clipboard → Clipboard
awaits phase job c = record c {
  running = record { job = job; phase = phase } ∷ without_running job.timer_id c.running;
}

-- The scheduled function from where the awaited call ends, with whether it succeeded, to the next await
-- or the end. When the clipboard cannot be read or emptied, it is emptied blindly.
unfoldable pub on_timeout : Phase → Bool → Scheduled → Clipboard → Clipboard
on_timeout reading success job c =
    if success
    then if text_eq c.content job.text then awaits clearing job c else finished job.timer_id c
    else awaits clearing_blind job c
on_timeout clearing success job c =
    if success
    then finished job.timer_id (record c { content = []; called = call job.callback c.called })
    else awaits clearing_blind job c
on_timeout clearing_blind success job c =
    finished job.timer_id (record c { content = if success then [] else c.content })

-- The call that the function of a timer waits for ends.
unfoldable pub resume : ℕ → Bool → Clipboard → Clipboard
unfolding on_timeout
resume id success c = elim (find_running id c.running) [
  | none ↦ c
  | some r ↦ on_timeout r.phase success r.job c
]

abbrev pub find_job : ℕ → List Scheduled → Option Scheduled
find_job id [] = none
find_job id (p ∷ l) = let rest = find_job id l in if p.timer_id == id then some p else rest

-- The browser runs a timer that is due: its function starts, and waits for the read.
unfoldable pub fire : ℕ → ℕ → Clipboard → Clipboard
fire id now c = elim (find_job id c.pending) [
  | none ↦ c
  | some job ↦
      if leb job.due now
      then awaits reading job (record c { pending = without id c.pending })
      else c
]

unfoldable pub copy_address : Bool → ℕ → Text → Option ℕ → Clipboard → Clipboard × Bool
unfolding secure_copy
copy_address writable now address on_clear = secure_copy writable now address (record {
  clear_after_ms = some default_clear_timeout_ms;
  sensitive = false;
  on_clear = on_clear;
})

unfoldable pub copy_mnemonic : Bool → ℕ → Text → Option ℕ → Clipboard → Clipboard × Bool
unfolding secure_copy
copy_mnemonic writable now mnemonic on_clear = secure_copy writable now mnemonic (record {
  clear_after_ms = some sensitive_clear_timeout_ms;
  sensitive = true;
  on_clear = on_clear;
})

unfoldable pub copy_tx_hash : Bool → ℕ → Text → Option ℕ → Clipboard → Clipboard × Bool
unfolding secure_copy
copy_tx_hash writable now hash on_clear = secure_copy writable now hash (record {
  clear_after_ms = some (default_clear_timeout_ms * 2);
  sensitive = false;
  on_clear = on_clear;
})

-- Up to the await.
unfoldable pub clear_clipboard : Clipboard → Clipboard
clear_clipboard c = record c {
  clear_timeout_id = none;
  pending = clear_if_set c.clear_timeout_id c.pending;
  clears_in_flight = c.clears_in_flight + 1;
}

-- The write that `clearClipboard` waits for ends.
unfoldable pub clear_written : Bool → Clipboard → Clipboard
clear_written writable c = if c.clears_in_flight == 0 then c else record c {
  content = if writable then [] else c.content;
  clears_in_flight = c.clears_in_flight - 1;
}

-- What happens to the clipboard; `other` is a text that another program puts there.
pub data Event : Type 0 where
  copies : Bool → ℕ → Text → CopyOptions → Event
  clears : Event
  clear_ends : Bool → Event
  timer : ℕ → ℕ → Event
  resumes : ℕ → Bool → Event
  other : Text → Event

unfoldable pub step : Clipboard → Event → Clipboard
unfolding secure_copy clear_clipboard clear_written fire resume
step c (copies writable now text options) = (secure_copy writable now text options c).0
step c clears = clear_clipboard c
step c (clear_ends writable) = clear_written writable c
step c (timer id now) = fire id now c
step c (resumes id success) = resume id success c
step c (other text) = record c { content = text }

unfoldable pub run : Clipboard → List Event → Clipboard
unfolding step
run c [] = c
run c (e ∷ es) = run (step c e) es
