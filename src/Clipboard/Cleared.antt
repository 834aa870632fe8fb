-- ===== src/Clipboard/Cleared.antt =====
-- A copied text does not stay in the clipboard.
use xv.Prelude.{
  Bool-cases, inl, inr, ◌<◌, ◌≡◌, ◌≤◌, ◌≢◌, ◌∙◌, ap, refl, arith, ◌+◌, Option, none, some, List, [],
  ◌∷◌, Bool, true, false, ℕ, if◌then◌else◌,
}
use xv.Prelude.Text.{Text, text_eq}
use xv.Clipboard.{
  Clipboard, CopyOptions, Scheduled, Running, Phase, reading, clearing, clearing_blind, awaits,
  finished, Event, copies, clears, clear_ends, timer, resumes, other, step, run, secure_copy,
  clear_written, fire, resume, on_timeout, without, without_running, find_job, find_running,
}

-- When a copy is cleared.
abbrev pub cleared_after : CopyOptions → ℕ
cleared_after options = elim options.clear_after_ms [
  | some ms ↦ ms
  | none ↦ if options.sensitive then 30000 else 60000
]

-- The function that a copy schedules.
abbrev pub job_of : ℕ → ℕ → Text → CopyOptions → Scheduled
job_of id now text options = record {
  timer_id = id;
  due = now + cleared_after options;
  text = text;
  callback = options.on_clear;
}

-- No newer copy succeeds, nothing clears the clipboard on demand, and the timer is not run.
abbrev pub IsQuiet : ℕ → Event → Type 0
IsQuiet id (copies writable now text options) = writable ≡ false
IsQuiet id clears = ⊥
IsQuiet id (clear_ends writable) = Unit
IsQuiet id (timer of now) = of ≢ id
IsQuiet id (resumes of success) = Unit
IsQuiet id (other text) = Unit

abbrev pub AllQuiet : ℕ → List Event → Type 0
AllQuiet id [] = Unit
AllQuiet id (e ∷ es) = IsQuiet id e × AllQuiet id es

find_job-without :
    (id of : ℕ) (l : List Scheduled) → of ≢ id → find_job id (without of l) ≡ find_job id l
find_job-without id of [] h = refl
find_job-without id of (p ∷ l) h = ground (arith, h, find_job-without id of l h)

find_running-without : (id : ℕ) (l : List Running) → find_running id (without_running id l) ≡ none
find_running-without id [] = refl
find_running-without id (p ∷ l) = ground (arith, find_running-without id l)

pending-on_timeout :
    (phase : Phase) (success : Bool) (job : Scheduled) (c : Clipboard)
    → (on_timeout phase success job c).pending ≡ c.pending
unfolding on_timeout
pending-on_timeout reading success job c = ground arith
pending-on_timeout clearing success job c = ground arith
pending-on_timeout clearing_blind success job c = refl

pending-resume :
    (id : ℕ) (success : Bool) (c : Clipboard) → (resume id success c).pending ≡ c.pending
unfolding resume
pending-resume id success c = by_running (find_running id c.running)
  where
    by_running :
        (o : Option Running)
        → (elim o as (λ _. Clipboard) [
          | none ↦ c
          | some r ↦ on_timeout r.phase success r.job c
        ]).pending
          ≡ c.pending
    by_running none = refl
    by_running (some r) = pending-on_timeout r.phase success r.job c

find_job-fire :
    (id of now : ℕ) (c : Clipboard)
    → of ≢ id
    → find_job id (fire of now c).pending ≡ find_job id c.pending
unfolding fire
find_job-fire id of now c h = ground (arith, find_job-without id of c.pending h)

find_job-step :
    (id : ℕ) (c : Clipboard) (e : Event)
    → IsQuiet id e
    → find_job id (step c e).pending ≡ find_job id c.pending
unfolding step secure_copy clear_written
find_job-step id c (copies writable now text options) h = rw (h, step, secure_copy) refl
find_job-step id c clears h = absurd h
find_job-step id c (clear_ends writable) h = ground arith
find_job-step id c (timer of now) h = find_job-fire id of now c h
find_job-step id c (resumes of success) h = ap (find_job id) (pending-resume of success c)
find_job-step id c (other text) h = refl

find_job-run :
    (id : ℕ) (c : Clipboard) (es : List Event)
    → AllQuiet id es
    → find_job id (run c es).pending ≡ find_job id c.pending
unfolding run
find_job-run id c [] h = refl
find_job-run id c (e ∷ es) (h, hs) = find_job-run id (step c e) es hs ∙ find_job-step id c e h

find_job-copy :
    (now : ℕ) (text : Text) (options : CopyOptions) (c : Clipboard)
    → find_job c.next_id (secure_copy true now text options c).0.pending
      ≡ some (job_of c.next_id now text options)
unfolding secure_copy
find_job-copy now text options c = ground arith

fire-early :
    (id now : ℕ) (job : Scheduled) (c : Clipboard)
    → find_job id c.pending ≡ some job
    → now < job.due
    → fire id now c ≡ c
unfolding fire
fire-early id now job c found early = rw (found, fire) (ground (arith, early))

fire-due :
    (id now : ℕ) (job : Scheduled) (c : Clipboard)
    → find_job id c.pending ≡ some job
    → job.due ≤ now
    → fire id now c ≡ awaits reading job (record c { pending = without id c.pending })
unfolding fire
fire-due id now job c found due = rw (found, fire) (ground (arith, due))

resume-running :
    (phase : Phase) (success : Bool) (job : Scheduled) (l : List Running) (c : Clipboard)
    → c.running ≡ record { job = job; phase = phase } ∷ l
    → resume job.timer_id success c ≡ on_timeout phase success job c
unfolding resume
resume-running phase success job l c e = rw (e, resume) (ground arith)

resume-finished :
    (id : ℕ) (success : Bool) (c : Clipboard) → resume id success (finished id c) ≡ finished id c
unfolding resume
resume-finished id success c = rw (find_running-without id c.running, resume) refl

read_same :
    (job : Scheduled) (c : Clipboard)
    → text_eq c.content job.text ≡ true
    → resume job.timer_id true (awaits reading job c) ≡ awaits clearing job (awaits reading job c)
unfolding on_timeout
read_same job c same =
    resume-running reading true job _ (awaits reading job c) refl ∙ rw (same, on_timeout) refl

read_other :
    (job : Scheduled) (c : Clipboard)
    → text_eq c.content job.text ≡ false
    → resume job.timer_id true (awaits reading job c) ≡ finished job.timer_id (awaits reading job c)
unfolding on_timeout
read_other job c differs =
    resume-running reading true job _ (awaits reading job c) refl ∙ rw (differs, on_timeout) refl

unread :
    (job : Scheduled) (c : Clipboard)
    → resume job.timer_id false (awaits reading job c)
      ≡ awaits clearing_blind job (awaits reading job c)
unfolding on_timeout
unread job c = resume-running reading false job _ (awaits reading job c) refl

written :
    (job : Scheduled) (c : Clipboard)
    → (resume job.timer_id true (awaits clearing job c)).content ≡ []
unfolding on_timeout
written job c =
    ap (λ (x : Clipboard). x.content)
      (resume-running clearing true job _ (awaits clearing job c) refl)

unwritten :
    (job : Scheduled) (c : Clipboard)
    → resume job.timer_id false (awaits clearing job c)
      ≡ awaits clearing_blind job (awaits clearing job c)
unfolding on_timeout
unwritten job c = resume-running clearing false job _ (awaits clearing job c) refl

blindly_written :
    (job : Scheduled) (c : Clipboard)
    → (resume job.timer_id true (awaits clearing_blind job c)).content ≡ []
unfolding on_timeout
blindly_written job c =
    ap (λ (x : Clipboard). x.content)
      (resume-running clearing_blind true job _ (awaits clearing_blind job c) refl)

-- Another program's text, put there between the read and the write, is lost with the copied one.
read_and_cleared :
    (job : Scheduled) (c : Clipboard) (found : Text)
    → let next = resume job.timer_id true (awaits reading job c) in
      (resume job.timer_id true (record next { content = found })).content
      ≡ (if text_eq c.content job.text then [] else found)
read_and_cleared job c found = elim (Bool-cases (text_eq c.content job.text)) [
  | inl same ↦ rw same (
      ap (λ (x : Clipboard). (resume job.timer_id true (record x { content = found })).content)
        (read_same job c same)
      ∙ written job (record (awaits reading job c) { content = found }))
  | inr differs ↦ rw differs (
      ap (λ (x : Clipboard). (resume job.timer_id true (record x { content = found })).content)
        (read_other job c differs)
      ∙ ap (λ (x : Clipboard). x.content)
          (resume-finished job.timer_id true (record (awaits reading job c) { content = found })))
]

read_and_cleared_same :
    (job : Scheduled) (c : Clipboard)
    → (resume job.timer_id true (resume job.timer_id true (awaits reading job c))).content
      ≡ (if text_eq c.content job.text then [] else c.content)
read_and_cleared_same job c = elim (Bool-cases (text_eq c.content job.text)) [
  | inl same ↦ rw same (
      ap (λ (x : Clipboard). (resume job.timer_id true x).content) (read_same job c same)
      ∙ written job (awaits reading job c))
  | inr differs ↦ rw differs (
      ap (λ (x : Clipboard). (resume job.timer_id true x).content) (read_other job c differs)
      ∙ ap (λ (x : Clipboard). x.content)
          (resume-finished job.timer_id true (awaits reading job c)))
]

-- The write fails, and the one of the catch block does not.
cleared_again :
    (job : Scheduled) (c : Clipboard)
    → let id = job.timer_id in
      (resume id true (resume id false (resume id true (awaits reading job c)))).content
      ≡ (if text_eq c.content job.text then [] else c.content)
cleared_again job c =
    let id = job.timer_id in
    elim (Bool-cases (text_eq c.content job.text)) [
      | inl same ↦ rw same (
          ap (λ (x : Clipboard). (resume id true (resume id false x)).content)
            (read_same job c same)
          ∙ ap (λ (x : Clipboard). (resume id true x).content)
              (unwritten job (awaits reading job c))
          ∙ blindly_written job (awaits clearing job (awaits reading job c)))
      | inr differs ↦ rw differs (
          ap (λ (x : Clipboard). (resume id true (resume id false x)).content)
            (read_other job c differs)
          ∙ ap (λ (x : Clipboard). (resume id true x).content)
              (resume-finished id false (awaits reading job c))
          ∙ ap (λ (x : Clipboard). x.content) (resume-finished id true (awaits reading job c)))
    ]

read_blindly :
    (job : Scheduled) (c : Clipboard)
    → (resume job.timer_id true (resume job.timer_id false (awaits reading job c))).content ≡ []
read_blindly job c =
    ap (λ (x : Clipboard). (resume job.timer_id true x).content) (unread job c)
    ∙ blindly_written job (awaits reading job c)

-- Let a text be copied, in any state, and let any events follow of which none is another copy that
-- succeeds, a call of `clearClipboard`, or the copy's own timer. Then its timer does nothing
-- before its time, which is the one that the caller gave, and otherwise 30 seconds after the copy
-- for a sensitive text and 60 for another one. From that time on it runs the function: if the text
-- is still in the clipboard, the write empties the clipboard, also when the first write fails and
-- the one of the catch block does not, and also when another program puts a text there after the
-- read; if another text is read, what is in the clipboard stays. If the clipboard cannot be read,
-- it is emptied.
pub copied_text_is_cleared :
    (before : Clipboard) (now soon late : ℕ) (text found : Text) (options : CopyOptions)
    (es : List Event)
    → AllQuiet before.next_id es
    → soon < now + cleared_after options
    → now + cleared_after options ≤ late
    → let id = before.next_id in
      let c = run (secure_copy true now text options before).0 es in
      (run c (timer id soon ∷ []) ≡ c)
      × ((run c (timer id late ∷ resumes id true ∷ resumes id true ∷ [])).content
          ≡ (if text_eq c.content text then [] else c.content))
      × ((run c (timer id late ∷ resumes id true ∷ resumes id false ∷ resumes id true ∷ [])).content
          ≡ (if text_eq c.content text then [] else c.content))
      × ((run c (timer id late ∷ resumes id true ∷ other found ∷ resumes id true ∷ [])).content
          ≡ (if text_eq c.content text then [] else found))
      × ((run c (timer id late ∷ resumes id false ∷ resumes id true ∷ [])).content ≡ [])
unfolding run step
copied_text_is_cleared before now soon late text found options es quiet early due =
    let id = before.next_id in
    let c = run (secure_copy true now text options before).0 es in
    let job = job_of id now text options in
    let waits : find_job id c.pending ≡ some job =
      find_job-run id (secure_copy true now text options before).0 es quiet
      ∙ find_job-copy now text options before in
    let started = fire-due id late job c waits due in
    let d : Clipboard = record c { pending = without id c.pending } in
    (
      fire-early id soon job c waits early,
      ap (λ (x : Clipboard). (resume id true (resume id true x)).content) started
          ∙ read_and_cleared_same job d,
      ap (λ (x : Clipboard). (resume id true (resume id false (resume id true x))).content) started
          ∙ cleared_again job d,
      ap
            (λ (x : Clipboard).
              (resume id true (record (resume id true x) { content = found })).content)
            started
          ∙ read_and_cleared job d found,
      ap (λ (x : Clipboard). (resume id true (resume id false x)).content) started
          ∙ read_blindly job d,
    )
