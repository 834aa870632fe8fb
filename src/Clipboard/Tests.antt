-- ===== src/Clipboard/Tests.antt =====
-- Examples for the clipboard.
use xv.Prelude.{map, List, false, if◌then◌else◌, ◌≡◌, refl, ◌∷◌, [], none, some, true, arith}
use xv.Prelude.Text.{codes, text_eq}
use xv.Clipboard.{
  Clipboard, CopyOptions, Event, Scheduled, copies, timer, resumes, other, init, run, copy_mnemonic,
  secure_copy, fire, on_timeout,
}
use xv.Clipboard.Cleared.{copied_text_is_cleared}

abbrev plain_copy : CopyOptions
plain_copy = record { clear_after_ms = none; sensitive = true; on_clear = some 5 }

-- A second copy takes the place of the first one's timer.
abbrev copied_twice : Clipboard
copied_twice =
    (copy_mnemonic true 2000 (codes "abandon zoo") (some 9)
      (secure_copy true 1000 (codes "first") plain_copy (init [])).0).0

first_timer_is_gone : fire 1 99000 copied_twice ≡ copied_twice
unfolding fire copy_mnemonic
first_timer_is_gone = refl

mnemonic_is_cleared :
    run copied_twice (timer 2 32000 ∷ resumes 2 true ∷ resumes 2 true ∷ [])
    ≡ record (init []) { next_id = 3; called = 9 ∷ [] }
unfolding run fire copy_mnemonic on_timeout
mnemonic_is_cleared = refl

-- A copy while the function of the one before is reading: the module's variable forgets the new timer,
-- and the next copy does not cancel it.
abbrev forgotten : Clipboard
forgotten = run copied_twice (
    timer 2 32000
    ∷ copies true 33000 (codes "key") plain_copy
    ∷ resumes 2 true
    ∷ copies true 34000 (codes "more") plain_copy
    ∷ [])

forgotten_timer_stays : map (λ (p : Scheduled). p.timer_id) forgotten.pending ≡ 4 ∷ 3 ∷ []
unfolding run fire copy_mnemonic on_timeout
forgotten_timer_stays = refl

abbrev after_first : Clipboard
after_first = (secure_copy true 1000 (codes "a") plain_copy (init [])).0

-- Another program's text, a copy that fails and the first copy's timer, which was cancelled.
abbrev quiet_events : List Event
quiet_events = other (codes "note") ∷ copies false 2500 (codes "b") plain_copy ∷ timer 1 99000 ∷ []

copied_text_is_cleared_example :
    let c = run (secure_copy true 2000 (codes "zoo") plain_copy after_first).0 quiet_events in
    (run c (timer 2 31999 ∷ []) ≡ c)
    × ((run c (timer 2 32000 ∷ resumes 2 true ∷ resumes 2 true ∷ [])).content
        ≡ (if text_eq c.content (codes "zoo") then [] else c.content))
    × ((run c (timer 2 32000 ∷ resumes 2 true ∷ resumes 2 false ∷ resumes 2 true ∷ [])).content
        ≡ (if text_eq c.content (codes "zoo") then [] else c.content))
    × ((run c (timer 2 32000 ∷ resumes 2 true ∷ other (codes "x") ∷ resumes 2 true ∷ [])).content
        ≡ (if text_eq c.content (codes "zoo") then [] else codes "x"))
    × ((run c (timer 2 32000 ∷ resumes 2 false ∷ resumes 2 true ∷ [])).content ≡ [])
unfolding secure_copy
copied_text_is_cleared_example =
    copied_text_is_cleared after_first 2000 31999 32000 (codes "zoo") (codes "x") plain_copy
      quiet_events (tt, (refl, ((λ e. absurd (ground (arith, e))), tt))) (omega arith) (omega arith)
