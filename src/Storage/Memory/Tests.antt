-- ===== src/Storage/Memory/Tests.antt =====
-- Session secrets at small sizes.
use xv.Prelude.{ℕ, ◌+◌, ◌≡◌, some, List, [], ◌∷◌, length, replicate, length-replicate, All}
use xv.Prelude.Text.{Bytes, codes}
use xv.Platform.Samples.{one_byte}
use xv.Storage.Memory.{Memory, Action, set_mnemonic, ask_mnemonic, set_pin, clear, empty, run}
use xv.Storage.Memory.Wiped.{no_secret_is_dropped_unwiped, number_of, created, IsWiped}

abbrev counting : ℕ → ℕ → Bytes
counting k n = replicate n (k + 1)

abbrev a_day : List Action
a_day =
    set_mnemonic (1 ∷ 2 ∷ []) (3 ∷ []) 10 11 (codes "zoo") 1
    ∷ set_pin (9 ∷ []) (codes "271828")
    ∷ ask_mnemonic 20 21
    ∷ set_pin (8 ∷ []) (codes "314159")
    ∷ clear
    ∷ []

no_secret_is_dropped_unwiped_example :
    (m : Memory) × (run one_byte counting a_day empty ≡ some m)
    × (number_of m.session_mnemonic + number_of m.session_pin_secure + length m.destroyed
        ≡ created a_day)
    × All IsWiped m.destroyed
no_secret_is_dropped_unwiped_example =
    no_secret_is_dropped_unwiped one_byte counting a_day
      (λ k n. length-replicate {0} {A = ℕ} n (k + 1))
