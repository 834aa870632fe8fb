-- ===== src/Storage/Memory.antt =====
-- The session secrets of wallet-extension/src/core/storage.secure.ts: the mnemonic and the PIN, masked
-- in memory, and the session that they belong to. A random draw is a function of the number of the
-- call and of the length that is asked for.
pub mod Wiped
mod Tests
use xv.Prelude.{length, ◌+◌, ℕ, Option, none, some, List, [], ◌∷◌}
use xv.Prelude.Text.{Text, Bytes}
use xv.Prelude.Optional.{◌>>=◌}
use xv.Platform.{TextCodec}
use xv.Security.SecureString.{SecureString, new_secure, reveal, destroy}
use xv.Security.Session.{Session, init, start_session, end_session, record_activity}

-- `destroyed` keeps the objects that the variables pointed to before, as they are when they are left
-- to the garbage collector.
pub record Memory : Type 0 where
  pub session_mnemonic : Option SecureString
  pub session_id : Option Text
  pub session_pin_secure : Option SecureString
  pub session : Session
  pub destroyed : List SecureString

abbrev pub empty : Memory
empty = record {
  session_mnemonic = none;
  session_id = none;
  session_pin_secure = none;
  session = init;
  destroyed = [];
}

-- if (secret) { secret.destroy(); secret = null; }
unfoldable pub destroy_secret :
    (ℕ → Bytes) → (ℕ → Bytes) → Option SecureString → List SecureString → Option (List SecureString)
destroy_secret for_masked for_key none gone = some gone
destroy_secret for_masked for_key (some s) gone = do
  t ← destroy (for_masked (length s.masked)) (for_key (length s.key)) s
  some (t ∷ gone)

unfoldable pub clear_session : (ℕ → ℕ → Bytes) → Memory → Option Memory
unfolding destroy_secret
clear_session draw m = do
  gone ← destroy_secret (draw 0) (draw 1) m.session_mnemonic m.destroyed
  all_gone ← destroy_secret (draw 2) (draw 3) m.session_pin_secure gone
  some (record {
    session_mnemonic = none;
    session_id = none;
    session_pin_secure = none;
    session = end_session m.session;
    destroyed = all_gone;
  })

-- The identifier that `startSession` returns.
abbrev pub identifier : Session → Option Text
identifier s = elim s.current [ none ↦ none | some c ↦ some c.session_id ]

-- `key` is what `randomBytes` gave the constructor, and `id_bytes` the session's identifier.
unfoldable pub set_session_mnemonic :
    TextCodec → (ℕ → ℕ → Bytes) → Bytes → Bytes → ℕ → ℕ → Text → ℕ → Memory → Option Memory
unfolding clear_session
set_session_mnemonic codec draw key id_bytes now0 now1 mnemonic on_expire m = do
  cleared ← clear_session draw m
  let session = start_session now0 now1 id_bytes on_expire cleared.session
  some (record cleared {
    session_mnemonic = some (new_secure codec key mnemonic);
    session_id = identifier session;
    session = session;
  })

unfoldable pub get_session_mnemonic : TextCodec → ℕ → ℕ → Memory → Memory × Option Text
get_session_mnemonic codec now0 now1 m = elim m.session_mnemonic [
  | none ↦ (m, none)
  | some s ↦ elim m.session_id [
    | none ↦ (m, none)
    | some id ↦ (record m { session = record_activity now0 now1 m.session }, some (reveal codec s))
  ]
]

unfoldable pub set_session_pin : TextCodec → (ℕ → ℕ → Bytes) → Bytes → Text → Memory → Option Memory
unfolding destroy_secret
set_session_pin codec draw key pin m = do
  gone ← destroy_secret (draw 0) (draw 1) m.session_pin_secure m.destroyed
  some (record m { session_pin_secure = some (new_secure codec key pin); destroyed = gone })

unfoldable pub get_session_pin : TextCodec → Memory → Option Text
get_session_pin codec m = elim m.session_pin_secure [ none ↦ none | some s ↦ some (reveal codec s) ]

unfoldable pub clear_session_pin : (ℕ → ℕ → Bytes) → Memory → Option Memory
unfolding destroy_secret
clear_session_pin draw m = do
  gone ← destroy_secret (draw 0) (draw 1) m.session_pin_secure m.destroyed
  some (record m { session_pin_secure = none; destroyed = gone })

-- A call of the module, with what it is given.
pub data Action : Type 0 where
  set_mnemonic : Bytes → Bytes → ℕ → ℕ → Text → ℕ → Action
  ask_mnemonic : ℕ → ℕ → Action
  clear : Action
  set_pin : Bytes → Text → Action
  clear_pin : Action

unfoldable pub act : TextCodec → (ℕ → ℕ → Bytes) → Action → Memory → Option Memory
unfolding set_session_mnemonic get_session_mnemonic clear_session set_session_pin clear_session_pin
act codec draw (set_mnemonic key id_bytes now0 now1 mnemonic on_expire) m =
    set_session_mnemonic codec draw key id_bytes now0 now1 mnemonic on_expire m
act codec draw (ask_mnemonic now0 now1) m = some (get_session_mnemonic codec now0 now1 m).0
act codec draw clear m = clear_session draw m
act codec draw (set_pin key pin) m = set_session_pin codec draw key pin m
act codec draw clear_pin m = clear_session_pin draw m

-- A call draws at most four times.
unfoldable pub run : TextCodec → (ℕ → ℕ → Bytes) → List Action → Memory → Option Memory
unfolding act
run codec draw [] m = some m
run codec draw (a ∷ actions) m = act codec draw a m >>= run codec (λ k. draw (4 + k)) actions
