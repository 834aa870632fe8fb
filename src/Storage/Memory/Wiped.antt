-- ===== src/Storage/Memory/Wiped.antt =====
-- No secret is dropped from memory unwiped.
use xv.Prelude.{
  ℕ, suc, ◌+◌, ◌≡◌, refl, Option, none, some, List, [], ◌∷◌, arith, length, replicate, All,
}
use xv.Prelude.Text.{Text, Bytes}
use xv.Platform.{TextCodec}
use xv.Security.SecureString.{reveal, new_secure, SecureString, destroy_leaves_zeros}
use xv.Storage.Memory.{
  identifier, get_session_mnemonic, clear_session_pin, set_session_mnemonic, clear_session,
  destroy_secret, Memory, Action, act, run, empty, set_session_pin, set_mnemonic, set_pin,
  ask_mnemonic, clear, clear_pin,
}
use xv.Security.Session.{start_session, record_activity, end_session}

-- Both arrays hold zeros only.
pub record IsWiped (s : SecureString) : Type 0 where
  masked_zeros : (n : ℕ) × (s.masked ≡ replicate n 0)
  key_zeros : (n : ℕ) × (s.key ≡ replicate n 0)

abbrev pub number_of : Option SecureString → ℕ
number_of none = 0
number_of (some s) = 1

-- The secrets that the variables hold and those that are gone.
abbrev pub secrets : Memory → ℕ
secrets m = number_of m.session_mnemonic + number_of m.session_pin_secure + length m.destroyed

-- The secrets that the calls create.
abbrev pub created : List Action → ℕ
created [] = 0
created (set_mnemonic key id_bytes now0 now1 mnemonic on_expire ∷ l) = suc (created l)
created (set_pin key pin ∷ l) = suc (created l)
created (_ ∷ l) = created l

created-cons : (a : Action) (l : List Action) → created (a ∷ l) ≡ created (a ∷ []) + created l
created-cons (set_mnemonic key id_bytes now0 now1 mnemonic on_expire) l = omega arith
created-cons (set_pin key pin) l = omega arith
created-cons (ask_mnemonic now0 now1) l = omega arith
created-cons clear l = omega arith
created-cons clear_pin l = omega arith

-- A reading leaves as many secrets, and none that is gone unwiped.
abbrev Accounted : Memory → Memory × Option Text → Type 0
Accounted m r = (secrets r.0 ≡ secrets m) × All IsWiped r.0.destroyed

module _ (codec : TextCodec) where
  destroy_secret-IsWiped :
      (for_masked for_key : ℕ → Bytes) (s : Option SecureString) (gone : List SecureString)
      → ((n : ℕ) → length (for_masked n) ≡ n)
      → ((n : ℕ) → length (for_key n) ≡ n)
      → All IsWiped gone
      → (left : List SecureString) × (destroy_secret for_masked for_key s gone ≡ some left)
        × (length left ≡ number_of s + length gone)
        × All IsWiped left
  unfolding destroy_secret
  destroy_secret-IsWiped for_masked for_key none gone hm hk h = (gone, refl, omega arith, h)
  destroy_secret-IsWiped for_masked for_key (some s) gone hm hk h =
      let (t, e, m, k, _) =
        destroy_leaves_zeros (for_masked (length s.masked)) (for_key (length s.key)) s
          (hm (length s.masked)) (hk (length s.key)) in
      (t ∷ gone, rw e refl, omega arith, (record { masked_zeros = (_, m); key_zeros = (_, k) }, h))

  clear_session-IsWiped :
      (draw : ℕ → ℕ → Bytes) (m : Memory)
      → ((k n : ℕ) → length (draw k n) ≡ n)
      → All IsWiped m.destroyed
      → (gone : List SecureString) × (clear_session draw m
          ≡ some (record {
            session_mnemonic = none;
            session_id = none;
            session_pin_secure = none;
            session = end_session m.session;
            destroyed = gone;
          }))
        × (length gone ≡ secrets m)
        × All IsWiped gone
  unfolding clear_session
  clear_session-IsWiped draw m fits h =
      let (g, e, n, w) =
        destroy_secret-IsWiped (draw 0) (draw 1) m.session_mnemonic m.destroyed (fits 0) (fits 1)
          h in
      let (g', e', n', w') =
        destroy_secret-IsWiped (draw 2) (draw 3) m.session_pin_secure g (fits 2) (fits 3) w in
      (g', rw (e, e') refl, omega (arith, n, n'), w')

  read-accounts :
      (now0 now1 : ℕ) (m : Memory)
      → All IsWiped m.destroyed
      → Accounted m (get_session_mnemonic codec now0 now1 m)
  unfolding get_session_mnemonic
  read-accounts now0 now1 m h = by_case m.session_mnemonic m.session_id
    where
      by_case :
          (held : Option SecureString) (id : Option Text)
          → Accounted m (elim held [
            | none ↦ (m, none)
            | some s ↦ elim id [
              | none ↦ (m, none)
              | some i ↦ (
                record m { session = record_activity now0 now1 m.session },
                some (reveal codec s),
              )
            ]
          ])
      by_case none id = (refl, h)
      by_case (some s) none = (refl, h)
      by_case (some s) (some i) = (refl, h)

  act-accounts :
      (draw : ℕ → ℕ → Bytes) (a : Action) (m : Memory)
      → ((k n : ℕ) → length (draw k n) ≡ n)
      → All IsWiped m.destroyed
      → (m' : Memory) × (act codec draw a m ≡ some m')
        × (secrets m' ≡ created (a ∷ []) + secrets m)
        × All IsWiped m'.destroyed
  unfolding act set_session_mnemonic set_session_pin clear_session_pin
  act-accounts draw (set_mnemonic key id_bytes now0 now1 mnemonic on_expire) m fits h =
      let (g, e, n, w) = clear_session-IsWiped draw m fits h in
      let s = start_session now0 now1 id_bytes on_expire (end_session m.session) in
      (
        record {
          session_mnemonic = some (new_secure codec key mnemonic);
          session_id = identifier s;
          session_pin_secure = none;
          session = s;
          destroyed = g;
        },
        rw e refl,
        omega (arith, n),
        w,
      )
  act-accounts draw (ask_mnemonic now0 now1) m fits h =
      let (n, w) = read-accounts now0 now1 m h in (_, refl, omega (arith, n), w)
  act-accounts draw clear m fits h =
      let (g, e, n, w) = clear_session-IsWiped draw m fits h in (_, e, omega (arith, n), w)
  act-accounts draw (set_pin key pin) m fits h =
      let (g, e, n, w) =
        destroy_secret-IsWiped (draw 0) (draw 1) m.session_pin_secure m.destroyed (fits 0) (fits 1)
          h in
      (
        record m { session_pin_secure = some (new_secure codec key pin); destroyed = g },
        rw e refl,
        omega (arith, n),
        w,
      )
  act-accounts draw clear_pin m fits h =
      let (g, e, n, w) =
        destroy_secret-IsWiped (draw 0) (draw 1) m.session_pin_secure m.destroyed (fits 0) (fits 1)
          h in
      (record m { session_pin_secure = none; destroyed = g }, rw e refl, omega (arith, n), w)

  run-accounts :
      (draw : ℕ → ℕ → Bytes) (actions : List Action) (m : Memory)
      → ((k n : ℕ) → length (draw k n) ≡ n)
      → All IsWiped m.destroyed
      → (m' : Memory) × (run codec draw actions m ≡ some m')
        × (secrets m' ≡ created actions + secrets m)
        × All IsWiped m'.destroyed
  unfolding run
  run-accounts draw [] m fits h = (m, refl, omega arith, h)
  run-accounts draw (a ∷ actions) m fits h =
      let (m1, e1, n1, w1) = act-accounts draw a m fits h in
      let (m2, e2, n2, w2) = run-accounts (λ k. draw (4 + k)) actions m1 (λ k. fits (4 + k)) w1 in
      (m2, rw e1 e2, omega (arith, n1, n2, created-cons a actions), w2)

  -- From empty memory, with random arrays of the lengths that are asked for, no sequence of calls
  -- fails, every secret that was created is still held or is gone, and those that are gone were
  -- overwritten with zeros, the text and its key.
  pub no_secret_is_dropped_unwiped :
      (draw : ℕ → ℕ → Bytes) (actions : List Action)
      → ((k n : ℕ) → length (draw k n) ≡ n)
      → (m : Memory) × (run codec draw actions empty ≡ some m)
        × (number_of m.session_mnemonic + number_of m.session_pin_secure + length m.destroyed
            ≡ created actions)
        × All IsWiped m.destroyed
  no_secret_is_dropped_unwiped draw actions fits =
      let (m, e, n, w) = run-accounts draw actions empty fits tt in (m, e, omega (arith, n), w)
