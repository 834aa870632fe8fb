-- ===== src/Screens/Guarded.antt =====
-- What holds of a run of events when only certain events reach the network.
use xv.Prelude.{List, [], ◌∷◌, ◌≡◌, ◌∙◌, refl, ◌⊎◌, inl, inr}

module _ {S E : Type 0} (after : E → S → S) where
  unfoldable pub run_events : List E → S → S
  run_events [] s = s
  run_events (e ∷ es) s = run_events es (after e s)

  module _ (Opens : E → S → Type 0) where
    -- An event of the run was of the kind, in the state that it met.
    pub data OpenedIn : List E → S → Type 0 where
      opened_now : (e : E) (es : List E) (s : S) → Opens e s → OpenedIn (e ∷ es) s
      opened_later : (e : E) (es : List E) (s : S) → OpenedIn es (after e s) → OpenedIn (e ∷ es) s

    pub quiet_or_opened :
        {T : Type 0} (view : S → T)
        → ((e : E) (s : S) → (view (after e s) ≡ view s) ⊎ Opens e s)
        → (es : List E) (s : S) → (view (run_events es s) ≡ view s) ⊎ OpenedIn es s
    unfolding run_events
    quiet_or_opened view one [] s = inl refl
    quiet_or_opened view one (e ∷ es) s = elim (quiet_or_opened view one es (after e s)) [
      | inr opened ↦ inr (opened_later e es s opened)
      | inl quiet ↦ elim (one e s) [
        | inr opens ↦ inr (opened_now e es s opens)
        | inl same ↦ inl (quiet ∙ same)
      ]
    ]
