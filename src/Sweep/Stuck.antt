-- ===== src/Sweep/Stuck.antt =====
-- When the sweep kills a running container (`decideStuckAction` of src/host-sweep.ts).
use clawie.Prelude.{
  Option-cases, Bool-cases, leb, ltb, sym, ◌∙◌, inl, inr, ℕ, ◌-◌, ◌≤◌, ◌<◌, max, String, ◌≡◌, ◌≢◌,
  ◌↔◌, ◌⊎◌, refl, Option, some, List, [], ◌∷◌, arith, All, or_else, ◌==◌,
}
use mathlib.Core.List.{Memᴰ}
use clawie.SessionDb.{ProcessingAck, ContainerState}
use clawie.Sweep.{
  leave, kill_ceiling, kill_claim, parse_stamp, absolute_ceiling_ms, claim_stuck_ms,
  bash_timeout_ms, first_stuck_claim, decide_stuck_action,
}

-- The claim is older than the tolerance, and no heartbeat came after it.
abbrev pub IsSilent : ℕ → ℕ → ℕ → ProcessingAck → Type 0
IsSilent now heartbeat tolerance claim =
    (at : ℕ) × (parse_stamp claim.status_changed ≡ some at)
    × (tolerance < now - at)
    × (heartbeat ≤ at)

module _ (now heartbeat tolerance : ℕ) where
  -- A claim is silent and named by the decision, or is passed over.
  claim-cases :
      (c : ProcessingAck) (claims : List ProcessingAck)
      → ((age : ℕ) × IsSilent now heartbeat tolerance c
          × (first_stuck_claim now heartbeat tolerance (c ∷ claims)
              ≡ kill_claim c.message_id age tolerance))
        ⊎ ((¬ IsSilent now heartbeat tolerance c)
            × (first_stuck_claim now heartbeat tolerance (c ∷ claims)
                ≡ first_stuck_claim now heartbeat tolerance claims))
  unfolding first_stuck_claim
  claim-cases c claims = elim (Option-cases (parse_stamp c.status_changed)) [
    | inl unread ↦ inr ((λ s. cc (unread, s.1)), rw (unread, first_stuck_claim) refl)
    | inr (at, read) ↦ elim (Bool-cases (leb (now - at) tolerance)) [
      | inl young ↦ inr ((λ s. ground arith), rw (read, young, first_stuck_claim) refl)
      | inr old ↦ elim (Bool-cases (ltb at heartbeat)) [
        | inl alive ↦ inr ((λ s. ground arith), rw (read, old, alive, first_stuck_claim) refl)
        | inr still ↦ inl (
          now - at,
          (at, read, ground arith, ground arith),
          rw (read, old, still, first_stuck_claim) refl,
        )
      ]
    ]
  ]

  leave→none-IsSilent :
      (claims : List ProcessingAck)
      → first_stuck_claim now heartbeat tolerance claims ≡ leave
      → All (λ c. ¬ IsSilent now heartbeat tolerance c) claims
  leave→none-IsSilent [] h = tt
  leave→none-IsSilent (c ∷ claims) h = elim (claim-cases c claims) [
    | inl (age, s, e) ↦ cc (e, h)
    | inr (n, e) ↦ (n, leave→none-IsSilent claims (sym e ∙ h))
  ]

  none_silent→leave :
      (claims : List ProcessingAck)
      → All (λ c. ¬ IsSilent now heartbeat tolerance c) claims
      → first_stuck_claim now heartbeat tolerance claims ≡ leave
  unfolding first_stuck_claim
  none_silent→leave [] h = refl
  none_silent→leave (c ∷ claims) h = elim (claim-cases c claims) [
    | inl (age, s, e) ↦ absurd (h.0 s)
    | inr (n, e) ↦ e ∙ none_silent→leave claims h.1
  ]

  first_stuck_claim-kills :
      (claims : List ProcessingAck) {id : String} {age tol : ℕ}
      → first_stuck_claim now heartbeat tolerance claims ≡ kill_claim id age tol
      → (c : ProcessingAck) × Memᴰ c claims
        × IsSilent now heartbeat tolerance c
        × (c.message_id ≡ id)
  unfolding first_stuck_claim
  first_stuck_claim-kills [] h = cc
  first_stuck_claim-kills (c ∷ claims) h = elim (claim-cases c claims) [
    | inl (age, s, e) ↦ (c, Memᴰ.head refl, s, cc (e, h))
    | inr (n, e) ↦
        let (d, m, s, same) = first_stuck_claim-kills claims (sym e ∙ h) in
        (d, Memᴰ.tail m, s, same)
  ]

  first_stuck_claim-ne-ceiling :
      (claims : List ProcessingAck) (age ceiling : ℕ)
      → first_stuck_claim now heartbeat tolerance claims ≢ kill_ceiling age ceiling
  unfolding first_stuck_claim
  first_stuck_claim-ne-ceiling [] age ceiling h = cc
  first_stuck_claim-ne-ceiling (c ∷ claims) age ceiling h = elim (claim-cases c claims) [
    | inl (a, s, e) ↦ cc (e, h)
    | inr (n, e) ↦ first_stuck_claim-ne-ceiling claims age ceiling (sym e ∙ h)
  ]

abbrev pub tolerance_of : Option ContainerState → ℕ
tolerance_of state = max claim_stuck_ms (or_else (bash_timeout_ms state) 0)

abbrev pub ceiling_of : Option ContainerState → ℕ
ceiling_of state = max absolute_ceiling_ms (or_else (bash_timeout_ms state) 0)

-- The heartbeat file is there and older than the ceiling.
abbrev pub IsPastCeiling : ℕ → ℕ → Option ContainerState → Type 0
IsPastCeiling now heartbeat state = (heartbeat ≢ 0) × (ceiling_of state < now - heartbeat)

module _ (now heartbeat : ℕ) (state : Option ContainerState) (claims : List ProcessingAck) where
  ceiling-cases :
      (IsPastCeiling now heartbeat state
        × (decide_stuck_action now heartbeat state claims
            ≡ kill_ceiling (now - heartbeat) (ceiling_of state)))
      ⊎ ((¬ IsPastCeiling now heartbeat state)
          × (decide_stuck_action now heartbeat state claims
              ≡ first_stuck_claim now heartbeat (tolerance_of state) claims))
  unfolding decide_stuck_action
  ceiling-cases = elim (Bool-cases (heartbeat == 0)) [
    | inl absent ↦ inr ((λ p. p.0 (ground arith)), rw (absent, decide_stuck_action) refl)
    | inr there ↦ elim (Bool-cases (ltb (ceiling_of state) (now - heartbeat))) [
      | inl over ↦
          inl (((λ e. ground arith), ground arith), rw (there, over, decide_stuck_action) refl)
      | inr under ↦ inr ((λ p. ground arith), rw (there, under, decide_stuck_action) refl)
    ]
  ]

  -- The sweep leaves a running container alone exactly when its heartbeat, if there is one, is
  -- within the ceiling and no claim is silent past the tolerance, both limits widened to the
  -- timeout that a running Bash declared.
  pub decide_stuck_action-leave_iff : (decide_stuck_action now heartbeat state claims ≡ leave) ↔ (
      (¬ IsPastCeiling now heartbeat state)
      × All (λ c. ¬ IsSilent now heartbeat (tolerance_of state) c) claims)
  decide_stuck_action-leave_iff = elim ceiling-cases [
    | inl (p, e) ↦ ((λ h. cc (e, h)), λ h. absurd (h.0 p))
    | inr (n, e) ↦ (
      (λ h. (n, leave→none-IsSilent now heartbeat (tolerance_of state) claims (sym e ∙ h))),
      λ h. e ∙ none_silent→leave now heartbeat (tolerance_of state) claims h.1,
    )
  ]

  -- A container that is killed for a claim has, within the ceiling, a claim of that message which
  -- is silent past the tolerance.
  pub decide_stuck_action-kill_claim :
      (id : String) (age tol : ℕ)
      → decide_stuck_action now heartbeat state claims ≡ kill_claim id age tol
      → (¬ IsPastCeiling now heartbeat state)
        × ((c : ProcessingAck) × Memᴰ c claims
            × IsSilent now heartbeat (tolerance_of state) c
            × (c.message_id ≡ id))
  decide_stuck_action-kill_claim id age tol h = elim ceiling-cases [
    | inl (p, e) ↦ cc (e, h)
    | inr (n, e) ↦
        (n, first_stuck_claim-kills now heartbeat (tolerance_of state) claims (sym e ∙ h))
  ]
