-- ===== src/Sweep/Retries.antt =====
-- What the sweep does to the messages that a container claimed and left behind
-- (`resetStuckProcessingRows` of src/host-sweep.ts).
use native.Mathlib.Nat.{pow-suc}
use clawie.Prelude.{
  ℕ, zero, suc, ◌+◌, ◌*◌, ◌/◌, ◌^◌, ◌≤◌, ◌<◌, String, ◌≡◌, ◌≢◌, refl, sym, ◌∙◌, Bool, true, false,
  ◌&&◌, none, some, List, [], ◌∷◌, arith, str_eq, str_eq_iff, Bool-cases, exists, ap, not,
  Option-cases, inl, inr, find-holds, update_where, leb, find-update_where-none,
  find-update_where_image, find-update_where_same, ◌⊎◌,
}
use clawie.SessionDb.{
  MessageIn, pending, failed, is_status, InboundDb, ProcessingAck, get_message_for_retry,
  mark_message_failed, retry_with_backoff, has_id, set_status, delay_row, instant,
}
use clawie.Sweep.{max_tries, backoff_sec, is_rescheduled, reset_message, reset_messages}

-- a claimed message that the sweep may reset
abbrev is_resettable : String → MessageIn → Bool
is_resettable id m = has_id id m && is_status pending m.status

pow_pos : (n : ℕ) → 1 ≤ 2 ^ n
pow_pos zero = omega arith
pow_pos (suc n) = rw pow-suc (omega (arith, pow_pos n))

backoff_sec_pos : (tries : ℕ) → 1 ≤ backoff_sec tries
unfolding backoff_sec
backoff_sec_pos tries = omega (arith, pow_pos tries)

-- The row that a reset works on, and what it makes of it.
get-has_id :
    (id : String) (db : InboundDb) {m : MessageIn}
    → get_message_for_retry id pending db ≡ some m
    → m.id ≡ id
unfolding get_message_for_retry
get-has_id id db {m} e =
    let h = find-holds (is_resettable id) db.messages_in e in (str_eq_iff m.id id).0 (ground arith)

-- Nothing is left to do for the message: it is not pending, or is put off to the future.
abbrev pub IsSettled : ℕ → String → InboundDb → Type 0
IsSettled now id db =
    (m : MessageIn)
    → get_message_for_retry id pending db ≡ some m
    → is_rescheduled now m.process_after ≡ true

module _ (now : ℕ) where
  settled→same : (id : String) (db : InboundDb) → IsSettled now id db → reset_message now db id ≡ db
  unfolding reset_message
  settled→same id db s = elim (Option-cases (get_message_for_retry id pending db)) [
    | inl e ↦ rw (e, reset_message) refl
    | inr (m, e) ↦ rw (e, reset_message) (rw (s m e) refl)
  ]

  after_failed :
      (id : String) (db : InboundDb)
      → get_message_for_retry id pending (mark_message_failed id db) ≡ none
  unfolding get_message_for_retry mark_message_failed
  after_failed id db =
      find-update_where-none (is_resettable id) (has_id id) (set_status failed) db.messages_in
        (λ m h. ground arith) (λ m h. ground arith)

  after_retry :
      (id : String) (db : InboundDb) (sec : ℕ) {m : MessageIn}
      → get_message_for_retry id pending db ≡ some m
      → get_message_for_retry id pending (retry_with_backoff now id sec db)
        ≡ some (delay_row now sec m)
  unfolding get_message_for_retry retry_with_backoff
  after_retry id db sec e =
      find-update_where_image (is_resettable id) (has_id id) (delay_row now sec) db.messages_in
        (λ m h. refl) (λ m h. ground arith) e

  delayed :
      (sec : ℕ) (m : MessageIn)
      → 1 ≤ sec
      → is_rescheduled now (delay_row now sec m).process_after ≡ true
  unfolding is_rescheduled
  delayed sec m h = ground arith

  -- A pending message that is not put off, and the two things that a reset does to it.
  abbrev IsLeftBehind : String → InboundDb → MessageIn → Type 0
  IsLeftBehind id db m =
      (get_message_for_retry id pending db ≡ some m) × (is_rescheduled now m.process_after ≡ false)

  reset-cases :
      (id : String) (db : InboundDb)
      → (IsSettled now id db × (reset_message now db id ≡ db))
        ⊎ ((m : MessageIn) × IsLeftBehind id db m
            × (max_tries ≤ m.tries)
            × (reset_message now db id ≡ mark_message_failed id db))
        ⊎ ((m : MessageIn) × IsLeftBehind id db m
            × (m.tries < max_tries)
            × (reset_message now db id ≡ retry_with_backoff now id (backoff_sec m.tries) db))
  unfolding reset_message
  reset-cases id db = elim (Option-cases (get_message_for_retry id pending db)) [
    | inl e ↦ inl ((λ m h. cc (e, h)), rw (e, reset_message) refl)
    | inr (m, e) ↦ elim (Bool-cases (is_rescheduled now m.process_after)) [
      | inl later ↦ inl ((λ n h. cc (e, h, later)), rw (e, reset_message) (rw later refl))
      | inr due ↦ elim (Bool-cases (leb max_tries m.tries)) [
        | inl many ↦ inr (
            inl (
              m,
              (e, due),
              ground arith,
              rw (e, reset_message) (rw (due, many) (rw (get-has_id id db e) refl)),
            ))
        | inr few ↦ inr (
            inr (
              m,
              (e, due),
              ground arith,
              rw (e, reset_message) (rw (due, few) (rw (get-has_id id db e) refl)),
            ))
      ]
    ]
  ]

  reset-settles : (id : String) (db : InboundDb) → IsSettled now id (reset_message now db id)
  reset-settles id db = elim (reset-cases id db) [
    | inl (s, e) ↦ rw e s
    | inr (inl (m, left, many, e)) ↦ rw e (λ n h. cc (after_failed id db, h))
    | inr (inr (m, left, few, e)) ↦ rw e (λ n h. cc (
      after_retry id db (backoff_sec m.tries) left.0,
      h,
      delayed (backoff_sec m.tries) m (backoff_sec_pos m.tries),
    ))
  ]

  ids_apart :
      (id other : String) (m : MessageIn)
      → other ≢ id
      → has_id other m ≡ true
      → is_resettable id m ≡ false
  ids_apart id other m ne h = elim (Bool-cases (has_id id m)) [
    | inl e ↦ absurd (ne (sym ((str_eq_iff m.id other).0 h) ∙ (str_eq_iff m.id id).0 e))
    | inr e ↦ rw e refl
  ]

  -- A reset of one message leaves what is found of another.
  other_message :
      (id other : String) (f : MessageIn → MessageIn) (db : InboundDb)
      → ((m : MessageIn) → (f m).id ≡ m.id)
      → other ≢ id
      → get_message_for_retry id pending
          (record db { messages_in = update_where (has_id other) f db.messages_in })
        ≡ get_message_for_retry id pending db
  unfolding get_message_for_retry
  other_message id other f db keep ne =
      find-update_where_same (is_resettable id) (has_id other) f db.messages_in
        (λ m h. ids_apart id other m ne h) (λ m h. ids_apart id other (f m) ne (rw (keep m) h))

  reset-leaves :
      (id other : String) (db : InboundDb)
      → str_eq other id ≡ false
      → get_message_for_retry id pending (reset_message now db other)
        ≡ get_message_for_retry id pending db
  reset-leaves id other db differs =
      let ne : other ≢ id = λ e. cc ((str_eq_iff other id).1 e, differs) in
      elim (reset-cases other db) [
        | inl (_, e) ↦ rw e refl
        | inr (inl (m, left, many, e)) ↦ rw e (
            unfold mark_message_failed in
            other_message id other (set_status failed) db (λ x. refl) ne)
        | inr (inr (m, left, few, e)) ↦ rw e (
            unfold retry_with_backoff in
            other_message id other (delay_row now (backoff_sec m.tries)) db (λ x. refl) ne)
      ]

  reset-keeps_IsSettled :
      (id other : String) (db : InboundDb)
      → IsSettled now id db
      → IsSettled now id (reset_message now db other)
  reset-keeps_IsSettled id other db s = elim (Bool-cases (str_eq other id)) [
    | inl same ↦ rw ((str_eq_iff other id).0 same) (reset-settles id db)
    | inr differs ↦ λ m e. s m (sym (reset-leaves id other db differs) ∙ e)
  ]

  -- A message that is put off is left as it is by every reset.
  reset_message-keeps :
      (id other : String) (db : InboundDb)
      → IsSettled now id db
      → get_message_for_retry id pending (reset_message now db other)
        ≡ get_message_for_retry id pending db
  reset_message-keeps id other db s = elim (Bool-cases (str_eq other id)) [
    | inl same ↦
        rw ((str_eq_iff other id).0 same)
          (ap (get_message_for_retry id pending) (settled→same id db s))
    | inr differs ↦ reset-leaves id other db differs
  ]

  reset_messages-keeps :
      (id : String) (claims : List ProcessingAck) (db : InboundDb)
      → IsSettled now id db
      → get_message_for_retry id pending (reset_messages now claims db)
        ≡ get_message_for_retry id pending db
  unfolding reset_messages
  reset_messages-keeps id [] db s = refl
  reset_messages-keeps id (c ∷ claims) db s =
      reset_messages-keeps id claims (reset_message now db c.message_id)
        (reset-keeps_IsSettled id c.message_id db s)
      ∙ reset_message-keeps id c.message_id db s

  backoff_sec-le : (tries : ℕ) → tries < max_tries → backoff_sec tries ≤ 80
  unfolding backoff_sec
  backoff_sec-le zero h = omega arith
  backoff_sec-le (suc zero) h = omega arith
  backoff_sec-le (suc (suc zero)) h = omega arith
  backoff_sec-le (suc (suc (suc zero))) h = omega arith
  backoff_sec-le (suc (suc (suc (suc zero)))) h = omega arith
  backoff_sec-le (suc (suc (suc (suc (suc n))))) h = absurd (omega arith)

  -- A message that a container left behind is no longer pending once it was tried five times;
  -- before that it stays pending with one more try, and is due after `now`, by 80 seconds at most.
  pub reset_message_lem :
      (id : String) (db : InboundDb) (m : MessageIn)
      → get_message_for_retry id pending db ≡ some m
      → is_rescheduled now m.process_after ≡ false
      → ((max_tries ≤ m.tries)
          × (get_message_for_retry id pending (reset_message now db id) ≡ none))
        ⊎ ((at : ℕ) × (m.tries < max_tries)
            × (get_message_for_retry id pending (reset_message now db id)
                ≡ some (record m { tries = m.tries + 1; process_after = some (instant at) }))
            × (now < at)
            × (at ≤ now + 80000))
  reset_message_lem id db m found due = elim (reset-cases id db) [
    | inl (s, e) ↦ cc (s m found, due)
    | inr (inl (n, left, many, e)) ↦
        inl (omega (arith, tries_same n left.0), rw e (after_failed id db))
    | inr (inr (n, left, few, e)) ↦
        let sec = backoff_sec n.tries in
        inr (
          (now / 1000 + sec) * 1000,
          omega (arith, tries_same n left.0),
          rw e (cc (after_retry id db sec left.0, found, left.0)),
          omega (arith, backoff_sec_pos n.tries),
          omega (arith, backoff_sec-le n.tries few),
        )
  ]
    where
      tries_same :
          (n : MessageIn) → get_message_for_retry id pending db ≡ some n → n.tries ≡ m.tries
      tries_same n e = cc (e, found)

  abbrev pub is_claimed : String → List ProcessingAck → Bool
  is_claimed id claims = exists (λ (c : ProcessingAck). str_eq c.message_id id) claims

  -- what a pass of the sweep makes of a pending message
  abbrev pub IsReset : String → List ProcessingAck → InboundDb → MessageIn → Type 0
  IsReset id claims after m =
      ((is_claimed id claims && not (is_rescheduled now m.process_after) ≡ false)
        × (get_message_for_retry id pending after ≡ some m))
      ⊎ ((is_claimed id claims && not (is_rescheduled now m.process_after) ≡ true)
          × (max_tries ≤ m.tries)
          × (get_message_for_retry id pending after ≡ none))
      ⊎ ((at : ℕ) × (is_claimed id claims && not (is_rescheduled now m.process_after) ≡ true)
          × (m.tries < max_tries)
          × (get_message_for_retry id pending after
              ≡ some (record m { tries = m.tries + 1; process_after = some (instant at) }))
          × (now < at)
          × (at ≤ now + 80000))

  later-IsSettled :
      (id : String) (db : InboundDb) (m : MessageIn)
      → get_message_for_retry id pending db ≡ some m
      → is_rescheduled now m.process_after ≡ true
      → IsSettled now id db
  later-IsSettled id db m found later n e = cc (found, e, later)

  -- A pass of the sweep over the claims of a dead container, whatever they are and in whatever order,
  -- treats each pending message once: it is left as it is where no claim names it or it is put off to
  -- the future; else it is no longer pending if it was tried five times, and before that it stays
  -- pending with one more try, due after `now` by 80 seconds at most, however many claims name it.
  pub reset_messages-IsReset :
      (claims : List ProcessingAck) (db : InboundDb) (id : String) (m : MessageIn)
      → get_message_for_retry id pending db ≡ some m
      → IsReset id claims (reset_messages now claims db) m
  unfolding reset_messages
  reset_messages-IsReset [] db id m found = inl (refl, found)
  reset_messages-IsReset (c ∷ claims) db id m found =
      elim (Bool-cases (is_rescheduled now m.process_after)) [
        | inl later ↦ inl (
          ground (arith, later),
          reset_messages-keeps id (c ∷ claims) db (later-IsSettled id db m found later) ∙ found,
        )
        | inr due ↦ elim (Bool-cases (str_eq c.message_id id)) [
          | inl same ↦ elim (reset_message_lem id db m found due) [
            | inl (many, gone) ↦ inr (inl (ground (arith, same, due), many, kept same ∙ gone))
            | inr (at, few, put_off, after, soon) ↦
                inr (inr (at, ground (arith, same, due), few, kept same ∙ put_off, after, soon))
          ]
          | inr differs ↦ rw (differs) (
              reset_messages-IsReset claims (reset_message now db c.message_id) id m
                (reset-leaves id c.message_id db differs ∙ found))
        ]
      ]
    where
      kept :
          str_eq c.message_id id ≡ true
          → get_message_for_retry id pending
              (reset_messages now claims (reset_message now db c.message_id))
            ≡ get_message_for_retry id pending (reset_message now db id)
      kept same =
          rw ((str_eq_iff c.message_id id).0 same)
            (reset_messages-keeps id claims (reset_message now db id) (reset-settles id db))
