-- ===== src/Scheduling/Recurrence.antt =====
-- A tick of `handleRecurrence` (src/modules/scheduling/recurrence.ts): what it does to the rows
-- that carry a series on.
use mathlib.Core.Path.{subst}
use mathlib.Core.Option as Option
use clawie.Prelude.{
  ◌⊎◌, ℕ, suc, ◌+◌, String, Bool, true, false, ◌&&◌, ◌||◌, List, [], ◌∷◌, ◌++◌, ◌≡◌, refl, sym, ap,
  ◌∙◌, inl, inr, arith, Bool-cases, Option-cases, if-intro, if◌then◌else◌, str_eq, str_eq_iff,
  str_eq_refl, sql_eq, is_some, All, All-select, select, exists, update_where, count, count-append,
  exists-append, false≢true, ◌==◌,
}
use clawie.SessionDb.{MessageIn, InboundDb, has_id, insert_row, next_even_seq}
use clawie.Scheduling.{
  Tick, handle_recurrence, recur_all, recur_one, insert_recurrence, clear_recurrence,
  drop_recurrence, recurrence_row, is_completed_recurring, get_completed_recurring,
}

-- the PRIMARY KEY of messages_in
abbrev pub IsDistinct : List MessageIn → Type 0
IsDistinct [] = Unit
IsDistinct (m ∷ ms) = All (λ n. str_eq n.id m.id ≡ false) ms × IsDistinct ms

-- the rows that carry a series on: a tick clones them once they are completed
abbrev pub carries : String → MessageIn → Bool
carries series m = sql_eq m.series_id series && is_some m.recurrence

abbrev carries_as : String → String → MessageIn → Bool
carries_as series id m = has_id id m && carries series m

ids_apart : (x a b : String) → str_eq a b ≡ false → str_eq x b ≡ true → str_eq x a ≡ false
ids_apart x a b apart e = elim (Bool-cases (str_eq x a)) [
  | inl same ↦ absurd (false≢true (sym apart ∙ rw (sym ((str_eq_iff x a).0 same)) e))
  | inr differ ↦ differ
]

module _ (series : String) where
  count-clear :
      (id : String) (rows : List MessageIn)
      → count (carries series) (update_where (has_id id) drop_recurrence rows)
          + count (carries_as series id) rows
        ≡ count (carries series) rows
  count-clear id [] = refl
  count-clear id (m ∷ ms) = ground (arith, count-clear id ms)

  count-clear_other :
      (id other : String) (rows : List MessageIn)
      → str_eq id other ≡ false
      → count (carries_as series id) (update_where (has_id other) drop_recurrence rows)
        ≡ count (carries_as series id) rows
  count-clear_other id other [] apart = refl
  count-clear_other id other (m ∷ ms) apart =
      ground (arith, ids_apart m.id id other apart, count-clear_other id other ms apart)

  exists-clear :
      (id other : String) (rows : List MessageIn)
      → exists (has_id id) (update_where (has_id other) drop_recurrence rows)
        ≡ exists (has_id id) rows
  exists-clear id other [] = refl
  exists-clear id other (m ∷ ms) = ground (arith, exists-clear id other ms)

  -- A row that the tick has read and not cloned yet is in the table as it was read.
  abbrev IsHeld : List MessageIn → MessageIn → Type 0
  IsHeld rows m =
      (exists (has_id m.id) rows ≡ true)
      × (count (carries_as series m.id) rows ≡ (if carries series m then 1 else 0))

exists-or_none :
    (p q : MessageIn → Bool) (rows : List MessageIn)
    → exists (λ m. p m || q m) rows ≡ false
    → exists p rows ≡ false
exists-or_none p q [] e = refl
exists-or_none p q (m ∷ ms) e = ground (arith, e, exists-or_none p q ms)

-- what a round of the tick does: nothing, or a clone and a clear
abbrev IsRound : MessageIn → List MessageIn → List MessageIn → Type 0
IsRound msg rows rows' =
    (rows' ≡ rows)
    ⊎ ((row : MessageIn) × (rows' ≡ update_where (has_id msg.id) drop_recurrence (rows ++ row ∷ []))
        × (exists (has_id row.id) rows ≡ false)
        × ((series : String) → carries series row ≡ carries series msg))

recur_one-IsRound :
    (tick : Tick) (k : ℕ) (msg : MessageIn) (db : InboundDb)
    → IsRound msg db.messages_in (recur_one tick k msg db).messages_in
unfolding recur_one insert_recurrence insert_row clear_recurrence recurrence_row
recur_one-IsRound tick k msg db = elim (Option-cases (Option.bind msg.recurrence tick.next_run)) [
  | inl e ↦ inl (rw (recur_one, e) refl)
  | inr (next_run, e) ↦
      let prefix = if str_eq msg.kind "task" then "task" else "msg" in
      let seq = next_even_seq db.messages_in in
      let row = recurrence_row tick.now seq msg (tick.new_id prefix k) next_run in
      elim (Bool-cases
        (exists (λ (m : MessageIn). str_eq m.id row.id || m.seq == row.seq) db.messages_in)) [
          | inl taken ↦ inl (rw (recur_one, e, taken) refl)
          | inr free ↦ inr (
            row,
            rw (recur_one, e, free) refl,
            exists-or_none (has_id row.id) (λ m. m.seq == row.seq) db.messages_in free,
            λ series. refl,
          )
        ]
]

-- A clone has an id that no row of the table has.
clone-apart :
    (rows : List MessageIn) (row : MessageIn) (id : String)
    → exists (has_id id) rows ≡ true
    → exists (has_id row.id) rows ≡ false
    → str_eq row.id id ≡ false
clone-apart rows row id present free = elim (Bool-cases (str_eq row.id id)) [
  | inl same ↦ absurd (
      false≢true (
        sym free
        ∙ subst (λ s. exists (has_id s) rows ≡ true) (sym ((str_eq_iff row.id id).0 same)) present))
  | inr differ ↦ differ
]

module _ (series : String) where
  round-count :
      (msg : MessageIn) (rows rows' : List MessageIn)
      → IsHeld series rows msg
      → IsRound msg rows rows'
      → count (carries series) rows' ≡ count (carries series) rows
  round-count msg rows rows' held (inl e) = ap (count (carries series)) e
  round-count msg rows rows' held (inr (row, e, free, same)) =
      ap (count (carries series)) e
      ∙ ground (
        arith,
        count-clear series msg.id (rows ++ row ∷ []),
        count-append (carries series) rows (row ∷ []),
        count-append (carries_as series msg.id) rows (row ∷ []),
        clone-apart rows row msg.id held.0 free,
        same series,
        held.1,
      )

  round-IsHeld :
      (m msg : MessageIn) (rows rows' : List MessageIn)
      → str_eq m.id msg.id ≡ false
      → IsHeld series rows m
      → IsRound msg rows rows'
      → IsHeld series rows' m
  round-IsHeld m msg rows rows' apart held (inl e) = subst (λ r. IsHeld series r m) (sym e) held
  round-IsHeld m msg rows rows' apart held (inr (row, e, free, same)) =
      let table = rows ++ row ∷ [] in
      let cleared = update_where (has_id msg.id) drop_recurrence table in
      let present : exists (has_id m.id) cleared ≡ true =
        exists-clear series m.id msg.id table
        ∙ (exists-append (has_id m.id) rows row ∙ ground (arith, held.0)) in
      let counted : count (carries_as series m.id) cleared ≡ (if carries series m then 1 else 0) =
        ground (
          arith,
          count-clear_other series m.id msg.id table apart,
          count-append (carries_as series m.id) rows (row ∷ []),
          clone-apart rows row m.id held.0 free,
          held.1,
        ) in
      subst (λ r. IsHeld series r m) (sym e) (present, counted)

  rest-IsHeld :
      (msg : MessageIn) (rest rows rows' : List MessageIn)
      → All (λ n. str_eq n.id msg.id ≡ false) rest
      → All (IsHeld series rows) rest
      → IsRound msg rows rows'
      → All (IsHeld series rows') rest
  rest-IsHeld msg [] rows rows' apart held round = tt
  rest-IsHeld msg (n ∷ rest) rows rows' apart held round = (
    round-IsHeld n msg rows rows' apart.0 held.0 round,
    rest-IsHeld msg rest rows rows' apart.1 held.1 round,
  )

  recur_all-count :
      (tick : Tick) (k : ℕ) (rest : List MessageIn) (db : InboundDb)
      → IsDistinct rest
      → All (IsHeld series db.messages_in) rest
      → count (carries series) (recur_all tick k rest db).messages_in
        ≡ count (carries series) db.messages_in
  unfolding recur_all
  recur_all-count tick k [] db distinct held = refl
  recur_all-count tick k (msg ∷ rest) db distinct held =
      let after = recur_one tick k msg db in
      let round = recur_one-IsRound tick k msg db in
      recur_all-count tick (suc k) rest after distinct.1
        (rest-IsHeld msg rest db.messages_in after.messages_in distinct.0 held.1 round)
      ∙ round-count msg db.messages_in after.messages_in held.0 round

  count-apart :
      (m : MessageIn) (ms : List MessageIn)
      → All (λ n. str_eq n.id m.id ≡ false) ms
      → count (carries_as series m.id) ms ≡ 0
  count-apart m [] apart = refl
  count-apart m (n ∷ ms) apart = ground (arith, apart.0, count-apart m ms apart.1)

  IsHeld-later :
      (m : MessageIn) (ms rest : List MessageIn)
      → All (λ n. str_eq n.id m.id ≡ false) rest
      → All (IsHeld series ms) rest
      → All (IsHeld series (m ∷ ms)) rest
  IsHeld-later m ms [] apart held = tt
  IsHeld-later m ms (n ∷ rest) apart held =
      let differ : str_eq m.id n.id ≡ false = ids_apart m.id n.id m.id apart.0 (str_eq_refl m.id) in
      (
        (ground (arith, differ, held.0.0), ground (arith, differ, held.0.1)),
        IsHeld-later m ms rest apart.1 held.1,
      )

  All-IsHeld : (rows : List MessageIn) → IsDistinct rows → All (IsHeld series rows) rows
  All-IsHeld [] distinct = tt
  All-IsHeld (m ∷ ms) distinct = (
    (
      ground (arith, str_eq_refl m.id),
      ground (arith, str_eq_refl m.id, count-apart m ms distinct.0),
    ),
    IsHeld-later m ms ms distinct.0 (All-IsHeld ms distinct.1),
  )

select-IsDistinct :
    (p : MessageIn → Bool) (rows : List MessageIn) → IsDistinct rows → IsDistinct (select p rows)
select-IsDistinct p [] distinct = tt
select-IsDistinct p (m ∷ ms) distinct =
    if-intro IsDistinct (p m)
      (λ _. (
        All-select (λ n. str_eq n.id m.id ≡ false) p ms distinct.0,
        select-IsDistinct p ms distinct.1,
      ))
      (λ _. select-IsDistinct p ms distinct.1)

-- Where the ids of the table differ, a tick leaves the number of rows that carry a series on,
-- whatever the package that computes the next run answers and whatever ids it draws: each clone
-- takes over from the one row that it was made of, and a row that is not cloned keeps its
-- recurrence for the next tick.
pub handle_recurrence-count :
    (series : String) (tick : Tick) (db : InboundDb)
    → IsDistinct db.messages_in
    → count (carries series) (handle_recurrence tick db).messages_in
      ≡ count (carries series) db.messages_in
unfolding handle_recurrence get_completed_recurring
handle_recurrence-count series tick db distinct =
    recur_all-count series tick 0 (select is_completed_recurring db.messages_in) db
      (select-IsDistinct is_completed_recurring db.messages_in distinct)
      (All-select (IsHeld series db.messages_in) is_completed_recurring db.messages_in
        (All-IsHeld series db.messages_in distinct))
