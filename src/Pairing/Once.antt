-- ===== src/Pairing/Once.antt =====
-- What a message does to the pairings of src/channels/telegram-pairing.ts, and which record the
-- setup finds for a new code.
use mathlib.Core.Path.{subst}
use mathlib.Core.List.{Memᴰ}
use clawie.Prelude.{
  ℕ, ◌+◌, ◌≤◌, String, Bool, true, false, ◌&&◌, Option, none, some, List, [], ◌∷◌, ◌++◌, ◌≡◌, refl,
  sym, ap, ◌∙◌, arith, str_eq_iff, exists, is_some, find, find-append, find-holds, count,
  count-update_where-zero, count-update_first, length, leb, update_first, false≢true,
  length-update_where, length-append, find-update_where_other, exists-update_where, ◌⊎◌, inl, inr,
  str_eq, if-intro, find-Memᴰ,
}
use clawie.Pairing.{
  PairingRecord, PairingIntent, consumed, is_pending, pends, pends_for, has_code, sweep,
  store_limit, superseded, invalidate, generate_code, create_pairing, code_of_draw, new_record,
  PairingStatus, pending, invalidated, unknown,
}
use clawie.Pairing.Consume.{
  ConsumeInput, extract_code, consume_match, consume_code, try_consume, consume, miss, pends_at_all,
  get_pairing,
}
use clawie.Pairing.Sound.{IsSound, sweep-IsSound}

and_right : (a b : Bool) → (a && b) ≡ true → b ≡ true
and_right a b h = ground arith

and_left : (a b : Bool) → (a && b) ≡ true → a ≡ true
and_left a b h = ground arith

-- what a message that is accepted did: the record that it consumed was pending with its code
pub record IsConsumed (input : ConsumeInput) (now : ℕ) (store after : List PairingRecord)
    (r : PairingRecord) : Type 0 where
  pub old : PairingRecord
  pub kept : Memᴰ old (sweep store)
  pub was_pending : old.status ≡ pending
  pub coded : extract_code input.words input.bot_username ≡ some old.pairing_code
  pub same : r ≡ consume input old.pairing_code now old
  pub is_consumed : r.status ≡ consumed
  pub spent : count (pends old.pairing_code) after ≡ 0

-- what a message did, by what it was given back
abbrev pub IsPaired :
    ConsumeInput → ℕ → List PairingRecord → List PairingRecord × Option PairingRecord → Type 0
IsPaired input now store (after, none) =
    (extract_code input.words input.bot_username ≡ none)
    ⊎ ((c : String) × (extract_code input.words input.bot_username ≡ some c)
        × (count (λ (p : PairingRecord). str_eq p.pairing_code c && is_pending p.status)
              (sweep store)
            ≡ 0))
IsPaired input now store (after, some r) = IsConsumed input now store after r

pending_status : (status : PairingStatus) → is_pending status ≡ true → status ≡ pending
pending_status pending h = refl
pending_status consumed h = absurd (false≢true h)
pending_status invalidated h = absurd (false≢true h)
pending_status unknown h = absurd (false≢true h)

find-none : (p : PairingRecord → Bool) (xs : List PairingRecord) → find p xs ≡ none → count p xs ≡ 0
find-none p [] e = refl
find-none p (x ∷ xs) e =
    if-intro (λ (o : Option PairingRecord). o ≡ none → count p (x ∷ xs) ≡ 0) (p x)
      (λ _ e'. absurd (false≢true (sym (ap is_some e'))))
      (λ f e'. ground (arith, f, find-none p xs e')) e

consume_match-IsPaired :
    (input : ConsumeInput) (now : ℕ) (c : String) (store : List PairingRecord)
    (found : Option PairingRecord)
    → extract_code input.words input.bot_username ≡ some c
    → IsSound (sweep store)
    → find (pends c) (sweep store) ≡ found
    → IsPaired input now store (consume_match input now c (sweep store) found)
unfolding consume_match
consume_match-IsPaired input now c store none e sound there =
    inr (c, e, find-none (pends c) (sweep store) there)
consume_match-IsPaired input now c store (some r) e sound there =
    let holds = find-holds (pends c) (sweep store) there in
    let named : r.pairing_code ≡ c = (str_eq_iff r.pairing_code c).0 (and_left _ _ holds) in
    let one_less =
      count-update_first (pends c) (consume input c now) (sweep store) (λ x. ground arith)
        (ap is_some there) in
    record {
      old = r;
      kept = find-Memᴰ (pends c) (sweep store) r there;
      was_pending = pending_status r.status (and_right _ _ holds);
      coded = e ∙ ap some (sym named);
      same = ap (λ s. consume input s now r) (sym named);
      is_consumed = refl;
      spent =
          subst
            (λ s. count (pends s) (update_first (pends c) (consume input c now) (sweep store)) ≡ 0)
            (sym named) (omega (arith, one_less, sound.codes c));
    }

consume_code-IsPaired :
    (input : ConsumeInput) (now : ℕ) (store : List PairingRecord) (o : Option String)
    → extract_code input.words input.bot_username ≡ o
    → IsSound store
    → IsPaired input now store (consume_code input now store o)
unfolding consume_code
consume_code-IsPaired input now store none e sound = inl e
consume_code-IsPaired input now store (some c) e sound =
    consume_match-IsPaired input now c store (find (pends c) (sweep store)) e (sweep-IsSound sound)
      refl

-- A message is paired exactly if it is, but for the bot's name, the code of a pending pairing that is
-- kept. Then that record is consumed by the message, and its code matches no message any more.
pub try_consume-IsPaired :
    (input : ConsumeInput) (now : ℕ) (store : List PairingRecord)
    → IsSound store
    → IsPaired input now store (try_consume input now store)
unfolding try_consume
try_consume-IsPaired input now store sound =
    consume_code-IsPaired input now store (extract_code input.words input.bot_username) refl sound

consume_match-missed :
    (input : ConsumeInput) (now : ℕ) (c : String) (pairings : List PairingRecord)
    (found : Option PairingRecord)
    → (consume_match input now c pairings found).1 ≡ none
    → count pends_at_all (consume_match input now c pairings found).0 ≡ 0
unfolding consume_match
consume_match-missed input now c pairings none e =
    count-update_where-zero pends_at_all pends_at_all (miss input c now) pairings (λ r _. refl)
      (λ r e'. e')
consume_match-missed input now c pairings (some r) e = absurd (false≢true (ap is_some (sym e)))

consume_code-missed :
    (input : ConsumeInput) (now : ℕ) (store : List PairingRecord) (o : Option String) (c : String)
    → o ≡ some c
    → (consume_code input now store o).1 ≡ none
    → count pends_at_all (consume_code input now store o).0 ≡ 0
unfolding consume_code
consume_code-missed input now store none c e missed = absurd (false≢true (ap is_some e))
consume_code-missed input now store (some d) c e missed =
    consume_match-missed input now d (sweep store) (find (pends d) (sweep store)) missed

-- A message that is a code, but not that of a pending pairing, ends all that are pending: nobody
-- guesses twice.
pub try_consume-missed :
    (input : ConsumeInput) (now : ℕ) (store : List PairingRecord) (c : String)
    → extract_code input.words input.bot_username ≡ some c
    → (try_consume input now store).1 ≡ none
    → count pends_at_all (try_consume input now store).0 ≡ 0
unfolding try_consume
try_consume-missed input now store c e missed =
    consume_code-missed input now store (extract_code input.words input.bot_username) c e missed

-- The first record of a code that was used before stays the first after a request.
superseded-old :
    (intent : PairingIntent) (c : String) (pairings : List PairingRecord) (old : PairingRecord)
    → find (has_code c) pairings ≡ some old
    → is_pending old.status ≡ false
    → find (has_code c) (superseded intent pairings) ≡ some old
superseded-old intent c pairings old e used =
    find-update_where_other (has_code c) (pends_for intent) invalidate pairings (λ r. refl) e
      (rw used refl)

superseded-free :
    (intent : PairingIntent) (c : String) (pairings : List PairingRecord)
    → exists (pends c) pairings ≡ false
    → exists (pends c) (superseded intent pairings) ≡ false
superseded-free intent c pairings e =
    exists-update_where (pends c) (pends_for intent) invalidate pairings (λ r. ground arith) e

-- A code is drawn that no pending pairing has, while the setup looks its record up by the code
-- alone: where fewer than 50 records are kept, one of them, used before, has the code drawn, and
-- none is pending with it, the request succeeds, and the setup finds the old record for the new
-- code.
pub create_pairing-stale :
    (intent : PairingIntent) (now draw : ℕ) (draws : List ℕ) (store : List PairingRecord)
    (old : PairingRecord)
    → length store + 1 ≤ store_limit
    → find (has_code (code_of_draw draw)) store ≡ some old
    → is_pending old.status ≡ false
    → exists (pends (code_of_draw draw)) store ≡ false
    → (after : List PairingRecord) × (create_pairing intent now (draw ∷ draws) store
        ≡ some (after, new_record (code_of_draw draw) intent now))
      × (get_pairing (code_of_draw draw) after ≡ some old)
unfolding create_pairing sweep generate_code get_pairing
create_pairing-stale intent now draw draws store old room e used free =
    let c = code_of_draw draw in
    let r = new_record c intent now in
    let pairings = superseded intent store in
    let kept : leb (length store) store_limit ≡ true = ground (arith, room) in
    let fits : leb (length (pairings ++ r ∷ [])) store_limit ≡ true = ground (
      arith,
      room,
      length-append pairings (r ∷ []),
      length-update_where (pends_for intent) invalidate store,
    ) in
    let found : find (has_code c) (pairings ++ r ∷ []) ≡ some old =
      find-append (has_code c) pairings r ∙ rw (superseded-old intent c store old e used) refl in
    (pairings ++ r ∷ [], rw (kept, superseded-free intent c store free) refl, rw fits found)
