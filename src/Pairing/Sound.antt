-- ===== src/Pairing/Sound.antt =====
-- The pending pairings of src/channels/telegram-pairing.ts over any run of its operations.
use mathlib.Core.Path.{subst}
use mathlib.Core.Option as Option
use mathlib.Core.Option.{some-injective}
use clawie.Prelude.{
  ℕ, ◌≤◌, String, Bool, true, false, Option, none, some, List, [], ◌∷◌, ◌++◌, ◌≡◌, refl, ap, inl,
  inr, arith, Bool-cases, if-intro, str_eq, str_eq_iff, exists, is_some, find, count, count-append,
  count-absent, count-drop-le, count-update_where-le, count-update_where-zero,
  count-update_first-le, length, leb, update_where, update_first, take, ◌-◌, false≢true,
}
use clawie.Pairing.{
  PairingRecord, PairingIntent, main_chat, wire_to, new_agent, intent_equals, is_pending, pends,
  pends_for, sweep, store_limit, superseded, invalidate, add_record, generate_code, create_pairing,
  code_of_draw, new_record,
}
use clawie.Pairing.Consume.{
  ConsumeInput, extract_code, consume_match, consume_code, try_consume, consume, miss, pends_at_all,
}

intent_equals-eq : (a b : PairingIntent) → intent_equals a b ≡ true → a ≡ b
intent_equals-eq main_chat main_chat h = refl
intent_equals-eq main_chat (wire_to b) h = cc
intent_equals-eq main_chat (new_agent b) h = cc
intent_equals-eq (wire_to a) main_chat h = cc
intent_equals-eq (wire_to a) (wire_to b) h = ap wire_to ((str_eq_iff a b).0 h)
intent_equals-eq (wire_to a) (new_agent b) h = cc
intent_equals-eq (new_agent a) main_chat h = cc
intent_equals-eq (new_agent a) (wire_to b) h = cc
intent_equals-eq (new_agent a) (new_agent b) h = ap new_agent ((str_eq_iff a b).0 h)

-- No two pending pairings share a code, or an intent.
pub record IsSound (pairings : List PairingRecord) : Type 0 where
  pub codes : (c : String) → count (pends c) pairings ≤ 1
  pub intents : (i : PairingIntent) → count (pends_for i) pairings ≤ 1

count-sweep-le :
    (p : PairingRecord → Bool) (store : List PairingRecord) → count p (sweep store) ≤ count p store
unfolding sweep
count-sweep-le p store =
    if-intro (λ kept. count p kept ≤ count p store) (leb (length store) store_limit)
      (λ _. omega arith) (λ _. count-drop-le p (length store - store_limit) store)

pub sweep-IsSound : {store : List PairingRecord} → IsSound store → IsSound (sweep store)
sweep-IsSound {store} sound = record {
  codes = λ c. omega (arith, count-sweep-le (pends c) store, sound.codes c);
  intents = λ i. omega (arith, count-sweep-le (pends_for i) store, sound.intents i);
}

-- Ending pending pairings keeps the rest apart.
module _ (q : PairingRecord → Bool) (f : PairingRecord → PairingRecord)
    (ends : (r : PairingRecord) → is_pending (f r).status ≡ false) where
  update_where-IsSound :
      {pairings : List PairingRecord} → IsSound pairings → IsSound (update_where q f pairings)
  update_where-IsSound {pairings} sound = record {
    codes = λ c. omega (
      arith,
      sound.codes c,
      count-update_where-le (pends c) q f pairings (λ r _ e. ground (arith, ends r, e)),
    );
    intents = λ i. omega (
      arith,
      sound.intents i,
      count-update_where-le (pends_for i) q f pairings (λ r _ e. ground (arith, ends r, e)),
    );
  }

  update_first-IsSound :
      {pairings : List PairingRecord} → IsSound pairings → IsSound (update_first q f pairings)
  update_first-IsSound {pairings} sound = record {
    codes = λ c. omega (
      arith,
      sound.codes c,
      count-update_first-le (pends c) q f pairings (λ r e. ground (arith, ends r, e)),
    );
    intents = λ i. omega (
      arith,
      sound.intents i,
      count-update_first-le (pends_for i) q f pairings (λ r e. ground (arith, ends r, e)),
    );
  }

superseded-none :
    (intent : PairingIntent) (pairings : List PairingRecord)
    → count (pends_for intent) (superseded intent pairings) ≡ 0
superseded-none intent pairings =
    count-update_where-zero (pends_for intent) (pends_for intent) invalidate pairings (λ r _. refl)
      (λ r e. e)

generate_code-free :
    (draws : List ℕ) (pairings : List PairingRecord) (c : String)
    → generate_code draws pairings ≡ some c
    → exists (pends c) pairings ≡ false
unfolding generate_code
generate_code-free [] pairings c e = ground (arith, e)
generate_code-free (draw ∷ draws) pairings c e =
    if-intro (λ (o : Option String). o ≡ some c → exists (pends c) pairings ≡ false)
      (exists (pends (code_of_draw draw)) pairings) (λ _ e'. generate_code-free draws pairings c e')
      (λ free e'. subst (λ s. exists (pends s) pairings ≡ false) (some-injective _ _ e') free) e

add_record-IsSound :
    (intent : PairingIntent) (now : ℕ) (pairings : List PairingRecord) (c : String)
    → IsSound pairings
    → count (pends_for intent) pairings ≡ 0
    → count (pends c) pairings ≡ 0
    → IsSound (add_record intent now pairings c).0
add_record-IsSound intent now pairings c sound no_intent no_code =
    let r = new_record c intent now in
    record {
      codes = λ d. elim (Bool-cases (str_eq c d)) [
        | inl e ↦
            subst (λ s. count (pends s) (pairings ++ r ∷ []) ≤ 1) ((str_eq_iff c d).0 e)
              (ground (arith, count-append (pends c) pairings (r ∷ []), no_code))
        | inr e ↦ ground (arith, count-append (pends d) pairings (r ∷ []), sound.codes d, e)
      ];
      intents = λ i. elim (Bool-cases (intent_equals intent i)) [
        | inl e ↦
            subst (λ j. count (pends_for j) (pairings ++ r ∷ []) ≤ 1) (intent_equals-eq intent i e)
              (ground (arith, count-append (pends_for intent) pairings (r ∷ []), no_intent))
        | inr e ↦ ground (arith, count-append (pends_for i) pairings (r ∷ []), sound.intents i, e)
      ];
    }

created-IsSound :
    (intent : PairingIntent) (now : ℕ) (pairings : List PairingRecord) (o : Option String)
    {after : List PairingRecord × PairingRecord}
    → IsSound pairings
    → count (pends_for intent) pairings ≡ 0
    → ((c : String) → o ≡ some c → exists (pends c) pairings ≡ false)
    → Option.map (add_record intent now pairings) o ≡ some after
    → IsSound after.0
created-IsSound intent now pairings none sound no_intent free e = absurd (false≢true (ap is_some e))
created-IsSound intent now pairings (some c) sound no_intent free e =
    subst (λ (a : List PairingRecord × PairingRecord). IsSound a.0) (some-injective _ _ e)
      (add_record-IsSound intent now pairings c sound no_intent
        (count-absent (pends c) pairings (free c refl)))

create_pairing-IsSound :
    (intent : PairingIntent) (now : ℕ) (draws : List ℕ) (store : List PairingRecord)
    {after : List PairingRecord × PairingRecord}
    → IsSound store
    → create_pairing intent now draws store ≡ some after
    → IsSound after.0
unfolding create_pairing
create_pairing-IsSound intent now draws store sound e =
    let pairings = superseded intent (sweep store) in
    created-IsSound intent now pairings (generate_code (take 50 draws) pairings)
      (update_where-IsSound (pends_for intent) invalidate (λ r. refl) (sweep-IsSound sound))
      (superseded-none intent (sweep store)) (generate_code-free (take 50 draws) pairings) e

consume_match-IsSound :
    (input : ConsumeInput) (now : ℕ) (c : String) (pairings : List PairingRecord)
    (found : Option PairingRecord)
    → IsSound pairings
    → IsSound (consume_match input now c pairings found).0
unfolding consume_match
consume_match-IsSound input now c pairings none sound =
    update_where-IsSound pends_at_all (miss input c now) (λ r. refl) sound
consume_match-IsSound input now c pairings (some r) sound =
    update_first-IsSound (pends c) (consume input c now) (λ r. refl) sound

consume_code-IsSound :
    (input : ConsumeInput) (now : ℕ) (store : List PairingRecord) (o : Option String)
    → IsSound store
    → IsSound (consume_code input now store o).0
unfolding consume_code
consume_code-IsSound input now store none sound = sound
consume_code-IsSound input now store (some c) sound =
    consume_match-IsSound input now c (sweep store) (find (pends c) (sweep store))
      (sweep-IsSound sound)

-- the operations under the lock, in any order
pub data Step (store : List PairingRecord) : List PairingRecord → Type 0 where
  create :
      (intent : PairingIntent) (now : ℕ) (draws : List ℕ) {after : List PairingRecord}
      {r : PairingRecord}
      → create_pairing intent now draws store ≡ some (after, r)
      → Step store after
  message :
      (input : ConsumeInput) (now : ℕ) {after : List PairingRecord}
      → (try_consume input now store).0 ≡ after
      → Step store after

pub data Reach : List PairingRecord → Type 0 where
  start : Reach []
  later : {store after : List PairingRecord} → Reach store → Step store after → Reach after

Step-IsSound : {store after : List PairingRecord} → Step store after → IsSound store → IsSound after
unfolding try_consume
Step-IsSound {store} (create intent now draws e) sound =
    create_pairing-IsSound intent now draws store sound e
Step-IsSound {store} (message input now e) sound =
    subst IsSound e
      (consume_code-IsSound input now store (extract_code input.words input.bot_username) sound)

-- In every store that requests and messages reach from the empty one, no two pending pairings share
-- a code, and no two are for the same intent.
pub Reach-IsSound : (store : List PairingRecord) → Reach store → IsSound store
Reach-IsSound _ start = record { codes = λ c. omega arith; intents = λ i. omega arith }
Reach-IsSound _ (later {store} reached step) = Step-IsSound step (Reach-IsSound store reached)
