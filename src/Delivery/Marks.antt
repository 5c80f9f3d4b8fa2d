-- ===== src/Delivery/Marks.antt =====
-- The table `delivered` as the set of the ids that were settled, and what settling a message does
-- to it and to the attempts.
use clawie.Prelude.{
  ◌+◌, ◌<◌, String, ◌≡◌, ◌⊎◌, refl, sym, ◌∙◌, Bool, true, false, ◌||◌, inl, inr, Option, List, [],
  ◌∷◌, ◌++◌, map, arith, exists, str_eq, str_eq_iff, str_eq_refl, Bool-cases, leb, if-intro,
}
use clawie.SessionDb.{
  Delivered, InboundDb, get_delivered_ids, insert_delivered, mark_delivered, mark_delivery_failed,
}
use clawie.Delivery.{DeliveryState, Outcome, done, threw, is_listed, settle, max_delivery_attempts}

abbrev pub id_of : Delivered → String
id_of d = d.message_out_id

listed-append :
    (id : String) (ds : List Delivered) (d : Delivered)
    → is_listed (map id_of (ds ++ d ∷ [])) id
      ≡ (is_listed (map id_of ds) id || str_eq d.message_out_id id)
listed-append id [] d = ground arith
listed-append id (x ∷ ds) d = ground (arith, listed-append id ds d)

exists-listed :
    (id : String) (ds : List Delivered)
    → exists (λ (d : Delivered). str_eq d.message_out_id id) ds ≡ is_listed (map id_of ds) id
exists-listed id [] = refl
exists-listed id (x ∷ ds) = ground (arith, exists-listed id ds)

pub insert_delivered-listed :
    (row : Delivered) (db : InboundDb) (id : String)
    → is_listed (get_delivered_ids (insert_delivered row db)) id
      ≡ (is_listed (get_delivered_ids db) id || str_eq row.message_out_id id)
unfolding insert_delivered get_delivered_ids
insert_delivered-listed row db id =
    if-intro
      (λ (d : InboundDb).
        is_listed (map id_of d.delivered) id
        ≡ (is_listed (map id_of db.delivered) id || str_eq row.message_out_id id))
      (exists (λ (d : Delivered). str_eq d.message_out_id row.message_out_id) db.delivered)
      (λ there. elim (Bool-cases (str_eq row.message_out_id id)) [
        | inl e ↦
            let listed : is_listed (map id_of db.delivered) id ≡ true =
              rw (sym ((str_eq_iff row.message_out_id id).0 e))
                (sym (exists-listed row.message_out_id db.delivered) ∙ there) in
            ground (arith, listed)
        | inr e ↦ ground (arith, e)
      ])
      (λ absent. listed-append id db.delivered row)

pub mark_delivered-listed :
    (id other : String) (p : Option String) (db : InboundDb)
    → is_listed (get_delivered_ids (mark_delivered other p db)) id
      ≡ (is_listed (get_delivered_ids db) id || str_eq other id)
unfolding mark_delivered
mark_delivered-listed id other p db = insert_delivered-listed _ db id

pub mark_delivery_failed-listed :
    (id other : String) (db : InboundDb)
    → is_listed (get_delivered_ids (mark_delivery_failed other db)) id
      ≡ (is_listed (get_delivered_ids db) id || str_eq other id)
unfolding mark_delivery_failed
mark_delivery_failed-listed id other db = insert_delivered-listed _ db id

or_false : (a : Bool) {b : Bool} → b ≡ false → (a || b) ≡ a
or_false a h = ground (arith, h)

or_true : (a : Bool) {b : Bool} → b ≡ true → (a || b) ≡ true
or_true a h = ground (arith, h)

-- Settling a message leaves what is known of the others.
pub settle-other :
    (id other : String) (s : DeliveryState) (outcome : Outcome)
    → str_eq other id ≡ false
    → (is_listed (get_delivered_ids (settle other s outcome).inbound) id
        ≡ is_listed (get_delivered_ids s.inbound) id)
      × ((settle other s outcome).attempts id ≡ s.attempts id)
unfolding settle
settle-other id other s (done p) ne = (
  mark_delivered-listed id other p s.inbound
      ∙ or_false (is_listed (get_delivered_ids s.inbound) id) ne,
  rw ne refl,
)
settle-other id other s threw ne =
    if-intro
      (λ (t : DeliveryState).
        (is_listed (get_delivered_ids t.inbound) id ≡ is_listed (get_delivered_ids s.inbound) id)
        × (t.attempts id ≡ s.attempts id))
      (leb max_delivery_attempts (s.attempts other + 1))
      (λ _. (
        mark_delivery_failed-listed id other s.inbound
            ∙ or_false (is_listed (get_delivered_ids s.inbound) id) ne,
        rw ne refl,
      ))
      (λ _. (refl, rw ne refl))

-- A message is settled, or is left for another attempt, of which it has fewer than three.
abbrev pub IsRetried : String → DeliveryState → DeliveryState → Type 0
IsRetried id s t =
    (is_listed (get_delivered_ids t.inbound) id ≡ is_listed (get_delivered_ids s.inbound) id)
    × (t.attempts id ≡ s.attempts id + 1)
    × (s.attempts id + 1 < max_delivery_attempts)

settle_self :
    (id : String) (s : DeliveryState) (outcome : Outcome)
    → (is_listed (get_delivered_ids (settle id s outcome).inbound) id ≡ true)
      ⊎ IsRetried id s (settle id s outcome)
unfolding settle
settle_self id s (done p) = inl (
    mark_delivered-listed id id p s.inbound
    ∙ or_true (is_listed (get_delivered_ids s.inbound) id) (str_eq_refl id))
settle_self id s threw =
    if-intro
      (λ (t : DeliveryState).
        (is_listed (get_delivered_ids t.inbound) id ≡ true) ⊎ IsRetried id s t)
      (leb max_delivery_attempts (s.attempts id + 1))
      (λ _. inl (
        mark_delivery_failed-listed id id s.inbound
        ∙ or_true (is_listed (get_delivered_ids s.inbound) id) (str_eq_refl id)))
      (λ few. inr (refl, rw (str_eq_refl id) refl, ground (arith, few)))

-- Settling a message settles it, or leaves it for another attempt.
pub settle-own :
    (id other : String) (s : DeliveryState) (outcome : Outcome)
    → str_eq other id ≡ true
    → (is_listed (get_delivered_ids (settle other s outcome).inbound) id ≡ true)
      ⊎ IsRetried id s (settle other s outcome)
settle-own id other s outcome own = rw ((str_eq_iff other id).0 own) (settle_self id s outcome)
