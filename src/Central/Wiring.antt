-- ===== src/Central/Wiring.antt =====
-- Wiring an agent group to a chat: the names that `createMessagingGroupAgent` of
-- src/db/messaging-groups.ts tries for the destination differ, so its loop ends.
use Prim.Native.String.{◌++◌ as str_append}
use text.Mathlib.TextLemmas.{append_cancel_left, append-nil, cons≢nil, cons-append}
use mathlib.Core.Path.{subst}
use mathlib.Core.Option.{some-injective}
use clawie.Prelude.{
  ℕ, zero, suc, ◌+◌, ◌<◌, ◌≤◌, String, Bool, true, false, Option, none, some, List, [], ◌∷◌, ◌++◌,
  ◌≡◌, refl, sym, ap, ◌∙◌, inl, inr, arith, false≢true, ltb, ◌⊎◌, Bool-cases, Option-cases,
  if-intro, exists, length, is_some, str_eq_iff, str_eq_refl, exists-append, pigeons,
}
use clawie.Central.{
  CentralDb, MessagingGroup, MessagingGroupAgent, AgentDestination, channel, agent, TargetType,
  is_target, display_name, candidate, free_name, is_named, destinations, wire_destination,
  create_destination, create_messaging_group_agent, is_refused, has_destination, is_targeting,
  with_wiring, get_messaging_group,
}
use clawie.Central.Names.{normalize_name}
use clawie.Central.Decimal.{decimal-injective}

dash-append-ne : (s : String) → str_append "-" s ≡ "" → ⊥
dash-append-ne s e = cons≢nil (sym (cons-append "-" "" s) ∙ e)

dash-append_cancel : (s t : String) → str_append "-" s ≡ str_append "-" t → s ≡ t
dash-append_cancel s t e = append_cancel_left "-" s t e

base-ne : (base : String) (k : ℕ) → candidate base zero ≡ candidate base (suc k) → ⊥
unfolding candidate
base-ne base k e = dash-append-ne _ (sym (append_cancel_left base "" _ (append-nil base ∙ e)))

numbered :
    (base : String) (i j : ℕ) → candidate base (suc i) ≡ candidate base (suc j) → suc i ≡ suc j
unfolding candidate
numbered base i j e = omega (
  arith,
  decimal-injective (i + 2) (j + 2) (dash-append_cancel _ _ (append_cancel_left base _ _ e)),
)

-- The names that the loop tries are all different.
candidate-injective : (base : String) (i j : ℕ) → candidate base i ≡ candidate base j → i ≡ j
candidate-injective base zero zero e = refl
candidate-injective base zero (suc j) e = absurd (base-ne base j e)
candidate-injective base (suc i) zero e = absurd (base-ne base i (sym e))
candidate-injective base (suc i) (suc j) e = numbered base i j e

nat_cases : (k i : ℕ) → k ≤ i → (k ≡ i) ⊎ (suc k ≤ i)
nat_cases k i h = elim (Bool-cases (ltb k i)) [
  | inl less ↦ inr (ground (arith, less))
  | inr least ↦ inl (ground (arith, least, h))
]

some-ne-none : (name : String) → some name ≡ none → ⊥
some-ne-none name e = false≢true (sym (ap is_some e))

free_name-none :
    (fuel k : ℕ) (taken : String → Bool) (base : String)
    → free_name fuel k taken base ≡ none
    → (i : ℕ) → k ≤ i
    → i < k + fuel
    → taken (candidate base i) ≡ true
unfolding free_name
free_name-none zero k taken base e i h h' = absurd (omega (arith, h, h'))
free_name-none (suc fuel) k taken base e i h h' =
    if-intro (λ (o : Option String). o ≡ none → taken (candidate base i) ≡ true)
      (taken (candidate base k))
      (λ full e'. elim (nat_cases k i h) [
        | inl same ↦ subst (λ n. taken (candidate base n) ≡ true) same full
        | inr above ↦ free_name-none fuel (suc k) taken base e' i above (omega (arith, h'))
      ])
      (λ _ e'. absurd (some-ne-none (candidate base k) e')) e

free_name-free :
    (fuel k : ℕ) (taken : String → Bool) (base name : String)
    → free_name fuel k taken base ≡ some name
    → taken name ≡ false
unfolding free_name
free_name-free zero k taken base name e = ground (arith, e)
free_name-free (suc fuel) k taken base name e =
    if-intro (λ o. o ≡ some name → taken name ≡ false) (taken (candidate base k))
      (λ _ e'. free_name-free fuel (suc k) taken base name e')
      (λ free e'. subst (λ s. taken s ≡ false) (some-injective _ _ e') free) e

named-apart :
    (group base : String) (i j : ℕ) (d : AgentDestination)
    → is_named group (candidate base i) d ≡ true
    → is_named group (candidate base j) d ≡ true
    → i ≡ j
named-apart group base i j d e e' = candidate-injective base i j (
    sym ((str_eq_iff d.local_name (candidate base i)).0 (ground (arith, e)))
    ∙ (str_eq_iff d.local_name (candidate base j)).0 (ground (arith, e')))

-- One more name than there are rows suffices.
free_name-some :
    (group base : String) (rows : List AgentDestination)
    → (name : String) × (free_name
          (suc (length rows))
          0
          (λ name. exists (is_named group name) rows)
          base
        ≡ some name)
      × (exists (is_named group name) rows ≡ false)
free_name-some group base rows =
    let taken = λ (name : String). exists (is_named group name) rows in
    elim (Option-cases (free_name (suc (length rows)) 0 taken base)) [
      | inl e ↦
          let full : suc (length rows) ≤ length rows =
            pigeons (λ i. is_named group (candidate base i)) (named-apart group base)
              (suc (length rows)) rows
              (λ i h.
                free_name-none (suc (length rows)) 0 taken base e i (omega arith)
                  (omega (arith, h))) in
          absurd (omega (arith, full))
      | inr (name, e) ↦ (name, e, free_name-free _ 0 taken base name e)
    ]

is_target_self : (t : TargetType) → is_target t t ≡ true
is_target_self channel = refl
is_target_self agent = refl

targets_self :
    (row : AgentDestination)
    → is_targeting row.agent_group_id row.target_type row.target_id row ≡ true
targets_self row =
    rw (str_eq_refl row.agent_group_id, str_eq_refl row.target_id, is_target_self row.target_type)
      refl

create_destination-row :
    (row : AgentDestination) (db : CentralDb)
    → exists (is_named row.agent_group_id row.local_name) (destinations db) ≡ false
    → (after : CentralDb) × (create_destination row db ≡ some after)
      × (after.messaging_group_agents ≡ db.messaging_group_agents)
      × (has_destination row.agent_group_id row.target_type row.target_id after ≡ true)
unfolding create_destination has_destination
create_destination-row row db free = (
  record db { agent_destinations = some (destinations db ++ row ∷ []) },
  rw free refl,
  refl,
  exists-append (is_targeting row.agent_group_id row.target_type row.target_id) (destinations db)
        row
      ∙ ground (arith, targets_self row),
)

wire_destination-row :
    (mga : MessagingGroupAgent) (mg : MessagingGroup) (db : CentralDb)
    → (after : CentralDb) × (wire_destination mga mg db ≡ some after)
      × (after.messaging_group_agents ≡ db.messaging_group_agents)
      × (has_destination mga.agent_group_id channel mga.messaging_group_id after ≡ true)
unfolding wire_destination
wire_destination-row mga mg db =
    let (name, e, free) =
      free_name-some mga.agent_group_id (normalize_name (display_name mg mga.messaging_group_id))
        (destinations db) in
    rw (e, wire_destination)
      (create_destination-row
        (record {
          agent_group_id = mga.agent_group_id;
          local_name = name;
          target_type = channel;
          target_id = mga.messaging_group_id;
          created_at = mga.created_at;
        })
        db free)

has_with_wiring :
    (mga : MessagingGroupAgent) (db : CentralDb)
    → has_destination mga.agent_group_id channel mga.messaging_group_id db ≡ true
    → has_destination mga.agent_group_id channel mga.messaging_group_id (with_wiring mga db) ≡ true
unfolding has_destination
has_with_wiring mga db has = has

-- A wiring that the table's constraints accept is always made, where the destinations are kept:
-- the loop that looks for a free destination name finds one, whatever names are taken, the wiring
-- is the one row added to its table, and the agent group then has the chat as a destination.
pub create_messaging_group_agent-wires :
    (mga : MessagingGroupAgent) (db : CentralDb)
    → is_refused mga db ≡ false
    → is_some db.agent_destinations ≡ true
    → (after : CentralDb) × (create_messaging_group_agent mga db ≡ some after)
      × (after.messaging_group_agents ≡ db.messaging_group_agents ++ mga ∷ [])
      × (has_destination mga.agent_group_id channel mga.messaging_group_id after ≡ true)
unfolding create_messaging_group_agent
create_messaging_group_agent-wires mga db accepted kept =
    elim (Bool-cases (has_destination mga.agent_group_id channel mga.messaging_group_id db)) [
      | inl has ↦
          (with_wiring mga db, rw (accepted, kept, has) refl, refl, has_with_wiring mga db has)
      | inr lacks ↦ elim (Option-cases (get_messaging_group mga.messaging_group_id db)) [
        | inl e ↦ absurd (false≢true (sym (ground (arith, ap is_some e, accepted))))
        | inr (mg, e) ↦
            let (after, wired, agents, has) = wire_destination-row mga mg (with_wiring mga db) in
            (after, rw (accepted, kept, lacks, e) wired, agents, has)
      ]
    ]
