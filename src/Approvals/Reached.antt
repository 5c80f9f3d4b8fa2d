-- ===== src/Approvals/Reached.antt =====
-- Whom src/modules/approvals/primitive.ts finds a chat for: `pickApprovalDelivery`.
use clawie.Prelude.{
  ℕ, String, Bool, true, Option, none, some, List, [], ◌∷◌, ◌≡◌, refl, inl, inr, ◌⊎◌, arith,
  if-intro, str_eq, str_eq_refl, is_one_of,
}
use clawie.Central.{MessagingGroup}
use clawie.UserDm.{DirectChats, Platforms, ensure_user_dm}
use clawie.Approvals.{
  Target, or_others, or_all, first_reachable, pick_approval_delivery, channel_type_of,
}

module _ (a b : Platforms) (now : ℕ) (approvers : List String) where
  -- The chats after approvers were tried one after the other, none of whom was reached.
  pub data Tries : DirectChats → DirectChats → Type 0 where
    untried : (start : DirectChats) → Tries start start
    tried :
        (start before after : DirectChats) (platforms : Platforms) (user_id : String)
        → Tries start before
        → (platforms ≡ a) ⊎ (platforms ≡ b)
        → is_one_of approvers user_id ≡ true
        → ensure_user_dm platforms now user_id before ≡ some (after, none)
        → Tries start after

  -- An approver whose chat was found, in one loop or the other, by the chats that the tries of others
  -- had left.
  pub record IsReached (start after : DirectChats) (user_id : String) (mg : MessagingGroup)
      : Type 0 where
    pub listed : is_one_of approvers user_id ≡ true
    pub platforms : Platforms
    pub own : (platforms ≡ a) ⊎ (platforms ≡ b)
    pub before : DirectChats
    pub tries : Tries start before
    pub found : ensure_user_dm platforms now user_id before ≡ some (after, some mg)

  abbrev pub Reaches : DirectChats → Target → Type 0
  Reaches start none = Unit
  Reaches start (some (chats, none)) = Tries start chats
  Reaches start (some (chats, some (user_id, mg))) = IsReached start chats user_id mg

  or_others-Reaches :
      (platforms : Platforms) (user_id : String) (start chats : DirectChats)
      (rest : DirectChats → Target) (o : Option (DirectChats × Option MessagingGroup))
      → (platforms ≡ a) ⊎ (platforms ≡ b)
      → is_one_of approvers user_id ≡ true
      → Tries start chats
      → ((chats' : DirectChats) → Tries start chats' → Reaches start (rest chats'))
      → ensure_user_dm platforms now user_id chats ≡ o
      → Reaches start (or_others user_id rest o)
  or_others-Reaches platforms user_id start chats rest none own listed tries later e = tt
  or_others-Reaches platforms user_id start chats rest (some (chats', none)) own listed tries later
        e =
      later chats' (tried start chats chats' platforms user_id tries own listed e)
  or_others-Reaches platforms user_id start chats rest (some (chats', some mg)) own listed tries
        later e =
      record {
        listed = listed;
        platforms = platforms;
        own = own;
        before = chats;
        tries = tries;
        found = e;
      }

  first_reachable-Reaches :
      (platforms : Platforms) (wanted : String → Bool) (users : List String)
      (start chats : DirectChats)
      → (platforms ≡ a) ⊎ (platforms ≡ b)
      → ((u : String) → is_one_of users u ≡ true → is_one_of approvers u ≡ true)
      → Tries start chats
      → Reaches start (first_reachable platforms now wanted users chats)
  unfolding first_reachable
  first_reachable-Reaches platforms wanted [] start chats own within tries = tries
  first_reachable-Reaches platforms wanted (user_id ∷ others) start chats own within tries =
      let rest = first_reachable platforms now wanted others in
      let later : (chats' : DirectChats) → Tries start chats' → Reaches start (rest chats') =
        λ chats' tries'.
          first_reachable-Reaches platforms wanted others start chats' own
            (λ u h. within u (ground (arith, h))) tries' in
      if-intro (Reaches start) (wanted user_id)
        (λ _.
          or_others-Reaches platforms user_id start chats rest
            (ensure_user_dm platforms now user_id chats) own
            (within user_id (ground (arith, str_eq_refl user_id))) tries later refl)
        (λ _. later chats tries)

  or_all-Reaches :
      (start : DirectChats) (all : DirectChats → Target) (t : Target)
      → ((chats : DirectChats) → Tries start chats → Reaches start (all chats))
      → Reaches start t
      → Reaches start (or_all all t)
  or_all-Reaches start all none h own = tt
  or_all-Reaches start all (some (chats, none)) h own = h chats own
  or_all-Reaches start all (some (chats, some found)) h own = own

  pub pick_approval_delivery-Reaches :
      (origin : String) (chats : DirectChats)
      → Reaches chats (pick_approval_delivery a b now approvers origin chats)
  unfolding pick_approval_delivery
  pick_approval_delivery-Reaches origin chats =
      let near : String → Bool = λ u. str_eq (channel_type_of u) origin in
      let all : (chats' : DirectChats)
          → Tries chats chats'
          → Reaches chats (first_reachable b now (λ u. true) approvers chats') =
        λ chats' tries.
          first_reachable-Reaches b (λ u. true) approvers chats chats' (inr refl) (λ u h. h)
            tries in
      if-intro (Reaches chats) (str_eq origin "") (λ _. all chats (untried chats))
        (λ _.
          or_all-Reaches chats (first_reachable b now (λ u. true) approvers)
            (first_reachable a now near approvers chats) all
            (first_reachable-Reaches a near approvers chats chats (inl refl) (λ u h. h)
              (untried chats)))
