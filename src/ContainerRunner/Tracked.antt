-- ===== src/ContainerRunner/Tracked.antt =====
-- What src/container-runner.ts keeps of the containers of a session, and the changes that keep it
-- true.
use clawie.Prelude.{
  ℕ, ◌+◌, ◌-◌, ◌≤◌, String, Bool, true, false, none, some, zero, suc, List, [], ◌∷◌, ◌≡◌, refl, sym,
  ◌∙◌, arith, str_eq, str_eq_iff, str_eq_refl, false≢true, count,
}
use clawie.SessionManager.{set_at}
use clawie.ContainerRunner.{Runner, preparing, settling, remove_first}

abbrev pub is_of : String → String → Bool
is_of id other = str_eq other id

-- how many processes of a session are alive
abbrev pub processes : String → Runner → ℕ
processes id r = count (is_of id) r.live

-- how many spawns of a session are under way
abbrev pub spawns : String → Runner → ℕ
spawns id r = count (is_of id) r.spawning

-- The map of active containers covers the processes alive, one to a session. One spawn at most is
-- under way, and where there is one, its promise is in the map and no container is active.
pub record IsTracked (r : Runner) (id : String) : Type 0 where
  pub one : processes id r ≤ 1
  pub covered : r.active_containers id ≡ false → processes id r ≡ 0
  pub single : spawns id r ≤ 1
  pub promised : 1 ≤ spawns id r → r.wake_promises id ≡ some preparing
  pub awaited : 1 ≤ spawns id r → r.active_containers id ≡ false

abbrev pub IsSafe : Runner → Type 0
IsSafe r = (id : String) → IsTracked r id

pub set_at-same {ℓ} : {A : Type ℓ} (f : String → A) (id : String) (x : A) → set_at f id x id ≡ x
set_at-same f id x = rw (str_eq_refl id) refl

pub set_at-other {ℓ} :
    {A : Type ℓ} (f : String → A) (id other : String) (x : A)
    → str_eq id other ≡ false
    → set_at f id x other ≡ f other
set_at-other f id other x e = rw e refl

pub count-remove_same :
    (id : String) (ids : List String)
    → count (is_of id) (remove_first id ids) ≡ count (is_of id) ids - 1
count-remove_same id [] = refl
count-remove_same id (x ∷ xs) = ground (arith, count-remove_same id xs)

pub count-remove_other :
    (id other : String) (ids : List String)
    → str_eq id other ≡ false
    → count (is_of other) (remove_first id ids) ≡ count (is_of other) ids
count-remove_other id other [] e = refl
count-remove_other id other (x ∷ xs) e = ground (
  arith,
  str_eq_iff x id,
  str_eq_iff x other,
  str_eq_iff id other,
  e,
  count-remove_other id other xs e,
)

-- what the events may do to one session, the other being left as it was
pub data Change (r : Runner) : Runner → String → Type 0 where
  unchanged :
      {t : Runner} {id : String}
      → processes id t ≡ processes id r
      → spawns id t ≡ spawns id r
      → t.active_containers id ≡ r.active_containers id
      → t.wake_promises id ≡ r.wake_promises id
      → Change r t id
  prepared :
      {t : Runner} {id : String}
      → processes id t ≡ processes id r
      → spawns id t ≡ spawns id r + 1
      → t.active_containers id ≡ r.active_containers id
      → t.wake_promises id ≡ some preparing
      → r.active_containers id ≡ false
      → r.wake_promises id ≡ none
      → Change r t id
  spawned :
      {t : Runner} {id : String}
      → processes id t ≡ processes id r + 1
      → spawns id t ≡ spawns id r - 1
      → 1 ≤ spawns id r
      → t.active_containers id ≡ true
      → Change r t id
  gave_up :
      {t : Runner} {id : String}
      → processes id t ≡ processes id r
      → spawns id t ≡ spawns id r - 1
      → t.active_containers id ≡ r.active_containers id
      → Change r t id
  resolved :
      {t : Runner} {id : String}
      → processes id t ≡ processes id r
      → spawns id t ≡ spawns id r
      → t.active_containers id ≡ r.active_containers id
      → r.wake_promises id ≡ some settling
      → Change r t id
  ended :
      {t : Runner} {id : String}
      → processes id t ≡ processes id r - 1
      → spawns id t ≡ spawns id r
      → t.active_containers id ≡ false
      → t.wake_promises id ≡ r.wake_promises id
      → Change r t id

-- no spawn is under way without its promise
none_under_way :
    {r : Runner} {id : String}
    → IsTracked r id
    → (r.wake_promises id ≡ some preparing → ⊥)
    → spawns id r ≡ 0
none_under_way {r} {id} s absent = by_count (spawns id r) refl
  where
    by_count : (n : ℕ) → spawns id r ≡ n → n ≡ 0
    by_count zero e = refl
    by_count (suc n) e = absurd (absent (s.promised (omega (arith, e))))

pub Change-IsTracked :
    {r t : Runner} {id : String} → Change r t id → IsTracked r id → IsTracked t id
Change-IsTracked (unchanged p q a w) s = record {
  one = omega (arith, p, s.one);
  covered = λ e. p ∙ s.covered (sym a ∙ e);
  single = omega (arith, q, s.single);
  promised = λ h. w ∙ s.promised (omega (arith, q, h));
  awaited = λ h. a ∙ s.awaited (omega (arith, q, h));
}
Change-IsTracked (prepared p q a w off free) s =
    let zero_before = none_under_way s (λ e. cc (free, e)) in
    record {
      one = omega (arith, p, s.one);
      covered = λ e. p ∙ s.covered (sym a ∙ e);
      single = omega (arith, q, zero_before);
      promised = λ h. w;
      awaited = λ h. a ∙ off;
    }
Change-IsTracked (spawned p q under a) s = record {
  one = omega (arith, p, s.covered (s.awaited under));
  covered = λ e. absurd (false≢true (sym e ∙ a));
  single = omega (arith, q, s.single);
  promised = λ h. absurd (omega (arith, q, h, s.single));
  awaited = λ h. absurd (omega (arith, q, h, s.single));
}
Change-IsTracked (gave_up p q a) s = record {
  one = omega (arith, p, s.one);
  covered = λ e. p ∙ s.covered (sym a ∙ e);
  single = omega (arith, q, s.single);
  promised = λ h. absurd (omega (arith, q, h, s.single));
  awaited = λ h. absurd (omega (arith, q, h, s.single));
}
Change-IsTracked (resolved p q a settles) s =
    let zero_before = none_under_way s (λ e. cc (settles, e)) in
    record {
      one = omega (arith, p, s.one);
      covered = λ e. p ∙ s.covered (sym a ∙ e);
      single = omega (arith, q, s.single);
      promised = λ h. absurd (omega (arith, q, h, zero_before));
      awaited = λ h. absurd (omega (arith, q, h, zero_before));
    }
Change-IsTracked (ended p q a w) s = record {
  one = omega (arith, p, s.one);
  covered = λ e. omega (arith, p, s.one);
  single = omega (arith, q, s.single);
  promised = λ h. w ∙ s.promised (omega (arith, q, h));
  awaited = λ h. a;
}
