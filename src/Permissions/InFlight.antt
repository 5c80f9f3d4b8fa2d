-- ===== src/Permissions/InFlight.antt =====
-- The rows of senders who wait for an approval, and the cards about them, where requests and answers
-- come in any order.
use clawie.Prelude.{
  ℕ, ◌+◌, ◌≤◌, String, Bool, true, false, not, ◌≡◌, refl, sym, ap, Option, none, some, List, [],
  ◌∷◌, ◌++◌, inl, inr, arith, exists, str_eq, str_eq_iff, Bool-cases, Option-cases, if-intro,
  if◌then◌else◌, count, count-append, count-absent, is_some, select, delete_where,
}
use clawie.Inbound.{InboundEvent}
use clawie.Central.{CentralDb, PendingSenderApproval, AgentGroupMember}
use clawie.Permissions.{add_member, is_membership}
use clawie.Permissions.Gates.{
  ApprovalDesk, ResponsePayload, is_in_flight, clashes, create_pending_sender_approval,
  begin_sender_approval, finish_sender_approval, delete_pending_sender_approval,
  get_pending_sender_approval, clicker_id, is_authorized, admit, handle_sender_approval_response,
}

-- The tables, the requests that await a way to an approver, the rows whose card was sent, and the
-- rows that an answer deleted.
pub record Requests : Type 0 where
  pub central : CentralDb
  pub waiting : List PendingSenderApproval
  pub cards : List PendingSenderApproval
  pub answered : List PendingSenderApproval

abbrev pub begun_row : Option PendingSenderApproval → List PendingSenderApproval
begun_row none = []
begun_row (some row) = row ∷ []

abbrev has_row_id : String → PendingSenderApproval → Bool
has_row_id id r = str_eq r.id id

abbrev pub answered_of :
    ResponsePayload → CentralDb → Option PendingSenderApproval → List PendingSenderApproval
answered_of payload db none = []
answered_of payload db (some row) =
    if not (is_authorized row (clicker_id payload) db)
    then []
    else select (has_row_id row.id) db.pending_sender_approvals

-- the rows that an answer deletes
abbrev pub answered_rows : ResponsePayload → CentralDb → List PendingSenderApproval
answered_rows payload db =
    answered_of payload db (get_pending_sender_approval payload.question_id db)

-- One thing that happens: a request begins, the insert of a waiting one succeeds and its card goes
-- out, the insert fails, a card is answered, or the tables change but for the pending rows.
pub data Step : Requests → Requests → Type 0 where
  begins :
      (desk : ApprovalDesk) (messaging_group_id agent_group_id sender_identity : String)
      (event : InboundEvent) (s : Requests)
      → Step s (record s {
        waiting =
            s.waiting
            ++ begun_row (
                begin_sender_approval desk messaging_group_id agent_group_id sender_identity event
                  s.central);
      })
  inserted :
      (row : PendingSenderApproval) (before after : List PendingSenderApproval) (s : Requests)
      → s.waiting ≡ before ++ row ∷ after
      → is_some (create_pending_sender_approval row s.central) ≡ true
      → Step s (record s {
        central = finish_sender_approval row s.central;
        waiting = before ++ after;
        cards = s.cards ++ row ∷ [];
      })
  clashed :
      (row : PendingSenderApproval) (before after : List PendingSenderApproval) (s : Requests)
      → s.waiting ≡ before ++ row ∷ after
      → is_some (create_pending_sender_approval row s.central) ≡ false
      → Step s
          (record s { central = finish_sender_approval row s.central; waiting = before ++ after })
  answers :
      (now : ℕ) (payload : ResponsePayload) (s : Requests)
      → Step s (record s {
        central = (handle_sender_approval_response now payload s.central).central;
        answered = s.answered ++ answered_rows payload s.central;
      })
  others :
      (db : CentralDb) (s : Requests)
      → db.pending_sender_approvals ≡ s.central.pending_sender_approvals
      → Step s (record s { central = db })

pub data Reach : Requests → Requests → Type 0 where
  here : (s : Requests) → Reach s s
  next : (s t u : Requests) → Reach s t → Step t u → Reach s u

count-delete_where :
    (p q : PendingSenderApproval → Bool) (rows : List PendingSenderApproval)
    → count p (delete_where q rows) + count p (select q rows) ≡ count p rows
count-delete_where p q [] = refl
count-delete_where p q (r ∷ rows) = ground (arith, count-delete_where p q rows)

count-delete_where-le :
    (p q : PendingSenderApproval → Bool) (rows : List PendingSenderApproval)
    → count p (delete_where q rows) ≤ count p rows
count-delete_where-le p q rows = omega (arith, count-delete_where p q rows)

no_clash :
    (row : PendingSenderApproval) (rows : List PendingSenderApproval)
    → exists (clashes row) rows ≡ false
    → exists (is_in_flight row.messaging_group_id row.sender_identity) rows ≡ false
no_clash row [] e = refl
no_clash row (r ∷ rows) e = ground (arith, e, no_clash row rows (ground (arith, e)))

add_member-pending :
    (row : AgentGroupMember) (db : CentralDb)
    → (add_member row db).pending_sender_approvals ≡ db.pending_sender_approvals
unfolding add_member
add_member-pending row db =
    if-intro (λ (d : CentralDb). d.pending_sender_approvals ≡ db.pending_sender_approvals)
      (exists (is_membership row.user_id row.agent_group_id) db.agent_group_members) (λ _. refl)
      (λ _. refl)

admitted-pending :
    (now : ℕ) (row : PendingSenderApproval) (payload : ResponsePayload) (db : CentralDb)
    → (admit now row (clicker_id payload) db).pending_sender_approvals
      ≡ delete_where (has_row_id row.id) db.pending_sender_approvals
unfolding delete_pending_sender_approval
admitted-pending now row payload db =
    ap (delete_where (has_row_id row.id)) (add_member-pending _ db)

module _ (mg sender : String) where
  -- One pending row for the sender in the chat at most, and as many cards as rows that are pending
  -- or were answered.
  pub record IsCounted (s : Requests) : Type 0 where
    pub once : count (is_in_flight mg sender) s.central.pending_sender_approvals ≤ 1
    pub total :
        count (is_in_flight mg sender) s.cards
        ≡ count (is_in_flight mg sender) s.central.pending_sender_approvals
          + count (is_in_flight mg sender) s.answered

  pending-insert :
      (row : PendingSenderApproval) (rows : List PendingSenderApproval)
      → exists (clashes row) rows ≡ false
      → count (is_in_flight mg sender) rows ≤ 1
      → count (is_in_flight mg sender) (rows ++ row ∷ []) ≤ 1
  pending-insert row rows absent once =
      rw (count-append (is_in_flight mg sender) rows (row ∷ []))
        (elim (Bool-cases (is_in_flight mg sender row)) [
          | inl own ↦
              let zero_before = count-absent (is_in_flight mg sender) rows (
                rw
                  (
                    sym ((str_eq_iff row.messaging_group_id mg).0 (ground (arith, own))),
                    sym ((str_eq_iff row.sender_identity sender).0 (ground (arith, own))),
                  )
                  (no_clash row rows absent)) in
              ground (arith, own, zero_before)
          | inr other ↦ ground (arith, other, once)
        ])

  inserted-IsCounted :
      (row : PendingSenderApproval) (rest : List PendingSenderApproval) (s : Requests)
      → is_some (create_pending_sender_approval row s.central) ≡ true
      → IsCounted s
      → IsCounted (record s {
        central = finish_sender_approval row s.central;
        waiting = rest;
        cards = s.cards ++ row ∷ [];
      })
  unfolding finish_sender_approval create_pending_sender_approval
  inserted-IsCounted row rest s ok h =
      let rows = s.central.pending_sender_approvals in
      elim (Bool-cases (exists (clashes row) rows)) [
        | inl taken ↦ absurd (ground (arith, taken, ok))
        | inr absent ↦ rw absent (record {
          once = pending-insert row rows absent h.once;
          total = omega (
            arith,
            h.total,
            count-append (is_in_flight mg sender) s.cards (row ∷ []),
            count-append (is_in_flight mg sender) rows (row ∷ []),
          );
        })
      ]

  clashed-IsCounted :
      (row : PendingSenderApproval) (rest : List PendingSenderApproval) (s : Requests)
      → is_some (create_pending_sender_approval row s.central) ≡ false
      → IsCounted s
      → IsCounted (record s { central = finish_sender_approval row s.central; waiting = rest })
  unfolding finish_sender_approval
  clashed-IsCounted row rest s ok h =
      elim (Option-cases (create_pending_sender_approval row s.central)) [
        | inl e ↦ rw e (record { once = h.once; total = h.total })
        | inr (db, e) ↦ absurd (cc (ok, e))
      ]

  deleted-IsCounted :
      (id : String) (s : Requests) (db : CentralDb)
      → db.pending_sender_approvals
        ≡ delete_where (has_row_id id) s.central.pending_sender_approvals
      → IsCounted s
      → IsCounted (record s {
        central = db;
        answered = s.answered ++ select (has_row_id id) s.central.pending_sender_approvals;
      })
  deleted-IsCounted id s db e h =
      let rows = s.central.pending_sender_approvals in
      let counted = count-delete_where (is_in_flight mg sender) (has_row_id id) rows in
      record {
        once = rw e (omega (arith, h.once, counted));
        total = rw e (
            omega (
              arith,
              h.total,
              counted,
              count-append (is_in_flight mg sender) s.answered (select (has_row_id id) rows),
            ));
      }

  unanswered : (s : Requests) → IsCounted s → IsCounted (record s { answered = s.answered ++ [] })
  unanswered s h = record {
    once = h.once;
    total = omega (arith, h.total, count-append (is_in_flight mg sender) s.answered []);
  }

  answers-IsCounted :
      (now : ℕ) (payload : ResponsePayload) (s : Requests)
      → IsCounted s
      → IsCounted (record s {
        central = (handle_sender_approval_response now payload s.central).central;
        answered = s.answered ++ answered_rows payload s.central;
      })
  unfolding handle_sender_approval_response delete_pending_sender_approval
  answers-IsCounted now payload s h =
      elim (Option-cases (get_pending_sender_approval payload.question_id s.central)) [
        | inl e ↦ rw (e, handle_sender_approval_response) (unanswered s h)
        | inr (row, e) ↦ elim (Bool-cases (is_authorized row (clicker_id payload) s.central)) [
          | inl able ↦ elim (Bool-cases (str_eq payload.value "approve")) [
            | inl approves ↦
                rw (e, handle_sender_approval_response, able, approves)
                  (deleted-IsCounted row.id s _ (admitted-pending now row payload s.central) h)
            | inr rejects ↦
                rw (e, handle_sender_approval_response, able, rejects)
                  (deleted-IsCounted row.id s _ refl h)
          ]
          | inr unable ↦ rw (e, handle_sender_approval_response, unable) (unanswered s h)
        ]
      ]

  Step-IsCounted : {s t : Requests} → Step s t → IsCounted s → IsCounted t
  Step-IsCounted (begins desk mg' agent sender' event s) h = record {
    once = h.once;
    total = h.total;
  }
  Step-IsCounted (inserted row before after s e ok) h =
      inserted-IsCounted row (before ++ after) s ok h
  Step-IsCounted (clashed row before after s e ok) h =
      clashed-IsCounted row (before ++ after) s ok h
  Step-IsCounted (answers now payload s) h = answers-IsCounted now payload s h
  Step-IsCounted (others db s e) h = record { once = rw e h.once; total = rw e h.total }

-- However requests for the approval of senders begin, insert their row after the way to an approver
-- is found, and are answered, from tables without a pending row for a sender in a chat: there is one
-- such row at most, and each card about the sender is of that row or of one that an answer deleted,
-- so that a second card goes out only after an answer to the first.
pub Reach-cards :
    (s t : Requests) (mg sender : String)
    → Reach s t
    → count (is_in_flight mg sender) s.central.pending_sender_approvals ≡ 0
    → s.cards ≡ []
    → s.answered ≡ []
    → (count (is_in_flight mg sender) t.central.pending_sender_approvals ≤ 1)
      × (count (is_in_flight mg sender) t.cards
          ≡ count (is_in_flight mg sender) t.central.pending_sender_approvals
            + count (is_in_flight mg sender) t.answered)
Reach-cards s t mg sender reach fresh no_cards none_answered =
    let h = Reach-IsCounted reach (record {
      once = omega (arith, fresh);
      total = rw (no_cards, none_answered) (omega (arith, fresh));
    }) in
    (h.once, h.total)
  where
    Reach-IsCounted : {u v : Requests} → Reach u v → IsCounted mg sender u → IsCounted mg sender v
    Reach-IsCounted (here u) h = h
    Reach-IsCounted (next u v w before step) h =
        Step-IsCounted mg sender step (Reach-IsCounted before h)
