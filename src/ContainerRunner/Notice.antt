-- ===== src/ContainerRunner/Notice.antt =====
-- What the chat hears of a crash in src/container-runner.ts.
use clawie.Prelude.{ℕ, ◌+◌, String, Option, none, some, ◌≡◌, refl, if-intro, ltb, ◌==◌, or_else}
use clawie.Central.{Session, MessagingGroup}
use clawie.SessionDb.{count_due_messages}
use clawie.SessionManager.{write_outbound_direct}
use clawie.ContainerRunner.{
  Runner, notify_abnormal_exit, chat_to_notify, failure_notice_cooldown_ms, notify_chat,
}

notify_chat-silent :
    (now : ℕ) (notice_id : String) (session : Session) (r : Runner) (chat : Option MessagingGroup)
    → notify_chat now notice_id session r chat ≡ r
unfolding notify_chat write_outbound_direct
notify_chat-silent now notice_id session r none = refl
notify_chat-silent now notice_id session r (some mg) = refl

-- The notice after a crash goes through a connection that is read-only: whatever is due and
-- whichever chat there is, it is never written, and nothing is kept of it.
pub notify_abnormal_exit-silent :
    (now : ℕ) (notice_id : String) (session : Session) (r : Runner)
    → notify_abnormal_exit now notice_id session r ≡ r
unfolding notify_abnormal_exit
notify_abnormal_exit-silent now notice_id session r =
    if-intro (λ (t : Runner). t ≡ r) (count_due_messages now (r.host.inbound session.id) == 0)
      (λ _. refl)
      (λ _.
        if-intro (λ (t : Runner). t ≡ r)
          (ltb now (or_else (r.last_failure_notice session.id) 0 + failure_notice_cooldown_ms))
          (λ _. refl)
          (λ _. notify_chat-silent now notice_id session r (chat_to_notify session r.host.central)))
