-- ===== src/Central/Chats.antt =====
-- src/db/channel-accounts.ts, and the chats of src/db/messaging-groups.ts.
use clawie.Prelude.{
  ℕ, String, Bool, true, not, ◌&&◌, ◌||◌, Option, none, some, [], ◌∷◌, ◌++◌, if◌then◌else◌, str_eq,
  sql_eq, opt_eq, is_some, length, select, find, exists, update_where, order_by,
}
use clawie.Central.Rows.{MessagingGroup, MessagingGroupAgent, ChannelAccount, CentralDb}

-- Channel accounts

unfoldable pub get_channel_account : String → String → CentralDb → Option ChannelAccount
get_channel_account channel_type account_id db =
    find
      (λ (a : ChannelAccount). str_eq a.channel_type channel_type && str_eq a.account_id account_id)
      db.channel_accounts

-- Messaging groups

-- UNIQUE(channel_type, platform_id, channel_account), where SQL takes two NULLs for different
abbrev pub clashes : MessagingGroup → MessagingGroup → Bool
clashes group g =
    str_eq g.id group.id
    || str_eq g.channel_type group.channel_type
      && str_eq g.platform_id group.platform_id
      && is_some g.channel_account
      && opt_eq g.channel_account group.channel_account

-- the columns of the INSERT do not name `denied_at`; `none` is a constraint's error
unfoldable pub create_messaging_group : MessagingGroup → CentralDb → Option CentralDb
create_messaging_group group db =
    if exists (clashes group) db.messaging_groups
    then none
    else some (record db {
      messaging_groups = db.messaging_groups ++ record group { denied_at = none } ∷ [];
    })

unfoldable pub get_messaging_group : String → CentralDb → Option MessagingGroup
get_messaging_group id db = find (λ (g : MessagingGroup). str_eq g.id id) db.messaging_groups

abbrev pub is_at : String → String → MessagingGroup → Bool
is_at channel_type platform_id g =
    str_eq g.channel_type channel_type && str_eq g.platform_id platform_id

unfoldable pub get_messaging_group_by_platform : String → String → CentralDb → Option MessagingGroup
get_messaging_group_by_platform channel_type platform_id db =
    find (is_at channel_type platform_id) db.messaging_groups

-- the join's count of the wirings of a group
unfoldable pub agent_count : String → CentralDb → ℕ
agent_count id db =
    length (
      select (λ (a : MessagingGroupAgent). str_eq a.messaging_group_id id)
        db.messaging_group_agents)

-- The lookup's options: the account, and whether it also owns the rows without one.
pub record AccountScope : Type 0 where
  pub channel_account : String
  pub include_null_account : Bool

abbrev pub in_account : AccountScope → MessagingGroup → Bool
in_account scope g =
    sql_eq g.channel_account scope.channel_account
    || scope.include_null_account && not (is_some g.channel_account)

-- ORDER BY (channel_account = ?) DESC: the rows of the account before the others
abbrev pub account_first : AccountScope → MessagingGroup → MessagingGroup → Bool
account_first scope a b =
    sql_eq a.channel_account scope.channel_account
    || not (sql_eq b.channel_account scope.channel_account)

unfoldable pub find_group :
    String → String → Option AccountScope → CentralDb → Option MessagingGroup
find_group channel_type platform_id none db =
    find (is_at channel_type platform_id) db.messaging_groups
find_group channel_type platform_id (some scope) db =
    find (λ (g : MessagingGroup). true)
      (order_by (account_first scope) (
        select (λ (g : MessagingGroup). is_at channel_type platform_id g && in_account scope g)
          db.messaging_groups))

unfoldable pub get_messaging_group_with_agent_count :
    String → String → Option AccountScope → CentralDb → Option (MessagingGroup × ℕ)
unfolding find_group agent_count
get_messaging_group_with_agent_count channel_type platform_id scope db =
    elim (find_group channel_type platform_id scope db) [
      | none ↦ none
      | some mg ↦ some (mg, agent_count mg.id db)
    ]

unfoldable pub set_messaging_group_denied_at : String → Option ℕ → CentralDb → CentralDb
set_messaging_group_denied_at id denied_at db = record db {
  messaging_groups =
      update_where (λ (g : MessagingGroup). str_eq g.id id)
        (λ g. record g { denied_at = denied_at }) db.messaging_groups;
}
