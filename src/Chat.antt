-- ===== src/Chat.antt =====
-- chat: the levels of permission (command.go) and the channels (chat.go). A role is a uint8 that only
-- takes the five values below, and is compared by its rank.
pub mod Split
use stelfin.Prelude.{ℕ, Bool, leb, ◌||◌}
use stelfin.Text.{Bytes, bytes_eq, codes}

pub data Role : Type 0 where
  role_none role_observer role_proposer role_approver role_admin : Role

abbrev pub rank : Role → ℕ
rank role_none = 0
rank role_observer = 1
rank role_proposer = 2
rank role_approver = 3
rank role_admin = 4

-- AtLeast
abbrev pub at_least : Role → Role → Bool
at_least r required = leb (rank required) (rank r)

-- Role.String
abbrev pub role_string : Role → Bytes
role_string role_observer = codes "observer"
role_string role_proposer = codes "proposer"
role_string role_approver = codes "approver"
role_string role_admin = codes "admin"
role_string role_none = codes "none"

-- Channel.Valid
abbrev pub is_valid : Bytes → Bool
is_valid channel = bytes_eq channel (codes "telegram") || bytes_eq channel (codes "discord")
