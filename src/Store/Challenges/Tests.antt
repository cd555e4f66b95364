-- ===== src/Store/Challenges/Tests.antt =====
-- A member who links a wallet, and tries the same challenge again.
use stelfin.Prelude.{[], ◌∷◌, true, false, ◌≡◌, refl, none, some, ok, err, any, map}
use stelfin.Text.{codes}
use stelfin.Store.Members.{
  Member, Directory, Identity, new_member, takes, find_member, with_address,
}
use stelfin.Store.Challenges.{
  Error, Challenge, Checks, Linking, consume_challenge, live_challenge, member_of, is_claimable,
  consume_row,
}
use stelfin.Store.Challenges.Codes.{claim_link_code, identity_of}
use stelfin.Store.Challenges.Wallets.{WasFree, claim_link_code-Keeps, linked}
use stelfin.Store.Challenges.Spent.{here, claimed_once}
use stelfin.Store.Challenges.Proved.{claimed_proved}

abbrev checks : Checks
checks = record {
  is_address = λ a. true;
  is_challenge = λ c. true;
  is_code = λ c. true;
  is_referenced = λ m. false;
}

abbrev account : Identity
account = record {
  id = 4;
  member = 1;
  org = 1;
  channel = codes "telegram";
  channel_user_id = codes "77";
  handle = codes "ada";
  linked_by = 0;
}

abbrev asked : Challenge
asked = record {
  hash = codes "c0";
  org = 1;
  identity = 4;
  purpose = codes "link_member";
  address = codes "GADA";
  xdr = codes "AAAA";
  expires_at = 100;
}

abbrev waiting : Linking
waiting = record {
  directory = record {
    orgs = 1 ∷ [];
    members = new_member 1 1 (codes "ada") ∷ [];
    identities = account ∷ [];
    roles = [];
    bindings = [];
    next_member = 2;
    next_identity = 5;
  };
  challenges = record { challenge = asked; consumed_at = none } ∷ [];
  codes = [];
}

abbrev proved : Linking
proved = record waiting {
  directory = record waiting.directory {
    members = map (with_address 1 1 (codes "GADA") (codes "linked") 50) waiting.directory.members;
  };
  challenges =
      map (consume_row (is_claimable 1 (codes "c0") (codes "GADA") 50) 50) waiting.challenges;
}

proved-consume :
    consume_challenge checks waiting 1 (codes "c0") (codes "GADA") (codes "linked") 50
    ≡ ok (1, proved)
unfolding consume_challenge stelfin.Store.Challenges.find_challenge
    stelfin.Store.Challenges.bind_claimed member_of stelfin.Store.Members.bind_address
proved-consume = refl

claimed_once_example :
    (live_challenge proved 1 (codes "c0") 60 ≡ err Error.no_challenge)
    × (consume_challenge checks proved 1 (codes "c0") (codes "GADA") (codes "provisioned") 60
        ≡ err Error.no_challenge)
claimed_once_example =
    claimed_once checks waiting proved proved 1 1 (codes "c0") (codes "GADA") (codes "GADA")
      (codes "linked") (codes "provisioned") 50 60 1 (tt, tt) proved-consume here refl

claimed_proved_example :
    (c : Challenge) × (m : Member) × (live_challenge waiting 1 (codes "c0") 50 ≡ ok c)
    × (c.address ≡ codes "GADA")
    × (member_of 1 c.identity waiting.directory.identities ≡ some 1)
    × (any (takes 1 1 (codes "GADA")) waiting.directory.members ≡ false)
    × (find_member 1 1 proved.directory.members ≡ some m)
    × (m.address ≡ codes "GADA")
claimed_proved_example =
    claimed_proved checks waiting proved 1 (codes "c0") (codes "GADA") (codes "linked") 50 1
      (tt, tt) proved-consume

-- Another account, which speaks for a member without a wallet, claims a code of the first member.
abbrev phone : Identity
phone = record account { id = 5; member = 2; channel_user_id = codes "78" }

abbrev shared : Linking
shared = record proved {
  directory = record proved.directory {
    members = new_member 2 1 (codes "ada") ∷ proved.directory.members;
    identities = phone ∷ account ∷ [];
    next_member = 3;
    next_identity = 6;
  };
  codes =
      record {
        code = codes "ABCDEFGH";
        org = 1;
        member = 1;
        issued_by = 4;
        expires_at = 100;
        consumed_at = none;
        consumed_by = 0;
      }
      ∷ [];
}

abbrev joined : Linking
joined = record shared {
  directory = record shared.directory {
    members = proved.directory.members;
    identities =
        record phone { member = 1; handle = codes "ada_phone"; linked_by = 4 } ∷ account ∷ [];
  };
  codes =
      record {
        code = codes "ABCDEFGH";
        org = 1;
        member = 1;
        issued_by = 4;
        expires_at = 100;
        consumed_at = some 60;
        consumed_by = 5;
      }
      ∷ [];
}

joined-claim :
    claim_link_code checks shared 1
      (codes "ABCDEFGH")
      (codes "telegram")
      (codes "78")
      (codes "ada_phone")
      60
    ≡ ok (1, joined)
unfolding claim_link_code stelfin.Store.Challenges.Codes.find_code
    stelfin.Store.Challenges.Codes.point_at stelfin.Store.Members.find_identity
    stelfin.Store.Challenges.Codes.wallet_of find_member
    stelfin.Store.Challenges.Codes.delete_empty_member
joined-claim = refl

claim_link_code-Keeps_example :
    (linked joined.directory ≡ linked shared.directory)
    × (joined.directory.roles ≡ shared.directory.roles)
    × WasFree shared 1 (codes "telegram") (codes "78") 1
claim_link_code-Keeps_example =
    claim_link_code-Keeps checks shared joined 1 (codes "ABCDEFGH") (codes "telegram") (codes "78")
      (codes "ada_phone") 60 1 joined-claim
