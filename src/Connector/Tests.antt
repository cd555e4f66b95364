-- ===== src/Connector/Tests.antt =====
-- The guard, its limiter and the breaker at concrete inputs.
use stelfin.Prelude.{
  false, ◌*◌, ◌^◌, ℕ, ◌+◌, ◌≤◌, ◌<◌, List, [], ◌∷◌, true, ◌≡◌, ◌≢◌, ◌↔◌, inl, refl, arith, Option,
  some, none, err, ok,
}
use stelfin.Prelude.Int.{pos, pos_part}
use stelfin.Text.{Bytes, codes}
use stelfin.Connector.Amount.{normalize_tabular_amount}
use stelfin.Connector.Amount.Canonical.{IsAmount, normalize_tabular_amount-IsAmount}
use stelfin.Connector.Egress.{Addr, ip4, ip6, forbidden_address, check_addr, unmap}
use stelfin.Connector.Egress.Public.{NoZone, IsPublic, check_addr_iff}
use stelfin.Connector.Breaker.{Breaker, probe, enter}
use stelfin.Connector.Breaker.Opens.{fail_all, fail_all_lem}
use stelfin.Connector.Breaker.Reach.{Reach, Inv, Step, initial, Reach-Inv}
use stelfin.Connector.Rate.{RateKey, find, key_eq}
use stelfin.Connector.Rate.Bound.{Call, granted, granted-bound}
use stelfin.Connector.Guard.Kinds.{Agrees, implements, check_kind, check_kind_iff, both_kinds}
use stelfin.Connector.Guard.{
  Connector, Error, Descriptor, reader, Grant, Request, bound, surface, authorise, local_limiter,
  max_rows,
}
use stelfin.Connector.Guard.Authorise.{Permits, authorise_iff, refused_unspent}
use stelfin.Connector.Guard.Surface.{SameSurface, surface_iff}

abbrev ledger_reader : Descriptor
ledger_reader = record {
  id = codes "sheets";
  kind = reader;
  capabilities = codes "read" ∷ codes "list" ∷ [];
}

abbrev reordered : Descriptor
reordered = record {
  id = codes "sheets";
  kind = reader;
  capabilities = codes "list" ∷ codes "read" ∷ [];
}

-- Every DAO grants reading twice an hour, of this surface; the bytes stand for their own digest.
abbrev same : Bytes → Bytes
same s = s

abbrev grants : ℕ → Bytes → Option Grant
grants org id = some (record {
  capabilities = codes "read" ∷ [];
  surface_digest = surface ledger_reader;
  per_hour = pos 2;
})

authorise_iff_example :
    ((authorise same grants local_limiter [] 1 ledger_reader (codes "read") 5).1 ≡ ok tt)
    ↔ Permits same grants local_limiter [] 1 ledger_reader (codes "read") 5
authorise_iff_example = authorise_iff same grants local_limiter [] 1 ledger_reader (codes "read") 5

not_named :
    (authorise same grants local_limiter [] 1 ledger_reader (codes "list") 5).1
    ≡ err Error.capability_not_granted
unfolding authorise stelfin.Connector.Guard.check_descriptor surface stelfin.Connector.Guard.write
    stelfin.Text.format_uint stelfin.Text.digits stelfin.Connector.Guard.write_all
    stelfin.Connector.Guard.sort stelfin.Connector.Guard.string_le stelfin.Connector.Guard.covers
not_named = refl

refused_unspent_example :
    (authorise same grants local_limiter [] 1 ledger_reader (codes "list") 5).0 ≡ []
refused_unspent_example =
    refused_unspent same grants local_limiter [] 1 ledger_reader (codes "list") 5
      Error.capability_not_granted not_named (λ e. cc)

surface_iff_example :
    (surface ledger_reader ≡ surface reordered) ↔ SameSurface ledger_reader reordered
surface_iff_example = surface_iff ledger_reader reordered

abbrev key : RateKey
key = record { org = 1; connector = codes "sheets" }

abbrev three_calls : List Call
three_calls =
    record { key = key; per_hour = pos 2; now = 8 }
    ∷ record { key = key; per_hour = pos 2; now = 9 }
    ∷ record { key = record { org = 2; connector = codes "sheets" }; per_hour = pos 9; now = 9 }
    ∷ []

find_nothing : find key [] ≡ none
unfolding find
find_nothing = refl

other_org : key_eq (record { org = 2; connector = codes "sheets" }) key ≢ true
unfolding key_eq
other_org e = cc

granted-bound_example :
    granted key [] (record { key = key; per_hour = pos 2; now = 7 } ∷ three_calls)
    ≤ pos_part (pos 2)
granted-bound_example = granted-bound key [] (pos 2) 7 three_calls (inl find_nothing) (
  (ground arith, λ e. refl),
  ((ground arith, λ e. refl), ((ground arith, λ e. absurd (other_org e)), tt)),
)

abbrev new_breaker : Breaker
new_breaker = (initial 3 30).breaker

fail_all_lem_example :
    let b = fail_all new_breaker (1 ∷ 2 ∷ 3 ∷ []) in
    ((40 < 3 + 30) → enter b 40 ≡ (b, none)) × ((3 + 30 ≤ 40) → (enter b 40).1 ≡ some probe)
fail_all_lem_example = fail_all_lem new_breaker (1 ∷ 2 ∷ []) 3 40 refl refl refl refl

entered_once : Reach (initial 3 30) (record (initial 3 30) { calls = 1 })
unfolding enter
entered_once = Reach.next Reach.here (Step.entered (initial 3 30) 5 refl)

Reach-Inv_example : Inv (record (initial 3 30) { calls = 1 })
Reach-Inv_example = Reach-Inv entered_once

-- A cell that is marked as text and grouped.
accepted_cell : normalize_tabular_amount same (codes "'01,500.25") ≡ ok (codes "1500.25")
unfolding normalize_tabular_amount stelfin.Connector.Amount.read_parts stelfin.Text.cut
    stelfin.Connector.Amount.strip_grouping stelfin.Connector.Amount.grouped
    stelfin.Connector.Amount.split stelfin.Connector.Amount.join stelfin.Connector.Amount.finish
    stelfin.Connector.Amount.is_zero stelfin.Text.trim_right stelfin.Text.trim_left
    stelfin.Connector.Amount.canonical_whole
accepted_cell = refl

normalize_tabular_amount-IsAmount_example : IsAmount (codes "01,500.25") (codes "1500.25")
normalize_tabular_amount-IsAmount_example =
    normalize_tabular_amount-IsAmount same (codes "'01,500.25") (codes "1500.25") accepted_cell

-- The address of a cloud's metadata service, also as it is written in IPv6.
abbrev metadata_service : ℕ
metadata_service = ((169 * 256 + 254) * 256 + 169) * 256 + 254

check_addr_iff_example : (check_addr (ip6 (65535 * 2 ^ 32 + metadata_service) []) false ≡ ok tt) ↔ (
    NoZone (ip6 (65535 * 2 ^ 32 + metadata_service) [])
    × IsPublic (unmap (ip6 (65535 * 2 ^ 32 + metadata_service) [])))
check_addr_iff_example = check_addr_iff (ip6 (65535 * 2 ^ 32 + metadata_service) [])

refused_service :
    check_addr (ip6 (65535 * 2 ^ 32 + metadata_service) []) false ≡ err forbidden_address
unfolding check_addr stelfin.Connector.Egress.check_ranges unmap stelfin.Connector.Egress.holds
refused_service = refl

dialled : check_addr (ip4 (((8 * 256 + 8) * 256 + 8) * 256 + 8)) false ≡ ok tt
unfolding check_addr stelfin.Connector.Egress.check_ranges unmap stelfin.Connector.Egress.holds
dialled = refl

-- A connector that calls itself a reader and only proposes.
abbrev mislabelled : Connector ℕ ℕ
mislabelled = record { describe = ledger_reader; read = none; propose = some (λ r. 1) }

check_kind_iff_example :
    (check_kind mislabelled ≡ ok tt)
    ↔ Agrees mislabelled.describe.kind
        (implements mislabelled.read)
        (implements mislabelled.propose)
check_kind_iff_example = check_kind_iff mislabelled

mislabelled_refused : check_kind mislabelled ≡ err both_kinds
unfolding check_kind
mislabelled_refused = refl
