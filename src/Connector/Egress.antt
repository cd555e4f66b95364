-- ===== src/Connector/Egress.antt =====
-- connector/egress/addr.go: which addresses a connector may be dialled at. An address of net/netip is
-- none, four bytes, or sixteen bytes with a zone; the bytes are one number, most significant first.
-- Every refusal is the one error, with a reason that is left out.
pub mod Public
use stelfin.Prelude.{
  ℕ, ◌+◌, ◌*◌, ◌-◌, ◌/◌, ◌%◌, ◌^◌, List, [], ◌∷◌, Bool, true, false, ◌&&◌, ◌||◌, not, ◌==◌,
  if◌then◌else◌, Result, ok, err, ◌>>=◌, ◌>>◌, refuse_if, any,
}
use stelfin.Text.{Bytes, is_empty}

pub data Error : Type 0 where
  forbidden_address : Error

pub data Addr : Type 0 where
  no_address : Addr
  ip4 : ℕ → Addr
  ip6 : ℕ → Bytes → Addr

-- A block of addresses: one in it, and how many bits they share.
pub record Prefix : Type 0 where
  pub base : ℕ
  pub bits : ℕ

abbrev pub byte4 : ℕ → ℕ → ℕ → ℕ → ℕ → Prefix
byte4 a b c d bits = record { base = ((a * 256 + b) * 256 + c) * 256 + d; bits = bits }

-- The first three and the sixth to eighth groups of sixteen bits; the others are zero.
abbrev pub group6 : ℕ → ℕ → ℕ → ℕ → ℕ → ℕ → Prefix
group6 a b c f h bits = record {
  base = ((a * 2 ^ 16 + b) * 2 ^ 16 + c) * 2 ^ 80 + f * 2 ^ 32 + h;
  bits = bits;
}

abbrev pub refused4 : List Prefix
refused4 =
    byte4 0 0 0 0 8
    ∷ byte4 10 0 0 0 8
    ∷ byte4 100 64 0 0 10
    ∷ byte4 127 0 0 0 8
    ∷ byte4 169 254 0 0 16
    ∷ byte4 172 16 0 0 12
    ∷ byte4 192 0 0 0 24
    ∷ byte4 192 0 2 0 24
    ∷ byte4 192 88 99 0 24
    ∷ byte4 192 168 0 0 16
    ∷ byte4 198 18 0 0 15
    ∷ byte4 198 51 100 0 24
    ∷ byte4 203 0 113 0 24
    ∷ byte4 224 0 0 0 4
    ∷ byte4 240 0 0 0 4
    ∷ []

-- 2000::/3
abbrev pub global6 : Prefix
global6 = group6 8192 0 0 0 0 3

-- ::, ::1, ::/96, ::ffff:0:0/96, 64:ff9b::/96, 64:ff9b:1::/48, 100::/64, 2001::/23, 2001:db8::/32,
-- 2002::/16, 3fff::/20, 5f00::/16, fc00::/7, fe80::/10, fec0::/10, ff00::/8
abbrev pub refused6 : List Prefix
refused6 =
    group6 0 0 0 0 0 128
    ∷ group6 0 0 0 0 1 128
    ∷ group6 0 0 0 0 0 96
    ∷ group6 0 0 0 65535 0 96
    ∷ group6 100 65435 0 0 0 96
    ∷ group6 100 65435 1 0 0 48
    ∷ group6 256 0 0 0 0 64
    ∷ group6 8193 0 0 0 0 23
    ∷ group6 8193 3512 0 0 0 32
    ∷ group6 8194 0 0 0 0 16
    ∷ group6 16383 0 0 0 0 20
    ∷ group6 24320 0 0 0 0 16
    ∷ group6 64512 0 0 0 0 7
    ∷ group6 65152 0 0 0 0 10
    ∷ group6 65216 0 0 0 0 10
    ∷ group6 65280 0 0 0 0 8
    ∷ []

-- Prefix.Contains, for addresses of `width` bits: the shared bits agree.
unfoldable pub holds : ℕ → ℕ → Prefix → Bool
holds width n p = n / 2 ^ (width - p.bits) == p.base / 2 ^ (width - p.bits)

-- Is4In6: ::ffff:0:0/96
abbrev pub is_mapped : ℕ → Bool
is_mapped n = n / 2 ^ 32 == 65535

-- Unmap, which keeps the zone of an address that it leaves as it is.
unfoldable pub unmap : Addr → Addr
unmap (ip6 n zone) = if is_mapped n then ip4 (n % 2 ^ 32) else ip6 n zone
unmap a = a

abbrev has_zone : Addr → Bool
has_zone (ip6 n zone) = not (is_empty zone)
has_zone _ = false

-- IsLoopback: 127.0.0.0/8 and ::1
abbrev pub is_loopback : Addr → Bool
is_loopback (ip4 n) = holds 32 n (byte4 127 0 0 0 8)
is_loopback (ip6 n zone) = n == 1
is_loopback no_address = false

unfoldable pub check_ranges : Addr → Result Error (Unit {0})
check_ranges no_address = err forbidden_address
check_ranges (ip4 n) = refuse_if (any (holds 32 n) refused4) forbidden_address
check_ranges (ip6 n zone) = do
  refuse_if (any (holds 128 n) refused6) forbidden_address
  refuse_if (not (holds 128 n global6)) forbidden_address

abbrev is_valid : Addr → Bool
is_valid no_address = false
is_valid _ = true

-- checkAddr
unfoldable pub check_addr : Addr → Bool → Result Error (Unit {0})
check_addr addr loopback_allowed = do
  refuse_if (not (is_valid addr)) forbidden_address
  refuse_if (has_zone addr) forbidden_address
  if loopback_allowed && is_loopback (unmap addr) then ok tt else check_ranges (unmap addr)
