-- ===== src/Netguard.antt =====
-- internal/netguard/netguard.go: which destinations may be dialled.
-- An address is that of net/netip: no address, four bytes, or 128 bits in two words with a zone.
-- `x & mask` is written with `/` and `%`. Parsing of URLs and of addresses is the parameter
-- `Parser`, and the network is the parameter `Network` of the child `Client`.
pub mod Ranges
pub mod Client
mod Tests
use ai_email.Base.{
  ℕ, ◌+◌, ◌*◌, ◌/◌, ◌%◌, ◌^◌, Bool, true, false, ◌&&◌, ◌||◌, not, Option, none, some, Str, codes,
  str_eq, Result, ok, err, ltb, leb, ◌==◌, if◌then◌else◌, map, lower_byte, any, List, [], ◌∷◌, ◌++◌,
}

pub data Addr : Type 0 where
  invalid : Addr
  v4 : (a b c d : ℕ) → Addr
  v6 : (hi lo : ℕ) → (zone : Str) → Addr

-- `Addr.Unmap`: an IPv4 address that is mapped into IPv6 becomes itself.
unfoldable pub unmap : Addr → Addr
unmap invalid = invalid
unmap (v4 a b c d) = v4 a b c d
unmap (v6 hi lo zone) =
    if hi == 0 && lo / 2 ^ 32 == 0xffff
    then v4 (lo / 2 ^ 24 % 256) (lo / 2 ^ 16 % 256) (lo / 2 ^ 8 % 256) (lo % 256)
    else v6 hi lo zone

-- The first byte and the first 16 bits of an IPv6 address.
abbrev pub byte_0 : ℕ → ℕ
byte_0 hi = hi / 2 ^ 56

abbrev pub word_0 : ℕ → ℕ
word_0 hi = hi / 2 ^ 48

unfoldable pub is_loopback : Addr → Bool
is_loopback invalid = false
is_loopback (v4 a b c d) = a == 127
is_loopback (v6 hi lo zone) = hi == 0 && lo == 1

unfoldable pub is_private : Addr → Bool
is_private invalid = false
is_private (v4 a b c d) = a == 10 || (a == 172 && b / 16 * 16 == 16) || (a == 192 && b == 168)
is_private (v6 hi lo zone) = byte_0 hi / 2 * 2 == 0xfc

unfoldable pub is_link_local_unicast : Addr → Bool
is_link_local_unicast invalid = false
is_link_local_unicast (v4 a b c d) = a == 169 && b == 254
is_link_local_unicast (v6 hi lo zone) = word_0 hi / 64 * 64 == 0xfe80

unfoldable pub is_link_local_multicast : Addr → Bool
is_link_local_multicast invalid = false
is_link_local_multicast (v4 a b c d) = a == 224 && b == 0 && c == 0
is_link_local_multicast (v6 hi lo zone) = byte_0 hi == 0xff && word_0 hi % 16 == 2

unfoldable pub is_interface_local_multicast : Addr → Bool
is_interface_local_multicast invalid = false
is_interface_local_multicast (v4 a b c d) = false
is_interface_local_multicast (v6 hi lo zone) = byte_0 hi == 0xff && word_0 hi % 16 == 1

unfoldable pub is_multicast : Addr → Bool
is_multicast invalid = false
is_multicast (v4 a b c d) = a / 16 * 16 == 0xe0
is_multicast (v6 hi lo zone) = byte_0 hi == 0xff

unfoldable pub is_unspecified : Addr → Bool
is_unspecified invalid = false
is_unspecified (v4 a b c d) = a == 0 && b == 0 && c == 0 && d == 0
is_unspecified (v6 hi lo zone) = hi == 0 && lo == 0 && str_eq zone []

-- The first switch of `IsBlocked`.
unfoldable pub is_special : Addr → Bool
unfolding is_loopback is_private is_link_local_unicast is_link_local_multicast
    is_interface_local_multicast is_multicast is_unspecified
is_special addr =
    is_loopback addr
    || is_private addr
    || is_link_local_unicast addr
    || is_link_local_multicast addr
    || is_interface_local_multicast addr
    || is_multicast addr
    || is_unspecified addr

-- The switches on the bytes.
unfoldable pub is_reserved : Addr → Bool
is_reserved invalid = false
is_reserved (v4 a b c d) =
    a == 127
    || a == 0
    || a == 10
    || (a == 169 && b == 254)
    || (a == 172 && leb 16 b && leb b 31)
    || (a == 192 && b == 168)
    || (a == 100 && leb 64 b && leb b 127)
    || (a == 192 && b == 0 && c == 0)
    || leb 240 a
is_reserved (v6 hi lo zone) =
    byte_0 hi == 0xfc
    || byte_0 hi == 0xfd
    || (byte_0 hi == 0xfe && word_0 hi % 256 / 64 * 64 == 0x80)
    || (hi == 0 && lo == 1 && str_eq zone [])

-- `IsBlocked`
unfoldable pub is_blocked : Addr → Bool
is_blocked invalid = true
is_blocked addr = is_special (unmap addr) || is_reserved (unmap addr)

pub data Problem : Type 0 where
  not_a_url blocked_scheme missing_host blocked_port blocked_address too_many_hops : Problem
  bad_address resolving dialling : Problem

pub record Url : Type 0 where
  pub scheme : Str
  pub host : Str
  pub port : Str
  pub hostname : Str

-- `url.Parse` and `netip.ParseAddr`.
pub record Parser : Type 0 where
  pub parse_url : Str → Option Url
  pub parse_addr : Str → Option Addr

unfoldable pub allowed_port : Str → Bool
allowed_port port = str_eq port (codes "") || str_eq port (codes "80") || str_eq port (codes "443")

unfoldable pub literal_blocked : Option Addr → Bool
literal_blocked none = false
literal_blocked (some addr) = is_blocked addr

-- `strings.EqualFold(host, "localhost")`: no character beyond ASCII folds into this word but the
-- long s, U+017F.
unfoldable pub fold_localhost : Str → Bool
fold_localhost host =
    str_eq (map lower_byte host) (codes "localhost")
    || str_eq (map lower_byte host) (codes "localho" ++ (0xC5 ∷ 0xBF ∷ b't' ∷ []))

-- The checks of `ValidateURL` on a URL that has been parsed.
unfoldable pub validate_parts : Parser → Url → Result Problem Url
validate_parts p u =
    if not (str_eq u.scheme (codes "http")) && not (str_eq u.scheme (codes "https"))
    then err blocked_scheme
    else if str_eq u.host []
    then err missing_host
    else if not (allowed_port u.port)
    then err blocked_port
    else if literal_blocked (p.parse_addr u.hostname)
    then err blocked_address
    else if fold_localhost u.hostname
    then err blocked_address
    else ok u

-- `ValidateURL`
unfoldable pub validate_url : Parser → Str → Result Problem Url
validate_url p raw = elim (p.parse_url raw) [ none ↦ err not_a_url | some u ↦ validate_parts p u ]
