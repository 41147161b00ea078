-- ===== src/Netguard/Ranges.antt =====
-- `IsBlocked` of internal/netguard/netguard.go against the ranges that it stands for.
use ai_email.Base.{
  ℕ, ◌+◌, ◌*◌, ◌/◌, ◌^◌, ◌<◌, ◌≡◌, refl, ap, sym, ◌∙◌, Bool, false, ◌&&◌, ◌||◌, List, [], ◌∷◌, Str,
  str_eq, any, arith, leb, ltb, ◌==◌,
}
use ai_email.Netguard.{Addr, v4, v6, unmap, is_special, is_reserved, is_blocked}

abbrev pub number_v4 : ℕ → ℕ → ℕ → ℕ → ℕ
number_v4 a b c d = a * 2 ^ 24 + b * 2 ^ 16 + c * 2 ^ 8 + d

-- The first address of a block and the number of addresses in it.
abbrev pub Block : Type 0
Block = ℕ × ℕ

abbrev pub in_block : ℕ → Block → Bool
in_block n (first, size) = leb first n && ltb n (first + size)

-- 0/8, 10/8, 100.64/10, 127/8, 169.254/16, 172.16/12, 192.0.0/24, 192.168/16, 224/4 and 240/4
abbrev pub blocked_v4 : List Block
blocked_v4 =
    (number_v4 0 0 0 0, 2 ^ 24)
    ∷ (number_v4 10 0 0 0, 2 ^ 24)
    ∷ (number_v4 100 64 0 0, 2 ^ 22)
    ∷ (number_v4 127 0 0 0, 2 ^ 24)
    ∷ (number_v4 169 254 0 0, 2 ^ 16)
    ∷ (number_v4 172 16 0 0, 2 ^ 20)
    ∷ (number_v4 192 0 0 0, 2 ^ 8)
    ∷ (number_v4 192 168 0 0, 2 ^ 16)
    ∷ (number_v4 224 0 0 0, 2 ^ 28)
    ∷ (number_v4 240 0 0 0, 2 ^ 28)
    ∷ []

module _ (a b c d : ℕ) (ha : a < 256) (hb : b < 256) (hc : c < 256) (hd : d < 256) where
  block_8 : (k : ℕ) → in_block (number_v4 a b c d) (number_v4 k 0 0 0, 2 ^ 24) ≡ (a == k)
  block_8 k = ground arith

  block_cgn :
      in_block (number_v4 a b c d) (number_v4 100 64 0 0, 2 ^ 22)
      ≡ (a == 100 && leb 64 b && leb b 127)
  block_cgn = ground arith

  block_16 :
      (k l : ℕ)
      → l < 256
      → in_block (number_v4 a b c d) (number_v4 k l 0 0, 2 ^ 16) ≡ (a == k && b == l)
  block_16 k l h = ground arith

  block_12 :
      in_block (number_v4 a b c d) (number_v4 172 16 0 0, 2 ^ 20)
      ≡ (a == 172 && leb 16 b && leb b 31)
  block_12 = ground arith

  block_24 :
      in_block (number_v4 a b c d) (number_v4 192 0 0 0, 2 ^ 8) ≡ (a == 192 && b == 0 && c == 0)
  block_24 = ground arith

  block_multicast :
      in_block (number_v4 a b c d) (number_v4 224 0 0 0, 2 ^ 28) ≡ (leb 224 a && ltb a 240)
  block_multicast = ground arith

  block_top : in_block (number_v4 a b c d) (number_v4 240 0 0 0, 2 ^ 28) ≡ leb 240 a
  block_top = ground arith

  code_v4 : Bool
  code_v4 =
      a == 0
      || a == 10
      || (a == 100 && leb 64 b && leb b 127)
      || a == 127
      || (a == 169 && b == 254)
      || (a == 172 && leb 16 b && leb b 31)
      || (a == 192 && b == 0 && c == 0)
      || (a == 192 && b == 168)
      || (leb 224 a && ltb a 240)
      || leb 240 a

  is_blocked-code : is_blocked (v4 a b c d) ≡ code_v4
  unfolding is_blocked unmap is_special is_reserved code_v4
  is_blocked-code = ground arith

  blocks-code : any (in_block (number_v4 a b c d)) blocked_v4 ≡ code_v4
  unfolding code_v4
  blocks-code =
      rw
        (
          block_8 0,
          block_8 10,
          block_cgn,
          block_8 127,
          block_16 169 254 (omega arith),
          block_12,
          block_24,
          block_16 192 168 (omega arith),
          block_multicast,
          block_top,
        )
        (ground arith)

-- An IPv4 address is blocked exactly when it lies in one of the ten blocks: this network, private,
-- carrier-grade NAT, loopback, link-local with the metadata service, protocol assignments,
-- multicast, reserved.
pub is_blocked-v4 :
    (a b c d : ℕ)
    → a < 256
    → b < 256
    → c < 256
    → d < 256
    → is_blocked (v4 a b c d) ≡ any (in_block (number_v4 a b c d)) blocked_v4
is_blocked-v4 a b c d ha hb hc hd =
    is_blocked-code a b c d ha hb hc hd ∙ sym (blocks-code a b c d ha hb hc hd)

unmap_mapped :
    (a b c d : ℕ) (zone : Str)
    → a < 256
    → b < 256
    → c < 256
    → d < 256
    → unmap (v6 0 (0xffff * 2 ^ 32 + number_v4 a b c d) zone) ≡ v4 a b c d
unfolding unmap
unmap_mapped a b c d zone ha hb hc hd = ground arith

unmap-v4 : (a b c d : ℕ) → unmap (v4 a b c d) ≡ v4 a b c d
unfolding unmap
unmap-v4 a b c d = refl

unblock :
    (hi lo : ℕ) (zone : Str) (a b c d : ℕ)
    → unmap (v6 hi lo zone) ≡ v4 a b c d
    → is_blocked (v6 hi lo zone) ≡ is_blocked (v4 a b c d)
unfolding is_blocked
unblock hi lo zone a b c d same =
    ap (λ (x : Addr). is_special x || is_reserved x) (same ∙ sym (unmap-v4 a b c d))

-- An IPv4 address written as ::ffff:a.b.c.d, in any zone, is blocked exactly when a.b.c.d is.
pub is_blocked-mapped :
    (a b c d : ℕ) (zone : Str)
    → a < 256
    → b < 256
    → c < 256
    → d < 256
    → is_blocked (v6 0 (0xffff * 2 ^ 32 + number_v4 a b c d) zone) ≡ is_blocked (v4 a b c d)
is_blocked-mapped a b c d zone ha hb hc hd =
    let same : unmap (v6 0 (0xffff * 2 ^ 32 + number_v4 a b c d) zone) ≡ v4 a b c d =
      unmap_mapped a b c d zone ha hb hc hd in
    unblock 0 _ zone a b c d same

-- The first 64 bits of fc00::/7, fe80::/10 and ff00::/8.
abbrev pub blocked_v6 : List Block
blocked_v6 = (0xfc00 * 2 ^ 48, 2 ^ 57) ∷ (0xfe80 * 2 ^ 48, 2 ^ 54) ∷ (0xff00 * 2 ^ 48, 2 ^ 56) ∷ []

-- An IPv6 address without a zone that is no mapped IPv4 address is blocked exactly when it is ::,
-- ::1, or in a unique-local, link-local or multicast block.
pub is_blocked-v6 :
    (hi lo : ℕ)
    → hi < 2 ^ 64
    → (hi == 0 && lo / 2 ^ 32 == 0xffff) ≡ false
    → is_blocked (v6 hi lo []) ≡ (hi == 0 && leb lo 1 || any (in_block hi) blocked_v6)
unfolding is_blocked unmap is_special is_reserved str_eq
is_blocked-v6 hi lo h plain = rw plain (ground arith)
