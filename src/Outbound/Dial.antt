-- ===== src/Outbound/Dial.antt =====
-- Which addresses a provider client may dial: backend/internal/platform/outbound/dial.go. An address is
-- that of net/netip: invalid, four bytes, or sixteen bytes with whether it has a zone. Of net/netip,
-- Contains, Unmap, IsGlobalUnicast, IsPrivate, IsLoopback and IsLinkLocalUnicast are written out.
use sama.Prelude.{
  ℕ, ◌+◌, ◌-◌, ◌*◌, ◌^◌, Bool, true, false, ◌&&◌, ◌||◌, not, Option, none, some, List, [], ◌∷◌,
  String, ltb, leb, ◌==◌, ◌is◌, if◌then◌else◌, length, ◌≡◌, arith,
}

pub data Address : Type 0 where
  invalid : Address
  v4 : ℕ → Address
  v6 : ℕ → Bool → Address

-- The addresses from `base`, `size` of them.
pub record Range : Type 0 where
  pub base : ℕ
  pub size : ℕ

abbrev pub is_in : ℕ → Range → Bool
is_in n r = leb r.base n && ltb n (r.base + r.size)

unfoldable pub is_in_any : ℕ → List Range → Bool
is_in_any n [] = false
is_in_any n (r ∷ rs) = is_in n r || is_in_any n rs

-- The IPv4 network a.b.c.0 of 2^`bits` addresses.
abbrev pub net4 : ℕ → ℕ → ℕ → ℕ → Range
net4 a b c bits = record { base = a * 16777216 + b * 65536 + c * 256; size = 2 ^ bits }

-- The IPv6 network whose first 16-bit groups are `a` and `b`, of 2^`bits` addresses.
abbrev pub net6 : ℕ → ℕ → ℕ → Range
net6 a b bits = record { base = a * 2 ^ 112 + b * 2 ^ 96; size = 2 ^ bits }

abbrev pub mapped : ℕ
mapped = 65535 * 4294967296

unfoldable pub unmap : Address → Address
unmap invalid = invalid
unmap (v4 n) = v4 n
unmap (v6 n zone) =
    if leb mapped n && ltb n (mapped + 4294967296) then v4 (n - mapped) else v6 n zone

-- deniedRanges
unfoldable pub denied4 : List Range
denied4 =
    net4 0 0 0 24
    ∷ net4 100 64 0 22
    ∷ net4 192 0 0 8
    ∷ net4 192 0 2 8
    ∷ net4 192 88 99 8
    ∷ net4 198 18 0 17
    ∷ net4 198 51 100 8
    ∷ net4 203 0 113 8
    ∷ net4 240 0 0 28
    ∷ []

unfoldable pub denied6 : List Range
denied6 = net6 8193 0 105 ∷ net6 8193 3512 96 ∷ net6 8194 0 112 ∷ net6 16383 0 108 ∷ []

-- What IsGlobalUnicast, IsPrivate, IsLoopback and IsLinkLocalUnicast exclude: private, loopback,
-- link-local and multicast networks, and the unspecified and the broadcast address.
unfoldable pub special4 : List Range
special4 =
    net4 10 0 0 24
    ∷ net4 172 16 0 20
    ∷ net4 192 168 0 16
    ∷ net4 127 0 0 24
    ∷ net4 169 254 0 16
    ∷ net4 224 0 0 28
    ∷ record { base = 0; size = 1 }
    ∷ record { base = 4294967295; size = 1 }
    ∷ []

unfoldable pub special6 : List Range
special6 =
    net6 64512 0 121
    ∷ record { base = 1; size = 1 }
    ∷ net6 65152 0 118
    ∷ net6 65280 0 120
    ∷ record { base = 0; size = 1 }
    ∷ []

-- publicAddress after its Unmap.
unfoldable pub is_public : Address → Bool
unfolding is_in_any denied4 denied6 special4 special6
is_public invalid = false
is_public (v4 n) = not (is_in_any n special4) && not (is_in_any n denied4)
is_public (v6 n zone) =
    not zone && not (is_in_any n special6) && is_in n (net6 8192 0 125) && not (is_in_any n denied6)

unfoldable pub public_address : Address → Bool
unfolding is_public unmap
public_address ip = is_public (unmap ip)

unfoldable pub all_public : List Address → Bool
unfolding public_address
all_public [] = true
all_public (ip ∷ ips) = public_address ip && all_public ips

-- The second loop of safeDial, from its `k`th turn: `ended k` is whether the context has ended by then,
-- `answers k` whether that dial succeeds. The answer is the address that was dialled.
unfoldable pub dial_first : (ℕ → Bool) → (ℕ → Bool) → ℕ → List Address → Option Address
unfolding unmap
dial_first ended answers k [] = none
dial_first ended answers k (ip ∷ ips) =
    let rest = dial_first ended answers (k + 1) ips in
    if ended k then none else if answers k then some (unmap ip) else rest

-- What net.SplitHostPort finds in the address to dial.
pub record Endpoint : Type 0 where
  pub name : String
  pub port : String

-- safeDial; `target` is none where SplitHostPort fails, `found` where LookupNetIP fails, and the answer is
-- none for ErrNetwork.
unfoldable pub safe_dial :
    String
    → String
    → Option Endpoint
    → Option (List Address)
    → (ℕ → Bool)
    → (ℕ → Bool)
    → Option Address
unfolding all_public dial_first
safe_dial host network target found ended answers = elim target [
  | none ↦ none
  | some t ↦
      if not (t.name is host) || not (t.port is "443") || not (network is "tcp")
      then none
      else elim found [
        | none ↦ none
        | some ips ↦
            if length ips == 0 || ltb 32 (length ips) || not (all_public ips)
            then none
            else dial_first ended answers 0 ips
      ]
]

dial_first-IsPublic :
    (ended answers : ℕ → Bool) (k : ℕ) (ips : List Address) {ip : Address}
    → all_public ips ≡ true
    → dial_first ended answers k ips ≡ some ip
    → is_public ip ≡ true
unfolding dial_first all_public public_address
dial_first-IsPublic ended answers k [] a h = ground arith
dial_first-IsPublic ended answers k (x ∷ xs) {ip} a h =
    ground (arith, dial_first-IsPublic ended answers (k + 1) xs {ip = ip})

-- A dial that succeeds went to a public address, on port 443 of the profile's own host, and every address
-- that the name resolved to is public.
pub safe_dial-public :
    (host network : String) (t : Endpoint) (ips : List Address) (ended answers : ℕ → Bool)
    {ip : Address}
    → safe_dial host network (some t) (some ips) ended answers ≡ some ip
    → (is_public ip ≡ true)
      × (all_public ips ≡ true)
      × ((t.name is host) ≡ true)
      × ((t.port is "443") ≡ true)
unfolding safe_dial
safe_dial-public host network t ips ended answers {ip} h = (
  ground (arith, dial_first-IsPublic ended answers 0 ips {ip = ip}),
  ground arith,
  ground arith,
  ground arith,
)
