-- ===== src/AddressResolver.antt =====
-- src/include/rioring/address_resolver.h. What `getaddrinfo` finds is a parameter: no list where it
-- fails.
use rioring.Prelude.{
  ℕ, ◌≡◌, ◌⊎◌, inl, inr, refl, ap, Bool, true, false, List, [], ◌∷◌, ◌++◌, Option, none, some, ◌==◌,
  if◌then◌else◌, Bool-cases, ◌&&◌, not,
}
use rioring.IoContext.{Sockaddr, af_inet, af_inet6}

-- An `addrinfo`, whose `ai_next` is the rest of the list.
pub record AddrInfo : Type 0 where
  pub ai_family : ℕ
  pub ai_addr : Sockaddr

-- The loop of both functions: the address of the first entry of a family.
pub find_family : ℕ → List AddrInfo → Option Sockaddr
find_family family [] = none
find_family family (a ∷ rest) =
    let later = find_family family rest in if a.ai_family == family then some a.ai_addr else later

-- What is returned, and `*out` afterwards.
abbrev copied : Option Sockaddr → Sockaddr → Bool × Sockaddr
copied none out = (false, out)
copied (some a) out = (true, a)

-- `resolve` gives no list where `getaddrinfo` fails, which the loops take as an empty one.
abbrev listed : Option (List AddrInfo) → List AddrInfo
listed none = []
listed (some info) = info

-- `convert_socket_address`, for a `sockaddr_in6` and for a `sockaddr_in`.
pub convert_socket_address_in6 : Option (List AddrInfo) → Sockaddr → Bool × Sockaddr
convert_socket_address_in6 info out = copied (find_family af_inet6 (listed info)) out

pub convert_socket_address_in : Option (List AddrInfo) → Sockaddr → Bool × Sockaddr
convert_socket_address_in info out = copied (find_family af_inet (listed info)) out

-- No entry of the list is of the family.
abbrev pub has_none : ℕ → List AddrInfo → Bool
has_none family [] = true
has_none family (a ∷ rest) = not (a.ai_family == family) && has_none family rest

-- What the loop finds: nothing if there is nothing of the family, and otherwise the first that is.
abbrev pub Found : ℕ → List AddrInfo → Option Sockaddr → Type 0
Found family info r =
    ((r ≡ none) × (has_none family info ≡ true))
    ⊎ ((before after : List AddrInfo) × (a : AddrInfo) × (info ≡ before ++ a ∷ after)
        × (has_none family before ≡ true)
        × ((a.ai_family == family) ≡ true)
        × (r ≡ some a.ai_addr))

-- The loop gives the address of the first entry of the family, and none only if there is no such
-- entry.
pub find_family_lem :
    (family : ℕ) (info : List AddrInfo) → Found family info (find_family family info)
unfolding find_family
find_family_lem family [] = inl (refl, refl)
find_family_lem family (a ∷ rest) = elim (Bool-cases (a.ai_family == family)) [
  | inl same ↦ inr ([], rest, a, refl, refl, same, rw (same))
  | inr other ↦ elim (find_family_lem family rest) [
    | inl (e, n) ↦ inl (rw (other) e, rw (other, n))
    | inr (before, after, b, l, n, k, e) ↦
        inr (a ∷ before, after, b, ap (◌∷◌ a) l, rw (other, n), k, rw (other) e)
  ]
]
