-- ===== src/Routing/Hosts.antt =====
-- src/routing/mod.rs: hostnames and wildcard patterns.
pub mod Laws
use portail.Prelude.{
  ℕ, zero, suc, ◌+◌, ◌-◌, Bool, true, false, ◌&&◌, ◌||◌, Option, none, some, List, [], ◌∷◌, ltb,
  leb, ◌==◌, if◌then◌else◌, Bytes, bytes_eq, strip_prefix, length, get_elem?, drop,
}

-- `host.ends_with(parent)`.
unfoldable pub ends_with : Bytes → Bytes → Bool
ends_with host parent =
    leb (length parent) (length host) && bytes_eq (drop (length host - length parent) host) parent

-- `bytes[i] == c`, within the bounds.
abbrev byte_is : Option ℕ → ℕ → Bool
byte_is none c = false
byte_is (some b) c = b == c

unfoldable pub wildcard_covers : Bytes → Bytes → Bool
unfolding ends_with
wildcard_covers parent host =
    ends_with host parent
    && ltb (length parent) (length host)
    && byte_is (get_elem? host (length host - length parent - 1)) b'.'

-- `s.strip_prefix("*.")`.
abbrev pub wildcard_parent : Bytes → Option Bytes
wildcard_parent = strip_prefix (b'*' ∷ b'.' ∷ [])

intersect : Option Bytes → Option Bytes → Bytes → Bytes → Bool
intersect none none a b = bytes_eq a b
intersect (some pa) none a b = wildcard_covers pa b
intersect none (some pb) a b = wildcard_covers pb a
intersect (some pa) (some pb) a b = bytes_eq pa pb || wildcard_covers pa b || wildcard_covers pb a

unfoldable pub hostnames_intersect : Bytes → Bytes → Bool
unfolding intersect
hostnames_intersect a b = intersect (wildcard_parent a) (wildcard_parent b) a b

-- What the iterator `ParentDomains` yields, in order: the rest behind each dot.
unfoldable pub parent_domains : Bytes → List Bytes
parent_domains [] = []
parent_domains (c ∷ host) = if c == b'.' then host ∷ parent_domains host else parent_domains host
