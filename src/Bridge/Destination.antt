-- ===== src/Bridge/Destination.antt =====
-- Where a write to the character device goes: the address in front of its first colon.
use fame_z.Base.{Bool, List, bytes_eq, codes, if◌then◌else◌, length, none, some, to_s32, ℕ, ℤ, ◌||◌}
use fame_z.Base.Text.{split_at}
use fame_z.Famez.Outgoing.{sid_cid_is_peer_id, store_byte}

-- The answer of `kstrtoint`: the number, or an error.
pub data Parsed : Type 0 where
  parsed : ℤ → Parsed
  unparsed : ℤ → Parsed

-- Where a message goes, or the error of its address.
pub data Target : Type 0 where
  target : (cid sid : ℤ) → Target
  bad_target : ℤ → Target

unfoldable pub by_peer : Parsed → Target
by_peer (parsed cid) = target cid sid_cid_is_peer_id
by_peer (unparsed e) = bad_target e

unfoldable pub with_sid : Parsed → Parsed → Target
with_sid (unparsed e) c = bad_target e
with_sid (parsed sid) (unparsed e) = bad_target e
with_sid (parsed sid) (parsed cid) = target cid sid

-- The words for the server.
unfoldable pub names_server : List ℕ → Bool
names_server head =
    bytes_eq head (codes "server")
    || bytes_eq head (codes "switch")
    || bytes_eq head (codes "link")
    || bytes_eq head (codes "interface")

-- The names of the server, a pair around the first comma, or a peer id.
unfoldable pub parse_target : (List ℕ → Parsed) → ℕ → List ℕ → Target
unfolding by_peer with_sid
parse_target kstrtoint server_id head =
    if names_server head
    then target (to_s32 server_id) sid_cid_is_peer_id
    else elim (split_at b',' head) [
      | some (before, behind) ↦ with_sid (kstrtoint before) (kstrtoint behind)
      | none ↦ by_peer (kstrtoint head)
    ]

-- The NUL that replaces the comma, if the address has one.
unfoldable pub chomp_comma : List ℕ → (ℕ → ℕ) → ℕ → ℕ
chomp_comma head m = elim (split_at b',' head) [
  | some (before, _) ↦ store_byte m (length before) 0
  | none ↦ m
]
