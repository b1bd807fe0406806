-- ===== src/Mcp/Leases.antt =====
-- mcp/leases.ts: McpLeaseRegistry.
use dreamux.Base.{
  ℕ, String, Bool, false, not, ◌||◌, Option, none, some, List, [], ◌∷◌, if◌then◌else◌, nat_eq,
  includes,
}
use dreamux.Base.Dict.{lookup, insert, remove}
use dreamux.Base.Result.{Result, thrown, returned}

pub record McpLeaseEntry : Type 0 where
  pub lease : ℕ
  pub name : String
  pub tools : List String

-- The entries by token, and the generations that have ended.
pub record McpLeaseRegistry : Type 0 where
  pub entries : List (String × McpLeaseEntry)
  pub ended : List ℕ

abbrev pub has_ended : ℕ → List ℕ → Bool
has_ended lease [] = false
has_ended lease (e ∷ es) = nat_eq e lease || has_ended lease es

abbrev pub is_current : McpLeaseRegistry → ℕ → Bool
is_current r lease = not (has_ended lease r.ended)

unfoldable pub prune_revoked :
    (ℕ → Bool) → List (String × McpLeaseEntry) → List (String × McpLeaseEntry)
prune_revoked current [] = []
prune_revoked current (e ∷ es) =
    let rest = prune_revoked current es in if current e.1.lease then e ∷ rest else rest

-- The token and the name, none of a delegate that advertises nothing.
pub record McpMintedServer : Type 0 where
  pub token : String
  pub server_name : String

unfoldable pub mint :
    ℕ
    → String
    → Result String (List String)
    → String
    → McpLeaseRegistry
    → McpLeaseRegistry × Result String (Option McpMintedServer)
unfolding prune_revoked
mint lease name (thrown e) token r =
    (record r { entries = prune_revoked (is_current r) r.entries }, thrown e)
mint lease name (returned []) token r =
    (record r { entries = prune_revoked (is_current r) r.entries }, returned none)
mint lease name (returned (tool ∷ tools)) token r = (
  record r {
    entries =
        insert token (record { lease = lease; name = name; tools = tool ∷ tools })
          (prune_revoked (is_current r) r.entries);
  },
  returned (some (record { token = token; server_name = name })),
)

pub data Revoked : Type 0 where
  mcp_lease_revoked : Revoked

unfoldable pub entry : String → McpLeaseRegistry → Result Revoked McpLeaseEntry
entry token r = elim (lookup token r.entries) [
  | none ↦ thrown mcp_lease_revoked
  | some found ↦ if is_current r found.lease then returned found else thrown mcp_lease_revoked
]

-- Whether the delegate is reached, and what is answered where it is not.
pub data Invocation : Type 0 where
  revoked : Invocation
  unknown_tool : String → String → List String → Invocation
  delegated : String → String → Invocation

unfoldable pub invoke : String → String → McpLeaseRegistry → Invocation
unfolding entry
invoke token tool r = elim (entry token r) [
  | thrown e ↦ revoked
  | returned found ↦
      if includes tool found.tools
      then delegated found.name tool
      else unknown_tool found.name tool found.tools
]

unfoldable pub release_all :
    List String → List (String × McpLeaseEntry) → List (String × McpLeaseEntry)
release_all [] es = es
release_all (token ∷ tokens) es = release_all tokens (remove token es)

unfoldable pub release : List String → McpLeaseRegistry → McpLeaseRegistry
unfolding release_all
release tokens r = record r { entries = release_all tokens r.entries }

pub data Event : Type 0 where
  mints : ℕ → String → Result String (List String) → String → Event
  releases : List String → Event
  ends : ℕ → Event

unfoldable pub step : McpLeaseRegistry → Event → McpLeaseRegistry
unfolding mint release
step r (mints lease name described token) = (mint lease name described token r).0
step r (releases tokens) = release tokens r
step r (ends lease) = record r { ended = lease ∷ r.ended }

unfoldable pub run : McpLeaseRegistry → List Event → McpLeaseRegistry
unfolding step
run r [] = r
run r (e ∷ es) = run (step r e) es
