-- ===== src/Mcp/Tests.antt =====
-- Two servers of one agent. (mcp/leases.ts)
use dreamux.Base.{◌≡◌, refl, String-discrete, List, [], ◌∷◌}
use dreamux.Base.Dict.{lookup, insert, remove}
use dreamux.Base.Result.{returned}
use dreamux.Mcp.Leases.{
  McpLeaseRegistry, prune_revoked, mint, revoked, unknown_tool, delegated, entry, invoke, release,
  Event, mints, releases, ends, step, run,
}
use dreamux.Mcp.Authority.{released_token_refused, minted_token_serves}

program : Unit {0}
unfolding String-discrete lookup insert remove prune_revoked mint entry invoke release step run
program = tt

abbrev empty_registry : McpLeaseRegistry
empty_registry = record { entries = []; ended = [] }

abbrev teams : McpLeaseRegistry
teams = (mint 1 "teams" (returned ("list_teams" ∷ "send" ∷ [])) "t1" empty_registry).0

-- Another generation starts and ends, and one more server is minted.
abbrev others : List Event
others =
    mints 2 "cron" (returned ("list" ∷ [])) "t2"
    ∷ ends 2
    ∷ mints 3 "cron" (returned ("list" ∷ [])) "t3"
    ∷ releases ("t3" ∷ [])
    ∷ []

teams_served : invoke "t1" "send" teams ≡ delegated "teams" "send"
unfolding program
teams_served = refl

released_token_refused_example :
    invoke "t1" "send" (run (release ("t1" ∷ []) teams) others) ≡ revoked
unfolding program
released_token_refused_example =
    released_token_refused teams ("t1" ∷ []) others "t1" "send" refl refl

minted_token_serves_example :
    invoke "t1" "drop" (run teams others) ≡ unknown_tool "teams" "drop" ("list_teams" ∷ "send" ∷ [])
unfolding program
minted_token_serves_example =
    minted_token_serves empty_registry 1 "teams" "list_teams" ("send" ∷ []) "t1" others "drop" refl
      refl refl
