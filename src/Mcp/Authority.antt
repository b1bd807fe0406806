-- ===== src/Mcp/Authority.antt =====
-- How long a token is good for. (mcp/leases.ts)
use dreamux.Base.{
  ℕ, ◌≡◌, refl, ap, ◌∙◌, String, String-discrete, Bool, true, false, not, ◌&&◌, none, some, List,
  [], ◌∷◌, if◌then◌else◌, ◌==◌, nat_eq, includes, arith,
}
use dreamux.Base.Dict.{lookup, remove, lookup-insert, lookup-remove}
use dreamux.Base.Result.{Result, thrown, returned}
use dreamux.Mcp.Leases.{
  McpLeaseEntry, McpLeaseRegistry, has_ended, is_current, prune_revoked, mint, revoked,
  unknown_tool, delegated, entry, invoke, release_all, release, Event, mints, releases, ends, step,
  run,
}

lookup-prune_revoked-none :
    (token : String) (current : ℕ → Bool) (es : List (String × McpLeaseEntry))
    → lookup token es ≡ none
    → lookup token (prune_revoked current es) ≡ none
unfolding prune_revoked lookup
lookup-prune_revoked-none token current [] h = refl
lookup-prune_revoked-none token current (e ∷ es) h =
    ground (arith, lookup-prune_revoked-none token current es)

lookup-prune_revoked :
    (token : String) (current : ℕ → Bool) (es : List (String × McpLeaseEntry))
    (found : McpLeaseEntry)
    → lookup token es ≡ some found
    → current found.lease ≡ true
    → lookup token (prune_revoked current es) ≡ some found
unfolding prune_revoked lookup
lookup-prune_revoked token current [] found h c = ground arith
lookup-prune_revoked token current (e ∷ es) found h c = elim (String-discrete e.0 token) [
  | yes same ↦
      let here : e.1 ≡ found = ground arith in
      let kept : current e.1.lease ≡ true = ap (λ f. current f.lease) here ∙ c in ground arith
  | no differ ↦ ground (arith, lookup-prune_revoked token current es found)
]

lookup-release_all :
    (token : String) (tokens : List String) (es : List (String × McpLeaseEntry))
    → lookup token (release_all tokens es)
      ≡ (if includes token tokens then none else lookup token es)
unfolding release_all
lookup-release_all token [] es = refl
lookup-release_all token (t ∷ tokens) es =
    let law = lookup-remove t token es in
    ground (arith, lookup-release_all token tokens (remove t es))

-- No later mint draws the token.
abbrev pub never_drawn : String → List Event → Bool
never_drawn token [] = true
never_drawn token (mints lease name described drawn ∷ es) =
    not (drawn == token) && never_drawn token es
never_drawn token (releases tokens ∷ es) = never_drawn token es
never_drawn token (ends lease ∷ es) = never_drawn token es

-- The token is not released, and its generation does not end.
abbrev pub is_kept : String → ℕ → List Event → Bool
is_kept token lease [] = true
is_kept token lease (mints l name described drawn ∷ es) = is_kept token lease es
is_kept token lease (releases tokens ∷ es) = not (includes token tokens) && is_kept token lease es
is_kept token lease (ends l ∷ es) = not (nat_eq l lease) && is_kept token lease es

mint-none :
    (token drawn name : String) (lease : ℕ) (described : Result String (List String))
    (r : McpLeaseRegistry)
    → (drawn == token) ≡ false
    → lookup token r.entries ≡ none
    → lookup token (mint lease name described drawn r).0.entries ≡ none
unfolding mint
mint-none token drawn name lease (thrown e) r other h =
    lookup-prune_revoked-none token (is_current r) r.entries h
mint-none token drawn name lease (returned []) r other h =
    lookup-prune_revoked-none token (is_current r) r.entries h
mint-none token drawn name lease (returned (tool ∷ tools)) r other h =
    let law =
      lookup-insert drawn token (record { lease = lease; name = name; tools = tool ∷ tools })
        (prune_revoked (is_current r) r.entries) in
    let gone = lookup-prune_revoked-none token (is_current r) r.entries h in ground arith

mint_kept :
    (token drawn name : String) (lease : ℕ) (described : Result String (List String))
    (r : McpLeaseRegistry)
    → (found : McpLeaseEntry) → (drawn == token) ≡ false
    → lookup token r.entries ≡ some found
    → is_current r found.lease ≡ true
    → lookup token (mint lease name described drawn r).0.entries ≡ some found
unfolding mint
mint_kept token drawn name lease (thrown e) r found other h c =
    lookup-prune_revoked token (is_current r) r.entries found h c
mint_kept token drawn name lease (returned []) r found other h c =
    lookup-prune_revoked token (is_current r) r.entries found h c
mint_kept token drawn name lease (returned (tool ∷ tools)) r found other h c =
    let law =
      lookup-insert drawn token (record { lease = lease; name = name; tools = tool ∷ tools })
        (prune_revoked (is_current r) r.entries) in
    let there = lookup-prune_revoked token (is_current r) r.entries found h c in ground arith

mint_ended :
    (name drawn : String) (lease : ℕ) (described : Result String (List String))
    (r : McpLeaseRegistry)
    → (mint lease name described drawn r).0.ended ≡ r.ended
unfolding mint
mint_ended name drawn lease (thrown e) r = refl
mint_ended name drawn lease (returned []) r = refl
mint_ended name drawn lease (returned (tool ∷ tools)) r = refl

run-none :
    (token : String) (r : McpLeaseRegistry) (es : List Event)
    → never_drawn token es ≡ true
    → lookup token r.entries ≡ none
    → lookup token (run r es).entries ≡ none
unfolding run step release
run-none token r [] fresh h = h
run-none token r (mints lease name described drawn ∷ es) fresh h =
    run-none token (mint lease name described drawn r).0 es (ground arith)
      (mint-none token drawn name lease described r (ground arith) h)
run-none token r (releases tokens ∷ es) fresh h =
    let law = lookup-release_all token tokens r.entries in
    run-none token (release tokens r) es fresh (ground arith)
run-none token r (ends lease ∷ es) fresh h =
    run-none token (record r { ended = lease ∷ r.ended }) es fresh h

run_kept :
    (token : String) (found : McpLeaseEntry) (r : McpLeaseRegistry) (es : List Event)
    → never_drawn token es ≡ true
    → is_kept token found.lease es ≡ true
    → lookup token r.entries ≡ some found
    → is_current r found.lease ≡ true
    → (lookup token (run r es).entries ≡ some found) × (is_current (run r es) found.lease ≡ true)
unfolding run step release
run_kept token found r [] fresh kept h c = (h, c)
run_kept token found r (mints lease name described drawn ∷ es) fresh kept h c =
    let same = mint_ended name drawn lease described r in
    run_kept token found (mint lease name described drawn r).0 es (ground arith) kept
      (mint_kept token drawn name lease described r found (ground arith) h c)
      (ap (λ gone. not (has_ended found.lease gone)) same ∙ c)
run_kept token found r (releases tokens ∷ es) fresh kept h c =
    let law = lookup-release_all token tokens r.entries in
    run_kept token found (release tokens r) es fresh (ground arith) (ground arith) c
run_kept token found r (ends lease ∷ es) fresh kept h c =
    run_kept token found (record r { ended = lease ∷ r.ended }) es fresh (ground arith) h
      (ground arith)

-- Once a token is released, and as long as no mint draws the same token again, every call with it is
-- refused, whatever is minted, released or ended in between: its delegate is not reached again.
pub released_token_refused :
    (r : McpLeaseRegistry) (tokens : List String) (es : List Event) (token tool : String)
    → includes token tokens ≡ true
    → never_drawn token es ≡ true
    → invoke token tool (run (release tokens r) es) ≡ revoked
unfolding release invoke
released_token_refused r tokens es token tool listed fresh =
    let law = lookup-release_all token tokens r.entries in
    let gone = run-none token (release tokens r) es fresh (ground arith) in
    rw (invoke, entry, gone) refl

-- A minted token serves exactly the tools of its catalog as long as it is not released, its generation
-- does not end and no other mint draws it: no pruning and no other owner's release takes it away.
pub minted_token_serves :
    (r : McpLeaseRegistry) (lease : ℕ) (name first : String) (rest : List String) (token : String)
    → (es : List Event) (tool : String) → is_current r lease ≡ true
    → never_drawn token es ≡ true
    → is_kept token lease es ≡ true
    → invoke token tool (run (mint lease name (returned (first ∷ rest)) token r).0 es) ≡ (
        if includes tool (first ∷ rest)
        then delegated name tool
        else unknown_tool name tool (first ∷ rest))
unfolding mint invoke
minted_token_serves r lease name first rest token es tool current fresh kept =
    let found : McpLeaseEntry = record { lease = lease; name = name; tools = first ∷ rest } in
    let law = lookup-insert token token found (prune_revoked (is_current r) r.entries) in
    let minted = (mint lease name (returned (first ∷ rest)) token r).0 in
    let same : (token == token) ≡ true = elim (String-discrete token token) [
      | yes e ↦ ground arith
      | no d ↦ elim (d refl) [ ]
    ] in
    let held = run_kept token found minted es fresh kept (ground arith) current in
    let there = held.0 in let live = held.1 in rw (invoke, entry, there, live) refl
