-- ===== src/Ledger/Admission.antt =====
-- service/agent/admission.ts: AdmissionLedger.
use dreamux.Base.{
  ℕ, suc, String, Bool, true, false, not, Option, none, some, List, [], ◌∷◌, ◌++◌, ltb, nat_eq,
  if◌then◌else◌, ◌==◌, includes, keep, length,
}
use dreamux.Base.Dict.{lookup, insert, remove}

abbrev pub admission_source_window : ℕ
admission_source_window = 1024

pub record AgentEntityLedgerKey : Type 0 where
  pub dispatcher_id : String
  pub team_id : Option String
  pub name : String

abbrev pub Components : Type 0
Components = List (Option String)

unfoldable pub tuple_key : (Components → String) → AgentEntityLedgerKey → String → String
tuple_key stringify entity source_id =
    stringify (some entity.dispatcher_id ∷ entity.team_id ∷ some entity.name ∷ some source_id ∷ [])

pub data AdmissionStatus : Type 0 where
  submitted duplicate stopped skipped failed ambiguous : AdmissionStatus

pub record Ledger : Type 0 where
  pub committed : List String
  pub committed_order : List String
  pub pending : List (String × ℕ)
  pub next_task : ℕ

unfoldable pub empty : Ledger
empty = record { committed = []; committed_order = []; pending = []; next_task = 0 }

-- How `admit` answers: without the ledger, as a duplicate, with the task in flight, or with a new
-- task that runs the operation.
pub data Answer : Type 0 where
  bypassed : Answer
  repeated : Answer
  joined : ℕ → Answer
  started : ℕ → Answer

unfoldable pub admit_key : Ledger → String → Ledger × Answer
admit_key l key = if includes key l.committed then (l, repeated) else elim (lookup key l.pending) [
  | some task ↦ (l, joined task)
  | none ↦ (
    record l { pending = insert key l.next_task l.pending; next_task = suc l.next_task },
    started l.next_task,
  )
]

abbrev has_source : Option String → Bool
has_source none = false
has_source (some s) = not (s == "")

abbrev source_text : Option String → String
source_text none = ""
source_text (some s) = s

unfoldable pub admit :
    (Components → String) → Ledger → AgentEntityLedgerKey → Option String → Ledger × Answer
unfolding admit_key tuple_key
admit stringify l entity source_id =
    if has_source source_id
    then admit_key l (tuple_key stringify entity (source_text source_id))
    else (l, bypassed)

-- `this.committed.delete(key)`.
abbrev pub without : String → List String → List String
without key = keep (λ k. not (k == key))

-- The `while` loop of `commit`, over what is left of the order.
unfoldable pub evict : List String → List String → List String × List String
evict committed [] = (committed, [])
evict committed (oldest ∷ order) =
    let rest = evict (without oldest committed) order in
    if ltb admission_source_window (suc (length order)) then rest else (committed, oldest ∷ order)

unfoldable pub commit : Ledger → String → Ledger
unfolding evict
commit l key =
    if includes key l.committed
    then l
    else (let (committed, order) =
          evict (l.committed ++ key ∷ []) (l.committed_order ++ key ∷ []) in
        record l { committed = committed; committed_order = order })

abbrev is_task : ℕ → Option ℕ → Bool
is_task task none = false
is_task task (some t) = nat_eq t task

unfoldable pub release_uncommitted : Ledger → String → ℕ → Ledger
release_uncommitted l key task =
    if is_task task (lookup key l.pending) then record l { pending = remove key l.pending } else l

abbrev pub commits : AdmissionStatus → Bool
commits submitted = true
commits ambiguous = true
commits duplicate = false
commits stopped = false
commits skipped = false
commits failed = false

unfoldable pub release : Ledger → String → ℕ → AdmissionStatus → Ledger
unfolding commit release_uncommitted
release l key task status =
    release_uncommitted (if commits status then commit l key else l) key task
