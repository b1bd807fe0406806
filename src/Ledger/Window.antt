-- ===== src/Ledger/Window.antt =====
-- How long a committed key stays a duplicate. (service/agent/admission.ts)
use dreamux.Base.{
  ℕ, suc, ◌+◌, ◌≤◌, ◌<◌, ◌≡◌, refl, ap, ◌∙◌, String, Bool, true, false, some, List, [], ◌∷◌, ◌++◌,
  arith, if◌then◌else◌, ◌==◌, includes, includes-append, length, length-append, Bool-cases, inl,
  inr, ◌⊎◌, ◌↔◌,
}
use dreamux.Base.Dict.{lookup, remove, lookup-remove}
use dreamux.Ledger.Admission.{
  AgentEntityLedgerKey, Components, tuple_key, admit, Ledger, AdmissionStatus, empty, admit_key,
  admission_source_window, commit, release, release_uncommitted, commits, repeated, started, Answer,
}
use dreamux.Ledger.Invariant.{
  IsDistinct, IsSound, Step, admits, settles, rejects, commit_lem, drop_oldest, append-IsDistinct,
}
use dreamux.Ledger.Reach.{
  Run, start, next, release_lem, release_uncommitted_lem, step-IsSound, run-IsSound,
}

-- The number of entries after the first occurrence of a key.
abbrev newer : String → List String → ℕ
newer key [] = 0
newer key (k ∷ ks) = if k == key then length ks else newer key ks

-- After `n` commits the key is `n` places from the end, or it has just been evicted.
abbrev Aged : String → ℕ → List String → Type 0
Aged key n ks =
    ((n < admission_source_window) × (includes key ks ≡ true) × (newer key ks ≡ n))
    ⊎ ((n ≡ admission_source_window) × (includes key ks ≡ false))

newer-append :
    (key : String) (ks ys : List String)
    → includes key ks ≡ true
    → newer key (ks ++ ys) ≡ newer key ks + length ys
newer-append key [] ys h = ground arith
newer-append key (k ∷ ks) ys h = ground (arith, newer-append key ks ys, length-append ks ys)

newer_lt : (key : String) (ks : List String) → includes key ks ≡ true → newer key ks < length ks
newer_lt key [] h = ground arith
newer_lt key (k ∷ ks) h = ground (arith, newer_lt key ks)

newer-last :
    (key : String) (ks : List String) → includes key ks ≡ false → newer key (ks ++ key ∷ []) ≡ 0
newer-last key [] h = ground arith
newer-last key (k ∷ ks) h = ground (arith, newer-last key ks)

drop_oldest-Aged :
    (key : String) (n : ℕ) (ks : List String)
    → IsDistinct ks
    → length ks ≡ suc admission_source_window
    → includes key ks ≡ true
    → newer key ks ≡ n
    → n ≤ admission_source_window
    → Aged key n (drop_oldest ks)
drop_oldest-Aged key n [] d long h age le = ground arith
drop_oldest-Aged key n (k ∷ ks) d long h age le = ground (arith, newer_lt key ks)

commit-Aged :
    (l : Ledger) (key other : String) (n : ℕ)
    → IsSound l
    → includes other l.committed ≡ false
    → Aged key n l.committed_order
    → n < admission_source_window
    → Aged key (suc n) (commit l other).committed_order
commit-Aged l key other n v h aged lt =
    let mirrored = v.mirrored in
    let bounded = v.bounded in
    let keys = l.committed_order ++ other ∷ [] in
    let whole = append-IsDistinct l.committed_order other v.distinct (ground arith) in
    let long = length-append l.committed_order (other ∷ []) in
    let more = includes-append key l.committed_order (other ∷ []) in
    let older = newer-append key l.committed_order (other ∷ []) in
    let inside = newer_lt key l.committed_order in
    let dropped = drop_oldest-Aged key (suc n) keys whole in
    rw (commit_lem l other v h) (ground arith)

commit-Aged-self :
    (l : Ledger) (key : String)
    → IsSound l
    → includes key l.committed ≡ false
    → Aged key 0 (commit l key).committed_order
commit-Aged-self l key v h =
    let mirrored = v.mirrored in
    let keys = l.committed_order ++ key ∷ [] in
    let whole = append-IsDistinct l.committed_order key v.distinct (ground arith) in
    let long = length-append l.committed_order (key ∷ []) in
    let more = includes-append key l.committed_order (key ∷ []) in
    let last = newer-last key l.committed_order (ground arith) in
    let dropped = drop_oldest-Aged key 0 keys whole in rw (commit_lem l key v h) (ground arith)

step-Aged :
    {before after : Ledger} {committing : Bool}
    → (key : String) (n : ℕ) → IsSound before
    → Aged key n before.committed_order
    → Step before committing after
    → (if committing then suc n else n) ≤ admission_source_window
    → Aged key (if committing then suc n else n) after.committed_order
unfolding admit_key
step-Aged {before} key n v aged (admits other) le = ground arith
step-Aged {before} key n v aged (settles other task status e) le =
    let fresh = (v.apart other task e).0 in
    elim (Bool-cases (commits status)) [
      | inl h ↦
          let room : n < admission_source_window = ground arith in
          rw (release_lem before other task status e v, h)
            (commit-Aged before key other n v fresh aged room)
      | inr h ↦ rw (release_lem before other task status e v, h) aged
    ]
step-Aged {before} key n v aged (rejects other task e) le =
    rw (release_uncommitted_lem before other task e) aged

run-Aged :
    {l : Ledger}
    → (key : String) (n : ℕ) (later : Ledger) → IsSound l
    → Aged key 0 l.committed_order
    → Run l n later
    → n ≤ admission_source_window
    → Aged key n later.committed_order × IsSound later
run-Aged key n later v aged start le = (aged, v)
run-Aged key n later v aged (next {n = k} {before = b} {committing = c} r s) le =
    let shorter : k ≤ admission_source_window = ground arith in
    let earlier = run-Aged key k b v aged r shorter in
    (step-Aged key k earlier.1 earlier.0 s le, step-IsSound earlier.1 s)

-- Once the first admission of an input has settled as committed, a repeat is a duplicate while fewer
-- than 1024 further keys have been committed, and is admitted again after the 1024th: whatever
-- else arrives and settles in between, from any ledger that the process reaches.
pub repeat_window :
    (stringify : Components → String) (entity : AgentEntityLedgerKey) (source : String)
    → (source == "") ≡ false
    → (before : ℕ) (l : Ledger) → Run empty before l
    → (task : ℕ) (status : AdmissionStatus)
    → lookup (tuple_key stringify entity source) l.pending ≡ some task
    → commits status ≡ true
    → (n : ℕ) (later : Ledger)
    → Run (release l (tuple_key stringify entity source) task status) n later
    → n ≤ admission_source_window
    → ((admit stringify later entity (some source)).1 ≡ repeated) ↔ (n < admission_source_window)
unfolding admit admit_key
repeat_window stringify entity source named before l history task status e h n later r le =
    let key = tuple_key stringify entity source in
    let v = run-IsSound before l history in
    let fresh = (v.apart key task e).0 in
    let settled = release l key task status in
    let young : Aged key 0 settled.committed_order =
      rw (release_lem l key task status e v, h) (commit-Aged-self l key v fresh) in
    let sound = step-IsSound v (settles key task status e) in
    let aged = run-Aged key n later sound young r le in
    let mirrored = aged.1.mirrored in let age = aged.0 in ground arith

-- An input whose admission settled without being committed, or rejected, is admitted again: a new
-- task runs it.
pub retry_after_release :
    (stringify : Components → String) (entity : AgentEntityLedgerKey) (source : String)
    → (source == "") ≡ false
    → (before : ℕ) (l : Ledger) → Run empty before l
    → (task : ℕ) (status : AdmissionStatus)
    → lookup (tuple_key stringify entity source) l.pending ≡ some task
    → commits status ≡ false
    → ((admit stringify
          (release l (tuple_key stringify entity source) task status)
          entity
          (some source)).1
        ≡ started l.next_task)
      × ((admit stringify
            (release_uncommitted l (tuple_key stringify entity source) task)
            entity
            (some source)).1
          ≡ started l.next_task)
unfolding admit admit_key
retry_after_release stringify entity source named before l history task status e h =
    let key = tuple_key stringify entity source in
    let v = run-IsSound before l history in
    let fresh = (v.apart key task e).0 in
    let gone = lookup-remove key key l.pending in
    let freed : Ledger = record l { pending = remove key l.pending } in
    let again : (admit stringify freed entity (some source)).1 ≡ started l.next_task =
      ground arith in
    let answer : Ledger → Answer = λ ledger. (admit stringify ledger entity (some source)).1 in
    let closed : release l key task status ≡ freed =
      release_lem l key task status e v ∙ rw (h) refl in
    (ap answer closed ∙ again, ap answer (release_uncommitted_lem l key task e) ∙ again)
