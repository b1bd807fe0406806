-- ===== src/Ledger/Invariant.antt =====
-- What holds of every ledger that the process can reach. (service/agent/admission.ts)
use dreamux.Base.{
  ℕ, suc, ◌+◌, ◌≤◌, ◌<◌, ◌≡◌, refl, String, Bool, false, some, List, [], ◌∷◌, ◌++◌, arith,
  if◌then◌else◌, ◌==◌, includes, includes-append, length, length-append, nat_eq,
}
use dreamux.Base.Dict.{lookup}
use dreamux.Ledger.Admission.{
  Ledger, AdmissionStatus, admit_key, admission_source_window, without, evict, commit, release,
  release_uncommitted, commits,
}

abbrev pub IsDistinct : List String → Type 0
IsDistinct [] = Unit {0}
IsDistinct (k ∷ ks) = (includes k ks ≡ false) × IsDistinct ks

-- The set and the order hold the same distinct keys, no more than the window; no key is both
-- committed and in flight; task numbers are handed out once.
pub record IsSound (l : Ledger) : Type 0 where
  pub mirrored : l.committed ≡ l.committed_order
  pub distinct : IsDistinct l.committed_order
  pub bounded : length l.committed_order ≤ admission_source_window
  pub apart :
      (key : String) (task : ℕ)
      → lookup key l.pending ≡ some task
      → (includes key l.committed ≡ false) × (task < l.next_task)

-- A step of the process, and whether it commits a key: an input arrives, or the task in flight for
-- a key settles, by a status or by a rejection.
pub data Step (l : Ledger) : Bool → Ledger → Type 0 where
  admits : (key : String) → Step l false (admit_key l key).0
  settles :
      (key : String) (task : ℕ) (status : AdmissionStatus)
      → lookup key l.pending ≡ some task
      → Step l (commits status) (release l key task status)
  rejects :
      (key : String) (task : ℕ)
      → lookup key l.pending ≡ some task
      → Step l false (release_uncommitted l key task)

without_absent : (key : String) (ks : List String) → includes key ks ≡ false → without key ks ≡ ks
without_absent key [] h = refl
without_absent key (k ∷ ks) h = ground (arith, without_absent key ks)

pub append-IsDistinct :
    (ks : List String) (key : String)
    → IsDistinct ks
    → includes key ks ≡ false
    → IsDistinct (ks ++ key ∷ [])
append-IsDistinct [] key d h = (refl, tt)
append-IsDistinct (k ∷ ks) key d h =
    ground (arith, append-IsDistinct ks key d.1, includes-append k ks (key ∷ []))

-- A list one over the window loses its head.
abbrev pub drop_oldest : List String → List String
drop_oldest [] = []
drop_oldest (k ∷ ks) = ks

evict_within : (ks os : List String) → length os ≤ admission_source_window → evict ks os ≡ (ks, os)
unfolding evict
evict_within ks [] h = refl
evict_within ks (o ∷ os) h = ground arith

evict_over :
    (ks : List String)
    → IsDistinct ks
    → length ks ≡ suc admission_source_window
    → evict ks ks ≡ (drop_oldest ks, drop_oldest ks)
unfolding evict
evict_over [] d h = ground arith
evict_over (k ∷ ks) d h = ground (arith, without_absent k ks d.0, evict_within ks ks)

drop_oldest-IsDistinct : (ks : List String) → IsDistinct ks → IsDistinct (drop_oldest ks)
drop_oldest-IsDistinct [] d = tt
drop_oldest-IsDistinct (k ∷ ks) d = d.1

-- A commit of a new key to a sound ledger appends it, and drops the oldest where the window is full.
pub commit_lem :
    (l : Ledger) (key : String)
    → IsSound l
    → includes key l.committed ≡ false
    → let keys = l.committed_order ++ key ∷ [] in
      let kept =
        if nat_eq (length l.committed_order) admission_source_window
        then drop_oldest keys
        else keys in
      commit l key ≡ record l { committed = kept; committed_order = kept }
unfolding commit
commit_lem l key v h =
    let mirrored = v.mirrored in
    let fresh : includes key l.committed_order ≡ false = ground arith in
    let keys = l.committed_order ++ key ∷ [] in
    let long : length keys ≡ length l.committed_order + 1 =
      length-append l.committed_order (key ∷ []) in
    let bounded = v.bounded in
    let over = evict_over keys (append-IsDistinct l.committed_order key v.distinct fresh) in
    let within = evict_within keys keys in ground arith

drop_oldest_absent :
    (key : String) (ks : List String)
    → includes key ks ≡ false
    → includes key (drop_oldest ks) ≡ false
drop_oldest_absent key [] h = refl
drop_oldest_absent key (k ∷ ks) h = ground arith

pub length-drop_oldest :
    (k : String) (ks : List String) → length (drop_oldest (ks ++ k ∷ [])) ≡ length ks
length-drop_oldest k [] = refl
length-drop_oldest k (x ∷ ks) = ground (arith, length-append ks (k ∷ []))

pub commit_mirrored :
    (l : Ledger) (key : String)
    → IsSound l
    → includes key l.committed ≡ false
    → (commit l key).committed ≡ (commit l key).committed_order
commit_mirrored l key v h = rw (commit_lem l key v h) refl

pub commit-IsDistinct :
    (l : Ledger) (key : String)
    → IsSound l
    → includes key l.committed ≡ false
    → IsDistinct (commit l key).committed_order
commit-IsDistinct l key v h =
    let mirrored = v.mirrored in
    let whole = append-IsDistinct l.committed_order key v.distinct (ground arith) in
    let less = drop_oldest-IsDistinct (l.committed_order ++ key ∷ []) whole in
    rw (commit_lem l key v h) (ground arith)

pub commit_bounded :
    (l : Ledger) (key : String)
    → IsSound l
    → includes key l.committed ≡ false
    → length (commit l key).committed_order ≤ admission_source_window
commit_bounded l key v h =
    let bounded = v.bounded in
    let more = length-append l.committed_order (key ∷ []) in
    let less = length-drop_oldest key l.committed_order in rw (commit_lem l key v h) (ground arith)

-- What is not committed is not committed by the commit of another key.
pub commit_absent :
    (l : Ledger) (key other : String)
    → IsSound l
    → includes key l.committed ≡ false
    → includes other l.committed ≡ false
    → (key == other) ≡ false
    → includes other (commit l key).committed ≡ false
commit_absent l key other v h g d =
    let mirrored = v.mirrored in
    let more = includes-append other l.committed_order (key ∷ []) in
    let less = drop_oldest_absent other (l.committed_order ++ key ∷ []) in
    rw (commit_lem l key v h) (ground arith)

pub commit_pending :
    (l : Ledger) (key : String)
    → IsSound l
    → includes key l.committed ≡ false
    → ((commit l key).pending ≡ l.pending) × ((commit l key).next_task ≡ l.next_task)
commit_pending l key v h = rw (commit_lem l key v h) (refl, refl)
