-- ===== src/Daemon/Idempotency.antt =====
-- `_idem` of forgeboss/control/daemon.py: the sections under the lock, on the dictionary of keys in
-- its order. `R` is what a request has returned or raised.
pub mod Facts
pub mod Evictions
pub mod Runs
pub mod Replays
mod Examples
use forge_boss.Base.{
  ℕ, zero, suc, Bool, true, false, not, List, [], ◌∷◌, ◌++◌, Option, none, some, if◌then◌else◌, ltb,
  length, Text, eq_text, Result, ok, err,
}
use forge_boss.Base.Int.{ℤ, leb_ℤ}

-- An entry of the dictionary: "done" is to have an outcome.
pub record Entry (R : Type 0) : Type 0 where
  pub key : Text
  pub digest : Text
  pub outcome : Option R
  pub at : ℤ

-- What the first section decides; `direct` is for a request without a key, or with the empty one.
pub data Begin (R : Type 0) : Type 0 where
  direct : Begin R
  conflict : Begin R
  replay : R → Begin R
  wait : Begin R
  own : Begin R

pub data WaitError : Type 0 where
  state_invalid : WaitError
  no_result : WaitError

module _ {R : Type 0} where
  unfoldable pub find_entry : Text → List (Entry R) → Option (Entry R)
  find_entry key [] = none
  find_entry key (e ∷ es) = if eq_text e.key key then some e else find_entry key es

  abbrev pub decide : Text → Option (Entry R) → Begin R
  decide digest none = own
  decide digest (some old) =
      if not (eq_text old.digest digest)
      then conflict
      else elim old.outcome [ none ↦ wait | some result ↦ replay result ]

  -- The first section, with the empty text for a key that is missing
  unfoldable pub begin_request : Text → Text → List (Entry R) → Begin R
  begin_request [] digest entries = direct
  begin_request (c ∷ key) digest entries = decide digest (find_entry (c ∷ key) entries)

  abbrev pub add_entry : Text → Text → ℤ → List (Entry R) → List (Entry R)
  add_entry key digest now entries =
      entries ++ (record { key = key; digest = digest; outcome = none; at = now } ∷ [])

  -- `entry[…] = …` of the sections after the request, with `none` for `KeyError`
  unfoldable pub set_outcome : Text → R → ℤ → List (Entry R) → Option (List (Entry R))
  set_outcome key result now [] = none
  set_outcome key result now (e ∷ es) =
      let rest = set_outcome key result now es in
      if eq_text e.key key
      then some (record { key = e.key; digest = e.digest; outcome = some result; at = now } ∷ es)
      else elim rest [ none ↦ none | some grown ↦ some (e ∷ grown) ]

  unfoldable pub done_entries : List (Entry R) → List (Entry R)
  done_entries [] = []
  done_entries (e ∷ es) = elim e.outcome [
    | none ↦ done_entries es
    | some result ↦ e ∷ done_entries es
  ]

  -- `sorted(done, key=…)`, which is stable
  unfoldable pub insert_by_age : Entry R → List (Entry R) → List (Entry R)
  insert_by_age e [] = e ∷ []
  insert_by_age e (f ∷ fs) =
      let rest = insert_by_age e fs in if leb_ℤ e.at f.at then e ∷ f ∷ fs else f ∷ rest

  unfoldable pub sort_by_age : List (Entry R) → List (Entry R)
  sort_by_age [] = []
  sort_by_age (e ∷ es) = insert_by_age e (sort_by_age es)

  unfoldable pub oldest : ℕ → List (Entry R) → List (Entry R)
  oldest zero es = []
  oldest (suc n) [] = []
  oldest (suc n) (e ∷ es) = e ∷ oldest n es

  -- `self.idempotency.pop(key, None)`
  unfoldable pub pop_entry : Text → List (Entry R) → List (Entry R)
  pop_entry key [] = []
  pop_entry key (e ∷ es) =
      let rest = pop_entry key es in if eq_text e.key key then rest else e ∷ rest

  unfoldable pub pop_entries : List (Entry R) → List (Entry R) → List (Entry R)
  pop_entries [] entries = entries
  pop_entries (old ∷ olds) entries = pop_entries olds (pop_entry old.key entries)

  unfoldable pub evict : List (Entry R) → List (Entry R)
  evict entries =
      if ltb 2000 (length entries)
      then pop_entries (oldest 500 (sort_by_age (done_entries entries))) entries
      else entries

module _ {E V : Type 0} where
  -- The sections after the request: an error is recorded, a result may evict old entries.
  unfoldable pub end_request :
      Text → Result E V → ℤ → List (Entry (Result E V)) → Option (List (Entry (Result E V)))
  end_request key (err e) now entries = set_outcome key (err e) now entries
  end_request key (ok v) now entries = elim (set_outcome key (ok v) now entries) [
    | none ↦ none
    | some recorded ↦ some (evict recorded)
  ]

-- The section after the wait: `result` of an entry without an outcome is a `KeyError`.
module _ {R : Type 0} where
  abbrev pub collect : Text → Option (Entry R) → Result WaitError R
  collect digest none = err state_invalid
  collect digest (some old) =
      if not (eq_text old.digest digest)
      then err state_invalid
      else elim old.outcome [ none ↦ err no_result | some result ↦ ok result ]

  unfoldable pub wait_result : Text → Text → List (Entry R) → Result WaitError R
  wait_result key digest entries = collect digest (find_entry key entries)
