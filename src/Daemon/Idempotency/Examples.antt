-- ===== src/Daemon/Idempotency/Examples.antt =====
-- Requests with keys on concrete data, and the theorems at them.
use forge_boss.Base.{
  ℕ, ◌≡◌, ◌≢◌, refl, true, false, List, [], ◌∷◌, some, arith, Text, codes, eq_text, elem, Result,
  ok,
}
use forge_boss.Base.Int.{ℤ, pos}
use forge_boss.Daemon.Idempotency.{
  Entry, own, direct, wait, replay, conflict, find_entry, add_entry, begin_request, wait_result,
  set_outcome, done_entries, insert_by_age, sort_by_age, oldest, pop_entry, pop_entries, evict,
  end_request,
}
use forge_boss.Daemon.Idempotency.Facts.{IsDistinct}
use forge_boss.Daemon.Idempotency.Runs.{
  Running, starts, starts_directly, Reach, idle, then, Reach-exclusive,
}
use forge_boss.Daemon.Idempotency.Replays.{no_more, begun, end_request-replays}

abbrev Answer : Type 0
Answer = Result Text ℕ

abbrev opening : List (Entry Answer)
opening = add_entry (codes "k") (codes "d") (pos 1) []

abbrev recorded : List (Entry Answer)
recorded = record { key = codes "k"; digest = codes "d"; outcome = some (ok 7); at = pos 2 } ∷ []

abbrev serving : Running Text ℕ
serving = record { entries = opening; active = codes "k" ∷ []; unkeyed = 1 }

-- The operations that the tests run
opened : Unit {0}
unfolding eq_text elem find_entry begin_request wait_result set_outcome done_entries insert_by_age
    sort_by_age oldest pop_entry pop_entries evict end_request
opened = tt

abbrev aged : ℕ → ℤ → Entry Answer
aged n at = record { key = n ∷ []; digest = []; outcome = some (ok n); at = at }

-- Entries of one age keep their order, and the oldest come first.
eviction_order :
    oldest 2 (sort_by_age (aged 1 (pos 5) ∷ aged 2 (pos 3) ∷ aged 3 (pos 3) ∷ []))
    ≡ aged 2 (pos 3) ∷ aged 3 (pos 3) ∷ []
unfolding opened
eviction_order = refl

abbrev resting : Running Text ℕ
resting = record { entries = []; active = []; unkeyed = 0 }

first_owns : begin_request (codes "k") (codes "d") resting.entries ≡ own
unfolding opened
first_owns = refl

no_key : begin_request [] (codes "d") opening ≡ direct
unfolding opened
no_key = refl

second_waits : begin_request (codes "k") (codes "d") opening ≡ wait
unfolding opened
second_waits = refl

first_ends : end_request (codes "k") (ok 7) (pos 2) opening ≡ some recorded
unfolding opened
first_ends = refl

serving-Reach : Reach Text ℕ serving
serving-Reach = then (then idle (starts resting (codes "k") (codes "d") (pos 1) first_owns)) (
    starts_directly (record { entries = opening; active = codes "k" ∷ []; unkeyed = 0 }) []
      (codes "d") no_key)

Reach-exclusive_example :
    IsDistinct (codes "k" ∷ [])
    × (elem [] (codes "k" ∷ []) ≡ false)
    × ((key : Text) (result : Answer) (now : ℤ)
        → elem key (codes "k" ∷ []) ≡ true
        → (out : List (Entry Answer)) × (end_request key result now opening ≡ some out))
Reach-exclusive_example = Reach-exclusive Text ℕ serving-Reach

abbrev served : List (Entry Answer)
served = add_entry (codes "q") (codes "d") (pos 3) recorded

other_owns : begin_request (codes "q") (codes "d") recorded ≡ own
unfolding opened
other_owns = refl

end_request-replays_example :
    (begin_request (codes "k") (codes "d") served ≡ replay (ok 7))
    × (wait_result (codes "k") (codes "d") served ≡ ok (ok 7))
    × ((other : Text) → codes "d" ≢ other → begin_request (codes "k") other served ≡ conflict)
end_request-replays_example =
    end_request-replays (codes "k") (codes "d") (ok 7) (pos 2) opening recorded served second_waits
      (ground arith) first_ends
      (begun recorded recorded (codes "q") (codes "d") (pos 3) (no_more recorded) other_owns)
