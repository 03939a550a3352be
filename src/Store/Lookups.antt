-- ===== src/Store/Lookups.antt =====
-- Laws of the tables of `forge_boss.Store.Tables`: what a lookup returns after each statement.
use forge_boss.Base.{
  ◌≡◌, refl, Bool, List, [], ◌∷◌, ◌++◌, none, some, arith, if◌then◌else◌, Text, eq_text,
  eq_text_iff,
}
use mathlib.Core.Option
use forge_boss.Store.Tables.{Task, Lease, find_task, find_lease, put_lease, update_rows}

pub find_lease-put_lease :
    (j : Text) (l : Lease) (ls : List Lease)
    → find_lease j (put_lease l ls) ≡ (if eq_text l.task_id j then some l else find_lease j ls)
unfolding find_lease put_lease
find_lease-put_lease j l [] = refl
find_lease-put_lease j l (k ∷ ks) = ground (
  arith,
  eq_text_iff l.task_id j,
  eq_text_iff k.task_id j,
  eq_text_iff k.task_id l.task_id,
  find_lease-put_lease j l ks,
)

-- The row that is found has the key that was asked for.
pub find_lease-key :
    (j : Text) (ls : List Lease) (l : Lease) → find_lease j ls ≡ some l → l.task_id ≡ j
unfolding find_lease
find_lease-key j [] l h = cc
find_lease-key j (k ∷ ks) l h = ground (arith, eq_text_iff k.task_id j, find_lease-key j ks l)

pub find_task-key : (j : Text) (ts : List Task) (t : Task) → find_task j ts ≡ some t → t.task_id ≡ j
unfolding find_task
find_task-key j [] t h = cc
find_task-key j (u ∷ ts) t h = ground (arith, eq_text_iff u.task_id j, find_task-key j ts t)

module _ (test : Lease → Bool) (change : Lease → Lease)
    (keeps : (l : Lease) → (change l).task_id ≡ l.task_id) where
  pub find_lease-update_rows :
      (j : Text) (ls : List Lease)
      → find_lease j (update_rows test change ls)
        ≡ Option.map (λ l. if test l then change l else l) (find_lease j ls)
  unfolding find_lease update_rows
  find_lease-update_rows j [] = refl
  find_lease-update_rows j (l ∷ ls) = ground (arith, keeps l, find_lease-update_rows j ls)

module _ (test : Task → Bool) (change : Task → Task)
    (keeps : (t : Task) → (change t).task_id ≡ t.task_id) where
  pub find_task-update_rows :
      (j : Text) (ts : List Task)
      → find_task j (update_rows test change ts)
        ≡ Option.map (λ t. if test t then change t else t) (find_task j ts)
  unfolding find_task update_rows
  find_task-update_rows j [] = refl
  find_task-update_rows j (t ∷ ts) = ground (arith, keeps t, find_task-update_rows j ts)

pub find_task-append :
    (j : Text) (ts : List Task) (t : Task)
    → find_task j (ts ++ (t ∷ [])) ≡ elim (find_task j ts) [
      | some u ↦ some u
      | none ↦ if eq_text t.task_id j then some t else none
    ]
unfolding find_task
find_task-append j [] t = refl
find_task-append j (u ∷ ts) t = ground (arith, find_task-append j ts t)
