-- ===== src/Store/System/Epochs.antt =====
-- The key and the owner epochs of the table of leases, under its statements.
use forge_boss.Base.{
  ℕ, ◌≤◌, ◌≡◌, refl, sym, ap, ◌∙◌, subst, Bool, true, false, List, [], ◌∷◌, none, some, arith,
  if◌then◌else◌, Text, eq_text, eq_text_iff, Bool-cases, inl, inr,
}
use mathlib.Core.Option
use forge_boss.Store.Tables.{Lease, find_lease, update_rows, put_lease}
use forge_boss.Store.Claims.{next_epoch}
use forge_boss.Store.Lookups.{find_lease-put_lease, find_lease-update_rows}
use forge_boss.Store.Writers.{is_writer, find_writer}

-- No two rows of the table have one key.
abbrev pub IsKeyed : List Lease → Type 0
IsKeyed [] = Unit
IsKeyed (l ∷ ls) = (find_lease l.task_id ls ≡ none) × IsKeyed ls

pub put_lease-IsKeyed : (l : Lease) (ls : List Lease) → IsKeyed ls → IsKeyed (put_lease l ls)
unfolding put_lease find_lease
put_lease-IsKeyed l [] h = (refl, tt)
put_lease-IsKeyed l (k ∷ ks) h = ground (
  arith,
  put_lease-IsKeyed l ks h.1,
  find_lease-put_lease k.task_id l ks,
  eq_text_iff k.task_id l.task_id,
  eq_text_iff l.task_id k.task_id,
)

pub update_rows-IsKeyed :
    (test : Lease → Bool) (change : Lease → Lease)
    → ((l : Lease) → (change l).task_id ≡ l.task_id)
    → (ls : List Lease) → IsKeyed ls
    → IsKeyed (update_rows test change ls)
unfolding update_rows
update_rows-IsKeyed test change keeps [] h = tt
update_rows-IsKeyed test change keeps (l ∷ ls) h = (
  go (test l) (ap (Option.map (λ k. if test k then change k else k)) h.0),
  update_rows-IsKeyed test change keeps ls h.1,
)
  where
    go :
        (b : Bool)
        → Option.map (λ k. if test k then change k else k) (find_lease l.task_id ls) ≡ none
        → find_lease (if b then change l else l).task_id (update_rows test change ls) ≡ none
    go true e =
        ap (λ j. find_lease j (update_rows test change ls)) (keeps l)
        ∙ find_lease-update_rows test change keeps l.task_id ls
        ∙ e
    go false e = find_lease-update_rows test change keeps l.task_id ls ∙ e

-- The row that a writer names is the row of its task.
pub find_writer-find_lease :
    (task_id run_id : Text) (epoch : ℕ) (ls : List Lease) (l : Lease)
    → IsKeyed ls
    → find_writer task_id run_id epoch ls ≡ some l
    → (find_lease task_id ls ≡ some l) × (l.owner_epoch ≡ epoch)
unfolding find_writer find_lease is_writer
find_writer-find_lease task_id run_id epoch [] l h e = absurd (cc)
find_writer-find_lease task_id run_id epoch (k ∷ ks) l h e = ground (
  arith,
  λ (p : find_writer task_id run_id epoch ks ≡ some l).
      find_writer-find_lease task_id run_id epoch ks l h.1 p,
  eq_text_iff k.task_id task_id,
)

-- The epoch of a task's lease is at least `n`.
abbrev pub EpochFrom : Text → ℕ → List Lease → Type 0
EpochFrom task_id n ls = (l : Lease) × (find_lease task_id ls ≡ some l) × (n ≤ l.owner_epoch)

pub update_rows-EpochFrom :
    (task_id : Text) (n : ℕ) (test : Lease → Bool) (change : Lease → Lease)
    → ((l : Lease) → (change l).task_id ≡ l.task_id)
    → ((l : Lease) → (change l).owner_epoch ≡ l.owner_epoch)
    → (ls : List Lease) → EpochFrom task_id n ls
    → EpochFrom task_id n (update_rows test change ls)
update_rows-EpochFrom task_id n test change keeps same ls (l, f, le) = (
  if test l then change l else l,
  find_lease-update_rows test change keeps task_id ls
      ∙ ap (Option.map (λ k. if test k then change k else k)) f,
  ground (arith, same l),
)

pub put_lease-EpochFrom :
    (task_id : Text) (n : ℕ) (l : Lease) (ls : List Lease)
    → l.owner_epoch ≡ next_epoch (find_lease l.task_id ls)
    → EpochFrom task_id n ls
    → EpochFrom task_id n (put_lease l ls)
put_lease-EpochFrom task_id n l ls e (k, f, le) = elim (Bool-cases (eq_text l.task_id task_id)) [
  | inl same ↦ (
    l,
    find_lease-put_lease task_id l ls ∙ rw same,
    let p : find_lease l.task_id ls ≡ some k =
          subst (λ j. find_lease j ls ≡ some k) (sym ((eq_text_iff l.task_id task_id).0 same)) f in
        unfold next_epoch in ground arith,
  )
  | inr other ↦ (k, find_lease-put_lease task_id l ls ∙ rw other f, le)
]
