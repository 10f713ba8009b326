-- ===== src/Repository/Jobs/Order.antt =====
-- internal/repository/repository.go: the order in which GetJobs returns rows by priority, which the
-- scheduler and the recovery ask for.
use grabarr.Common.{
  ℕ, zero, suc, ◌≡◌, Bool, true, false, Bool-cases, List, [], ◌∷◌, take, drop, select, sort_by,
  insert_by, ltb_ℤ, pos_part, ◌≤ℤ◌, All, All-insert_by, All-take, codes, ok, inl, inr, arith,
}
use grabarr.Models.Job.{Job, JobFilter}
use grabarr.Repository.Db.{World, Db, OrdersPriority}
use grabarr.Repository.Jobs.Query.{matches, before_row, page}
use grabarr.Repository.Jobs.{get_jobs}

-- A job whose priority is not above another's.
abbrev pub NotAbove : Job → Job → Type 0
NotAbove j k = k.priority ≤ℤ j.priority

-- No job has a priority above that of one before it.
abbrev pub IsOrdered : List Job → Type 0
IsOrdered [] = Unit
IsOrdered (j ∷ js) = All (NotAbove j) js × IsOrdered js

abbrev by_priority : Job → Job → Bool
by_priority = before_row (λ a b. ltb_ℤ b.priority a.priority)

All-NotAbove_trans :
    (j k : Job) (js : List Job) → NotAbove j k → All (NotAbove k) js → All (NotAbove j) js
All-NotAbove_trans j k [] h a = tt
All-NotAbove_trans j k (x ∷ xs) h (p, a) = (omega (arith, h, p), All-NotAbove_trans j k xs h a)

by_priority-NotAbove : (a b : Job) → by_priority a b ≡ true → NotAbove a b
by_priority-NotAbove a b h = ground arith

not_by_priority-NotAbove : (a b : Job) → by_priority a b ≡ false → NotAbove b a
not_by_priority-NotAbove a b h = ground arith

insert_by-IsOrdered :
    (x : Job) (js : List Job) → IsOrdered js → IsOrdered (insert_by by_priority x js)
insert_by-IsOrdered x [] h = (tt, tt)
insert_by-IsOrdered x (y ∷ ys) (a, h) = elim (Bool-cases (by_priority x y)) [
  | inl e ↦ let p = by_priority-NotAbove x y e in rw e ((p, All-NotAbove_trans x y ys p a), (a, h))
  | inr e ↦ rw e (
    All-insert_by (NotAbove y) by_priority x ys (not_by_priority-NotAbove x y e) a,
    insert_by-IsOrdered x ys h,
  )
]

sort_by-IsOrdered : (js : List Job) → IsOrdered (sort_by by_priority js)
sort_by-IsOrdered [] = tt
sort_by-IsOrdered (j ∷ js) = insert_by-IsOrdered j (sort_by by_priority js) (sort_by-IsOrdered js)

take-IsOrdered : (n : ℕ) (js : List Job) → IsOrdered js → IsOrdered (take n js)
take-IsOrdered zero js h = tt
take-IsOrdered (suc n) [] h = tt
take-IsOrdered (suc n) (j ∷ js) (a, h) = (All-take (NotAbove j) n js a, take-IsOrdered n js h)

drop-IsOrdered : (n : ℕ) (js : List Job) → IsOrdered js → IsOrdered (drop n js)
drop-IsOrdered zero js h = h
drop-IsOrdered (suc n) [] h = tt
drop-IsOrdered (suc n) (j ∷ js) (a, h) = drop-IsOrdered n js h

page-IsOrdered : (f : JobFilter) (js : List Job) → IsOrdered js → IsOrdered (page f js)
page-IsOrdered f js h =
    let dropped = drop-IsOrdered (pos_part f.offset) js h in
    ground (arith, dropped, take-IsOrdered (pos_part f.limit) (drop (pos_part f.offset) js) dropped)

module _ (w : World) where
  -- Where the column `priority` orders rows as SQLite documents it, GetJobs by descending priority
  -- returns no job behind one of a lower priority, on every page.
  pub get_jobs-IsOrdered :
      (f : JobFilter) (db : Db) (js : List Job)
      → OrdersPriority w
      → f.sort_by ≡ codes "priority"
      → f.sort_order ≡ codes "DESC"
      → (get_jobs w f db).0 ≡ ok js
      → IsOrdered js
  unfolding get_jobs
  get_jobs-IsOrdered f db js priority column direction found =
      let rows = sort_by by_priority (select (matches f) db.jobs) in
      ground
        (arith, priority, page-IsOrdered f rows (sort_by-IsOrdered (select (matches f) db.jobs)))
