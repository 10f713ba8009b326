-- ===== src/Repository/Jobs/Filters.antt =====
-- internal/repository/repository.go: what the job queries return.
use grabarr.Common.{
  length-take, length-drop, length-sort_by, ℕ, ◌≤◌, ◌≡◌, Bool, true, false, Bool-cases,
  Option-cases, List, [], if◌then◌else◌, length, drop, select, sort_by, ltb_ℤ, pos, pos_part, All,
  All-take, All-drop, All-sort_by, All-select, ◌=t◌, codes, ok, ◌⊎◌, arith,
}
use grabarr.Models.Job.{Job, JobFilter}
use grabarr.Repository.Db.{World, Db}
use grabarr.Repository.Jobs.Query.{matches, before_row, page}
use grabarr.Repository.Jobs.{get_jobs, count_jobs}

-- A row that satisfies the filter's conditions.
abbrev pub Matching : JobFilter → Job → Type 0
Matching f j = matches f j ≡ true

page-Matching :
    (f : JobFilter) (before : Job → Job → Bool) (js : List Job)
    → All (Matching f) (page f (sort_by (before_row before) (select (matches f) js)))
page-Matching f before js =
    let rows = sort_by (before_row before) (select (matches f) js) in
    let sorted =
      All-sort_by (Matching f) (before_row before) (select (matches f) js)
        (All-select (Matching f) (matches f) js (λ j h. h)) in
    let dropped = All-drop (Matching f) (pos_part f.offset) rows sorted in
    ground (
      arith,
      dropped,
      All-take (Matching f) (pos_part f.limit) (drop (pos_part f.offset) rows) dropped,
    )

page-length :
    (f : JobFilter) (js : List Job)
    → (length (page f js) ≤ length js)
      × (ltb_ℤ (pos 0) f.limit ≡ false ⊎ (length (page f js) ≤ pos_part f.limit))
page-length f js = ground (
  arith,
  length-drop (pos_part f.offset) js,
  length-take (pos_part f.limit) (drop (pos_part f.offset) js),
  Bool-cases (ltb_ℤ (pos 0) f.limit),
)

selected_page :
    (f : JobFilter) (before : Job → Job → Bool) (js : List Job)
    → let found = page f (sort_by (before_row before) (select (matches f) js)) in
      All (Matching f) found
      × (ltb_ℤ (pos 0) f.limit ≡ false ⊎ (length found ≤ pos_part f.limit))
      × (length found ≤ length (select (matches f) js))
selected_page f before js =
    let rows = sort_by (before_row before) (select (matches f) js) in
    ground (
      arith,
      page-Matching f before js,
      page-length f rows,
      length-sort_by (before_row before) (select (matches f) js),
    )

module _ (w : World) where
  -- Where GetJobs succeeds every job that it returns satisfies the filter, there are at most as many
  -- as a positive limit says, and, the filter being the same, no more than CountJobs counts.
  pub get_jobs-Matching :
      (f : JobFilter) (db : Db) (js : List Job) (n : ℕ)
      → (get_jobs w f db).0 ≡ ok js
      → (count_jobs w f db).0 ≡ ok n
      → All (Matching f) js
        × (ltb_ℤ (pos 0) f.limit ≡ false ⊎ (length js ≤ pos_part f.limit))
        × (length js ≤ n)
  unfolding get_jobs count_jobs
  get_jobs-Matching f db js n found counted =
      let column = if f.sort_by =t [] then codes "created_at" else f.sort_by in
      let direction = if f.sort_order =t [] then codes "DESC" else f.sort_order in
      grind (
        arith,
        Option-cases (w.order_by column direction),
        Option-cases (w.fault db.statements),
        selected_page f,
      )
