-- ===== src/Repository/Jobs/Query.antt =====
-- internal/repository/repository.go: the WHERE, ORDER BY and LIMIT clauses of the job queries.
use grabarr.Common.{
  Bool, true, false, not, ◌&&◌, ◌||◌, Option, none, some, List, [], ◌∷◌, if◌then◌else◌, any, take,
  drop, ltb, ltb_ℤ, leb_ℤ, ℤ, pos, pos_part, Text, codes, ◌=t◌, text_ltb,
}
use grabarr.Models.Job.{Job, JobFilter, extra_string}
use grabarr.Models.Job.Status.{JobStatus, status_eq}

abbrev in_status : List JobStatus → Job → Bool
in_status [] j = true
in_status (s ∷ ss) j = any (status_eq j.status) (s ∷ ss)

abbrev at_least : Option ℤ → Job → Bool
at_least none j = true
at_least (some p) j = leb_ℤ p j.priority

abbrev at_most : Option ℤ → Job → Bool
at_most none j = true
at_most (some p) j = leb_ℤ j.priority p

-- The conditions that GetJobs and CountJobs build, joined by AND.
abbrev pub matches : JobFilter → Job → Bool
matches f j =
    in_status f.status j
    && (f.category =t [] || j.metadata.category =t f.category)
    && at_least f.min_priority j
    && at_most f.max_priority j

-- `ORDER BY <column> <direction>, id ASC`
abbrev pub before_row : (Job → Job → Bool) → Job → Job → Bool
before_row before a b = before a b || (not (before b a) && ltb a.id b.id)

-- LIMIT and OFFSET are in the query only if positive.
abbrev pub page : JobFilter → List Job → List Job
page f js =
    let rest = drop (pos_part f.offset) js in
    if ltb_ℤ (pos 0) f.limit then take (pos_part f.limit) rest else rest

-- `JSON_EXTRACT(metadata, '$.extra_fields.archive_group') = ?`
abbrev pub in_group : Text → Job → Bool
in_group group j = elim (extra_string (codes "archive_group") j.metadata.extra_fields) [
  | none ↦ false
  | some g ↦ g =t group
]

-- `ORDER BY name ASC`
abbrev pub name_before : Job → Job → Bool
name_before a b = text_ltb a.name b.name
