-- ===== src/Api/Query.antt =====
-- internal/api: the parameters of a request. `query key` is the value of `r.URL.Query().Get(key)`,
-- which is empty for a key that is not there.
use grabarr.Common.{
  Bool, true, ◌&&◌, Option, none, some, [], ◌∷◌, if◌then◌else◌, ltb_ℤ, leb_ℤ, ℤ, pos, Text, codes,
  ◌=t◌,
}
use grabarr.Models.Job.{JobFilter}
use grabarr.Models.Job.Status.{JobStatus}
use grabarr.Models.RemoteFile.{FileStatus, RemoteFileFilter}
use grabarr.Sync.Listing.{parse_int}

abbrev pub UrlQuery : Type 0
UrlQuery = Text → Text

-- A number that passes the test, if the parameter is one. `strconv.Atoi` reads an `int` of 64 bits.
unfoldable pub number : (ℤ → Bool) → Text → Option ℤ
unfolding parse_int
number test s = elim (parse_int s) [ none ↦ none | some n ↦ if test n then some n else none ]

abbrev pub or_else : ℤ → Option ℤ → ℤ
or_else default none = default
or_else default (some n) = n

abbrev any_number : ℤ → Bool
any_number n = true

abbrev pub in_page_limit : ℤ → Bool
in_page_limit n = ltb_ℤ (pos 0) n && leb_ℤ n (pos 1000)

abbrev pub is_natural : ℤ → Bool
is_natural n = leb_ℤ (pos 0) n

abbrev pub is_positive : ℤ → Bool
is_positive n = ltb_ℤ (pos 0) n

-- A status is compared with the column as text: one that no job has finds no row, as `unset` does.
abbrev read_status : Text → JobStatus
read_status s =
    if s =t codes "queued"
    then JobStatus.queued
    else if s =t codes "pending"
    then JobStatus.pending
    else if s =t codes "running"
    then JobStatus.running
    else if s =t codes "completed"
    then JobStatus.completed
    else if s =t codes "failed"
    then JobStatus.failed
    else if s =t codes "cancelled"
    then JobStatus.cancelled
    else JobStatus.unset

abbrev read_file_status : Text → FileStatus
read_file_status s =
    if s =t []
    then FileStatus.any_status
    else if s =t codes "on_seedbox"
    then FileStatus.on_seedbox
    else if s =t codes "queued"
    then FileStatus.queued
    else if s =t codes "downloading"
    then FileStatus.downloading
    else if s =t codes "downloaded"
    then FileStatus.downloaded
    else if s =t codes "ignored"
    then FileStatus.ignored
    else FileStatus.other_status

-- The filter of GetJobs. An empty parameter is no number.
unfoldable pub job_filter : UrlQuery → JobFilter
unfolding number
job_filter query = record {
  status = if query (codes "status") =t [] then [] else read_status (query (codes "status")) ∷ [];
  category = query (codes "category");
  min_priority = number any_number (query (codes "min_priority"));
  max_priority = number any_number (query (codes "max_priority"));
  limit = or_else (pos 50) (number in_page_limit (query (codes "limit")));
  offset = or_else (pos 0) (number is_natural (query (codes "offset")));
  sort_by = query (codes "sort_by");
  sort_order = query (codes "sort_order");
}

-- The filter of ListRemoteFiles, with a limit that has no bound above.
unfoldable pub file_filter : UrlQuery → RemoteFileFilter
unfolding number
file_filter query = record {
  status = read_file_status (query (codes "status"));
  watched_path = query (codes "watched_path");
  extension = query (codes "extension");
  limit = or_else (pos 100) (number is_positive (query (codes "limit")));
  offset = or_else (pos 0) (number is_natural (query (codes "offset")));
}
