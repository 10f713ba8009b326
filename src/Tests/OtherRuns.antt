-- ===== src/Tests/OtherRuns.antt =====
-- internal/archive, internal/config, internal/models and internal/sync on concrete values.
use grabarr.Common.{◌≡◌, ◌≢◌, ◌⊎◌, refl, true, false, none, some, [], ◌∷◌, codes, pos, ok}
use grabarr.Archive.{group_key, find_part, is_first_part}
use grabarr.Config.{Config, WatchedPath, validate, load_config}
use grabarr.Models.DownloadConfig.{DownloadConfig, default_download_config}
use grabarr.Models.RemoteFile.{RemoteFile}
use grabarr.Repository.Files.Laws.{in_row}
use grabarr.Sync.Listing.{Seedbox, parse_line, local_path_for_remote_file}
use grabarr.Sync.Scanner.{Scanner, scan_now}
use grabarr.Sync.Scanner.Laws.{scan_now-status}
use grabarr.Tests.Data.{seen_file, settings, one_waits}

-- Groups and first parts of the three kinds of archive names.
group_of_r00 : group_key (codes "/seed/x.r00") ≡ codes "/seed/x"
unfolding group_key find_part
group_of_r00 = refl

first_of_parts : is_first_part (codes "x.part001.rar") [] ≡ true
unfolding is_first_part
first_of_parts = refl

second_of_parts : is_first_part (codes "x.part002.rar") [] ≡ false
unfolding is_first_part
second_of_parts = refl

abbrev pub configuration : Config
configuration = record {
  server = record { port = pos 8080; host = codes "localhost"; shutdown_timeout = 1 };
  downloads = record { local_path = codes "/data"; allowed_categories = [] };
  remotes = [];
  gatekeeper = record {
    seedbox = record { bandwidth_limit_mbps = pos 500; check_interval = 1 };
    cache_disk = record { path = codes "/cache"; max_usage_percent = pos 80; check_interval = 1 };
    rules = record { require_filesize_check = true };
  };
  jobs = settings.jobs;
  database = record { path = codes "/db" };
  notifications = record {
    pushover = record {
      token = [];
      user = [];
      enabled = false;
      priority = pos 0;
      retry_interval = 1;
      expire_time = 1;
    };
  };
  logging = record { level = codes "info"; format = codes "json" };
  sync = record { enabled = true; scan_interval = pos 5 };
  extraction = settings.extraction;
}

loaded : load_config (ok configuration) (ok tt) ≡ ok configuration
unfolding load_config validate
loaded = refl

abbrev edited : Config
edited = record configuration {
  downloads = record { local_path = codes "/new"; allowed_categories = [] };
}

abbrev tuned : DownloadConfig
tuned = record default_download_config { sftp_concurrency = some (pos 64) }

abbrev pub watched : WatchedPath
watched = record {
  remote_path = codes "/seed";
  local_path = [];
  extensions = codes "mkv" ∷ [];
  archive_extensions = codes "rar" ∷ [];
  exclude_patterns = [];
  auto_download = true;
  recursive = true;
}

abbrev rar_file : RemoteFile
rar_file = record seen_file {
  remote_path = codes "/seed/x.part1.rar";
  name = codes "x.part1.rar";
  extension = codes "rar";
}

abbrev pub seedbox : Seedbox
seedbox = record {
  compile = λ pattern. ok (λ name. false);
  ssh = λ remote command. ok (codes "/seed/a.mkv\t7\n");
  ctx_err = λ n. none;
}

abbrev pub scanner : Scanner
scanner = record {
  queue = one_waits;
  status = record { last_scan_at = none; files_found = 0; scan_in_flight = false; error = [] };
  asked = 0;
}

scan_now-status_example :
    let (r, t) = scan_now configuration seedbox settings scanner in
    (t.status.scan_in_flight ≡ false) × ((r ≢ ok tt) ⊎ (t.status.error ≡ []))
scan_now-status_example = scan_now-status configuration seedbox settings scanner

-- A line of the listing, and the local directory of a file below a watched path.
size_of_line :
    in_row (λ f. f.size) (parse_line (codes "/seed/s/a.mkv\t12\r") (codes "/seed") [])
    ≡ some (pos 12)
unfolding parse_line
size_of_line = refl

directory_below :
    local_path_for_remote_file (codes "/seed/s/a.mkv") (codes "/seed") (codes "/data")
    ≡ codes "/data/s/"
unfolding local_path_for_remote_file
directory_below = refl
