-- ===== src/Repository/Db.antt =====
-- The tables of internal/repository/schema.sql, and how a statement runs. The `World` stands for
-- what is outside the program: whether the driver fails at a statement, the clock at each reading,
-- and how SQLite reads an ORDER BY term, with no order where it rejects the term.
use grabarr.Common.{
  ℕ, suc, Bool, Option, none, some, List, [], ◌∷◌, if◌then◌else◌, Text, Error, wrapped, Result, ok,
  err, Action, ◌≡◌, ltb_ℤ, codes,
}
use grabarr.Models.Job.{Time, Job, JobAttempt}
use grabarr.Models.RemoteFile.{RemoteFile}

pub record World : Type 0 where
  pub fault : ℕ → Option Error
  pub now : ℕ → Time
  pub order_by : (column direction : Text) → Option (Job → Job → Bool)

pub record Db : Type 0 where
  pub jobs : List Job
  pub last_job_id : ℕ
  pub attempts : List JobAttempt
  pub last_attempt_id : ℕ
  pub files : List RemoteFile
  pub last_file_id : ℕ
  pub config : List (Text × Text)
  pub statements : ℕ
  pub readings : ℕ

abbrev pub empty_db : Db
empty_db = record {
  jobs = [];
  last_job_id = 0;
  attempts = [];
  last_attempt_id = 0;
  files = [];
  last_file_id = 0;
  config = [];
  statements = 0;
  readings = 0;
}

-- What SQLite documents of an integer column in an ORDER BY term.
abbrev pub OrdersPriority : World → Type 0
OrdersPriority w =
    w.order_by (codes "priority") (codes "DESC") ≡ some (λ a b. ltb_ℤ b.priority a.priority)

-- How a statement ends, given the driver's error.
abbrev outcome : {A : Type 0} → Text → Action Db A → Db → Option Error → Result A × Db
outcome text run db none = run db
outcome text run db (some e) = (err (wrapped text e), db)

outcome_ind :
    (P : Db → Type 0) {A : Type 0} (text : Text) (run : Action Db A) (db : Db) (f : Option Error)
    → P db
    → (P db → P (run db).1)
    → P (outcome text run db f).1
outcome_ind P text run db none p keep = keep p
outcome_ind P text run db (some e) p keep = p

module _ (w : World) where
  -- A statement that fails leaves the tables as they were.
  abbrev pub exec : {A : Type 0} → Text → Action Db A → Action Db A
  exec text run db =
      outcome text run (record db { statements = suc db.statements }) (w.fault db.statements)

  -- `time.Now()`, and CURRENT_TIMESTAMP within a statement.
  abbrev pub time_now : Action Db Time
  time_now db = (ok (w.now db.readings), record db { readings = suc db.readings })

  -- What a statement keeps, it keeps if it fails too.
  pub exec_ind :
      (P : Db → Type 0) {A : Type 0} (text : Text) (run : Action Db A) (db : Db)
      → P (record db { statements = suc db.statements })
      → (P (record db { statements = suc db.statements })
          → P (run (record db { statements = suc db.statements })).1)
      → P (exec text run db).1
  exec_ind P text run db =
      outcome_ind P text run (record db { statements = suc db.statements }) (w.fault db.statements)

abbrev pub update_where : {A : Type 0} → (A → Bool) → (A → A) → List A → List A
update_where test change [] = []
update_where test change (x ∷ xs) = (if test x then change x else x) ∷ update_where test change xs
