-- ===== src/Api/Response.antt =====
-- internal/api/handlers.go: the responses. The data of a response is a value in place of its JSON.
use grabarr.Common.{ℕ, Bool, true, false, Option, none, some, [], ℤ, Text, Result, ok, err, Action}

pub record PaginationMeta : Type 0 where
  pub total : ℤ
  pub limit : ℤ
  pub offset : ℤ
  pub total_pages : ℤ
  pub page : ℤ

-- `code` is the status code of the HTTP response, and `payload` the field `Data`.
pub record ApiResponse (D : Type 0) : Type 0 where
  pub code : ℕ
  pub success : Bool
  pub payload : Option D
  pub error : Text
  pub message : Text
  pub pagination : Option PaginationMeta

-- A handler always answers.
abbrev pub Handler : Type 0 → Type 0 → Type 0
Handler S D = S → ApiResponse D × S

module _ {D : Type 0} where
  abbrev pub write_success : ℕ → Option D → Text → ApiResponse D
  write_success code payload message = record {
    code = code;
    success = true;
    payload = payload;
    error = [];
    message = message;
    pagination = none;
  }

  abbrev pub write_success_with_pagination : ℕ → D → PaginationMeta → Text → ApiResponse D
  write_success_with_pagination code payload pagination message = record {
    code = code;
    success = true;
    payload = some payload;
    error = [];
    message = message;
    pagination = some pagination;
  }

  -- The error itself is only logged.
  abbrev pub write_error : ℕ → Text → ApiResponse D
  write_error code message = record {
    code = code;
    success = false;
    payload = none;
    error = message;
    message = [];
    pagination = none;
  }

  abbrev pub respond : {S : Type 0} → ApiResponse D → Handler S D
  respond r s = (r, s)

-- `if err != nil { h.writeError(w, code, message, err); return }`, and the handler's rest.
module _ {S A D : Type 0} where
  abbrev pub answer : (code : ℕ) → Text → (A → Handler S D) → Result A → Handler S D
  answer code message rest (ok a) s = rest a s
  answer code message rest (err e) s = (write_error code message, s)

  abbrev pub or_error : Action S A → (code : ℕ) → Text → (A → Handler S D) → Handler S D
  or_error m code message rest s = let (r, s') = m s in answer code message rest r s'
