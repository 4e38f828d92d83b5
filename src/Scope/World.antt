-- ===== src/Scope/World.antt =====
-- What backend/search_scope.py works with: the libraries and indexed files, a scope, and what is raised.
use Prim.Native.String.{String}
use gallery.Base.{ℕ, Bool, true, false, Option, none, some, List}
use gallery.Base.Text.{Text}
use gallery.Scope.Excluded.{Surroundings}

pub record ImportPath : Type 0 where
  pub id : ℕ
  pub path : Text

pub record Library : Type 0 where
  pub id : ℕ
  pub name : Text
  pub import_paths : List ImportPath
  pub exclusion_patterns : List Text

-- A row of file_index, with the two conditions on a descendant's asset and owner as they evaluate.
pub record FileRow : Type 0 where
  pub library_id : ℕ
  pub path : Text
  pub is_folder : Bool
  pub is_active : Bool
  pub is_owned : Bool

-- The libraries in their order, the indexed files, and NFC.
pub record World : Type 0 where
  pub libraries : List Library
  pub files : List FileRow
  pub nfc : Text → Text
  pub surroundings : Surroundings

pub data ErrorType : Type 0 where
  not_found bad_request : ErrorType

pub record ApiError : Type 0 where
  pub status : ℕ
  pub type : ErrorType
  pub message : String

-- What a function raises: an APIError, or an exception that no caller in this file catches.
pub data Failure : Type 0 where
  api_error : ApiError → Failure
  stop_iteration : Failure  -- `next` without a default
  value_error : Failure  -- Path.relative_to of a path that is not below the other
  unicode_encode_error : Failure  -- sqlite3 binds text as UTF-8, which has no lone surrogate

pub data Result (A : Type 0) : Type 0 where
  ok : A → Result A
  err : Failure → Result A

infixl 5 ◌>>=◌ ◌>>◌
abbrev pub ◌>>=◌ : {A B : Type 0} → Result A → (A → Result B) → Result B
ok a >>= f = f a
err e >>= f = err e

abbrev pub ◌>>◌ : {A B : Type 0} → Result A → Result B → Result B
m >> k = m >>= λ _. k

pub data Done : Type 0 where
  done : Done

abbrev pub guard : Bool → Failure → Result Done
guard true e = ok done
guard false e = err e

abbrev pub missing : String → Failure
missing m = api_error (record { status = 404; type = not_found; message = m })

abbrev pub refused : String → Failure
refused m = api_error (record { status = 422; type = bad_request; message = m })

abbrev pub found : {A : Type 0} → Option A → Failure → Result A
found none e = err e
found (some a) e = ok a

pub data Kind : Type 0 where
  folder library all : Kind

pub record ScopeContext : Type 0 where
  pub kind : Kind
  pub library_id : Option ℕ
  pub library_name : Option Text
  pub folder_path : Option Text
  pub import_path_id : Option ℕ
  pub relative_path : Option Text

abbrev pub all_context : ScopeContext
all_context = record {
  kind = all;
  library_id = none;
  library_name = none;
  folder_path = none;
  import_path_id = none;
  relative_path = none;
}

abbrev pub library_context : ℕ → Text → ScopeContext
library_context i name = record all_context {
  kind = library;
  library_id = some i;
  library_name = some name;
}

abbrev pub folder_context : ℕ → Text → Text → ℕ → Text → ScopeContext
folder_context i name path import_id relative = record {
  kind = folder;
  library_id = some i;
  library_name = some name;
  folder_path = some path;
  import_path_id = some import_id;
  relative_path = some relative;
}
