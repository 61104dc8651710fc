-- ===== src/Storage.antt =====
-- internal/storage/interface.go: what a storage backend offers, its errors, and the factory.
pub mod Disk
pub mod Local
pub mod S3
pub mod Laws
pub mod Calls
use datasaver.Base.{
  ℕ, Bool, true, false, Str, bytes, List, [], ◌∷◌, ◌++◌, Option, none, some, if◌then◌else◌, str_eq,
  Result, ok, err,
}
use datasaver.Clock.{Time}

pub record FileInfo : Type 0 where
  pub path : Str
  pub size : ℕ
  pub last_modified : Time
  pub is_dir : Bool

-- What stands in the field Err of an error: io.EOF, or the text of another error.
pub data Cause : Type 0 where
  eof : Cause
  cause : Str → Cause

pub record StorageError : Type 0 where
  pub op : Str
  pub path : Str
  pub inner : Cause

abbrev pub cause_text : Cause → Str
cause_text eof = bytes "EOF"
cause_text (cause e) = e

-- Error and Unwrap
unfoldable pub error_text : StorageError → Str
error_text e = e.op ++ (bytes " " ++ (e.path ++ (bytes ": " ++ cause_text e.inner)))

abbrev pub unwrap : StorageError → Cause
unwrap e = e.inner

abbrev pub not_found : StorageError
not_found = record { op = bytes "not found"; path = []; inner = eof }

abbrev pub s3_config_required : StorageError
s3_config_required = record { op = bytes "s3 config required"; path = []; inner = eof }

abbrev pub unknown_backend : StorageError
unknown_backend = record { op = bytes "unknown backend"; path = []; inner = eof }

-- An io.Reader: what io.ReadAll gives, its bytes or an error.
abbrev pub Reader : Type 0
Reader = Result Str Str

-- The interface Backend over an unknown state. The calls that only read leave the state alone.
pub record Backend : Type 1 where
  pub State : Type 0
  pub write : Str → Reader → State → Result StorageError (Unit {0}) × State
  pub read : Str → State → Result StorageError Reader
  pub delete : Str → State → Result StorageError (Unit {0}) × State
  pub list : Str → State → Result StorageError (List FileInfo)
  pub exists : Str → State → Result StorageError Bool
  pub size : Str → State → Result StorageError ℕ

pub record S3Config : Type 0 where
  pub bucket : Str
  pub endpoint : Str
  pub region : Str
  pub access_key : Str
  pub secret_key : Str
  pub use_ssl : Bool

-- Factory.Create, over the two constructors.
module _ {B : Type 0} (new_local : Str → Result StorageError B)
    (new_s3 : S3Config → Result StorageError B) where
  unfoldable pub create : Str → Str → Option S3Config → Result StorageError B
  create backend path s3 =
      if str_eq backend (bytes "local")
      then new_local path
      else if str_eq backend (bytes "s3")
      then (elim s3 [ none ↦ err s3_config_required | some cfg ↦ new_s3 cfg ])
      else err unknown_backend
