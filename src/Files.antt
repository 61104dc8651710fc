-- ===== src/Files.antt =====
-- The routines on one file: CalculateChecksum of pkg/postgres/metadata.go, compressGzip of
-- internal/backup/engine.go, and readBackupContent and decompressFile of
-- internal/backup/validator.go. HashToken of internal/mcp/mcpauth/auth.go sums up a text alike.
pub mod Sums
pub mod Truncated
use datasaver.Base.{
  ℕ, Str, bytes, List, [], ◌∷◌, ◌++◌, Option, none, some, Bool, true, false, Result, ok, err,
  map_err, ◌>>=◌, take,
}
use datasaver.Base.Hex.{hex_encode}
use datasaver.Storage.{Reader}

-- What os.Open gives: a reader of the file.
abbrev pub Opened : Type 0
Opened = Result Str Reader

-- crypto/sha256 gives the sum of a text.
module _ (sha256 : Str → Str) where
  unfoldable pub calculate_checksum : Opened → Result Str Str
  calculate_checksum opened =
      map_err (λ e. bytes "failed to open file for checksum: " ++ e) opened >>= λ reader.
      map_err (λ e. bytes "failed to calculate checksum: " ++ e) reader >>= λ text.
      ok (bytes "sha256:" ++ hex_encode (sha256 text))

  unfoldable pub hash_token : Str → Str
  hash_token token = hex_encode (sha256 token)

-- A gzip.Writer on a file: what it has written of a text when io.Copy ends, what Close writes
-- behind that, and whether one of them fails, with the number of its bytes that are in the file
-- then.
pub record GzipWriter : Type 0 where
  pub copied : Str → Str
  pub closed : Str → Str
  pub copy_fails : Str → Option (Str × ℕ)
  pub close_fails : Str → Option (Str × ℕ)

-- What a write that may fail leaves of these bytes.
abbrev pub left_of : Option (Str × ℕ) → Str → Str
left_of none text = text
left_of (some (e, n)) text = take n text

-- The deferred Close of the writer. Its error is dropped.
unfoldable pub close_writer : GzipWriter → Str → Str
close_writer g text = left_of (g.close_fails text) (g.closed text)

-- compressGzip, by what os.Open and os.Create give: its error, and what the file holds.
unfoldable pub compress_gzip : Opened → Result Str (Unit {0}) → GzipWriter → Option Str × Str
unfolding close_writer
compress_gzip (err e) created g = (some e, [])
compress_gzip (ok reader) (err e) g = (some e, [])
compress_gzip (ok (err e)) (ok u) g = (some e, g.copied [] ++ close_writer g [])
compress_gzip (ok (ok text)) (ok u) g = elim (g.copy_fails text) [
  | some (e, n) ↦ (some e, take n (g.copied text))
  | none ↦ (none, g.copied text ++ close_writer g text)
]

-- The file that Run goes on with, or the error.
abbrev pub compressed_file : Option Str × Str → Result Str Str
compressed_file (some e, text) = err e
compressed_file (none, text) = ok text

-- compress/gzip: gzip.NewReader on a file, and what reads of it give.
pub record GzipReader : Type 0 where
  pub new_reader : Reader → Result Str Reader

unfoldable pub read_backup_content : GzipReader → Opened → Bool → Result Str Str
read_backup_content z opened false = opened >>= λ reader. reader
read_backup_content z opened true = opened >>= λ reader.
    map_err (λ e. bytes "failed to create gzip reader: " ++ e) (z.new_reader reader) >>= λ plain.
    plain

unfoldable pub decompress_file : GzipReader → Opened → Result Str Str
decompress_file z opened = opened >>= λ reader. z.new_reader reader >>= λ plain. plain
