-- ===== src/Driver/Programs.antt =====
-- The programs and the SQL connections that pkg/database and pkg/postgres call, and strings.Fields.
use datasaver.Base.{
  ℕ, Bool, ◌||◌, ◌&&◌, Str, bytes, List, [], ◌∷◌, ◌++◌, if◌then◌else◌, leb, ◌==◌, Result, map_err,
  ◌≡◌, refl,
}

-- A command of os/exec, with the variables that are added to the environment.
pub record Command : Type 0 where
  pub program : Str
  pub args : List Str
  pub env : List Str
  pub stdin : Str

-- A program gives what it prints, or an error with what it has printed as well.
pub record Failure : Type 0 where
  pub text : Str
  pub output : Str

abbrev pub Programs : Type 0
Programs = Command → Result Failure Str

-- database/sql: Open and Ping of a driver's data source, and the one value of a query with its
-- arguments.
pub record Sql : Type 0 where
  pub open_source : (driver source : Str) → Result Str (Unit {0})
  pub ping : (driver source : Str) → Result Str (Unit {0})
  pub query : (driver source text : Str) → List Str → Result Str Str

abbrev pub context : {A : Type 0} → Str → Result Str A → Result Str A
context message = map_err (λ e. message ++ e)

-- White space of strings.Fields, in ASCII.
abbrev pub is_space : ℕ → Bool
is_space c = c == 32 || leb 9 c && leb c 13

abbrev push_word : Str → List Str → List Str
push_word [] ws = ws
push_word (c ∷ w) ws = (c ∷ w) ∷ ws

-- The words of a text behind the beginning of one.
unfoldable pub fields_from : Str → Str → List Str
fields_from word [] = push_word word []
fields_from word (c ∷ s) =
    let next = fields_from [] s in
    let longer = fields_from (word ++ c ∷ []) s in
    if is_space c then push_word word next else longer

unfoldable pub fields : Str → List Str
unfolding fields_from
fields s = fields_from [] s

-- The number in the answer of `SELECT version()`.
unfoldable pub version_number : Str → Str
unfolding fields
version_number version = elim (fields version) [
  | [] ↦ version
  | w ∷ ws ↦ elim ws [ [] ↦ version | v ∷ vs ↦ v ]
]

version_16 : version_number (bytes "PostgreSQL 16.2 on x86_64") ≡ bytes "16.2"
unfolding version_number
version_16 = refl
