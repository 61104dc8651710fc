-- ===== src/Mcp/Registry.antt =====
-- internal/mcp/tools/registry.go, and the three tools that backup.go registers there.
use datasaver.Base.{
  ℕ, Bool, true, false, Str, bytes, List, [], ◌∷◌, ◌++◌, Option, none, some, if◌then◌else◌, str_eq,
  has_str, ◌||◌, length, Result, ok, err, ◌≡◌, refl, arith, Bool-cases, str_eq_iff, subst, sym, inl,
  inr,
}
use datasaver.Base.Int.{ℤ}
use datasaver.Clock.{Time}
use datasaver.Clock.Format.{rfc3339}
use datasaver.Config.{Config}
use datasaver.Metadata.{BackupMetadata}
use datasaver.Notify.{Notifier, milliseconds}
use datasaver.Storage.{Backend}
use datasaver.Validator.{Tools}
use datasaver.Engine.{Codec, list_backups}
use datasaver.Engine.Run.{Engine, World, run}
use datasaver.Mcp.Outputs.{Value, text, number}
use datasaver.Status.{no_totals, sum_up}

-- The map from names to tools, over the type of the tools. The newest entry of a name counts.
module _ {F : Type 0} where
  unfoldable pub new_tool_registry : List (Str × F)
  new_tool_registry = []

  unfoldable pub register : Str → F → List (Str × F) → List (Str × F)
  register name f [] = (name, f) ∷ []
  register name f ((n, g) ∷ r) =
      let rest = register name f r in if str_eq n name then (name, f) ∷ r else (n, g) ∷ rest

  unfoldable pub find : Str → List (Str × F) → Option F
  find name [] = none
  find name ((n, f) ∷ r) = let rest = find name r in if str_eq n name then some f else rest

  unfoldable pub has : Str → List (Str × F) → Bool
  unfolding find
  has name r = elim (find name r) [ none ↦ false | some f ↦ true ]

  -- List, in the order of the first registrations. Go gives the names in any order.
  unfoldable pub names : List (Str × F) → List Str
  names [] = []
  names ((n, f) ∷ r) = n ∷ names r

  find-register :
      (name : Str) (f : F) (other : Str) (r : List (Str × F))
      → find other (register name f r) ≡ (if str_eq name other then some f else find other r)
  unfolding find register
  find-register name f other [] = refl
  find-register name f other ((n, g) ∷ r) = elim (Bool-cases (str_eq n name)) [
    | inl same ↦ rw same (
        subst
          (λ m. (if str_eq name other then some f else find other r) ≡ (
            if str_eq name other then some f else if str_eq m other then some g else find other r))
          (sym ((str_eq_iff n name).0 same))
          (shadowed (some f) (find other r) (some g) (str_eq name other)))
    | inr apart ↦ rw apart (
        grind (
          arith,
          find-register name f other r,
          str_eq_iff n other,
          str_eq_iff name other,
          str_eq_iff n name,
        ))
  ]
    where
      shadowed :
          {A : Type 0} (x y z : A) (c : Bool)
          → (if c then x else y) ≡ (if c then x else if c then z else y)
      shadowed x y z true = refl
      shadowed x y z false = refl

-- What a tool returns. The third one returns a time.Time.
pub data Returned : Type 0 where
  fields : List (Str × Value) → Returned
  backups : List BackupMetadata → Returned
  totals : (total_backups : ℕ) (storage_bytes : ℤ) (last_backup : Time) → Returned

module _ (b : Backend) (k : Codec) (t : Tools) (notifier : Option Notifier) (cfg : Config)
    (w : World) where
  abbrev pub ToolFunc : Type 0
  ToolFunc = Str → Engine b → Result Str Returned × Engine b

  unfoldable pub backup_now_func : ToolFunc
  backup_now_func args g =
      let (r, error, g') = run b k t notifier cfg w g in
      elim error [
        | some e ↦ (err e, g')
        | none ↦ (
          ok (
              fields (
                (bytes "backup_id", text r.id)
                ∷ (bytes "timestamp", text (rfc3339 r.timestamp))
                ∷ (bytes "size_bytes", number r.size)
                ∷ (bytes "compressed_size", number r.compressed_size)
                ∷ (bytes "duration_ms", number (milliseconds r.duration))
                ∷ [])),
          g',
        )
      ]

  unfoldable pub list_backups_func : ToolFunc
  list_backups_func args g = elim (list_backups b k g.storage) [
    | err e ↦ (err (k.storage_text e), g)
    | ok ms ↦ (ok (backups ms), g)
  ]

  -- A listing that fails counts as empty.
  unfoldable pub backup_status_func : ToolFunc
  unfolding sum_up
  backup_status_func args g =
      let ms : List BackupMetadata = elim (list_backups b k g.storage) [
        | err e ↦ []
        | ok ms ↦ ms
      ] in
      let sums = sum_up no_totals ms in (ok (totals (length ms) sums.size sums.last), g)

  unfoldable pub new_registry_with_tools : List (Str × ToolFunc)
  unfolding register new_tool_registry
  new_registry_with_tools = register (bytes "backup_status") backup_status_func (
      register (bytes "list_backups") list_backups_func
        (register (bytes "backup_now") backup_now_func new_tool_registry))

  -- Call, over json.Marshal of the arguments.
  unfoldable pub call :
      {Args : Type 0}
      → (Args → Result Str Str)
      → Str
      → Args
      → List (Str × ToolFunc)
      → Engine b
      → Result Str Returned × Engine b
  unfolding find
  call marshal name args r g = elim (find name r) [
    | none ↦ (err (bytes "tool not found: " ++ name), g)
    | some f ↦ elim (marshal args) [
      | err e ↦ (err (bytes "failed to marshal args: " ++ e), g)
      | ok json ↦ f json g
    ]
  ]

  -- The names that the registry has.
  has_registered :
      (name : Str)
      → has name new_registry_with_tools
        ≡ has_str name (bytes "backup_now" ∷ bytes "list_backups" ∷ bytes "backup_status" ∷ [])
  unfolding has find new_registry_with_tools has_str
  has_registered name =
      three_names (str_eq (bytes "backup_now") name) (str_eq (bytes "list_backups") name)
        (str_eq (bytes "backup_status") name) backup_now_func list_backups_func backup_status_func
    where
      three_names :
          {F : Type 0} (p q r : Bool) (f g h : F)
          → (elim (if p then some f else if q then some g else if r then some h else none) [
            | none ↦ false
            | some f ↦ true
          ])
            ≡ p || (q || (r || false))
      three_names p q r f g h = ground arith
