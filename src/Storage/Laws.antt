-- ===== src/Storage/Laws.antt =====
-- What the clients of a storage backend rely on: it is a map from paths to contents.
use mathlib.Core.List.{Mem}
use datasaver.Base.{
  Bool, true, false, Str, List, [], Option, none, some, if◌then◌else◌, str_eq, ok, err, length, ◌≡◌,
}
use datasaver.Storage.{Backend, FileInfo, not_found}

-- `view` is the content under each path. In the states that are `Good`, reading agrees with it,
-- and the calls that change the state change it at their path only, among the paths that are
-- `names`.
pub record IsMap (b : Backend) (Good : b.State → Type 0) (names : Str → Bool)
    (view : b.State → Str → Option Str) : Type 0 where
  pub read_view :
      (p : Str) (s : b.State)
      → Good s
      → b.read p s ≡ elim (view s p) [ none ↦ err not_found | some text ↦ ok (ok text) ]
  pub write_view :
      (p text : Str) (s : b.State) (q : Str)
      → Good s
      → names p ≡ true
      → names q ≡ true
      → view (b.write p (ok text) s).1 q ≡ (if str_eq p q then some text else view s q)
  pub write_ok : (p text : Str) (s : b.State) → Good s → (b.write p (ok text) s).0 ≡ ok tt
  pub write_Good : (p text : Str) (s : b.State) → Good s → Good (b.write p (ok text) s).1
  pub delete_view :
      (p : Str) (s : b.State) (q : Str)
      → Good s
      → names p ≡ true
      → names q ≡ true
      → view (b.delete p s).1 q ≡ (if str_eq p q then none else view s q)
  pub delete_ok : (p : Str) (s : b.State) → Good s → (b.delete p s).0 ≡ ok tt
  pub delete_Good : (p : Str) (s : b.State) → Good s → Good (b.delete p s).1
  pub exists_view :
      (p : Str) (s : b.State)
      → Good s
      → b.exists p s ≡ ok (elim (view s p) [ none ↦ false | some text ↦ true ])
  pub size_view :
      (p : Str) (s : b.State)
      → Good s
      → b.size p s ≡ elim (view s p) [ none ↦ err not_found | some text ↦ ok (length text) ]

-- In the states that are `Listable`, List without a prefix succeeds and shows every name that has a
-- content. The calls that change the state keep such states.
pub record IsListed (b : Backend) (Listable : b.State → Type 0) (names : Str → Bool)
    (view : b.State → Str → Option Str) : Type 0 where
  pub list_view :
      (s : b.State)
      → Listable s
      → (files : List FileInfo) × (b.list [] s ≡ ok files)
        × ((p text : Str)
            → names p ≡ true
            → view s p ≡ some text
            → (f : FileInfo) × Mem f files × (f.path ≡ p))
  pub write_Listable :
      (p text : Str) (s : b.State) → Listable s → Listable (b.write p (ok text) s).1
  pub delete_Listable : (p : Str) (s : b.State) → Listable s → Listable (b.delete p s).1
