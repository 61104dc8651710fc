-- ===== src/Storage/Calls.antt =====
-- The calls that change a storage backend, one by one, and calls of two callers in any order.
use datasaver.Base.{
  Bool, true, false, Str, List, [], ◌∷◌, ◌++◌, Option, none, some, if◌then◌else◌, str_eq, ok, ◌≡◌,
  refl, ap, ◌∙◌, All,
}
use datasaver.Storage.{Backend}
use datasaver.Storage.Laws.{IsMap}

-- Write of a reader with these bytes, and Delete.
pub data Call : Type 0 where
  writes : (path text : Str) → Call
  deletes : (path : Str) → Call

abbrev pub path_of : Call → Str
path_of (writes p text) = p
path_of (deletes p) = p

-- The calls in any order that keeps the order of each caller.
pub data Interleaves {A : Type 0} : List A → List A → List A → Type 0 where
  neither : Interleaves [] [] []
  first : (x : A) {xs ys zs : List A} → Interleaves xs ys zs → Interleaves (x ∷ xs) ys (x ∷ zs)
  second : (y : A) {xs ys zs : List A} → Interleaves xs ys zs → Interleaves xs (y ∷ ys) (y ∷ zs)

-- No call is for the path.
abbrev pub Skips : Str → List Call → Type 0
Skips q = All (λ c. str_eq (path_of c) q ≡ false)

-- What a call leaves of the content under a path.
abbrev pub touch : Str → Call → Option Str → Option Str
touch q (writes p text) o = if str_eq p q then some text else o
touch q (deletes p) o = if str_eq p q then none else o

abbrev pub touch_all : Str → List Call → Option Str → Option Str
touch_all q [] o = o
touch_all q (c ∷ cs) o = touch_all q cs (touch q c o)

module _ (b : Backend) where
  unfoldable pub exec : Call → b.State → b.State
  exec (writes p text) s = (b.write p (ok text) s).1
  exec (deletes p) s = (b.delete p s).1

  unfoldable pub exec_all : List Call → b.State → b.State
  unfolding exec
  exec_all [] s = s
  exec_all (c ∷ cs) s = exec_all cs (exec c s)

  pub exec_all-append :
      (cs ds : List Call) (s : b.State) → exec_all (cs ++ ds) s ≡ exec_all ds (exec_all cs s)
  unfolding exec_all
  exec_all-append [] ds s = refl
  exec_all-append (c ∷ cs) ds s = exec_all-append cs ds (exec c s)

pub touch-skipped :
    (q : Str) (c : Call) (o : Option Str) → str_eq (path_of c) q ≡ false → touch q c o ≡ o
touch-skipped q (writes p text) o h = rw h refl
touch-skipped q (deletes p) o h = rw h refl

-- At a path that one caller skips, only the calls of the other count.
pub touch_all-Interleaves :
    (q : Str) {xs ys zs : List Call} (o : Option Str)
    → Interleaves xs ys zs
    → Skips q ys
    → touch_all q zs o ≡ touch_all q xs o
touch_all-Interleaves q o neither skips = refl
touch_all-Interleaves q o (first x i) skips = touch_all-Interleaves q (touch q x o) i skips
touch_all-Interleaves q o (second y {xs} {ys} {zs} i) skips =
    ap (touch_all q zs) (touch-skipped q y o skips.0) ∙ touch_all-Interleaves q o i skips.1

module _ (b : Backend) {Good : b.State → Type 0} {names : Str → Bool}
    {view : b.State → Str → Option Str} (law : IsMap b Good names view) where
  pub exec-Good : (c : Call) (s : b.State) → Good s → Good (exec b c s)
  unfolding exec
  exec-Good (writes p text) s good = law.write_Good p text s good
  exec-Good (deletes p) s good = law.delete_Good p s good

  pub exec_all-Good : (cs : List Call) (s : b.State) → Good s → Good (exec_all b cs s)
  unfolding exec_all
  exec_all-Good [] s good = good
  exec_all-Good (c ∷ cs) s good = exec_all-Good cs (exec b c s) (exec-Good c s good)

  pub view-exec :
      (c : Call) (s : b.State) (q : Str)
      → Good s
      → names (path_of c) ≡ true
      → names q ≡ true
      → view (exec b c s) q ≡ touch q c (view s q)
  unfolding exec
  view-exec (writes p text) s q good np nq = law.write_view p text s q good np nq
  view-exec (deletes p) s q good np nq = law.delete_view p s q good np nq

  -- On a backend that is a map, each call is what it says, at every path.
  pub view-exec_all :
      (cs : List Call) (s : b.State) (q : Str)
      → Good s
      → All (λ c. names (path_of c) ≡ true) cs
      → names q ≡ true
      → view (exec_all b cs s) q ≡ touch_all q cs (view s q)
  unfolding exec_all
  view-exec_all [] s q good n nq = refl
  view-exec_all (c ∷ cs) s q good n nq =
      view-exec_all cs (exec b c s) q (exec-Good c s good) n.1 nq
      ∙ ap (touch_all q cs) (view-exec c s q good n.0 nq)
