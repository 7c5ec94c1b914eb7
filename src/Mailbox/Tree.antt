-- ===== src/Mailbox/Tree.antt =====
-- The part of a file system that internal/adapters/mailbox/file.go works on: per agent four
-- directories of files. A path below the root is the agent's directory, the area and the name.
use Prim.Native.Nat.{Ordering}
use Prim.Native.String.{compare}
use harnessing.Prelude.{
  String, Bool, true, false, Option, none, some, List, [], ◌∷◌, ◌&&◌, ◌≡◌, ◌↔◌, refl, str_eq,
  eq_iff, if◌then◌else◌, arith,
}

pub data Area : Type 0 where
  inbox archive acks acks_archive : Area

abbrev pub same_area : Area → Area → Bool
same_area inbox inbox = true
same_area archive archive = true
same_area acks acks = true
same_area acks_archive acks_archive = true
same_area _ _ = false

pub record FilePath : Type 0 where
  pub agent : String
  pub area : Area
  pub name : String

unfoldable pub same_path : FilePath → FilePath → Bool
same_path p q = str_eq p.agent q.agent && (same_area p.area q.area && str_eq p.name q.name)

same_area_eq : (a b : Area) → same_area a b ≡ true → a ≡ b
same_area_eq inbox inbox h = refl
same_area_eq archive archive h = refl
same_area_eq acks acks h = refl
same_area_eq acks_archive acks_archive h = refl
same_area_eq _ _ h = cc

pub same_area_refl : (a : Area) → same_area a a ≡ true
same_area_refl inbox = refl
same_area_refl archive = refl
same_area_refl acks = refl
same_area_refl acks_archive = refl

pub same_path_iff : (p q : FilePath) → (same_path p q ≡ true) ↔ (p ≡ q)
unfolding same_path
same_path_iff p q = (
  λ h. ground (arith, eq_iff p.agent q.agent, eq_iff p.name q.name, same_area_eq p.area q.area),
  λ e.
      rw (← e)
        (ground (arith, eq_iff p.agent p.agent, eq_iff p.name p.name, same_area_refl p.area)),
)

-- A directory or a special file may stand where a file was expected.
pub data Entry (B : Type 0) : Type 0 where
  regular : B → Entry B
  special directory : Entry B

module _ {B : Type 0} where
  unfoldable pub stat : FilePath → List (FilePath × Entry B) → Option (Entry B)
  stat p [] = none
  stat p ((q, x) ∷ t) = if same_path q p then some x else stat p t

  unfoldable pub put : FilePath → Entry B → List (FilePath × Entry B) → List (FilePath × Entry B)
  put p x [] = (p, x) ∷ []
  put p x ((q, y) ∷ t) = let rest = put p x t in if same_path q p then (p, x) ∷ t else (q, y) ∷ rest

  unfoldable pub remove : FilePath → List (FilePath × Entry B) → List (FilePath × Entry B)
  remove p [] = []
  remove p ((q, y) ∷ t) = let rest = remove p t in if same_path q p then rest else (q, y) ∷ rest

  pub stat-put :
      (p q : FilePath) (x : Entry B) (t : List (FilePath × Entry B))
      → stat q (put p x t) ≡ (if same_path p q then some x else stat q t)
  unfolding stat put
  stat-put p q x [] = refl
  stat-put p q x ((o, y) ∷ t) =
      ground (arith, stat-put p q x t, same_path_iff p q, same_path_iff o p, same_path_iff o q)

  pub stat-remove :
      (p q : FilePath) (t : List (FilePath × Entry B))
      → stat q (remove p t) ≡ (if same_path p q then none else stat q t)
  unfolding stat remove
  stat-remove p q [] = ground arith
  stat-remove p q ((o, y) ∷ t) =
      ground (arith, stat-remove p q t, same_path_iff p q, same_path_iff o p, same_path_iff o q)

-- The root directory: its subdirectories as os.ReadDir lists them, and all files below.
pub record Tree (B : Type 0) : Type 0 where
  pub agents : List String
  pub files : List (FilePath × Entry B)

-- os.ReadDir sorts by name.
unfoldable pub insert_name : String → List String → List String
insert_name s [] = s ∷ []
insert_name s (t ∷ ts) =
    let rest = insert_name s ts in
    if str_eq s t then t ∷ ts else elim (compare s t) [ Ordering.lt ↦ s ∷ t ∷ ts | _ ↦ t ∷ rest ]
