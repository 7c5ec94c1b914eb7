-- ===== src/Transport/Files.antt =====
-- The file operations of internal/adapters/transport/protocol.go on the folders of one session. An
-- absent directory reads as an empty one, so it is not told from it.
use harnessing.Prelude.{
  ℕ, String, Bool, true, false, ◌||◌, Option, none, some, List, [], ◌∷◌, ◌≡◌, ◌↔◌, refl, ltb,
  str_eq, eq_iff, if◌then◌else◌, arith,
}
use harnessing.Domain.Errors.{Result, ok, fail, io_failure, ◌>>◌, reject_if}
use harnessing.Mailbox.Tree.{Entry, regular, special, directory, insert_name}

-- A name with the suffix .json, by what stands before the suffix, or any other.
pub data FileName : Type 0 where
  json other : String → FileName

abbrev pub same_name : FileName → FileName → Bool
same_name (json a) (json b) = str_eq a b
same_name (other a) (other b) = str_eq a b
same_name _ _ = false

pub same_name_iff : (m n : FileName) → (same_name m n ≡ true) ↔ (m ≡ n)
same_name_iff (json a) (json b) = ground (arith, eq_iff a b)
same_name_iff (other a) (other b) = ground (arith, eq_iff a b)
same_name_iff (json a) (other b) = ground arith
same_name_iff (other a) (json b) = ground arith

abbrev pub Folder : Type 0 → Type 0
Folder B = List (FileName × Entry B)

abbrev pub max_envelope_bytes : ℕ
max_envelope_bytes = 262144

-- What fails in one writeAtomic, the name that os.CreateTemp picks for `*.tmp`, and what a write that
-- fails leaves.
pub record WriteIo (B : Type 0) : Type 0 where
  pub mkdir : Bool
  pub create_temp : Bool
  pub write : Bool
  pub sync : Bool
  pub close : Bool
  pub rename : Bool
  pub remove_temp : Bool
  pub temp_name : String
  pub torn : B

-- What fails in one readBounded.
pub record ReadIo : Type 0 where
  pub look : Bool
  pub stat_file : Bool
  pub read_full : Bool

module _ {B : Type 0} where
  unfoldable pub find : FileName → Folder B → Option (Entry B)
  find n [] = none
  find n ((m, x) ∷ d) = if same_name m n then some x else find n d

  unfoldable pub put : FileName → Entry B → Folder B → Folder B
  put n x [] = (n, x) ∷ []
  put n x ((m, y) ∷ d) = let rest = put n x d in if same_name m n then (n, x) ∷ d else (m, y) ∷ rest

  unfoldable pub remove : FileName → Folder B → Folder B
  remove n [] = []
  remove n ((m, y) ∷ d) = let rest = remove n d in if same_name m n then rest else (m, y) ∷ rest

  pub find-put :
      (n m : FileName) (x : Entry B) (d : Folder B)
      → find m (put n x d) ≡ (if same_name n m then some x else find m d)
  unfolding find put
  find-put n m x [] = refl
  find-put n m x ((o, y) ∷ d) =
      ground (arith, find-put n m x d, same_name_iff n m, same_name_iff o n, same_name_iff o m)

  pub find-remove :
      (n m : FileName) (d : Folder B)
      → find m (remove n d) ≡ (if same_name n m then none else find m d)
  unfolding find remove
  find-remove n m [] = ground arith
  find-remove n m ((o, y) ∷ d) =
      ground (arith, find-remove n m d, same_name_iff n m, same_name_iff o n, same_name_iff o m)

  abbrev pub is_directory : Option (Entry B) → Bool
  is_directory (some directory) = true
  is_directory _ = false

  abbrev dropped : WriteIo B → Folder B → Folder B
  dropped io d = if io.remove_temp then d else remove (other io.temp_name) d

  -- writeAtomic
  unfoldable pub write_atomic : WriteIo B → FileName → B → Folder B → Result (Unit {0}) × Folder B
  write_atomic io n b d =
      let tmp = other io.temp_name in
      if io.mkdir || io.create_temp
      then (fail io_failure, d)
      else if io.write
      then (fail io_failure, dropped io (put tmp (regular io.torn) d))
      else if io.sync || io.close || io.rename || is_directory (find n d)
      then (fail io_failure, dropped io (put tmp (regular b) d))
      else (ok tt, put n (regular b) (remove tmp (put tmp (regular b) d)))

  -- readDirFileNames and sort.Strings.
  unfoldable pub json_names : Folder B → List String
  json_names [] = []
  json_names ((json s, directory) ∷ d) = json_names d
  json_names ((json s, _) ∷ d) = insert_name s (json_names d)
  json_names ((other s, _) ∷ d) = json_names d

  module _ (size : B → ℕ) where
    abbrev read_content : ReadIo → Entry B → Result (Option B)
    read_content io special = ok none
    read_content io directory = ok none
    read_content io (regular b) =
        if ltb max_envelope_bytes (size b)
        then ok none
        else if io.read_full
        then fail io_failure
        else ok (some b)

    abbrev read_entry : ReadIo → Option (Entry B) → Result (Option B)
    read_entry io none = ok none
    read_entry io (some x) = do reject_if io.stat_file io_failure; read_content io x

    -- readBounded
    unfoldable pub read_bounded : ReadIo → FileName → Folder B → Result (Option B)
    read_bounded io n d = do reject_if io.look io_failure; read_entry io (find n d)
