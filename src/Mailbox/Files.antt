-- ===== src/Mailbox/Files.antt =====
-- The file operations of internal/adapters/mailbox/file.go on the files below the root. What the
-- operating system answers is a parameter: each of its calls may fail.
use harnessing.Prelude.{
  ℕ, String, Bool, true, false, Option, none, some, List, [], ◌∷◌, not, ◌&&◌, ◌||◌, ltb, str_eq,
  if◌then◌else◌,
}
use harnessing.Domain.Errors.{Result, ok, fail, ◌>>=◌, ◌>>◌, reject_if, io_failure}
use harnessing.Mailbox.Paths.{is_json}
use harnessing.Mailbox.Tree.{
  Area, same_area, FilePath, Entry, regular, special, directory, Tree, stat, put, remove,
  insert_name,
}
use harnessing.Mailbox.Wire.{Wire}

abbrev pub max_envelope_bytes : ℕ
max_envelope_bytes = 262144

-- What fails in one call, the name that os.CreateTemp picks, and what a write that fails leaves.
pub record MailIo (B : Type 0) : Type 0 where
  pub mkdir : Bool
  pub list : Bool
  pub look : FilePath → Bool
  pub stat_file : FilePath → Bool
  pub read_full : FilePath → Bool
  pub marshal : Bool
  pub create_temp : Bool
  pub write : Bool
  pub sync : Bool
  pub close : Bool
  pub remove_temp : Bool
  pub rename : Bool
  pub temp_name : String
  pub torn : B

-- Open: filepath.Abs and os.MkdirAll of the root.
unfoldable pub open_mailbox : Bool → Bool → Result (Unit {0})
open_mailbox abs_fails mkdir_fails = do
  reject_if abs_fails io_failure
  reject_if mkdir_fails io_failure

abbrev pub named : String → Area → FilePath → Bool
named agent area p = str_eq p.agent agent && same_area p.area area

module _ {A : Type 0} where
  -- `if ok { xs = append(xs, x) }`, the rest of the loop being what it appends after.
  abbrev pub kept : Option A → List A → List A
  kept none rest = rest
  kept (some x) rest = x ∷ rest

  -- The loop of scanEnvelopes and of ScanAcks over the names of a directory.
  unfoldable pub collect : (String → Result (Option A)) → List String → Result (List A)
  collect read_one [] = ok []
  collect read_one (name ∷ names) = do
    x ← read_one name
    rest ← collect read_one names
    ok (kept x rest)

module _ {B : Type 0} where
  abbrev is_regular : Entry B → Bool
  is_regular (regular b) = true
  is_regular _ = false

  abbrev pub is_directory : Entry B → Bool
  is_directory directory = true
  is_directory _ = false

  abbrev directory_at : Option (Entry B) → Bool
  directory_at none = false
  directory_at (some x) = is_directory x

  abbrev is_there : Option (Entry B) → Bool
  is_there none = false
  is_there (some x) = true

  -- os.MkdirAll of the agent's directory; the area below it needs no record of its own.
  abbrev pub mkdir_all : MailIo B → String → Tree B → Result (Tree B)
  mkdir_all io agent t = do
    reject_if io.mkdir io_failure
    ok (record t { agents = insert_name agent t.agents })

  -- os.Stat answers without an error.
  abbrev pub present : MailIo B → FilePath → Tree B → Bool
  present io p t = not (io.look p) && is_there (stat p t.files)

  -- os.Rename: not onto a directory, and a directory not onto a file.
  abbrev can_rename : Option (Entry B) → Option (Entry B) → Bool
  can_rename none to = false
  can_rename (some x) to = not (directory_at to) && not (is_directory x && is_there to)

  abbrev pub moved : FilePath → FilePath → Option (Entry B) → Tree B → Tree B
  moved from to none t = t
  moved from to (some x) t = record t { files = put to x (remove from t.files) }

  unfoldable pub rename : MailIo B → FilePath → FilePath → Tree B → Result (Tree B)
  rename io from to t = do
    reject_if io.rename io_failure
    reject_if (not (can_rename (stat from t.files) (stat to t.files))) io_failure
    ok (moved from to (stat from t.files) t)

  abbrev pub temp_path : MailIo B → FilePath → FilePath
  temp_path io p = record p { name = io.temp_name }

  -- `_ = os.Remove(tmpPath)`
  abbrev dropped : MailIo B → FilePath → List (FilePath × Entry B) → List (FilePath × Entry B)
  dropped io p files = if io.remove_temp then files else remove p files

  -- writeAtomic
  unfoldable pub write_atomic : MailIo B → FilePath → B → Tree B → Result (Unit {0}) × Tree B
  write_atomic io p b t =
      let tmp = temp_path io p in
      let half = put tmp (regular io.torn) t.files in
      let whole = put tmp (regular b) t.files in
      if io.create_temp
      then (fail io_failure, t)
      else if io.write
      then (fail io_failure, record t { files = dropped io tmp half })
      else if io.sync || io.close || io.rename || directory_at (stat p t.files)
      then (fail io_failure, record t { files = dropped io tmp whole })
      else (ok tt, record t { files = put p (regular b) (remove tmp whole) })

  -- readDirNames
  unfoldable pub read_dir_names : String → Area → List (FilePath × Entry B) → List String
  read_dir_names agent area [] = []
  read_dir_names agent area ((p, x) ∷ files) =
      let rest = read_dir_names agent area files in
      if named agent area p && (not (is_directory x) && is_json p.name)
      then insert_name p.name rest
      else rest

  module _ (w : Wire B) where
    abbrev read_content : MailIo B → FilePath → Entry B → Result (Option B)
    read_content io p special = ok none
    read_content io p directory = ok none
    read_content io p (regular b) =
        if ltb max_envelope_bytes (w.size b)
        then ok none
        else if io.read_full p
        then fail io_failure
        else ok (some b)

    abbrev read_entry : MailIo B → FilePath → Option (Entry B) → Result (Option B)
    read_entry io p none = ok none
    read_entry io p (some x) = do reject_if (io.stat_file p) io_failure; read_content io p x

    -- readBounded
    unfoldable pub read_bounded : MailIo B → FilePath → Tree B → Result (Option B)
    read_bounded io p t = do reject_if (io.look p) io_failure; read_entry io p (stat p t.files)
