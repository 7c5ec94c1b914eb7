-- ===== src/Mailbox/Paths.antt =====
-- Names of files in internal/adapters/mailbox/file.go: which identifiers may be a path segment, and
-- the suffix by which a directory is filtered.
use Prim.Native.String.{String, ◌++◌}
use text.Mathlib.TextLemmas.{cons-append}
use harnessing.Prelude.{Bool, true, false, ◌||◌, ◌≡◌, refl, arith, str_eq}
use harnessing.Domain.Errors.{Result, reject_if, invalid_argument, ◌>>◌}

-- strings.ContainsAny(id, "/\\")
abbrev pub has_separator : String → Bool
has_separator String.[] = false
has_separator (String.◌∷◌ c s) =
    (str_eq (String.◌∷◌ c String.[]) "/" || str_eq (String.◌∷◌ c String.[]) "\\") || has_separator s

-- validID
unfoldable pub valid_id : String → Result (Unit {0})
valid_id id = do
  reject_if (str_eq id "") invalid_argument
  reject_if (str_eq id "." || str_eq id "..") invalid_argument
  reject_if (has_separator id) invalid_argument

-- strings.HasSuffix(name, ".json")
unfoldable pub is_json : String → Bool
is_json String.[] = false
is_json (String.◌∷◌ c s) = str_eq (String.◌∷◌ c s) ".json" || is_json s

abbrev pub json_name : String → String
json_name id = id ++ ".json"

pub is_json-json_name : (id : String) → is_json (json_name id) ≡ true
unfolding is_json
is_json-json_name String.[] = refl
is_json-json_name (String.◌∷◌ c s) =
    rw (cons-append c s ".json") (ground (arith, is_json-json_name s))
