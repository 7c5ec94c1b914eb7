-- ===== src/Mailbox/Listing.antt =====
-- The names that os.ReadDir lists for internal/adapters/mailbox/file.go, and the loops over them.
use Prim.Native.Nat.{Ordering}
use Prim.Native.String.{compare}
use harnessing.Prelude.{
  String, Bool, true, not, ◌&&◌, Option, none, some, List, [], ◌∷◌, ◌≡◌, refl, sym, ap, subst, ◌⊎◌,
  inl, inr, arith, Bool-cases, str_eq, eq_iff,
}
use harnessing.Domain.Errors.{Result, ok, err, ◌>>=◌}
use harnessing.Mailbox.Paths.{is_json}
use harnessing.Mailbox.Tree.{
  Area, same_area_refl, FilePath, Entry, regular, stat, same_path, same_path_iff, insert_name,
}
use harnessing.Mailbox.Wire.{Member}
use harnessing.Mailbox.Files.{read_dir_names, is_directory, named, kept, collect}

abbrev pub path_of : String → Area → String → FilePath
path_of agent area name = record { agent = agent; area = area; name = name }

placed :
    (s x t : String) (ts rest : List String) (o : Ordering)
    → (x ≡ s) ⊎ Member x (t ∷ ts)
    → (Member x ts → Member x rest)
    → ((x ≡ s) → Member x rest)
    → Member x (elim o [ Ordering.lt ↦ s ∷ t ∷ ts | _ ↦ t ∷ rest ])
placed s x t ts rest Ordering.lt (inl e) keeps new = inl (sym e)
placed s x t ts rest Ordering.lt (inr m) keeps new = inr m
placed s x t ts rest _ (inl e) keeps new = inr (new e)
placed s x t ts rest _ (inr (inl e)) keeps new = inl e
placed s x t ts rest _ (inr (inr m)) keeps new = inr (keeps m)

-- The new name is there, and so is every other.
insert_name-Member :
    (s x : String) (xs : List String) → (x ≡ s) ⊎ Member x xs → Member x (insert_name s xs)
unfolding insert_name
insert_name-Member s x [] (inl e) = inl (sym e)
insert_name-Member s x [] (inr m) = absurd m
insert_name-Member s x (t ∷ ts) m = elim (Bool-cases (str_eq s t)) [
  | inl e ↦ rw e (elim m [ inl f ↦ inl (cc ((eq_iff s t).0 e)) | inr k ↦ k ])
  | inr e ↦ rw e (
      placed s x t ts (insert_name s ts) (compare s t) m (λ k. insert_name-Member s x ts (inr k))
        (λ f. insert_name-Member s x ts (inl f)))
]

kept-Member :
    {A : Type 0} (o : Option A) (rest : List A) (x : A) → Member x rest → Member x (kept o rest)
kept-Member none rest x m = m
kept-Member (some y) rest x m = inr m

module _ {A : Type 0} (read_one : String → Result (Option A)) where
  -- The steps of a loop that returned.
  collect-steps :
      (name : String) (names : List String) (xs : List A)
      → collect read_one (name ∷ names) ≡ ok xs
      → (o : Option A) × (rest : List A) × (read_one name ≡ ok o)
        × (collect read_one names ≡ ok rest)
        × (xs ≡ kept o rest)
  unfolding collect
  collect-steps name names xs h = go (read_one name) (collect read_one names) refl refl h
    where
      go :
          (r : Result (Option A)) (s : Result (List A))
          → read_one name ≡ r
          → collect read_one names ≡ s
          → (do x ← r; rest ← s; ok (kept x rest)) ≡ ok xs
          → (o : Option A) × (rest : List A) × (read_one name ≡ ok o)
            × (collect read_one names ≡ ok rest)
            × (xs ≡ kept o rest)
      go (err e) s a b k = absurd (cc)
      go (ok o) (err e) a b k = absurd (cc)
      go (ok o) (ok rest) a b k = (o, rest, a, b, cc)

  pub collect_sound :
      (names : List String) (xs : List A) (x : A)
      → collect read_one names ≡ ok xs
      → Member x xs
      → (name : String) × (read_one name ≡ ok (some x))
  unfolding collect
  collect_sound [] xs x h m = let e : xs ≡ [] = cc in absurd (subst (λ l. Member x l) e m)
  collect_sound (name ∷ names) xs x h m =
      let (o, rest, a, b, e) = collect-steps name names xs h in
      go o rest a (collect_sound names rest x b) (subst (λ l. Member x l) e m)
    where
      go :
          (o : Option A) (rest : List A)
          → read_one name ≡ ok o
          → (Member x rest → (name : String) × (read_one name ≡ ok (some x)))
          → Member x (kept o rest)
          → (name : String) × (read_one name ≡ ok (some x))
      go none rest a ih m = ih m
      go (some y) rest a ih (inl e) = (name, cc)
      go (some y) rest a ih (inr m) = ih m

  pub collect_complete :
      (names : List String) (xs : List A) (name : String)
      → collect read_one names ≡ ok xs
      → Member name names
      → (o : Option A) × (read_one name ≡ ok o) × ((x : A) → o ≡ some x → Member x xs)
  collect_complete [] xs name h m = absurd m
  collect_complete (n ∷ names) xs name h (inl same) =
      let (o, rest, a, b, e) = collect-steps n names xs h in
      let here : read_one name ≡ ok o = cc in (o, here, λ x f. rw (e, f) (inl refl))
  collect_complete (n ∷ names) xs name h (inr m) =
      let (o, rest, a, b, e) = collect-steps n names xs h in
      let (found, read, kept_there) = collect_complete names rest name b m in
      (found, read, λ x f. rw e (kept-Member o rest x (kept_there x f)))

module _ {B : Type 0} where
  -- Every file of the directory is listed that a reader can want.
  pub read_dir_names-Member :
      (agent : String) (area : Area) (name : String) (b : B) (files : List (FilePath × Entry B))
      → is_json name ≡ true
      → stat (path_of agent area name) files ≡ some (regular b)
      → Member name (read_dir_names agent area files)
  unfolding stat read_dir_names
  read_dir_names-Member agent area name b [] j h = absurd (cc)
  read_dir_names-Member agent area name b ((p, x) ∷ files) j h =
      let listed : Bool = named agent area p && (not (is_directory x) && is_json p.name) in
      elim (Bool-cases (same_path p (path_of agent area name))) [
        | inl e ↦
            let q : p ≡ path_of agent area name = (same_path_iff p (path_of agent area name)).0 e in
            let y : x ≡ regular b = ground arith in
            let c : listed ≡ true =
              rw (q, y) (ground (arith, (eq_iff agent agent).1 refl, same_area_refl area)) in
            rw c (
              insert_name-Member p.name name (read_dir_names agent area files)
                (inl (ap (λ (o : FilePath). o.name) (sym q))))
        | inr e ↦
            let ih : Member name (read_dir_names agent area files) =
              read_dir_names-Member agent area name b files j (ground arith) in
            elim (Bool-cases listed) [
              | inl c ↦
                  rw c (insert_name-Member p.name name (read_dir_names agent area files) (inr ih))
              | inr c ↦ rw c ih
            ]
      ]
