-- ===== src/Transport/Written.antt =====
-- What readBounded finds behind a writeAtomic of internal/adapters/transport/protocol.go, and what
-- readDirFileNames lists.
use Prim.Native.Nat.{Ordering}
use Prim.Native.String.{compare}
use harnessing.Prelude.{
  ℕ, String, false, some, List, [], ◌∷◌, ◌≡◌, refl, ◌⊎◌, inl, inr, ltb, str_eq, eq_iff,
  if◌then◌else◌, arith, All, Bool-cases, subst,
}
use harnessing.Domain.Errors.{ok}
use harnessing.Mailbox.Tree.{Entry, regular, special, directory, insert_name}
use harnessing.Mailbox.Wire.{Member}
use harnessing.Transport.Files.{
  FileName, json, other, same_name, Folder, max_envelope_bytes, WriteIo, ReadIo, find, put, remove,
  find-put, find-remove, is_directory, write_atomic, json_names, read_bounded,
}

-- No call fails.
abbrev pub clean_read : ReadIo
clean_read = record { look = false; stat_file = false; read_full = false }

abbrev pub clean_write : {B : Type 0} → String → B → WriteIo B
clean_write temp torn = record {
  mkdir = false;
  create_temp = false;
  write = false;
  sync = false;
  close = false;
  rename = false;
  remove_temp = false;
  temp_name = temp;
  torn = torn;
}

module _ {B : Type 0} where
  -- Where nothing fails and no directory is in the way, the write succeeds.
  pub write_atomic-clean :
      (temp : String) (torn : B) (s : String) (b : B) (d : Folder B)
      → is_directory (find (json s) d) ≡ false
      → (write_atomic (clean_write temp torn) (json s) b d).0 ≡ ok tt
  unfolding write_atomic
  write_atomic-clean temp torn s b d h = ground (arith, h)

  pub find-write_atomic_clean :
      (temp : String) (torn : B) (s t : String) (b : B) (d : Folder B)
      → is_directory (find (json s) d) ≡ false
      → find (json t) (write_atomic (clean_write temp torn) (json s) b d).1
        ≡ (if str_eq s t then some (regular b) else find (json t) d)
  unfolding write_atomic
  find-write_atomic_clean temp torn s t b d h = ground (
    arith,
    h,
    find-put (json s) (json t) (regular b) (remove (other temp) (put (other temp) (regular b) d)),
    find-remove (other temp) (json t) (put (other temp) (regular b) d),
    find-put (other temp) (json t) (regular b) d,
  )

  pub read_bounded-written :
      (size : B → ℕ) (s : String) (b : B) (d : Folder B)
      → find (json s) d ≡ some (regular b)
      → ltb max_envelope_bytes (size b) ≡ false
      → read_bounded size clean_read (json s) d ≡ ok (some b)
  unfolding read_bounded
  read_bounded-written size s b d h fits = rw h (ground (arith, fits))

pub All-Member :
    (P : String → Type 0) (id : String) (ids : List String) → All P ids → Member id ids → P id
All-Member P id [] h m = elim m [ ]
All-Member P id (first ∷ ids) h (inl e) = subst P e h.0
All-Member P id (first ∷ ids) h (inr m) = All-Member P id ids h.1 m

-- Where insert_name's comparison leads.
insert_cases {ℓ} :
    (Q : List String → Type ℓ) (s t : String) (l rest : List String) (o : Ordering)
    → Q (s ∷ t ∷ l)
    → Q (t ∷ rest)
    → Q (elim o [ Ordering.lt ↦ s ∷ t ∷ l | _ ↦ t ∷ rest ])
insert_cases Q s t l rest Ordering.lt before after = before
insert_cases Q s t l rest Ordering.eq before after = after
insert_cases Q s t l rest Ordering.gt before after = after

module _ {κ} (P : String → Type κ) where
  All-insert_name : (s : String) (l : List String) → P s → All P l → All P (insert_name s l)
  unfolding insert_name
  All-insert_name s [] p h = (p, tt)
  All-insert_name s (t ∷ l) p h = elim (Bool-cases (str_eq s t)) [
    | inl same ↦ rw same h
    | inr differ ↦ rw differ (
        insert_cases (All P) s t l (insert_name s l) (compare s t) (p, h)
          (h.0, All-insert_name s l p h.1))
  ]

  abbrev pub AtName : FileName → Type κ
  AtName (json s) = P s
  AtName (other s) = Unit

  module _ {B : Type 0} where
    -- Each name of a file of JSON, also where a directory has it.
    abbrev pub AllNames : Folder B → Type κ
    AllNames [] = Unit
    AllNames ((n, x) ∷ d) = AtName n × AllNames d

    pub AllNames-json_names : (d : Folder B) → AllNames d → All P (json_names d)
    unfolding json_names
    AllNames-json_names [] h = tt
    AllNames-json_names ((json s, directory) ∷ d) h = AllNames-json_names d h.1
    AllNames-json_names ((json s, regular b) ∷ d) h =
        All-insert_name s (json_names d) h.0 (AllNames-json_names d h.1)
    AllNames-json_names ((json s, special) ∷ d) h =
        All-insert_name s (json_names d) h.0 (AllNames-json_names d h.1)
    AllNames-json_names ((other s, _) ∷ d) h = AllNames-json_names d h.1

    AllNames-put :
        (n : FileName) (x : Entry B) (d : Folder B) → AtName n → AllNames d → AllNames (put n x d)
    unfolding put
    AllNames-put n x [] p h = (p, tt)
    AllNames-put n x ((m, y) ∷ d) p h = elim (Bool-cases (same_name m n)) [
      | inl same ↦ rw same (p, h.1)
      | inr differ ↦ rw differ (h.0, AllNames-put n x d p h.1)
    ]

    AllNames-remove : (n : FileName) (d : Folder B) → AllNames d → AllNames (remove n d)
    unfolding remove
    AllNames-remove n [] h = tt
    AllNames-remove n ((m, y) ∷ d) h = elim (Bool-cases (same_name m n)) [
      | inl same ↦ rw same (AllNames-remove n d h.1)
      | inr differ ↦ rw differ (h.0, AllNames-remove n d h.1)
    ]

    pub AllNames-write_atomic :
        (temp : String) (torn : B) (s : String) (b : B) (d : Folder B)
        → is_directory (find (json s) d) ≡ false
        → P s
        → AllNames d
        → AllNames (write_atomic (clean_write temp torn) (json s) b d).1
    unfolding write_atomic
    AllNames-write_atomic temp torn s b d clear p h = rw clear (
        AllNames-put (json s) (regular b) (remove (other temp) (put (other temp) (regular b) d)) p (
          AllNames-remove (other temp) (put (other temp) (regular b) d)
            (AllNames-put (other temp) (regular b) d tt h)))

pub AllNames-map :
    {B : Type 0} (P Q : String → Type 0) (d : Folder B)
    → ((s : String) → P s → Q s)
    → AllNames P d
    → AllNames Q d
AllNames-map P Q [] f h = tt
AllNames-map P Q ((json s, x) ∷ d) f h = (f s h.0, AllNames-map P Q d f h.1)
AllNames-map P Q ((other s, x) ∷ d) f h = (tt, AllNames-map P Q d f h.1)

Member-insert_name_self : (s : String) (l : List String) → Member s (insert_name s l)
unfolding insert_name
Member-insert_name_self s [] = inl refl
Member-insert_name_self s (t ∷ l) = elim (Bool-cases (str_eq s t)) [
  | inl same ↦ rw same (inl ((eq_iff t s).0 (ground (arith, eq_iff s t, eq_iff t s))))
  | inr differ ↦ rw differ (
      insert_cases (Member s) s t l (insert_name s l) (compare s t) (inl refl)
        (inr (Member-insert_name_self s l)))
]

later_member : {A C D : Type 0} → A ⊎ C → (C → D) → A ⊎ D
later_member (inl e) f = inl e
later_member (inr m) f = inr (f m)

Member-insert_name : (u s : String) (l : List String) → Member u l → Member u (insert_name s l)
unfolding insert_name
Member-insert_name u s [] h = elim h [ ]
Member-insert_name u s (t ∷ l) h = elim (Bool-cases (str_eq s t)) [
  | inl same ↦ rw same h
  | inr differ ↦ rw differ (
      insert_cases (Member u) s t l (insert_name s l) (compare s t) (inr h)
        (later_member h (Member-insert_name u s l)))
]

module _ {B : Type 0} (s : String) where
  Member-head :
      (u : String) (x : Entry B) (b : B) (d : Folder B)
      → u ≡ s
      → some x ≡ some (regular b)
      → Member s (json_names ((json u, x) ∷ d))
  unfolding json_names
  Member-head u (regular c) b d same e = rw same (Member-insert_name_self s (json_names d))
  Member-head u special b d same e = cc
  Member-head u directory b d same e = cc

  Member-tail :
      (u : String) (x : Entry B) (d : Folder B)
      → Member s (json_names d)
      → Member s (json_names ((json u, x) ∷ d))
  unfolding json_names
  Member-tail u (regular c) d m = Member-insert_name s u (json_names d) m
  Member-tail u special d m = Member-insert_name s u (json_names d) m
  Member-tail u directory d m = m

  -- A regular file of JSON is listed.
  pub Member-json_names :
      (b : B) (d : Folder B) → find (json s) d ≡ some (regular b) → Member s (json_names d)
  unfolding find json_names
  Member-json_names b [] h = cc
  Member-json_names b ((other u, x) ∷ d) h = Member-json_names b d h
  Member-json_names b ((json u, x) ∷ d) h = elim (Bool-cases (str_eq u s)) [
    | inl same ↦ Member-head u x b d ((eq_iff u s).0 same) (ground (arith, h, same))
    | inr differ ↦ Member-tail u x d (Member-json_names b d (ground (arith, h, differ)))
  ]
