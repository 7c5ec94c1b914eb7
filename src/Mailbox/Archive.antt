-- ===== src/Mailbox/Archive.antt =====
-- What archiving in internal/adapters/mailbox/file.go does to a file.
use harnessing.Prelude.{
  String, true, false, none, some, List, [], ◌∷◌, ◌≡◌, refl, ap, ◌∙◌, ◌⊎◌, inl, inr, arith,
  Bool-cases, Option-cases, if◌then◌else◌,
}
use harnessing.Domain.Errors.{Result, ok, err}
use harnessing.Mailbox.Tree.{
  inbox, archive, FilePath, Entry, regular, Tree, stat, remove, same_path, same_path_iff, stat-put,
  stat-remove,
}
use harnessing.Mailbox.Files.{MailIo, mkdir_all, rename, moved, present}
use harnessing.Mailbox.Publish.{files-mkdir_all}
use harnessing.Mailbox.Inbox.{
  file_at, archive_renamed, archive_done, archive_first, archive_across_agents, guarded,
  check_archive, archive_message,
}

-- The place of a file in the archive.
abbrev pub archived : FilePath → FilePath
archived p = record p { area = archive }

apart : (q p : FilePath) → q.area ≡ archive → p.area ≡ inbox → same_path q p ≡ false
unfolding same_path
apart q p e f = ground (arith, e, f)

module _ {B : Type 0} where
  -- A file is where it was or where it is archived, with its content.
  abbrev pub IsKept : FilePath → FilePath → B → Tree B → Type 0
  IsKept from to b t = (stat from t.files ≡ some (regular b)) ⊎ (stat to t.files ≡ some (regular b))

  moved-stat :
      (from to q : FilePath) (x : Entry B) (t : Tree B)
      → stat q (moved from to (some x) t).files
        ≡ (if same_path to q then some x else if same_path from q then none else stat q t.files)
  moved-stat from to q x t =
      ground (arith, stat-put to q x (remove from t.files), stat-remove from q t.files)

  renamed-IsKept :
      (io : MailIo B) (from to p q : FilePath) (t t' : Tree B) (b : B)
      → stat p t.files ≡ some (regular b)
      → same_path to p ≡ false
      → (same_path from p ≡ true → to ≡ q)
      → rename io from to t ≡ ok t'
      → IsKept p q b t'
  unfolding rename
  renamed-IsKept io from to p q t t' b h apart target r = elim (Option-cases (stat from t.files)) [
    | inl missing ↦ absurd (ground arith)
    | inr (x, there) ↦
        let e : t'.files ≡ (moved from to (some x) t).files = ground arith in
        elim (Bool-cases (same_path from p)) [
          | inl c ↦
              let same : x ≡ regular b =
                ground (arith, there, h, ap (λ o. stat o t.files) ((same_path_iff from p).0 c)) in
              inr (
                ground
                  (arith, e, same, moved-stat from to q x t, (same_path_iff to q).1 (target c)))
          | inr c ↦ inl (ground (arith, e, moved-stat from to p x t, apart, c, h))
        ]
  ]

  archive_renamed-IsKept :
      (io : MailIo B) (agent id : String) (p : FilePath) (t : Tree B) (b : B) (r : Result (Tree B))
      → p.area ≡ inbox
      → stat p t.files ≡ some (regular b)
      → ((made : Tree B) → r ≡ ok made → made.files ≡ t.files)
      → IsKept p
          (archived p)
          b
          (archive_renamed io (file_at agent inbox id) (file_at agent archive id) t r).1
  archive_renamed-IsKept io agent id p t b (err e) a h same = inl h
  archive_renamed-IsKept io agent id p t b (ok made) a h same =
      go (rename io (file_at agent inbox id) (file_at agent archive id) made) refl
    where
      there : stat p made.files ≡ some (regular b)
      there = ap (λ fs. stat p fs) (same made refl) ∙ h

      go :
          (r : Result (Tree B))
          → rename io (file_at agent inbox id) (file_at agent archive id) made ≡ r
          → IsKept p (archived p) b (archive_done made r).1
      go (err e) k = inl there
      go (ok t') k =
          renamed-IsKept io (file_at agent inbox id) (file_at agent archive id) p (archived p) made
            t' b there (apart (file_at agent archive id) p refl a)
            (λ c.
              ap (λ (o : FilePath). archived o) ((same_path_iff (file_at agent inbox id) p).0 c))
            k

  archive_first-IsKept :
      (io : MailIo B) (id : String) (p : FilePath) (b : B) (agents : List String) (t : Tree B)
      → p.area ≡ inbox
      → stat p t.files ≡ some (regular b)
      → IsKept p (archived p) b (archive_first io id inbox archive agents t).1
  unfolding archive_first
  archive_first-IsKept io id p b [] t a h = inl h
  archive_first-IsKept io id p b (agent ∷ agents) t a h =
      elim (Bool-cases (present io (file_at agent inbox id) t)) [
        | inl c ↦ rw c (
            archive_renamed-IsKept io agent id p t b (mkdir_all io agent t) a h
              (files-mkdir_all io agent t))
        | inr c ↦ rw c (archive_first-IsKept io id p b agents t a h)
      ]

  guarded-IsKept :
      (p q : FilePath) (b : B) (c : Result (Unit {0})) (t : Tree B)
      (next : Result (Unit {0}) × Tree B)
      → IsKept p q b t
      → IsKept p q b next.1
      → IsKept p q b (guarded c t next).1
  guarded-IsKept p q b (err e) t next h k = h
  guarded-IsKept p q b (ok u) t next h k = k

  -- No Archive, for whatever message and whatever fails in it, loses a regular file of an inbox: it
  -- stays, or it stands with its content under the same name in the archive of the same agent.
  pub archive_message-IsKept :
      (io : MailIo B) (id : String) (t : Tree B) (p : FilePath) (b : B)
      → p.area ≡ inbox
      → stat p t.files ≡ some (regular b)
      → IsKept p (archived p) b (archive_message io id t).1
  unfolding archive_message archive_across_agents
  archive_message-IsKept io id t p b a h =
      guarded-IsKept p (archived p) b (check_archive io id) t
        (archive_first io id inbox archive t.agents t) (inl h)
        (archive_first-IsKept io id p b t.agents t a h)
