-- ===== src/Mailbox/Publish.antt =====
-- What Publish of internal/adapters/mailbox/file.go does to the files below the root.
use harnessing.Prelude.{
  String, true, false, Option, none, some, ◌≡◌, ◌≢◌, refl, sym, ap, ◌∙◌, subst, ◌⊎◌, inl, inr, ◌≤◌,
  arith, Bool-cases,
}
use harnessing.Domain.Errors.{Result, ok, err}
use harnessing.Mailbox.Paths.{is_json}
use harnessing.Mailbox.Tree.{
  inbox, FilePath, regular, Tree, stat, put, remove, same_path, same_path_iff, stat-put,
  stat-remove,
}
use harnessing.Mailbox.Wire.{Envelope, Wire, IsWire, same_envelope-eq}
use harnessing.Mailbox.Files.{
  MailIo, max_envelope_bytes, mkdir_all, write_atomic, read_bounded, temp_path,
}
use harnessing.Mailbox.Inbox.{
  file_at, publish, publish_over, publish_in, publish_checked, check_publish, identical, versioned,
}

module _ {B : Type 0} where
  -- Whatever fails, a file other than the one written and the temporary one stays as it was.
  write_atomic-others :
      (io : MailIo B) (p q : FilePath) (b : B) (t : Tree B)
      → same_path p q ≡ false
      → same_path (temp_path io p) q ≡ false
      → stat q (write_atomic io p b t).1.files ≡ stat q t.files
  unfolding write_atomic
  write_atomic-others io p q b t hp ht =
      let tmp = temp_path io p in
      ground (
        arith,
        hp,
        ht,
        stat-put tmp q (regular io.torn) t.files,
        stat-put tmp q (regular b) t.files,
        stat-remove tmp q (put tmp (regular io.torn) t.files),
        stat-remove tmp q (put tmp (regular b) t.files),
        stat-put p q (regular b) (remove tmp (put tmp (regular b) t.files)),
      )

  write_atomic-ok :
      (io : MailIo B) (p : FilePath) (b : B) (t : Tree B) (u : Unit)
      → (write_atomic io p b t).0 ≡ ok u
      → stat p (write_atomic io p b t).1.files ≡ some (regular b)
  unfolding write_atomic
  write_atomic-ok io p b t u h =
      let tmp = temp_path io p in
      ground (
        arith,
        (same_path_iff p p).1 refl,
        stat-put p p (regular b) (remove tmp (put tmp (regular b) t.files)),
      )

  apart_temp :
      (io : MailIo B) (p q : FilePath)
      → is_json io.temp_name ≡ false
      → is_json q.name ≡ true
      → same_path (temp_path io p) q ≡ false
  apart_temp io p q hn hq = elim (Bool-cases (same_path (temp_path io p) q)) [
    | inl c ↦
        let e : is_json io.temp_name ≡ is_json q.name =
          ap (λ (o : FilePath). is_json o.name) ((same_path_iff (temp_path io p) q).0 c) in
        absurd (cc)
    | inr c ↦ c
  ]

  pub files-mkdir_all :
      (io : MailIo B) (agent : String) (t made : Tree B)
      → mkdir_all io agent t ≡ ok made
      → made.files ≡ t.files
  files-mkdir_all io agent t made h = ground arith

module _ {B : Type 0} (w : Wire B) where
  -- A file that readers can read whole.
  abbrev pub Readable : FilePath → B → Tree B → Type 0
  Readable q b t = (stat q t.files ≡ some (regular b)) × (w.size b ≤ max_envelope_bytes)

  read_bounded-Readable :
      (io : MailIo B) (p : FilePath) (b : B) (t : Tree B)
      → Readable p b t
      → read_bounded w io p t ≢ ok none
  unfolding read_bounded
  read_bounded-Readable io p b t (h, small) e = ground (arith, h, small, e)

  publish_over-kept :
      (io : MailIo B) (p : FilePath) (env : Envelope) (t : Tree B) (r : Result (Option B))
      → r ≢ ok none
      → (publish_over w io p env t r).1 ≡ t
  publish_over-kept io p env t (err e) h = refl
  publish_over-kept io p env t (ok (some existing)) h = ground arith
  publish_over-kept io p env t (ok none) h = absurd (h refl)

  publish_over-others :
      (io : MailIo B) (p q : FilePath) (env : Envelope) (t : Tree B) (r : Result (Option B))
      → same_path p q ≡ false
      → same_path (temp_path io p) q ≡ false
      → stat q (publish_over w io p env t r).1.files ≡ stat q t.files
  publish_over-others io p q env t (err e) hp ht = refl
  publish_over-others io p q env t (ok (some existing)) hp ht = ground arith
  publish_over-others io p q env t (ok none) hp ht =
      ground (arith, write_atomic-others io p q (w.encode_envelope env) t hp ht)

  publish_over-Readable :
      (io : MailIo B) (p q : FilePath) (env : Envelope) (b : B) (t : Tree B)
      → is_json io.temp_name ≡ false
      → is_json q.name ≡ true
      → Readable q b t
      → Readable q b (publish_over w io p env t (read_bounded w io p t)).1
  publish_over-Readable io p q env b t hn hq h = elim (Bool-cases (same_path p q)) [
    | inl c ↦
        let e : q ≡ p = (λ (f : p ≡ q). sym f) ((same_path_iff p q).0 c) in
        let there : Readable p b t = subst (λ o. Readable o b t) e h in
        rw
          (publish_over-kept io p env t (read_bounded w io p t)
            (read_bounded-Readable io p b t there))
          h
    | inr c ↦ (
      publish_over-others io p q env t (read_bounded w io p t) c (apart_temp io p q hn hq) ∙ h.0,
      h.1,
    )
  ]

  publish_in-Readable :
      (io : MailIo B) (p q : FilePath) (env : Envelope) (b : B) (t : Tree B) (r : Result (Tree B))
      → is_json io.temp_name ≡ false
      → is_json q.name ≡ true
      → Readable q b t
      → ((made : Tree B) → r ≡ ok made → made.files ≡ t.files)
      → Readable q b (publish_in w io p env t r).1
  publish_in-Readable io p q env b t (err e) hn hq h same = h
  publish_in-Readable io p q env b t (ok made) hn hq h same =
      publish_over-Readable io p q env b made hn hq (ap (stat q) (same made refl) ∙ h.0, h.1)

  publish_checked-Readable :
      (io : MailIo B) (message_id : String) (env : Envelope) (t : Tree B) (q : FilePath) (b : B)
      (c : Result (Unit {0}))
      → is_json io.temp_name ≡ false
      → is_json q.name ≡ true
      → Readable q b t
      → Readable q b (publish_checked w io message_id env t c).1
  publish_checked-Readable io message_id env t q b (err e) hn hq h = h
  publish_checked-Readable io message_id env t q b (ok u) hn hq h =
      publish_in-Readable io (file_at env.recipient_agent_id inbox message_id) q (versioned env) b t
        (mkdir_all io env.recipient_agent_id t) hn hq h
        (files-mkdir_all io env.recipient_agent_id t)

  -- A regular file within the bound that is named like an envelope stands with the same content
  -- after any Publish, of whatever message and whatever fails in it, where the temporary file is
  -- not named like an envelope.
  pub publish-Readable :
      (io : MailIo B) (message_id : String) (env : Envelope) (t : Tree B) (q : FilePath) (b : B)
      → is_json io.temp_name ≡ false
      → is_json q.name ≡ true
      → Readable q b t
      → Readable q b (publish w io message_id env t).1
  unfolding publish
  publish-Readable io message_id env t q b =
      publish_checked-Readable io message_id env t q b (check_publish message_id env)

  -- The file holds what json.Unmarshal reads back as this envelope.
  abbrev pub Delivered : FilePath → Envelope → Tree B → Type 0
  Delivered p env t =
      (b : B) × (stat p t.files ≡ some (regular b))
      × (w.decode_envelope b ≡ some env)
      × ((w.size b ≤ max_envelope_bytes) ⊎ (b ≡ w.encode_envelope env))

  pub read_bounded-some :
      (io : MailIo B) (p : FilePath) (b : B) (t : Tree B)
      → read_bounded w io p t ≡ ok (some b)
      → Readable p b t
  unfolding read_bounded
  read_bounded-some io p b t e = (ground arith, ground arith)

  identical-eq : (o : Option Envelope) (env : Envelope) → identical o env ≡ true → o ≡ some env
  identical-eq none env h = cc
  identical-eq (some prior) env h = ap (λ e. some e) (same_envelope-eq prior env h)

  publish_over-Delivered :
      (io : MailIo B) (p : FilePath) (env : Envelope) (t : Tree B) (r : Result (Option B))
      (u : Unit {0})
      → IsWire w
      → read_bounded w io p t ≡ r
      → (publish_over w io p env t r).0 ≡ ok u
      → Delivered p env (publish_over w io p env t r).1
  publish_over-Delivered io p env t (err e) u iw h k = absurd (cc)
  publish_over-Delivered io p env t (ok (some existing)) u iw h k =
      elim (Bool-cases (identical (w.decode_envelope existing) env)) [
        | inl c ↦
            let there : Readable p existing t = read_bounded-some io p existing t h in
            rw c (existing, there.0, identical-eq (w.decode_envelope existing) env c, inl there.1)
        | inr c ↦ absurd (ground arith)
      ]
  publish_over-Delivered io p env t (ok none) u iw h k = elim (Bool-cases io.marshal) [
    | inl c ↦ absurd (ground arith)
    | inr c ↦ (
      w.encode_envelope env,
      ground (arith, write_atomic-ok io p (w.encode_envelope env) t u),
      iw.envelope_back env,
      inr refl,
    )
  ]

  publish_in-Delivered :
      (io : MailIo B) (p : FilePath) (env : Envelope) (t : Tree B) (r : Result (Tree B))
      (u : Unit {0})
      → IsWire w
      → (publish_in w io p env t r).0 ≡ ok u
      → Delivered p env (publish_in w io p env t r).1
  publish_in-Delivered io p env t (err e) u iw k = absurd (cc)
  publish_in-Delivered io p env t (ok made) u iw k =
      publish_over-Delivered io p env made (read_bounded w io p made) u iw refl k

  publish_checked-Delivered :
      (io : MailIo B) (message_id : String) (env : Envelope) (t : Tree B) (c : Result (Unit {0}))
      (u : Unit {0})
      → IsWire w
      → (publish_checked w io message_id env t c).0 ≡ ok u
      → Delivered
          (file_at env.recipient_agent_id inbox message_id)
          (versioned env)
          (publish_checked w io message_id env t c).1
  publish_checked-Delivered io message_id env t (err e) u iw k = absurd (cc)
  publish_checked-Delivered io message_id env t (ok v) u iw k =
      publish_in-Delivered io (file_at env.recipient_agent_id inbox message_id) (versioned env) t
        (mkdir_all io env.recipient_agent_id t) u iw k

  -- After a Publish that returns no error, the file named by the message in the recipient's inbox
  -- has a content that decodes to the envelope, with its version set, and that is within the bound
  -- or is the envelope's encoding, if encoding/json reads back what it wrote.
  pub publish-Delivered :
      (io : MailIo B) (message_id : String) (env : Envelope) (t : Tree B) (u : Unit {0})
      → IsWire w
      → (publish w io message_id env t).0 ≡ ok u
      → Delivered
          (file_at env.recipient_agent_id inbox message_id)
          (versioned env)
          (publish w io message_id env t).1
  unfolding publish
  publish-Delivered io message_id env t =
      publish_checked-Delivered io message_id env t (check_publish message_id env)
