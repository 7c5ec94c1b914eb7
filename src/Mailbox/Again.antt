-- ===== src/Mailbox/Again.antt =====
-- What Publish of internal/adapters/mailbox/file.go answers.
use harnessing.Prelude.{
  String, true, false, some, ◌≡◌, refl, ap, ◌∙◌, inl, inr, arith, Bool-cases, eq_iff, if◌then◌else◌,
}
use harnessing.Domain.Errors.{Result, ok, err, fail, conflict}
use harnessing.Mailbox.Tree.{inbox, insert_name, FilePath, Tree}
use harnessing.Mailbox.Wire.{Envelope, Wire, same_envelope_refl, has_no_reference, valid_envelope}
use harnessing.Mailbox.Files.{MailIo, mkdir_all, read_bounded}
use harnessing.Mailbox.Inbox.{
  file_at, publish, publish_over, publish_in, publish_checked, check_publish, identical, versioned,
}
use harnessing.Mailbox.Publish.{Readable}

module _ {B : Type 0} (w : Wire B) where
  publish_checked-valid :
      (io : MailIo B) (message_id : String) (env : Envelope) (t : Tree B) (c : Result (Unit {0}))
      (u : Unit {0})
      → check_publish message_id env ≡ c
      → (publish_checked w io message_id env t c).0 ≡ ok u
      → (valid_envelope (versioned env) ≡ true) × (env.message_id ≡ message_id)
  publish_checked-valid io message_id env t (err e) u h k = absurd (cc)
  publish_checked-valid io message_id env t (ok v) u h k =
      (ground arith, ground (arith, eq_iff env.message_id message_id))

  pub publish-valid :
      (io : MailIo B) (message_id : String) (env : Envelope) (t : Tree B) (u : Unit {0})
      → (publish w io message_id env t).0 ≡ ok u
      → (valid_envelope (versioned env) ≡ true) × (env.message_id ≡ message_id)
  unfolding publish
  publish-valid io message_id env t u =
      publish_checked-valid io message_id env t (check_publish message_id env) u refl

  -- The calls of the operating system that a Publish makes before it writes.
  abbrev pub Reads : MailIo B → FilePath → Type 0
  Reads io p =
      (io.mkdir ≡ false) × (io.look p ≡ false) × (io.stat_file p ≡ false) × (io.read_full p ≡ false)

  read_bounded-Readable :
      (io : MailIo B) (p : FilePath) (b : B) (t : Tree B)
      → Reads io p
      → Readable w p b t
      → read_bounded w io p t ≡ ok (some b)
  unfolding read_bounded
  read_bounded-Readable io p b t (_, l, s, r) (h, small) = ground (arith, l, s, r, h, small)

  publish_over-again :
      (io : MailIo B) (p : FilePath) (env : Envelope) (t : Tree B) (b : B)
      → identical (w.decode_envelope b) env ≡ has_no_reference env
      → publish_over w io p env t (ok (some b))
        ≡ (if has_no_reference env then ok tt else fail conflict, t)
  publish_over-again io p env t b h = elim (Bool-cases (has_no_reference env)) [
    | inl c ↦ ground (arith, h, c)
    | inr c ↦ ground (arith, h, c)
  ]

  -- Where the arguments pass the checks and no call of the operating system fails, a Publish of an
  -- envelope that the readable file has already leaves every file as it was, and it returns no
  -- error if the envelope has neither a task nor a message that it replies to, and Conflict if it
  -- has one.
  pub publish-again :
      (io : MailIo B) (message_id : String) (env : Envelope) (t : Tree B) (b : B)
      → check_publish message_id env ≡ ok tt
      → Reads io (file_at env.recipient_agent_id inbox message_id)
      → Readable w (file_at env.recipient_agent_id inbox message_id) b t
      → w.decode_envelope b ≡ some (versioned env)
      → ((publish w io message_id env t).0
          ≡ (if has_no_reference (versioned env) then ok tt else fail conflict))
        × ((publish w io message_id env t).1.files ≡ t.files)
  unfolding publish
  publish-again io message_id env t b c reads h d =
      let p = file_at env.recipient_agent_id inbox message_id in
      let made : Tree B = record t { agents = insert_name env.recipient_agent_id t.agents } in
      let read : read_bounded w io p made ≡ ok (some b) =
        read_bounded-Readable io p b made reads h in
      let made_it : mkdir_all io env.recipient_agent_id t ≡ ok made = ground (arith, reads.0) in
      let same : identical (w.decode_envelope b) (versioned env)
          ≡ has_no_reference (versioned env) =
        rw d (same_envelope_refl (versioned env)) in
      let answer : publish_checked w io message_id env t (check_publish message_id env)
          ≡ (if has_no_reference (versioned env) then ok tt else fail conflict, made) =
        ap (λ c'. publish_checked w io message_id env t c') c
        ∙ ap (λ r. publish_in w io p (versioned env) t r) made_it
        ∙ ap (λ r. publish_over w io p (versioned env) made r) read
        ∙ publish_over-again io p (versioned env) made b same in
      (ap (λ x. x.0) answer, ap (λ x. x.1.files) answer)
