-- ===== src/Supervisor/Observing.antt =====
-- internal/adapters/process/waitid_posix.go: the loops that observe a run's leader and its group
-- without reaping. `clock` is the time at each round, `deadline` the end of the bound.
use harnessing.Prelude.{
  ℕ, zero, suc, ◌+◌, ◌*◌, ◌/◌, ◌≤◌, ◌<◌, Bool, true, false, ◌||◌, Option, none, some, ◌≡◌, refl,
  ltb, if◌then◌else◌, arith, Bool-cases, Option-cases, ◌⊎◌, inl, inr,
}
use harnessing.Supervisor.{Membership, absent_confirmed, membership_uncertain, others_live}

-- What waitid answers: an exit status, none yet, that there is no such child, or another error.
pub data Peek : Type 0 where
  leader_exited leader_runs no_child peek_failed : Peek

-- What kill(-pgid, 0) and the signals answer.
pub data KillAnswer : Type 0 where
  delivered no_process not_permitted kill_failed : KillAnswer

abbrev pub or_later : Option Bool → Option Bool → Option Bool
or_later (some b) later = some b
or_later none later = later

-- A loop that asks, ends at its deadline or where its context is done, and sleeps; `none` means that
-- the fuel ran out.
unfoldable pub poll_until : (ℕ → Option Bool) → (ℕ → Bool) → (ℕ → ℕ) → ℕ → ℕ → ℕ → Option Bool
poll_until ask cancelled clock deadline zero i = none
poll_until ask cancelled clock deadline (suc fuel) i =
    let rest = poll_until ask cancelled clock deadline fuel (suc i) in
    or_later (ask i) (if ltb deadline (clock i) || cancelled i then some false else rest)

abbrev pub leader_answer : Peek → Option Bool
leader_answer leader_exited = some true
leader_answer leader_runs = none
leader_answer no_child = some true
leader_answer peek_failed = some false

-- waitLeaderExited
unfoldable pub wait_leader_exited : (ℕ → Peek) → (ℕ → ℕ) → ℕ → ℕ → Option Bool
wait_leader_exited peek clock bound fuel =
    poll_until (λ i. leader_answer (peek i)) (λ i. false) clock (clock 0 + bound) fuel 0

abbrev pub grace_answer : Peek → Option Bool
grace_answer leader_exited = some true
grace_answer _ = none

-- waitLeaderExitedWithinGrace
unfoldable pub wait_leader_exited_within_grace :
    (ℕ → Peek) → (ℕ → Bool) → (ℕ → ℕ) → ℕ → ℕ → Option Bool
wait_leader_exited_within_grace peek done clock grace fuel =
    poll_until (λ i. grace_answer (peek i)) done clock (clock 0 + grace) fuel 0

-- groupExists
abbrev pub group_exists : KillAnswer → Bool
group_exists delivered = true
group_exists not_permitted = true
group_exists _ = false

-- isBenignGroupSignalError
abbrev pub is_benign_group_signal_error : KillAnswer → Bool
is_benign_group_signal_error no_process = true
is_benign_group_signal_error not_permitted = true
is_benign_group_signal_error _ = false

abbrev pub gone_answer : Bool → Option Bool
gone_answer true = none
gone_answer false = some true

-- waitGroupGone
unfoldable pub wait_group_gone : (ℕ → KillAnswer) → (ℕ → ℕ) → ℕ → ℕ → Option Bool
wait_group_gone kill clock bound fuel =
    poll_until (λ i. gone_answer (group_exists (kill i))) (λ i. false) clock (clock 0 + bound) fuel
      0

-- confirmOtherMembersAbsent; a scan answers whether the others are absent, or fails.
abbrev pub second_scan : Option Bool → Membership
second_scan none = membership_uncertain
second_scan (some true) = absent_confirmed
second_scan (some false) = others_live

unfoldable pub confirm_other_members_absent : Option Bool → Option Bool → Membership
confirm_other_members_absent none second = membership_uncertain
confirm_other_members_absent (some false) second = others_live
confirm_other_members_absent (some true) second = second_scan second

abbrev pub poll_interval : ℕ
poll_interval = 10

-- Each round sleeps.
abbrev pub Sleeps : (ℕ → ℕ) → Type 0
Sleeps clock = (i : ℕ) → clock i + poll_interval ≤ clock (suc i)

-- The answer of a loop: it was given in a round, or is `false`.
abbrev pub Found : (ℕ → Option Bool) → Bool → Type 0
Found ask true = (j : ℕ) × (ask j ≡ some true)
Found ask false = Unit

-- Rounds enough for a bound.
abbrev pub rounds : ℕ → ℕ
rounds bound = suc (suc (bound / poll_interval))

module _ (ask : ℕ → Option Bool) (cancelled : ℕ → Bool) (clock : ℕ → ℕ) (deadline : ℕ)
    (sleeps : Sleeps clock) where
  answered :
      (i : ℕ) (b : Bool) (later : Option Bool)
      → ask i ≡ some b
      → (x : Bool) × (or_later (ask i) later ≡ some x) × Found ask x
  answered i true later e = (true, rw e, (i, e))
  answered i false later e = (false, rw e, tt)

  poll_until-answers :
      (fuel i : ℕ)
      → deadline < clock i + fuel * poll_interval
      → (b : Bool) × (poll_until ask cancelled clock deadline (suc fuel) i ≡ some b) × Found ask b
  unfolding poll_until
  poll_until-answers zero i enough = elim (Option-cases (ask i)) [
    | inl silent ↦ (false, ground (arith, silent), tt)
    | inr (b, e) ↦ answered i b _ e
  ]
  poll_until-answers (suc fuel) i enough = elim (Option-cases (ask i)) [
    | inl silent ↦ elim (Bool-cases (ltb deadline (clock i) || cancelled i)) [
      | inl over ↦ (false, rw (silent, over), tt)
      | inr on ↦
          let (b, e, f) = poll_until-answers fuel (suc i) (ground (arith, sleeps i, on)) in
          (b, rw (silent, on) e, f)
    ]
    | inr (b, e) ↦ answered i b _ e
  ]

  pub poll_until-returns :
      (bound : ℕ)
      → deadline ≡ clock 0 + bound
      → (b : Bool) × (poll_until ask cancelled clock deadline (rounds bound) 0 ≡ some b)
        × Found ask b
  poll_until-returns bound e = poll_until-answers (suc (bound / poll_interval)) 0 (omega arith)

-- Which round's answer ends a loop with `true`.
pub record Sightings (peek : ℕ → Peek) (kill : ℕ → KillAnswer) (exited within gone : Bool)
    : Type 0 where
  pub exit_seen : exited ≡ true → (j : ℕ) × ((peek j ≡ leader_exited) ⊎ (peek j ≡ no_child))
  pub exit_within : within ≡ true → (j : ℕ) × (peek j ≡ leader_exited)
  pub group_gone : gone ≡ true → (j : ℕ) × (group_exists (kill j) ≡ false)

leader_answer-true : (a : Peek) → leader_answer a ≡ some true → (a ≡ leader_exited) ⊎ (a ≡ no_child)
leader_answer-true leader_exited h = inl refl
leader_answer-true leader_runs h = cc
leader_answer-true no_child h = inr refl
leader_answer-true peek_failed h = cc

grace_answer-true : (a : Peek) → grace_answer a ≡ some true → a ≡ leader_exited
grace_answer-true leader_exited h = refl
grace_answer-true _ h = cc

gone_answer-true : (b : Bool) → gone_answer b ≡ some true → b ≡ false
gone_answer-true true h = cc
gone_answer-true false h = refl

found-true :
    (ask : ℕ → Option Bool) (b : Bool) → Found ask b → b ≡ true → (j : ℕ) × (ask j ≡ some true)
found-true ask true f h = f
found-true ask false f h = cc

-- If each round sleeps for the poll interval, waitLeaderExited, waitLeaderExitedWithinGrace and
-- waitGroupGone return within the rounds that their bound holds and two more, and what they return
-- as true was observed in some round: an exit of the leader or that there is no such child, an exit
-- of the leader, and a group that does not exist.
pub waits_return :
    (peek : ℕ → Peek) (kill : ℕ → KillAnswer) (done : ℕ → Bool) (clock : ℕ → ℕ) (bound : ℕ)
    → Sleeps clock
    → (exited within gone : Bool) × (wait_leader_exited peek clock bound (rounds bound)
        ≡ some exited)
      × (wait_leader_exited_within_grace peek done clock bound (rounds bound) ≡ some within)
      × (wait_group_gone kill clock bound (rounds bound) ≡ some gone)
      × Sightings peek kill exited within gone
unfolding wait_leader_exited wait_leader_exited_within_grace wait_group_gone
waits_return peek kill done clock bound sleeps =
    let exit_ask = λ (i : ℕ). leader_answer (peek i) in
    let grace_ask = λ (i : ℕ). grace_answer (peek i) in
    let gone_ask = λ (i : ℕ). gone_answer (group_exists (kill i)) in
    let never = λ (i : ℕ). false in
    let (a, ea, fa) = poll_until-returns exit_ask never clock (clock 0 + bound) sleeps bound refl in
    let (b, eb, fb) = poll_until-returns grace_ask done clock (clock 0 + bound) sleeps bound refl in
    let (c, ec, fc) = poll_until-returns gone_ask never clock (clock 0 + bound) sleeps bound refl in
    (
      a,
      b,
      c,
      ea,
      eb,
      ec,
      record {
        exit_seen =
            λ h. let (j, e) = found-true exit_ask a fa h in (j, leader_answer-true (peek j) e);
        exit_within =
            λ h. let (j, e) = found-true grace_ask b fb h in (j, grace_answer-true (peek j) e);
        group_gone = λ h.
            let (j, e) = found-true gone_ask c fc h in
            (j, gone_answer-true (group_exists (kill j)) e);
      },
    )
