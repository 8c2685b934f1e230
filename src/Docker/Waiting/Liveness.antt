-- ===== src/Docker/Waiting/Liveness.antt =====
-- How the loop of `isRunning` of pkg/docker/client.go ends.
use tmctl.Base.{
  ℕ, zero, suc, ◌<◌, ◌≤◌, String, Bool, true, false, Result, ok, err, panic, ◌≡◌, ◌↔◌, ◌⊎◌, inl,
  inr, refl, arith, Bool-cases,
}
use tmctl.Docker.{Daemon, Inspection}
use tmctl.Docker.Waiting.{is_running}

module _ (d : Daemon) where
  -- The daemon after so many waits.
  unfoldable pub later : ℕ → d.State → d.State
  later zero s = s
  later (suc k) s = later k (d.wait 500 s)

  -- An inspection succeeds, and tells whether the container runs.
  abbrev pub Sees : String → Bool → d.State → Type 0
  Sees id b s = (i : Inspection) × (d.inspect s id ≡ ok i) × (i.running ≡ b)

  -- One round of the loop.
  running_now :
      (rounds : ℕ) (id : String) (s : d.State)
      → Sees id true s
      → is_running d (suc rounds) id s ≡ (ok tt, d.wait 500 s)
  unfolding is_running
  running_now rounds id s (i, e, r) = rw (e, is_running) (rw r refl)

  not_running_now :
      (rounds : ℕ) (id : String) (s : d.State)
      → Sees id false s
      → is_running d (suc rounds) id s ≡ is_running d rounds id (d.wait 500 s)
  unfolding is_running
  not_running_now rounds id s (i, e, r) = rw (e, is_running) (rw r refl)

  -- What a round that does not end in an error has seen.
  round_cases :
      (rounds : ℕ) (id : String) (s : d.State) (r : Result Inspection)
      → d.inspect s id ≡ r
      → (is_running d (suc rounds) id s).0 ≡ ok tt
      → Sees id true s ⊎ Sees id false s
  unfolding is_running
  round_cases rounds id s (ok i) e h = elim (Bool-cases (i.running)) [
    | inl b ↦ inl (i, e, b)
    | inr b ↦ inr (i, e, b)
  ]
  round_cases rounds id s (err z) e h = absurd (cc (rw (e, is_running) at h))
  round_cases rounds id s panic e h = absurd (cc (rw (e, is_running) at h))

  no_rounds :
      (id : String) (s : d.State) (r : Result Inspection)
      → d.inspect s id ≡ r
      → (is_running d zero id s).0 ≡ ok tt
      → ⊥
  unfolding is_running
  no_rounds id s (ok i) e h = cc (rw (e, is_running) at h)
  no_rounds id s (err z) e h = cc (rw (e, is_running) at h)
  no_rounds id s panic e h = cc (rw (e, is_running) at h)

  -- The round in which the container is seen running for the first time.
  abbrev pub FirstSeen : ℕ → String → d.State → Type 0
  FirstSeen k id s = ((j : ℕ) → j < k → Sees id false (later j s)) × Sees id true (later k s)

  FirstSeen-ok :
      (rounds k : ℕ) (id : String) (s : d.State)
      → k < rounds
      → FirstSeen k id s
      → is_running d rounds id s ≡ (ok tt, later (suc k) s)
  unfolding later
  FirstSeen-ok zero k id s lt h = absurd (omega arith)
  FirstSeen-ok (suc rounds) zero id s lt (before, now) = running_now rounds id s now
  FirstSeen-ok (suc rounds) (suc k) id s lt (before, now) =
      rw (not_running_now rounds id s (before zero (omega arith))) (
        FirstSeen-ok rounds k id (d.wait 500 s) (omega arith)
          (λ j l. before (suc j) (omega arith), now))

  ok-FirstSeen :
      (rounds : ℕ) (id : String) (s : d.State)
      → (is_running d rounds id s).0 ≡ ok tt
      → (k : ℕ) × (k < rounds) × FirstSeen k id s
  unfolding later
  ok-FirstSeen zero id s h = absurd (no_rounds id s (d.inspect s id) refl h)
  ok-FirstSeen (suc rounds) id s h = elim (round_cases rounds id s (d.inspect s id) refl h) [
    | inl now ↦ (zero, omega arith, ((λ j l. absurd (omega arith)), now))
    | inr not_yet ↦
        shifted not_yet
          (ok-FirstSeen rounds id (d.wait 500 s) (rw (not_running_now rounds id s not_yet) at h))
  ]
    where
      before_suc :
          (k : ℕ)
          → Sees id false s
          → ((j : ℕ) → j < k → Sees id false (later j (d.wait 500 s)))
          → (j : ℕ) → j < suc k
          → Sees id false (later j s)
      before_suc k not_yet before zero l = not_yet
      before_suc k not_yet before (suc j) l = before j (omega arith)

      shifted :
          Sees id false s
          → (k : ℕ) × (k < rounds) × FirstSeen k id (d.wait 500 s)
          → (k : ℕ) × (k < suc rounds) × FirstSeen k id s
      shifted not_yet (k, lt, (before, now)) =
          (suc k, omega arith, (before_suc k not_yet before, now))

  -- The wait for a container succeeds exactly when some round before the timeout sees it running,
  -- every inspection of the rounds before that one having succeeded with the container not running.
  pub is_running_iff :
      (rounds : ℕ) (id : String) (s : d.State)
      → ((is_running d rounds id s).0 ≡ ok tt) ↔ ((k : ℕ) × (k < rounds) × FirstSeen k id s)
  is_running_iff rounds id s =
      (ok-FirstSeen rounds id s, λ (k, lt, first). ap_first (FirstSeen-ok rounds k id s lt first))
    where
      ap_first : {r : Result (Unit {0}) × d.State} {t : d.State} → r ≡ (ok tt, t) → r.0 ≡ ok tt
      ap_first e = rw e refl

  one_more :
      (rounds : ℕ) (s : d.State) (r : Result (Unit {0}) × d.State)
      → (k : ℕ) × (k ≤ rounds) × (r.1 ≡ later k (d.wait 500 s))
      → (k : ℕ) × (k ≤ suc rounds) × (r.1 ≡ later k s)
  unfolding later
  one_more rounds s r (k, le, e) = (suc k, omega arith, e)

  -- The wait for a container ends after at most as many waits of half a second as the ticker has
  -- rounds before the timeout, whatever the inspections give, and does nothing else to the daemon.
  pub is_running_ends :
      (rounds : ℕ) (id : String) (s : d.State)
      → (k : ℕ) × (k ≤ rounds) × ((is_running d rounds id s).1 ≡ later k s)
  unfolding is_running later
  is_running_ends zero id s = (zero, omega arith, unmoved (d.inspect s id) refl)
    where
      unmoved : (r : Result Inspection) → d.inspect s id ≡ r → (is_running d zero id s).1 ≡ s
      unmoved (ok i) e = rw (e, is_running) refl
      unmoved (err z) e = rw (e, is_running) refl
      unmoved panic e = rw (e, is_running) refl
  is_running_ends (suc rounds) id s =
      by_inspection (d.inspect s id) refl (is_running_ends rounds id (d.wait 500 s))
    where
      by_inspection :
          (r : Result Inspection)
          → d.inspect s id ≡ r
          → (k : ℕ) × (k ≤ rounds)
            × ((is_running d rounds id (d.wait 500 s)).1 ≡ later k (d.wait 500 s))
          → (k : ℕ) × (k ≤ suc rounds) × ((is_running d (suc rounds) id s).1 ≡ later k s)
      by_inspection (err z) e ih = (zero, omega arith, rw (e, is_running) refl)
      by_inspection panic e ih = (zero, omega arith, rw (e, is_running) refl)
      by_inspection (ok i) e ih = elim (Bool-cases (i.running)) [
        | inl b ↦ (suc zero, omega arith, rw (running_now rounds id s (i, e, b)) refl)
        | inr b ↦
            rw (not_running_now rounds id s (i, e, b))
              (one_more rounds s (is_running d rounds id (d.wait 500 s)) ih)
      ]
