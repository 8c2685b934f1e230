-- ===== src/Docker/Logs/Failures.antt =====
-- Which logs make `Start` of pkg/docker/client.go fail.
use tmctl.Base.{
  String, Bool, true, false, List, [], ◌∷◌, All, Result, ok, err, panic, ◌≡◌, ◌↔◌, refl,
}
use tmctl.Docker.{Daemon}
use tmctl.Docker.Logs.{is_failure, check_logs}

module _ (d : Daemon) where
  passed_first :
      (line : String) (lines : List String) (r : Result Bool)
      → is_failure d line ≡ r
      → check_logs d (line ∷ lines) ≡ ok tt
      → (is_failure d line ≡ ok false) × (check_logs d lines ≡ ok tt)
  unfolding check_logs
  passed_first line lines (ok true) e h = absurd (cc (rw (e, check_logs) at h))
  passed_first line lines (ok false) e h = (e, rw (e, check_logs) at h)
  passed_first line lines (err z) e h = absurd (cc (rw (e, check_logs) at h))
  passed_first line lines panic e h = absurd (cc (rw (e, check_logs) at h))

  passed :
      (lines : List String)
      → check_logs d lines ≡ ok tt
      → All (λ l. is_failure d l ≡ ok false) lines
  passed [] h = tt
  passed (line ∷ lines) h =
      let (first, rest) = passed_first line lines (is_failure d line) refl h in
      (first, passed lines rest)

  healthy :
      (lines : List String)
      → All (λ l. is_failure d l ≡ ok false) lines
      → check_logs d lines ≡ ok tt
  unfolding check_logs
  healthy [] h = refl
  healthy (line ∷ lines) (e, h) = rw (e, check_logs) (healthy lines h)

  -- The log passes the check exactly when each of its lines is read without a panic and is no failure.
  pub check_logs_iff :
      (lines : List String)
      → (check_logs d lines ≡ ok tt) ↔ All (λ l. is_failure d l ≡ ok false) lines
  check_logs_iff lines = (passed lines, healthy lines)
