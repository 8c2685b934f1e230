-- ===== src/Docker/Logs.antt =====
-- pkg/docker/client.go: `readLogs`, `isError`, and the loop of `Start` over the first lines of a log.
pub mod Failures
use tmctl.Base.{
  ℕ, zero, suc, String, Bool, true, false, ◌||◌, Option, none, some, List, [], ◌∷◌, Result, ok, err,
  panic, ◌>>=◌, ◌<>◌, ◌==◌, if◌then◌else◌, String_eq, ltb, size, to_lower, has_prefix,
}
use tmctl.Adapter.{one_of}
use tmctl.Docker.{Daemon}
use tmctl.Kubernetes.Value.{Value, Fields, end, field, text}

-- `b[n:]`
unfoldable pub slice_from : ℕ → String → String
slice_from zero s = s
slice_from (suc n) String.[] = ""
slice_from (suc n) (String.◌∷◌ c s) = slice_from n s

-- The daemon puts a header of eight bytes before each line.
unfoldable pub read_logs : List String → List String
unfolding slice_from size
read_logs [] = []
read_logs (line ∷ lines) =
    let output = read_logs lines in if ltb 8 (size line) then slice_from 8 line ∷ output else output

-- `strings.Contains(s, part)`
unfoldable pub contains : String → String → Bool
unfolding has_prefix
contains String.[] part = has_prefix "" part
contains (String.◌∷◌ c s) part = has_prefix (String.◌∷◌ c s) part || contains s part

-- A level that is no text fails the type assertion.
unfoldable pub is_error_level : Value → Result Bool
unfolding to_lower
is_error_level (text level) =
    ok (one_of ("error" ∷ "fatal" ∷ "alert" ∷ "panic" ∷ []) (to_lower level))
is_error_level v = panic

abbrev pub or_later : Result Bool → Result Bool → Result Bool
or_later (ok true) rest = ok true
or_later (ok false) rest = rest
or_later (err e) rest = err e
or_later panic rest = panic

unfoldable pub is_error : Fields → Result Bool
unfolding is_error_level
is_error end = ok false
is_error (field k v fs) =
    let rest = is_error fs in
    if k == "level" || k == "severity" then or_later (is_error_level v) rest else rest

module _ (d : Daemon) where
  -- Whether a line makes `Start` fail. A line that is no JSON may be Go's panic dump.
  unfoldable pub is_failure : String → Result Bool
  unfolding contains
  is_failure line = elim (d.unmarshal line) [
    | none ↦ ok (contains line "panic: ")
    | some entry ↦ is_error entry
  ]

  unfoldable pub check_logs : List String → Result (Unit {0})
  unfolding ◌<>◌
  check_logs [] = ok tt
  check_logs (line ∷ lines) =
      let rest = check_logs lines in
      is_failure line >>= λ failed. if failed then err ("container log: " <> line) else rest
