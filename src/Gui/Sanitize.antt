-- ===== src/Gui/Sanitize.antt =====
-- `sanitize` of pkg/gui/transformation/process.go: the paths it keeps.
use tmctl.Base.{
  String, Bool, true, false, ◌||◌, ◌&&◌, not, any, any-append, append-nil, append_assoc, List, [],
  ◌∷◌, ◌++◌, ◌==◌, if◌then◌else◌, String_eq, ◌≡◌, refl, sym, ◌∙◌, arith, eq_iff, Bool-cases, inl,
  inr,
}
use tmctl.Gui.Process.{
  TransformPath, Transform, index, set_path, accepts, store_path, sanitize_paths, sanitize,
}

abbrev pub has_key : String → List TransformPath → Bool
has_key key = any (λ p. p.key == key)

abbrev pub distinct : List TransformPath → Bool
distinct [] = true
distinct (p ∷ ps) = not (has_key p.key ps) && distinct ps

abbrev pub all_accepted : String → List TransformPath → Bool
all_accepted operation [] = true
all_accepted operation (p ∷ ps) = accepts operation p && all_accepted operation ps

-- `store_path` by recursion.
abbrev put_path : TransformPath → List TransformPath → List TransformPath
put_path p [] = p ∷ []
put_path p (q ∷ qs) = let rest = put_path p qs in if q.key == p.key then p ∷ qs else q ∷ rest

store_path-put : (p : TransformPath) (ps : List TransformPath) → store_path p ps ≡ put_path p ps
unfolding store_path index set_path
store_path-put p [] = refl
store_path-put p (q ∷ qs) = ground (arith, store_path-put p qs)

has_key-put :
    (p : TransformPath) (ps : List TransformPath) (key : String)
    → has_key key (put_path p ps) ≡ (p.key == key || has_key key ps)
has_key-put p [] key = refl
has_key-put p (q ∷ qs) key = ground (arith, has_key-put p qs key, eq_iff q.key p.key)

distinct-put :
    (p : TransformPath) (ps : List TransformPath)
    → distinct ps ≡ true
    → distinct (put_path p ps) ≡ true
distinct-put p [] h = refl
distinct-put p (q ∷ qs) h =
    ground
      (arith, distinct-put p qs, has_key-put p qs q.key, eq_iff q.key p.key, eq_iff p.key q.key)

accepted-put :
    (operation : String) (p : TransformPath) (ps : List TransformPath)
    → accepts operation p ≡ true
    → all_accepted operation ps ≡ true
    → all_accepted operation (put_path p ps) ≡ true
accepted-put operation p [] a h = ground arith
accepted-put operation p (q ∷ qs) a h = ground (arith, accepted-put operation p qs a)

put_fresh :
    (p : TransformPath) (ps : List TransformPath)
    → has_key p.key ps ≡ false
    → put_path p ps ≡ ps ++ p ∷ []
put_fresh p [] h = refl
put_fresh p (q ∷ qs) h = ground (arith, put_fresh p qs)

sanitize_paths_lem :
    (operation : String) (ps result : List TransformPath)
    → distinct result ≡ true
    → all_accepted operation result ≡ true
    → (distinct (sanitize_paths operation ps result) ≡ true)
      × (all_accepted operation (sanitize_paths operation ps result) ≡ true)
unfolding sanitize_paths
sanitize_paths_lem operation [] result d a = (d, a)
sanitize_paths_lem operation (p ∷ ps) result d a = elim (Bool-cases (accepts operation p)) [
  | inl e ↦ rw e (
      rw (store_path-put p result) (
        sanitize_paths_lem operation ps (put_path p result) (distinct-put p result d)
          (accepted-put operation p result e a)))
  | inr e ↦ rw e (sanitize_paths_lem operation ps result d a)
]

distinct-append :
    (ps : List TransformPath) (q : TransformPath) (qs : List TransformPath)
    → distinct (ps ++ q ∷ qs) ≡ true
    → has_key q.key ps ≡ false
distinct-append [] q qs h = refl
distinct-append (p ∷ ps) q qs h = ground (
  arith,
  distinct-append ps q qs,
  any-append (λ r. r.key == p.key) ps (q ∷ qs),
  eq_iff p.key q.key,
  eq_iff q.key p.key,
)

-- Paths that are all accepted, with different keys, are appended as they are.
sanitize_paths_fixed :
    (operation : String) (ps result : List TransformPath)
    → all_accepted operation ps ≡ true
    → distinct (result ++ ps) ≡ true
    → sanitize_paths operation ps result ≡ result ++ ps
unfolding sanitize_paths
sanitize_paths_fixed operation [] result a d = sym (append-nil result)
sanitize_paths_fixed operation (p ∷ ps) result a d =
    let e : accepts operation p ≡ true = ground arith in
    let step : store_path p result ≡ result ++ p ∷ [] =
      store_path-put p result ∙ put_fresh p result (distinct-append result p ps d) in
    rw e (
      rw step (
        sanitize_paths_fixed operation ps (result ++ p ∷ []) (ground arith)
          (rw (append_assoc result (p ∷ []) ps) d)
        ∙ append_assoc result (p ∷ []) ps))

-- `sanitize` keeps paths with different keys only, all of them accepted by the operation, and
-- changes nothing more when it runs again.
pub sanitize_twice :
    (t : Transform)
    → (distinct (sanitize t).paths ≡ true)
      × (all_accepted t.operation (sanitize t).paths ≡ true)
      × (sanitize (sanitize t) ≡ sanitize t)
unfolding sanitize
sanitize_twice t =
    let (d, a) = sanitize_paths_lem t.operation t.paths [] refl refl in
    (
      d,
      a,
      λ i. record {
        operation = t.operation;
        paths = sanitize_paths_fixed t.operation (sanitize_paths t.operation t.paths []) [] a d i;
      },
    )
