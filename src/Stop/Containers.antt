-- ===== src/Stop/Containers.antt =====
-- Which containers are left after `tmctl stop`.
use tmctl.Base.{
  String, Bool, true, not, ◌||◌, ◌&&◌, List, [], ◌∷◌, ◌++◌, any, keep, keep_ext,
  keep-keep_of_implies, none, ok, ◌<>◌, ◌==◌, if◌then◌else◌, String_eq, ◌≡◌, inl, inr, refl, sym,
  ap, ◌∙◌, arith, keep-keep, keep_all,
}
use tmctl.Broker.Trigger.{broker_kind, trigger_kind}
use tmctl.Docker.{Daemon, Summary, has_name, force_stop}
use tmctl.Docker.Lookup.{
  WellListed, keep-WellListed, IsLawful, list-force_stop, list-force_stop_granted, Listed,
}
use tmctl.Kubernetes.{Object}
use tmctl.Stop.{is_skipped, stop_object, stop_objects, stop}

-- The names of the containers that an object of the manifest stands for.
unfoldable pub container_names : Object → List String
unfolding ◌<>◌
container_names o =
    if o.kind == trigger_kind || o.kind == "Secret"
    then []
    else if o.kind == broker_kind
    then (o.metadata.name <> "-wiretap") ∷ (o.metadata.name <> "-broker") ∷ []
    else o.metadata.name ∷ []

unfoldable pub all_names : List Object → List String
unfolding container_names
all_names [] = []
all_names (o ∷ os) = container_names o ++ all_names os

-- The container has one of the names.
abbrev pub is_one_of : List String → Summary → Bool
is_one_of names c = any (λ n. has_name n c) names

-- Lists that a test does not tell apart are not told apart by a stronger test.
narrow :
    (p q : Summary → Bool)
    → ((c : Summary) → p c ≡ true → q c ≡ true)
    → (xs ys : List Summary) → keep q xs ≡ keep q ys
    → keep p xs ≡ keep p ys
narrow p q h xs ys e =
    sym (keep-keep_of_implies p q h xs) ∙ ap (keep p) e ∙ keep-keep_of_implies p q h ys

module _ (d : Daemon) (l : IsLawful d) where
  abbrev halt : String → d.State → d.State
  halt n s = (force_stop d n s).1

  -- The containers are stopped by their names, one after another.
  halt_all : List String → d.State → d.State
  halt_all [] s = s
  halt_all (n ∷ ns) s = halt_all ns (halt n s)

  halt_all-append :
      (ns ms : List String) (s : d.State) → halt_all (ns ++ ms) s ≡ halt_all ms (halt_all ns s)
  unfolding halt_all
  halt_all-append [] ms s = refl
  halt_all-append (n ∷ ns) ms s = halt_all-append ns ms (halt n s)

  stop_object_lem : (o : Object) (s : d.State) → stop_object d o s ≡ halt_all (container_names o) s
  unfolding stop_object container_names halt_all is_skipped
  stop_object_lem o s = ground arith

  stop_objects_lem :
      (os : List Object) (s : d.State) → stop_objects d os s ≡ halt_all (all_names os) s
  unfolding stop_objects all_names halt_all
  stop_objects_lem [] s = refl
  stop_objects_lem (o ∷ os) s =
      stop_objects_lem os (stop_object d o s)
      ∙ ap (halt_all (all_names os)) (stop_object_lem o s)
      ∙ sym (halt_all-append (container_names o) (all_names os) s)

  -- What stopping by a list of names leaves: the list with some of the named containers gone.
  abbrev Left : List String → List Summary → d.State → Type 0
  Left ns cs s =
      (left : List Summary) × (d.list s ≡ ok left)
      × WellListed left
      × (keep (λ c. not (is_one_of ns c)) left ≡ keep (λ c. not (is_one_of ns c)) cs)

  halt-Left :
      (n : String) (s : d.State) (cs : List Summary)
      → d.list s ≡ ok cs
      → WellListed cs
      → Left (n ∷ []) cs (halt n s)
  halt-Left n s cs e w = elim (list-force_stop d l n s cs e w) [
    | inl h ↦ (
      keep (λ c. not (has_name n c)) cs,
      h,
      keep-WellListed _ cs w,
      keep-keep_of_implies (λ c. not (is_one_of (n ∷ []) c)) (λ c. not (has_name n c))
          (λ c p. ground arith) cs,
    )
    | inr (refused, h) ↦ (cs, h, w, refl)
  ]

  halt_all_lem :
      (ns : List String) (s : d.State) (cs : List Summary)
      → d.list s ≡ ok cs
      → WellListed cs
      → Left ns cs (halt_all ns s)
  unfolding halt_all
  halt_all_lem [] s cs e w = (cs, e, w, refl)
  halt_all_lem (n ∷ ns) s cs e w =
      let (cs₁, e₁, w₁, k₁) = halt-Left n s cs e w in
      let (cs₂, e₂, w₂, k₂) = halt_all_lem ns (halt n s) cs₁ e₁ w₁ in
      (
        cs₂,
        e₂,
        w₂,
        narrow (λ c. not (is_one_of (n ∷ ns) c)) (λ c. not (is_one_of ns c)) (λ c p. ground arith)
              cs₂ cs₁ k₂
            ∙ narrow (λ c. not (is_one_of (n ∷ ns) c)) (λ c. not (is_one_of (n ∷ []) c))
                (λ c p. ground arith) cs₁ cs k₁,
      )

  all_halted :
      ((t : d.State) (es : List Summary) (c : Summary)
        → d.list t ≡ ok es
        → Listed c es
        → (d.remove c.id t).0 ≡ none)
      → (ns : List String) (s : d.State) (cs : List Summary) → d.list s ≡ ok cs
      → WellListed cs
      → d.list (halt_all ns s) ≡ ok (keep (λ c. not (is_one_of ns c)) cs)
  unfolding halt_all
  all_halted grants [] s cs e w = e ∙ ap ok (sym (keep_all (λ c. true) (λ c. refl) cs))
  all_halted grants (n ∷ ns) s cs e w =
      all_halted grants ns (halt n s) (keep (λ c. not (has_name n c)) cs)
        (list-force_stop_granted d l n s cs e w (λ c m. grants s cs c e m)) (keep-WellListed _ cs w)
      ∙ ap ok (
          keep-keep (λ c. not (is_one_of ns c)) (λ c. not (has_name n c)) cs
          ∙ keep_ext (λ c. not (has_name n c) && not (is_one_of ns c))
              (λ c. not (is_one_of (n ∷ ns) c)) (λ c. ground arith) cs)

  -- `tmctl stop` succeeds, and of the containers that the daemon listed before it, those without a
  -- name that stands for an object of the manifest are listed after it as they were, in their order,
  -- whichever removals fail.
  pub stop_keeps :
      (objects : List Object) (s : d.State) (cs : List Summary)
      → d.list s ≡ ok cs
      → WellListed cs
      → ((stop d objects s).0 ≡ ok tt)
        × ((left : List Summary) × (d.list (stop d objects s).1 ≡ ok left)
            × (keep (λ c. not (is_one_of (all_names objects) c)) left
                ≡ keep (λ c. not (is_one_of (all_names objects) c)) cs))
  unfolding stop
  stop_keeps objects s cs e w =
      let (left, h, w', k) = halt_all_lem (all_names objects) s cs e w in
      (refl, (left, ap d.list (stop_objects_lem objects s) ∙ h, k))

  -- Where the daemon grants every removal of a container that it lists, what `tmctl stop` leaves is
  -- exactly the containers that have no name of an object of the manifest: a broker's name with
  -- `-wiretap` and with `-broker`, the name itself for the other kinds, and none for a trigger or a
  -- secret.
  pub stop_lem :
      (objects : List Object) (s : d.State) (cs : List Summary)
      → d.list s ≡ ok cs
      → WellListed cs
      → ((t : d.State) (es : List Summary) (c : Summary)
          → d.list t ≡ ok es
          → Listed c es
          → (d.remove c.id t).0 ≡ none)
      → d.list (stop d objects s).1 ≡ ok (keep (λ c. not (is_one_of (all_names objects) c)) cs)
  unfolding stop
  stop_lem objects s cs e w grants =
      ap d.list (stop_objects_lem objects s) ∙ all_halted grants (all_names objects) s cs e w
