-- ===== src/Docker/Lookup.antt =====
-- `nameToID` and `ForceStop` of pkg/docker/client.go on the containers that the daemon lists.
use tmctl.Base.{
  String, Bool, true, false, not, Option, none, some, List, [], ◌∷◌, keep, keep_cong, All, ok, ◌==◌,
  String_eq, ◌≡◌, ◌≢◌, ◌⊎◌, inl, inr, refl, sym, ap, ◌∙◌, Bool-cases,
}
use tmctl.Docker.{Daemon, Summary, has_name, find_id, name_to_id, force_stop}

-- The container stands in the list.
abbrev pub Listed : Summary → List Summary → Type 0
Listed c [] = ⊥
Listed c (x ∷ xs) = (c ≡ x) ⊎ Listed c xs

pub All-Listed {ℓ} :
    {P : Summary → Type ℓ} (cs : List Summary) → ((c : Summary) → Listed c cs → P c) → All P cs
All-Listed [] h = tt
All-Listed (c ∷ cs) h = (h c (inl refl), All-Listed cs (λ e m. h e (inr m)))

Listed-cons :
    (c x : Summary) (xs ys : List Summary)
    → (Listed c xs → Listed c ys)
    → Listed c (x ∷ xs)
    → Listed c (x ∷ ys)
Listed-cons c x xs ys f (inl e) = inl e
Listed-cons c x xs ys f (inr m) = inr (f m)

pub Listed-keep :
    (p : Summary → Bool) (c : Summary) (cs : List Summary) → Listed c (keep p cs) → Listed c cs
Listed-keep p c [] m = m
Listed-keep p c (x ∷ xs) m = elim (Bool-cases (p x)) [
  | inl e ↦ Listed-cons c x (keep p xs) xs (Listed-keep p c xs) (rw e at m)
  | inr e ↦ inr (Listed-keep p c xs (rw e at m))
]

-- No identifier is empty, and of two listed containers the one has a name of the other exactly when
-- it has its identifier.
pub record WellListed (cs : List Summary) : Type 0 where
  pub identified : (c : Summary) → Listed c cs → (c.id == "") ≡ false
  pub apart :
      (n : String) (c e : Summary)
      → Listed c cs
      → Listed e cs
      → has_name n c ≡ true
      → has_name n e ≡ (e.id == c.id)

pub keep-WellListed :
    (p : Summary → Bool) (cs : List Summary) → WellListed cs → WellListed (keep p cs)
keep-WellListed p cs w = record {
  identified = λ c m. w.identified c (Listed-keep p c cs m);
  apart = λ n c e m k. w.apart n c e (Listed-keep p c cs m) (Listed-keep p e cs k);
}

-- The look-up gives the identifier of a listed container of that name, or the empty text where
-- there is none.
find_id_cases :
    (n : String) (cs : List Summary)
    → ((c : Summary) × Listed c cs × (has_name n c ≡ true) × (find_id n cs ≡ c.id))
      ⊎ ((find_id n cs ≡ "") × ((c : Summary) → Listed c cs → has_name n c ≡ false))
unfolding find_id
find_id_cases n [] = inr (refl, λ c m. absurd m)
find_id_cases n (c ∷ cs) = elim (Bool-cases (has_name n c)) [
  | inl e ↦ inl (c, inl refl, e, rw e refl)
  | inr e ↦ elim (find_id_cases n cs) [
    | inl (f, m, h, i) ↦ inl (f, inr m, h, rw e i)
    | inr (i, none_named) ↦ inr (rw e i, nowhere e none_named)
  ]
]
  where
    nowhere :
        has_name n c ≡ false
        → ((f : Summary) → Listed f cs → has_name n f ≡ false)
        → (f : Summary) → Listed f (c ∷ cs)
        → has_name n f ≡ false
    nowhere e rest f (inl same) = rw same e
    nowhere e rest f (inr m) = rest f m

-- What is left without the identifier is what is left without the name.
keep-find_id :
    (n : String) (cs : List Summary)
    → WellListed cs
    → keep (λ c. not (c.id == find_id n cs)) cs ≡ keep (λ c. not (has_name n c)) cs
keep-find_id n cs w =
    keep_cong (λ c. not (c.id == find_id n cs)) (λ c. not (has_name n c)) cs
      (All-Listed cs (λ c m. ap not (agrees c m (find_id_cases n cs))))
  where
    agrees :
        (c : Summary)
        → Listed c cs
        → ((f : Summary) × Listed f cs × (has_name n f ≡ true) × (find_id n cs ≡ f.id))
          ⊎ ((find_id n cs ≡ "") × ((f : Summary) → Listed f cs → has_name n f ≡ false))
        → (c.id == find_id n cs) ≡ has_name n c
    agrees c m (inl (f, k, h, i)) = rw i (sym (w.apart n f c k m h))
    agrees c m (inr (i, none_named)) = rw i (w.identified c m ∙ sym (none_named c m))

keep_every :
    (p : Summary → Bool) (cs : List Summary)
    → ((c : Summary) → Listed c cs → p c ≡ true)
    → keep p cs ≡ cs
keep_every p [] h = refl
keep_every p (c ∷ cs) h = rw (h c (inl refl)) (ap (◌∷◌ c) (keep_every p cs (λ e m. h e (inr m))))

-- What the daemon documents of a forced removal: it takes the container with that identifier out of
-- the list, or reports an error and leaves the list alone.
pub record IsLawful (d : Daemon) : Type 0 where
  pub list-remove :
      (s t : d.State) (id : String) (cs : List Summary)
      → d.list s ≡ ok cs
      → d.remove id s ≡ (none, t)
      → d.list t ≡ ok (keep (λ c. not (c.id == id)) cs)
  pub list-remove_error :
      (s t : d.State) (id e : String) → d.remove id s ≡ (some e, t) → d.list t ≡ d.list s

module _ (d : Daemon) (l : IsLawful d) where
  -- A container that is stopped by its name is no longer listed, or the list is as it was.
  pub list-force_stop :
      (n : String) (s : d.State) (cs : List Summary)
      → d.list s ≡ ok cs
      → WellListed cs
      → (d.list (force_stop d n s).1 ≡ ok (keep (λ c. not (has_name n c)) cs))
        ⊎ (((force_stop d n s).0 ≢ ok tt) × (d.list (force_stop d n s).1 ≡ ok cs))
  unfolding force_stop name_to_id
  list-force_stop n s cs e w = by_removal (d.remove (find_id n cs) s) refl
    where
      by_removal :
          (r : Option String × d.State)
          → d.remove (find_id n cs) s ≡ r
          → (d.list (force_stop d n s).1 ≡ ok (keep (λ c. not (has_name n c)) cs))
            ⊎ (((force_stop d n s).0 ≢ ok tt) × (d.list (force_stop d n s).1 ≡ ok cs))
      by_removal (none, t) f = inl (
          rw (e, force_stop, name_to_id)
            (rw f (l.list-remove s t (find_id n cs) cs e f ∙ ap ok (keep-find_id n cs w))))
      by_removal (some z, t) f = inr (
        (λ h. cc (rw f at (rw (e, force_stop, name_to_id) at h))),
        rw (e, force_stop, name_to_id) (rw f (l.list-remove_error s t (find_id n cs) z f ∙ e)),
      )

  -- The same where the daemon removes every container that it lists.
  pub list-force_stop_granted :
      (n : String) (s : d.State) (cs : List Summary)
      → d.list s ≡ ok cs
      → WellListed cs
      → ((c : Summary) → Listed c cs → (d.remove c.id s).0 ≡ none)
      → d.list (force_stop d n s).1 ≡ ok (keep (λ c. not (has_name n c)) cs)
  unfolding force_stop name_to_id
  list-force_stop_granted n s cs e w grants = elim (list-force_stop n s cs e w) [
    | inl h ↦ h
    | inr (refused, h) ↦ elim (find_id_cases n cs) [
      | inl (c, m, named, i) ↦ absurd (
          refused
            (granted (d.remove (find_id n cs) s) refl (ap (λ i. (d.remove i s).0) i ∙ grants c m)))
      | inr (i, none_named) ↦
          h ∙ ap ok (sym (keep_every (λ c. not (has_name n c)) cs (λ c m. ap not (none_named c m))))
    ]
  ]
    where
      granted :
          (r : Option String × d.State)
          → d.remove (find_id n cs) s ≡ r
          → (d.remove (find_id n cs) s).0 ≡ none
          → (force_stop d n s).0 ≡ ok tt
      granted (none, t) f g = rw (e, force_stop, name_to_id) (rw f refl)
      granted (some z, t) f g = absurd (cc (rw f at g))
