-- ===== src/Gui/Rearrange/Twice.antt =====
-- `rearrange` of pkg/gui/transformation/process.go, and what it does when it runs again.
use tmctl.Base.{
  String, true, false, ◌&&◌, List, [], ◌∷◌, ◌++◌, ◌==◌, if◌then◌else◌, String_eq, ◌≡◌, refl, sym,
  ap, ◌∙◌, arith, eq_iff, Bool-cases, inl, inr, append-nil, All,
}
use tmctl.Gui.Process.{
  Transform, sanitize_paths, accepts, store_path, index, wipe, has_paths, sanitize, rearrange,
}
use tmctl.Gui.Sanitize.{sanitize_twice}
use tmctl.Gui.Rearrange.{of_operation, wipes, deletions, arranged, rearrange-arranged}

-- What stands in the list, each transformation of an operation and already sanitised.
abbrev Settled : String → List Transform → Type 0
Settled operation = All (λ t. (t.operation ≡ operation) × (has_paths t ≡ true) × (sanitize t ≡ t))

of_operation-append :
    (operation : String) (xs ys : List Transform)
    → of_operation operation (xs ++ ys) ≡ of_operation operation xs ++ of_operation operation ys
of_operation-append operation [] ys = refl
of_operation-append operation (x ∷ xs) ys = ground (arith, of_operation-append operation xs ys)

of_operation-Settled :
    (operation : String) (ts : List Transform) → Settled operation (of_operation operation ts)
unfolding sanitize
of_operation-Settled operation [] = tt
of_operation-Settled operation (t ∷ ts) =
    elim (Bool-cases (has_paths (sanitize t) && t.operation == operation)) [
      | inl e ↦ rw e (
        ((eq_iff t.operation operation).0 (ground arith), ground arith, (sanitize_twice t).2),
        of_operation-Settled operation ts,
      )
      | inr e ↦ rw e (of_operation-Settled operation ts)
    ]

of_operation_same :
    (operation : String) (ts : List Transform)
    → Settled operation ts
    → of_operation operation ts ≡ ts
of_operation_same operation [] h = refl
of_operation_same operation (t ∷ ts) (h, r) =
    let e : (t.operation == operation) ≡ true = (eq_iff t.operation operation).1 h.0 in
    rw h.2 (rw h.1 (rw e (ap (λ r. t ∷ r) (of_operation_same operation ts r))))

of_operation_other :
    (a b : String) (ts : List Transform) → (a == b) ≡ false → Settled a ts → of_operation b ts ≡ []
of_operation_other a b [] h s = refl
of_operation_other a b (t ∷ ts) h (s, r) =
    let e : (t.operation == b) ≡ false =
      ground (arith, eq_iff t.operation b, eq_iff t.operation a, eq_iff a b, s) in
    ground (arith, of_operation_other a b ts h r)

Settled-wipe : Settled "delete" (wipe ∷ [])
unfolding sanitize sanitize_paths accepts store_path index
Settled-wipe = ((refl, refl, refl), tt)

Settled-deletions : (ts : List Transform) → Settled "delete" (deletions ts)
Settled-deletions ts = elim (Bool-cases (wipes (of_operation "delete" ts))) [
  | inl e ↦ rw e Settled-wipe
  | inr e ↦ rw e (of_operation-Settled "delete" ts)
]

-- Five lists of different operations, in the order of `rearrange`.
of_operation_in_order :
    (operation : String) (parses stores deletes adds shifts : List Transform)
    → of_operation operation ((parses ++ stores) ++ deletes ++ (adds ++ shifts))
      ≡ (of_operation operation parses ++ of_operation operation stores)
        ++ of_operation operation deletes
        ++ (of_operation operation adds ++ of_operation operation shifts)
of_operation_in_order operation parses stores deletes adds shifts =
    of_operation-append operation ((parses ++ stores) ++ deletes) (adds ++ shifts)
    ∙ ap (λ r. r ++ of_operation operation (adds ++ shifts))
        (of_operation-append operation (parses ++ stores) deletes)
    ∙ ap (λ r. (r ++ of_operation operation deletes) ++ of_operation operation (adds ++ shifts))
        (of_operation-append operation parses stores)
    ∙ ap
        (λ r.
          ((of_operation operation parses ++ of_operation operation stores)
            ++ of_operation operation deletes)
          ++ r)
        (of_operation-append operation adds shifts)

of_operation-arranged :
    (operation : String) (ts : List Transform)
    → of_operation operation (arranged ts)
      ≡ (of_operation operation (of_operation "parse" ts)
          ++ of_operation operation (of_operation "store" ts))
        ++ of_operation operation (deletions ts)
        ++ (of_operation operation (of_operation "add" ts)
            ++ of_operation operation (of_operation "shift" ts))
of_operation-arranged operation ts =
    of_operation_in_order operation (of_operation "parse" ts) (of_operation "store" ts)
      (deletions ts) (of_operation "add" ts) (of_operation "shift" ts)

same_operation :
    (operation : String) (ts : List Transform)
    → of_operation operation (of_operation operation ts) ≡ of_operation operation ts
same_operation operation ts =
    of_operation_same operation (of_operation operation ts) (of_operation-Settled operation ts)

other_operation :
    (a b : String) (ts : List Transform)
    → (a == b) ≡ false
    → of_operation b (of_operation a ts) ≡ []
other_operation a b ts h = of_operation_other a b (of_operation a ts) h (of_operation-Settled a ts)

same_deletions : (ts : List Transform) → of_operation "delete" (deletions ts) ≡ deletions ts
same_deletions ts = of_operation_same "delete" (deletions ts) (Settled-deletions ts)

other_deletions :
    (b : String) (ts : List Transform)
    → ("delete" == b) ≡ false
    → of_operation b (deletions ts) ≡ []
other_deletions b ts h = of_operation_other "delete" b (deletions ts) h (Settled-deletions ts)

arranged-parses :
    (ts : List Transform) → of_operation "parse" (arranged ts) ≡ of_operation "parse" ts
arranged-parses ts =
    of_operation-arranged "parse" ts
    ∙ rw (same_operation "parse" ts) (
        rw (other_operation "store" "parse" ts refl) (
          rw (other_deletions "parse" ts refl) (
            rw (other_operation "add" "parse" ts refl) (
              rw (other_operation "shift" "parse" ts refl)
                (append-nil _ ∙ append-nil _ ∙ append-nil _)))))

arranged-stores :
    (ts : List Transform) → of_operation "store" (arranged ts) ≡ of_operation "store" ts
arranged-stores ts =
    of_operation-arranged "store" ts
    ∙ rw (other_operation "parse" "store" ts refl) (
        rw (same_operation "store" ts) (
          rw (other_deletions "store" ts refl) (
            rw (other_operation "add" "store" ts refl)
              (rw (other_operation "shift" "store" ts refl) (append-nil _ ∙ append-nil _)))))

arranged-deletes : (ts : List Transform) → of_operation "delete" (arranged ts) ≡ deletions ts
arranged-deletes ts =
    of_operation-arranged "delete" ts
    ∙ rw (other_operation "parse" "delete" ts refl) (
        rw (other_operation "store" "delete" ts refl) (
          rw (same_deletions ts) (
            rw (other_operation "add" "delete" ts refl)
              (rw (other_operation "shift" "delete" ts refl) (append-nil _)))))

arranged-adds : (ts : List Transform) → of_operation "add" (arranged ts) ≡ of_operation "add" ts
arranged-adds ts =
    of_operation-arranged "add" ts
    ∙ rw (other_operation "parse" "add" ts refl) (
        rw (other_operation "store" "add" ts refl) (
          rw (other_deletions "add" ts refl) (
            rw (same_operation "add" ts)
              (rw (other_operation "shift" "add" ts refl) (append-nil _)))))

arranged-shifts :
    (ts : List Transform) → of_operation "shift" (arranged ts) ≡ of_operation "shift" ts
arranged-shifts ts =
    of_operation-arranged "shift" ts
    ∙ rw (other_operation "parse" "shift" ts refl) (
        rw (other_operation "store" "shift" ts refl) (
          rw (other_deletions "shift" ts refl)
            (rw (other_operation "add" "shift" ts refl) (rw (same_operation "shift" ts) (refl)))))

wiped_once :
    (ts : List Transform)
    → (if wipes (deletions ts) then wipe ∷ [] else deletions ts) ≡ deletions ts
wiped_once ts = elim (Bool-cases (wipes (of_operation "delete" ts))) [
  | inl e ↦ rw e refl
  | inr e ↦ rw e (rw e refl)
]

arranged_twice : (ts : List Transform) → arranged (arranged ts) ≡ arranged ts
arranged_twice ts = rw (arranged-parses ts) (
    rw (arranged-stores ts) (
      rw (arranged-deletes ts)
        (rw (arranged-adds ts) (rw (arranged-shifts ts) (rw (wiped_once ts) refl)))))

-- `rearrange` gives the sanitised transformations that have paths, the parses first, then the stores,
-- the deletes, the adds and the shifts, those of one operation in their order, with one delete of the
-- whole event for all deletes if one of them has an empty key; and it changes nothing when it runs
-- again.
pub rearrange_twice :
    (ts : List Transform) → (rearrange ts ≡ arranged ts) × (rearrange (rearrange ts) ≡ rearrange ts)
rearrange_twice ts = (
  rearrange-arranged ts,
  ap rearrange (rearrange-arranged ts)
      ∙ rearrange-arranged (arranged ts)
      ∙ arranged_twice ts
      ∙ sym (rearrange-arranged ts),
)
