-- ===== src/Parameters/Arguments.antt =====
-- `ParseArgs` of pkg/triggermesh/pkg/pkg.go: what stands at the paths of the arguments.
use tmctl.Base.{
  ℕ, String, Bool, true, false, not, Option, some, List, [], ◌∷◌, All, Dict, split, ◌==◌, String_eq,
  ◌≡◌, refl, ◌∙◌, Bool-cases, inl, inr, arith, eq_iff, ne_sym, ℕ_eq,
}
use Prim.Native.Char.{code}
use tmctl.Kubernetes.Value.{Value, text, obj, Fields, end, get}
use tmctl.Parameters.{add_argument, add_arguments, parse_args}
use tmctl.Parameters.Merging.{Unique}
use tmctl.Parameters.Paths.{
  value_at, Open, clash, Open-none, at-add, at-add_other, Open-add, Unique-add,
}

-- What stands in a map at the path of an argument's name.
abbrev pub argument_at : String → Fields → Option Value
unfolding split
argument_at key fs = value_at (split b'.' key) (some (obj fs))

split-cons : (b : ℕ) (s : String) → (p : String) × (ps : List String) × (split b s ≡ p ∷ ps)
unfolding split
split-cons b String.[] = ("", [], refl)
split-cons b (String.◌∷◌ c s) = elim (Bool-cases (code c == b)) [
  | inl e ↦ ("", split b s, rw e refl)
  | inr e ↦ let (p, ps, q) = split-cons b s in (String.◌∷◌ c p, ps, rw e (rw q refl))
]

eq_sym : (a c : String) → (a == c) ≡ true → (c == a) ≡ true
eq_sym a c e = ground (arith, eq_iff a c, eq_iff c a)

clash_comm : (p q : List String) → clash p q ≡ clash q p
clash_comm [] [] = refl
clash_comm [] (c ∷ q) = refl
clash_comm (a ∷ p) [] = refl
clash_comm (a ∷ p) (c ∷ q) = elim (Bool-cases (a == c)) [
  | inl e ↦ rw (e, eq_sym a c e) (clash_comm p q)
  | inr e ↦ rw (e, ne_sym a c e) refl
]

abbrev path : String → List String
path key = split b'.' key

-- The paths of two arguments that can be given together.
abbrev pub apart : String → String → Bool
unfolding split
apart a c = not (clash (split b'.' a) (split b'.' c))

-- Each argument can be given together with those after it.
abbrev pub Compatible : Dict String → Type 0
Compatible [] = Unit
Compatible ((key, value) ∷ args) =
    All (λ (e : String × String). apart key e.0 ≡ true) args × Compatible args

abbrev pub Stands : Fields → String × String → Type 0
Stands fs e = argument_at e.0 fs ≡ some (text e.1)

not-true : (c : Bool) → not c ≡ true → c ≡ false
not-true true h = cc h
not-true false h = refl

-- What stands at the path of an argument stays there when the others are added.
stays :
    (key : String) (r : Value) (args : Dict String) (fs : Fields)
    → Unique fs
    → All (λ (e : String × String). apart key e.0 ≡ true) args
    → argument_at key fs ≡ some r
    → argument_at key (add_arguments args fs) ≡ some r
unfolding add_arguments argument_at
stays key r [] fs u a h = h
stays key r ((k, v) ∷ args) fs u (x, a) h =
    stays key r args (add_argument (path k) v fs) (Unique-add v (path k) fs u) a
      (at-add_other v (path k) (path key) fs r (not-true _ x) u h)

abbrev AllOpen : Dict String → Fields → Type 0
AllOpen args fs = All (λ (e : String × String). Open (path e.0) (some (obj fs))) args

AllOpen-add :
    (key value : String) (args : Dict String) (fs : Fields)
    → Unique fs
    → All (λ (e : String × String). apart key e.0 ≡ true) args
    → AllOpen args fs
    → AllOpen args (add_argument (path key) value fs)
unfolding apart
AllOpen-add key value [] fs u x a = tt
AllOpen-add key value ((k, v) ∷ args) fs u (x, xs) (o, a) = (
  Open-add value (path key) (path k) fs (clash_comm (path k) (path key) ∙ not-true _ x) u o,
  AllOpen-add key value args fs u xs a,
)

at-add_path :
    (key value : String) (fs : Fields)
    → Open (path key) (some (obj fs))
    → Unique fs
    → argument_at key (add_argument (path key) value fs) ≡ some (text value)
unfolding argument_at
at-add_path key value fs o u =
    let (k, ks, e) = split-cons b'.' key in rw e (at-add value k ks fs (rw e at o) u)

arguments-Stand :
    (args : Dict String) (fs : Fields)
    → Compatible args
    → Unique fs
    → AllOpen args fs
    → All (Stands (add_arguments args fs)) args
unfolding add_arguments
arguments-Stand [] fs c u o = tt
arguments-Stand ((key, value) ∷ args) fs (x, c) u (o, os) =
    let next = add_argument (path key) value fs in
    let unique = Unique-add value (path key) fs u in
    (
      stays key (text value) args next unique x (at-add_path key value fs o u),
      arguments-Stand args next c unique (AllOpen-add key value args fs u x os),
    )

AllOpen-end : (args : Dict String) → AllOpen args end
unfolding get
AllOpen-end [] = tt
AllOpen-end ((key, value) ∷ args) =
    let (k, ks, e) = split-cons b'.' key in (rw e (Open-none ks), AllOpen-end args)

-- Where the path of no argument starts the path of another one, or is the same, the spec has each
-- argument's value at the argument's path, whatever the order of the arguments.
pub parse_args-Stand : (args : Dict String) → Compatible args → All (Stands (parse_args args)) args
unfolding parse_args Unique
parse_args-Stand args c = arguments-Stand args end c tt (AllOpen-end args)
