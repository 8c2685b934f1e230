-- ===== src/Service/Reading.antt =====
-- The case of a service in `GetObject` of pkg/triggermesh/components/components.go: what
-- `AsK8sObject` writes is read back.
use tmctl.Base.{
  String, Option, none, some, [], ◌∷◌, ◌++◌, append-nil, append_assoc, Result, ok, panic, ◌>>=◌,
  ◌==◌, String_eq, Dict, insert, lookup, insert_absent, Fresh, Fresh-append, Fresh-nil, to_upper,
  ◌≡◌, ◌≢◌, refl, sym, ap, ◌∙◌, eq_iff, Bool-cases, inl, inr,
}
use tmctl.Kubernetes.{Object}
use tmctl.Kubernetes.Value.{Value, null, text, arr, obj, Items, nil, cons, Fields, end, get}
use tmctl.Service.{
  Service, new, role_label, params_to_env, kservice_spec, manifest_params, as_k8s_object,
}

-- A type assertion that fails, or an entry that is not there, panics.
unfoldable pub object_at : String → Fields → Result Fields
unfolding get
object_at k fs = elim (get k fs) [ some (obj gs) ↦ ok gs | other ↦ panic ]

unfoldable pub text_at : String → Fields → Result String
unfolding get
text_at k fs = elim (get k fs) [ some (text s) ↦ ok s | other ↦ panic ]

unfoldable pub first_object_at : String → Fields → Result Fields
unfolding get
first_object_at k fs = elim (get k fs) [ some (arr (cons (obj gs) xs)) ↦ ok gs | other ↦ panic ]

-- `params[name.(string)] = value.(string)`, where both are there.
abbrev set_param : Option Value → Option Value → Dict String → Result (Dict String)
unfolding insert
set_param none v params = ok params
set_param (some n) none params = ok params
set_param (some (text n)) (some (text v)) params = ok (insert n v params)
set_param (some n) (some v) params = panic

-- The loop over the variables.
unfoldable pub read_env : Items → Dict String → Result (Dict String)
unfolding get insert
read_env nil params = ok params
read_env (cons (obj val) xs) params =
    set_param (get "name" val) (get "value" val) params >>= read_env xs
read_env (cons x xs) params = read_env xs params

abbrev env_params : Option Value → Result (Dict String)
unfolding read_env
env_params none = ok []
env_params (some null) = ok []
env_params (some (arr xs)) = read_env xs []
env_params (some v) = panic

abbrev spec_fields : Option Fields → Fields
spec_fields none = end
spec_fields (some fs) = fs

-- The service that an object stands for, where it has a role; `broker` is its label of the context.
unfoldable pub read_service : String → Object → Result (Option Service)
unfolding object_at first_object_at text_at read_env get lookup new
read_service broker o = elim (o.metadata.labels) [
  | none ↦ ok none
  | some labels ↦ elim (lookup role_label labels) [
    | none ↦ ok none
    | some role ↦
        object_at "template" (spec_fields o.spec)
        >>= object_at "spec"
        >>= first_object_at "containers"
        >>= λ container. text_at "image" container >>= λ image.
            env_params (get "env" container) >>= λ params.
            ok (some (new o.metadata.name image broker role params))
  ]
]

-- No key is there twice, and none has a lower-case letter.
abbrev pub Plain : Dict String → Type 0
Plain [] = Unit
Plain ((k, v) ∷ rest) = (to_upper k ≡ k) × (lookup k rest ≡ none) × Plain rest

read_env-params :
    (params m : Dict String)
    → Plain params
    → Fresh params m
    → read_env (params_to_env params) m ≡ ok (m ++ params)
unfolding read_env params_to_env get
read_env-params [] m p f = ap ok (sym (append-nil m))
read_env-params ((k, v) ∷ rest) m (u, n, p) (f, g) =
    ap (λ x. read_env (params_to_env rest) (insert x v m)) u
    ∙ ap (read_env (params_to_env rest)) (insert_absent k v m f)
    ∙ read_env-params rest (m ++ (k, v) ∷ []) p (Fresh-append rest m k v n g)
    ∙ ap ok (append_assoc m ((k, v) ∷ []) rest)

-- A service that has a name, and whose parameters in the manifest have different keys without
-- lower-case letters, is read back from the object that it writes, with the parameters of the
-- manifest: its own, and for a source the sink.
pub read_service-as_k8s_object :
    (s : Service)
    → s.name ≢ ""
    → Plain (manifest_params s)
    → read_service s.broker (as_k8s_object s) ≡ ok (some (record s { params = manifest_params s }))
unfolding read_service as_k8s_object kservice_spec object_at first_object_at text_at get lookup new
read_service-as_k8s_object s named p =
    ap (λ r. r >>= λ params. ok (some (new s.name s.image s.broker s.role params)))
      (read_env-params (manifest_params s) [] p (Fresh-nil (manifest_params s)))
    ∙ elim (Bool-cases (s.name == "")) [
      | inl e ↦ absurd (named ((eq_iff s.name "").0 e))
      | inr e ↦ ap (λ n. ok (some (record s { name = n; params = manifest_params s }))) (rw e refl)
    ]
