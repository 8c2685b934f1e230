-- ===== src/Kubernetes/Entries.antt =====
-- Reading and writing a key of the values in Kubernetes/Value.antt.
use tmctl.Base.{
  String, false, some, ◌==◌, if◌then◌else◌, String_eq, ◌≡◌, refl, arith, eq_iff, eq_refl, ◌∙◌,
}
use tmctl.Kubernetes.Value.{Value, Fields, end, field, get, put}

pub get-put :
    (k j : String) (v : Value) (fs : Fields)
    → get j (put k v fs) ≡ (if k == j then some v else get j fs)
unfolding get put
get-put k j v end = refl
get-put k j v (field i w fs) = ground (arith, eq_iff k j, eq_iff i k, eq_iff i j, get-put k j v fs)

pub get-put_other :
    (k j : String) (v : Value) (fs : Fields) → (k == j) ≡ false → get j (put k v fs) ≡ get j fs
get-put_other k j v fs e = get-put k j v fs ∙ rw e refl

pub get-put_self : (k : String) (v : Value) (fs : Fields) → get k (put k v fs) ≡ some v
get-put_self k v fs = get-put k k v fs ∙ rw (eq_refl k) refl
