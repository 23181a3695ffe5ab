-- ===== src/Python/Laws.antt =====
-- A dictionary returns what was put into it.
use grafux_orchestrator.Prelude.{
  String, ◌≡◌, refl, some, ◌==◌, false, arith, eq_iff, eq_refl, if◌then◌else◌,
}
use grafux_orchestrator.Python.{Value, Fields, end, field, get, put}

pub get-put :
    (k j : String) (v : Value) (fs : Fields)
    → get j (put k v fs) ≡ (if k == j then some v else get j fs)
unfolding get put
get-put k j v end = refl
get-put k j v (field i w fs) = ground (arith, eq_iff k j, eq_iff i k, eq_iff i j, get-put k j v fs)

pub get-put_self : (k : String) (v : Value) (fs : Fields) → get k (put k v fs) ≡ some v
get-put_self k v fs = simp (get-put, eq_refl)

pub get-put_ne :
    (k j : String) (v : Value) (fs : Fields) → (k == j) ≡ false → get j (put k v fs) ≡ get j fs
get-put_ne k j v fs h = rw (get-put, h)
