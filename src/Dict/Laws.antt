-- ===== src/Dict/Laws.antt =====
-- What a lookup sees after each operation of src dictionaries.
use desktop_worker.Prelude.{
  String, ◌≡◌, refl, none, some, arith, ◌==◌, string_eq, eq_iff, contains, if◌then◌else◌,
}
use desktop_worker.Value.{Value, Dict, end, field}
use desktop_worker.Dict.{lookup, put, without, keys, IsUnique, is_some}

pub lookup-put :
    (k j : String) (v : Value) (d : Dict)
    → lookup j (put k v d) ≡ (if k == j then some v else lookup j d)
unfolding lookup put
lookup-put k j v end = refl
lookup-put k j v (field i w d) =
    ground (arith, eq_iff k j, eq_iff i k, eq_iff i j, lookup-put k j v d)

pub lookup-without :
    (k j : String) (d : Dict) → lookup j (without k d) ≡ (if k == j then none else lookup j d)
unfolding lookup without
lookup-without k j end = ground arith
lookup-without k j (field i w d) =
    ground (arith, eq_iff k j, eq_iff i k, eq_iff i j, lookup-without k j d)

-- A key that is absent is not affected by its removal.
pub without_absent : (k : String) (d : Dict) → lookup k d ≡ none → without k d ≡ d
unfolding lookup without
without_absent k end h = refl
without_absent k (field j v d) h = ground (arith, without_absent k d)

pub without-IsUnique : (k : String) (d : Dict) → IsUnique d → IsUnique (without k d)
unfolding without
without-IsUnique k end u = tt
without-IsUnique k (field j v d) u =
    ground (arith, without-IsUnique k d, lookup-without k j d, eq_iff k j, eq_iff j k)

-- The keys are those that a lookup finds.
pub contains-keys : (k : String) (d : Dict) → contains (keys d) k ≡ is_some (lookup k d)
unfolding lookup keys
contains-keys k end = refl
contains-keys k (field j v d) = ground (arith, contains-keys k d, eq_iff k j, eq_iff j k)

pub lookup_head : (k : String) (v : Value) (d : Dict) → lookup k (field k v d) ≡ some v
unfolding lookup
lookup_head k v d = ground (arith, eq_iff k k)

pub without_head : (k : String) (v : Value) (d : Dict) → without k (field k v d) ≡ without k d
unfolding without
without_head k v d = ground (arith, eq_iff k k)
