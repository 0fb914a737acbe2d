-- ===== src/Dict.antt =====
-- The operations of Python's `dict` on text keys. A dictionary that Python can hold has each key
-- once, which is `IsUnique`.
pub mod Laws
use desktop_worker.Prelude.{
  String, ◌≡◌, Bool, true, false, not, ◌&&◌, Option, none, some, List, [], ◌∷◌, ◌==◌, string_eq,
  contains, if◌then◌else◌,
}
use desktop_worker.Value.{Value, Dict, end, field}

-- `d.get(k)`
unfoldable pub lookup : String → Dict → Option Value
lookup k end = none
lookup k (field j v d) = if j == k then some v else lookup k d

-- `d[k] = v`
unfoldable pub put : String → Value → Dict → Dict
put k v end = field k v end
put k v (field j w d) = if j == k then field j v d else field j w (put k v d)

-- `{j: v for j, v in d.items() if j != k}`
unfoldable pub without : String → Dict → Dict
without k end = end
without k (field j v d) = let rest = without k d in if j == k then rest else field j v rest

-- `{**d, **e}`
unfoldable pub update : Dict → Dict → Dict
unfolding put
update d end = d
update d (field k v e) = update (put k v d) e

-- `list(d)`
unfoldable pub keys : Dict → List String
keys end = []
keys (field k v d) = k ∷ keys d

-- `k in d`
abbrev pub is_some {ℓ} : {A : Type ℓ} → Option A → Bool
is_some none = false
is_some (some a) = true

abbrev pub get_or : Option Value → Value → Value
get_or none d = d
get_or (some v) d = v

abbrev pub IsUnique : Dict → Type 0
IsUnique end = Unit
IsUnique (field k v d) = (lookup k d ≡ none) × IsUnique d
