-- ===== src/Value.antt =====
-- The values that structured actions carry (`Any` in the source): what a JSON document, or Python
-- code, hands over. A float is carried by its printed form, since the modelled code only tests
-- whether a value is one. A dictionary has text keys, in insertion order.
use desktop_worker.Prelude.{String, ℕ, suc, Bool, true, false, not, ◌&&◌, ◌||◌, ◌==◌, string_eq}
use desktop_worker.Prelude.Int.{ℤ, is_zero}

mutual
  pub data Value : Type 0 where
    null : Value
    bool : Bool → Value
    int : ℤ → Value
    float : String → Value
    str : String → Value
    list : Items → Value
    tuple : Items → Value
    dict : Dict → Value

  pub data Items : Type 0 where
    nil : Items
    cons : Value → Items → Items

  pub data Dict : Type 0 where
    end : Dict
    field : String → Value → Dict → Dict

-- `len(v)` and `all(p(c) for c in v)`
abbrev pub count_items : Items → ℕ
count_items nil = 0
count_items (cons v vs) = suc (count_items vs)

abbrev pub all_items : (Value → Bool) → Items → Bool
all_items p nil = true
all_items p (cons v vs) = p v && all_items p vs

-- `hash(v)` does not raise: everything but lists, dictionaries and tuples with such inside.
unfoldable mutual
  pub hashable : Value → Bool
  hashable (list vs) = false
  hashable (dict d) = false
  hashable (tuple vs) = hashable_items vs
  hashable null = true
  hashable (bool b) = true
  hashable (int n) = true
  hashable (float x) = true
  hashable (str s) = true

  pub hashable_items : Items → Bool
  hashable_items nil = true
  hashable_items (cons v vs) = hashable v && hashable_items vs

-- `bool(v)`
abbrev pub truthy : Value → Bool
truthy null = false
truthy (bool b) = b
truthy (int n) = not (is_zero n)
truthy (float x) = not (x == "0.0" || x == "-0.0")
truthy (str s) = not (s == "")
truthy (list nil) = false
truthy (tuple nil) = false
truthy (dict end) = false
truthy _ = true
