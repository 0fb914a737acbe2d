-- ===== src/Schema/Actions/Checks.antt =====
-- src/desktop_worker/schema/actions.py: the field validators and the shape of a registry row.
use desktop_worker.Prelude.{
  String, Bool, true, false, ◌&&◌, List, [], ◌∷◌, ◌==◌, string_eq, nat_eq, contains, leb, ltb,
}
use desktop_worker.Value.{
  Value, Items, bool, int, float, str, list, tuple, dict, count_items, all_items,
}

-- `True` and `False` are ints to Python, and are excluded here as they are in the source.
abbrev pub is_int : Value → Bool
is_int (int n) = true
is_int _ = false

abbrev pub is_number : Value → Bool
is_number (int n) = true
is_number (float x) = true
is_number _ = false

point_items : Items → Bool
point_items vs = count_items vs == 2 && all_items is_number vs

unfoldable pub is_point : Value → Bool
unfolding point_items
is_point (list vs) = point_items vs
is_point (tuple vs) = point_items vs
is_point _ = false

point_list_items : Items → Bool
unfolding is_point
point_list_items vs = leb 2 (count_items vs) && all_items is_point vs

unfoldable pub is_point_list : Value → Bool
unfolding point_list_items
is_point_list (list vs) = point_list_items vs
is_point_list (tuple vs) = point_list_items vs
is_point_list _ = false

abbrev pub is_str : Value → Bool
is_str (str s) = true
is_str _ = false

unfoldable pub is_button : Value → Bool
is_button (str s) = contains ("left" ∷ "right" ∷ "middle" ∷ []) s
is_button _ = false

str_list_items : Items → Bool
str_list_items vs = ltb 0 (count_items vs) && all_items is_str vs

unfoldable pub is_str_list : Value → Bool
unfolding str_list_items
is_str_list (list vs) = str_list_items vs
is_str_list (tuple vs) = str_list_items vs
is_str_list _ = false

-- The two checks that the registry writes as lambdas.
abbrev pub is_bool : Value → Bool
is_bool (bool b) = true
is_bool _ = false

abbrev pub is_dict : Value → Bool
is_dict (dict d) = true
is_dict _ = false

pub record FieldSpec : Type 0 where
  pub name : String
  pub required : Bool
  pub check : Value → Bool
  pub hint : String

pub record ActionSpec : Type 0 where
  pub type : String
  pub fields : List FieldSpec
  pub summary : String

abbrev pub f : String → (Value → Bool) → String → Bool → FieldSpec
f name check hint required = record { name = name; required = required; check = check; hint = hint }

abbrev pub optional : Bool
optional = false
