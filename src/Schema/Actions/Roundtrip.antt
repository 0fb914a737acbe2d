-- ===== src/Schema/Actions/Roundtrip.antt =====
-- src/desktop_worker/schema/actions.py: `to_dict` writes what `parse_action` reads.
use desktop_worker.Prelude.{String, ◌≡◌, refl, sym, ap, ◌∙◌, none, some, arith, string_eq, eq_iff}
use desktop_worker.Errors.{ok}
use desktop_worker.Value.{Value, Dict, dict, str, end, field}
use desktop_worker.Dict.{lookup, put, update, IsUnique}
use desktop_worker.Dict.Laws.{
  lookup_head, without_head, without_absent, lookup-put, lookup-without, without-IsUnique,
}
use desktop_worker.Schema.Actions.Parse.{Action, to_dict, parse_action}
use desktop_worker.Schema.Actions.Sound.{parse_action_iff}

-- `d` with the entries of `e` behind it.
join : Dict → Dict → Dict
join end e = e
join (field k v d) e = field k v (join d e)

put_absent :
    (k : String) (v : Value) (d : Dict) → lookup k d ≡ none → put k v d ≡ join d (field k v end)
unfolding lookup put join
put_absent k v end h = refl
put_absent k v (field j w d) h = ground (arith, put_absent k v d)

join_assoc : (d e f : Dict) → join (join d e) f ≡ join d (join e f)
unfolding join
join_assoc end e f = refl
join_assoc (field k v d) e f = ap (field k v) (join_assoc d e f)

abbrev Disjoint : Dict → Dict → Type 0
Disjoint d e = (k : String) (v : Value) → lookup k e ≡ some v → lookup k d ≡ none

Disjoint-put :
    (d e : Dict) (k : String) (v : Value)
    → IsUnique (field k v e)
    → Disjoint d (field k v e)
    → Disjoint (put k v d) e
unfolding lookup
Disjoint-put d e k v u apart j w found =
    ground (arith, eq_iff k j, lookup-put k j v d, u.0, apart j w)

join-end : (d : Dict) → join d end ≡ d
unfolding join
join-end end = refl
join-end (field k v d) = ap (field k v) (join-end d)

-- Into a dictionary that has none of its keys, a dictionary is merged at the end.
update-join : (d e : Dict) → IsUnique e → Disjoint d e → update d e ≡ join d e
unfolding update join
update-join d end u apart = sym (join-end d)
update-join d (field k v e) u apart =
    update-join (put k v d) e u.1 (Disjoint-put d e k v u apart)
    ∙ rw (put_absent k v d (apart k v (lookup_head k v e))) (join_assoc d (field k v end) e)

to_dict_lem :
    (a : Action)
    → IsUnique a.params
    → lookup "type" a.params ≡ none
    → to_dict a ≡ field "type" (str a.type) a.params
unfolding to_dict join lookup
to_dict_lem a u untyped = update-join (field "type" (str a.type) end) a.params u apart
  where
    apart : Disjoint (field "type" (str a.type) end) a.params
    apart k v found = ground (arith, eq_iff "type" k)

-- What `to_dict` writes of an accepted action parses to this action again. (A Python dictionary
-- has each key once.)
pub parse_action-to_dict :
    (raw : Dict) (a : Action)
    → IsUnique raw
    → parse_action (dict raw) ≡ ok a
    → parse_action (dict (to_dict a)) ≡ ok a
parse_action-to_dict raw a u h =
    let (says, valid) = (parse_action_iff raw a).0 h in
    let untyped : lookup "type" a.params ≡ none =
      ap (lookup "type") says.params ∙ lookup-without "type" "type" raw in
    let unique : IsUnique a.params = rw says.params (without-IsUnique "type" raw u) in
    let written = to_dict_lem a unique untyped in
    (parse_action_iff (to_dict a) a).1 (
      record {
        type = rw written (lookup_head _ _ _);
        params =
            rw written
              (sym (without_absent "type" a.params untyped) ∙ sym (without_head "type" _ a.params));
      },
      valid,
    )
