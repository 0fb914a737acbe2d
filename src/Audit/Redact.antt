-- ===== src/Audit/Redact.antt =====
-- src/desktop_worker/audit/log.py: the redaction of secrets in what the log writes. A replacement
-- keeps the text of the groups that it names: every pattern here keeps a first part, and drops the
-- rest for a mark.
pub mod Tests
use Prim.Native.Nat.{◌-◌}
use Prim.Native.Char.{Char, code}
use desktop_worker.Prelude.{
  ℕ, zero, suc, Bool, true, false, not, ◌&&◌, ◌||◌, Option, none, some, List, [], ◌∷◌, ◌++◌, String,
  ◌==◌, nat_eq, leb, if◌then◌else◌, length,
}
use desktop_worker.Prelude.Text.{is_space}
use desktop_worker.Regex.{
  Regex, one, many, times, seq, alt, epsilon, boundary, Match, matches, chars, of_chars, literal,
  any_of,
}
use desktop_worker.Value.{
  Value, Items, Dict, null, bool, int, float, str, list, tuple, dict, nil, cons, end, field,
}

pub record Redaction : Type 0 where
  pub kept : Regex
  pub dropped : Regex
  pub mark : List Char

-- The first match in the order of the matcher: what was kept (in reverse) and what is behind it all.
unfoldable pub first_drop : Redaction → List Char → List Match → Option (List Char × List Char)
first_drop r before [] = none
first_drop r before (k ∷ ks) =
    let others = first_drop r before ks in
    elim (matches r.dropped before k) [ [] ↦ others | m ∷ ms ↦ some (k.taken, m.rest) ]

abbrev pub redaction_at : Redaction → List Char → List Char → Option (List Char × List Char)
redaction_at r before text =
    first_drop r before (matches r.kept before (record { taken = []; rest = text }))

abbrev pub rev_onto : List Char → List Char → List Char
rev_onto [] out = out
rev_onto (c ∷ cs) out = rev_onto cs (c ∷ out)

-- `pattern.sub(repl, text)`. `skip` characters belong to the match before; no pattern here matches
-- the empty text.
unfoldable pub sub : Redaction → List Char → ℕ → List Char → List Char
unfolding first_drop
sub r before skip [] = []
sub r before (suc skip) (c ∷ cs) = sub r (c ∷ before) skip cs
sub r before zero (c ∷ cs) = elim (redaction_at r before (c ∷ cs)) [
  | none ↦ c ∷ sub r (c ∷ before) zero cs
  | some (kept, rest) ↦ rev_onto kept r.mark ++ sub r (c ∷ before) (length cs - length rest) cs
]

-- A letter of either case, for the patterns marked (?i); these are written in lower case.
abbrev same_letter : ℕ → ℕ → Bool
same_letter c d = d == c || (leb b'a' c && leb c b'z' && d == c - 32)

abbrev either_case : String → Regex
either_case s = literal same_letter (chars s)

abbrev exact : String → Regex
exact s = literal (λ c d. d == c) (chars s)

abbrev is_upper : ℕ → Bool
is_upper c = leb b'A' c && leb c b'Z'

abbrev is_digit : ℕ → Bool
is_digit c = leb b'0' c && leb c b'9'

abbrev is_alnum : ℕ → Bool
is_alnum c = is_upper c || (leb b'a' c && leb c b'z') || is_digit c

abbrev is_bearer : ℕ → Bool
is_bearer c = is_alnum c || c == b'.' || c == b'_' || c == b'-'

-- api[_-]?key
abbrev api_key : Regex
api_key =
    seq (either_case "api")
      (seq (alt (one (λ c. c == b'_' || c == b'-')) epsilon) (either_case "key"))

abbrev secret_name : Regex
secret_name =
    alt api_key (any_of either_case ("secret" ∷ "token" ∷ "password" ∷ "passwd" ∷ "pwd" ∷ []))

-- \s*[:=]\s*
abbrev separator : Regex
separator = seq (many 0 is_space) (seq (one (λ c. c == b':' || c == b'=')) (many 0 is_space))

abbrev pub redactions : List Redaction
redactions =
    (record {
      kept = seq boundary (seq secret_name (seq boundary separator));
      dropped = many 1 (λ c. not (is_space c));
      mark = chars "***REDACTED***";
    })
    ∷ (record {
      kept = epsilon;
      dropped = seq boundary (seq (exact "sk-") (seq (many 8 is_alnum) boundary));
      mark = chars "***REDACTED_KEY***";
    })
    ∷ (record {
      kept = epsilon;
      dropped = seq boundary (seq (exact "ghp_") (seq (many 20 is_alnum) boundary));
      mark = chars "***REDACTED_TOKEN***";
    })
    ∷ (record {
      kept = epsilon;
      dropped =
          seq boundary
            (seq (exact "AKIA") (seq (times 16 (λ c. is_digit c || is_upper c)) boundary));
      mark = chars "***REDACTED_AWS_KEY***";
    })
    ∷ (record {
      kept = epsilon;
      dropped =
          seq boundary (seq (either_case "bearer") (seq (many 1 is_space) (many 1 is_bearer)));
      mark = chars "Bearer ***REDACTED***";
    })
    ∷ []

unfoldable pub sub_all : List Redaction → List Char → List Char
unfolding sub
sub_all [] text = text
sub_all (r ∷ rs) text = sub_all rs (sub r [] 0 text)

unfoldable pub redact : String → String
unfolding sub_all is_space
redact text = of_chars (sub_all redactions (chars text))

-- `_redact_obj`: keys are left alone, and a tuple becomes a list.
unfoldable mutual
  unfolding redact

  pub redact_obj : Value → Value
  redact_obj (str s) = str (redact s)
  redact_obj (dict d) = dict (redact_dict d)
  redact_obj (list vs) = list (redact_items vs)
  redact_obj (tuple vs) = list (redact_items vs)
  redact_obj null = null
  redact_obj (bool b) = bool b
  redact_obj (int n) = int n
  redact_obj (float x) = float x

  pub redact_items : Items → Items
  redact_items nil = nil
  redact_items (cons v vs) = cons (redact_obj v) (redact_items vs)

  pub redact_dict : Dict → Dict
  redact_dict end = end
  redact_dict (field k v d) = field k (redact_obj v) (redact_dict d)
