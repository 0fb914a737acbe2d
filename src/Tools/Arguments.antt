-- ===== src/Tools/Arguments.antt =====
-- src/desktop_worker/tools/builtin.py: what the built-in tools accept of the arguments that the AI
-- supplies. `str_of` is Python's `str` of a value that is no text.
use Prim.Native.String.{count}
use desktop_worker.Prelude.{
  ℕ, ◌-◌, String, Bool, not, ◌&&◌, ◌||◌, Option, none, some, List, [], ◌∷◌, ◌==◌, nat_eq, string_eq,
  leb, if◌then◌else◌, ◌≡◌, refl,
}
use desktop_worker.Prelude.Text.{lower, strip, ends_with, take_text, occurs_in, is_space}
use desktop_worker.Errors.{tool, Result, ok, err}
use desktop_worker.Value.{Value, str, truthy}
use desktop_worker.Regex.{
  Regex, one, many, between, seq, start, finish, chars, literal, matches_at_start,
}

-- `str(v)` and `str(v or other)`
abbrev pub text_of : (Value → String) → Value → String
text_of str_of (str s) = s
text_of str_of v = str_of v

abbrev pub text_or : (Value → String) → String → Value → String
text_or str_of other v = if truthy v then text_of str_of v else other

-- [^\\/:*?"<>|]
abbrev pub in_name : ℕ → Bool
in_name c = not (
    c == 92
    || c == 47
    || c == 58
    || c == 42
    || c == 63
    || c == 34
    || c == 60
    || c == 62
    || c == 124)

-- `_SAFE_NAME`, but for its `$`
abbrev pub name_part : Regex
name_part = seq start (between 1 79 in_name)

abbrev safe_name : Regex
safe_name = seq name_part finish

abbrev without_txt : String → String
without_txt name = if ends_with ".txt" (lower name) then take_text (count name - 4) name else name

abbrev is_bare : String → Bool
is_bare name = not (occurs_in ".." name) && matches_at_start safe_name (chars name)

-- `_sanitize_filename`
unfoldable pub sanitize_filename : (Value → String) → Value → Result String
unfolding lower strip ends_with take_text occurs_in
sanitize_filename str_of v =
    let name = without_txt (strip (text_or str_of "ai-file" v)) in
    if is_bare name then ok name else err (tool "unsafe filename")

-- The same letter, of either case.
abbrev pub fold : ℕ → ℕ
fold c = if leb b'A' c && leb c b'Z' then c - b'A' else c - b'a'

abbrev pub is_letter : ℕ → Bool
is_letter c = (leb b'A' c && leb c b'Z') || (leb b'a' c && leb c b'z')

abbrev pub same_letter : ℕ → ℕ → Bool
same_letter c d = if is_letter c && is_letter d then fold c == fold d else c == d

-- [^\s"%<>]
abbrev pub in_url : ℕ → Bool
in_url c = not (is_space c || c == 34 || c == 37 || c == 60 || c == 62)

-- `_SAFE_URL`, but for its `$`
abbrev pub url_part : Regex
url_part = seq start (
    seq (literal same_letter (chars "http")) (
      seq (between 0 1 (same_letter b's'))
        (seq (literal same_letter (chars "://")) (many 1 in_url))))

abbrev safe_url : Regex
safe_url = seq url_part finish

-- `_sanitize_url`
unfoldable pub sanitize_url : (Value → String) → Value → Result String
unfolding strip is_space
sanitize_url str_of v =
    let url = strip (text_or str_of "" v) in
    if matches_at_start safe_url (chars url) then ok url else err (tool "unsafe or non-http(s) url")

-- `_APP_ALLOWLIST`
abbrev pub app_allowlist : List (String × String)
app_allowlist =
    ("notepad", "notepad")
    ∷ ("calculator", "calc")
    ∷ ("calc", "calc")
    ∷ ("paint", "mspaint")
    ∷ ("mspaint", "mspaint")
    ∷ ("explorer", "explorer")
    ∷ ("file explorer", "explorer")
    ∷ ("files", "explorer")
    ∷ ("settings", "ms-settings:")
    ∷ ("chrome", "chrome")
    ∷ ("google chrome", "chrome")
    ∷ ("edge", "msedge")
    ∷ ("microsoft edge", "msedge")
    ∷ ("task manager", "taskmgr")
    ∷ ("wordpad", "write")
    ∷ []

unfoldable pub token_of : List (String × String) → String → Option String
token_of [] app = none
token_of ((name, token) ∷ rest) app = if name == app then some token else token_of rest app

letters_of_either_case :
    sanitize_url (λ v. "") (str " HTTPS://a.b/c?d=e&f ") ≡ ok "HTTPS://a.b/c?d=e&f"
unfolding sanitize_url strip is_space desktop_worker.Regex.matches
letters_of_either_case = refl

no_quote : sanitize_url (λ v. "") (str "http://a\"b") ≡ err (tool "unsafe or non-http(s) url")
unfolding sanitize_url strip is_space desktop_worker.Regex.matches
no_quote = refl
