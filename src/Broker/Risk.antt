-- ===== src/Broker/Risk.antt =====
-- src/desktop_worker/broker/risk.py: the classifier of commands. Each pattern is written out as a
-- regular expression, in the order of the source.
pub mod Tests
use Prim.Native.Char.{Char}
use desktop_worker.Prelude.{
  ℕ, String, Bool, true, false, ◌&&◌, ◌||◌, List, [], ◌∷◌, ◌==◌, nat_eq, string_eq, leb,
  if◌then◌else◌,
}
use desktop_worker.Prelude.Text.{lower, strip, is_space}
use desktop_worker.Regex.{
  Regex, one, many, seq, alt, epsilon, boundary, start, searches, chars, literal, any_of,
}
use desktop_worker.Safety.Policy.{RiskLevel, low, medium, high}

abbrev pub text : String → Regex
text s = literal (λ c d. d == c) (chars s)

-- \bs\b
abbrev pub word : String → Regex
word s = seq boundary (seq (text s) boundary)

-- \b(a|b|c)\b
abbrev words : List String → Regex
words ss = seq boundary (seq (any_of text ss) boundary)

-- \s+
abbrev spaces : Regex
spaces = many 1 is_space

-- (?:^|[\s&|(;])(a|b)\b
abbrev opens : ℕ → Bool
opens c = is_space c || c == b'&' || c == b'|' || c == b'(' || c == b';'

abbrev command_token : List String → Regex
command_token ss = seq (alt start (one opens)) (seq (any_of text ss) boundary)

abbrev pub high_patterns : List Regex
high_patterns =
    word "del"
    ∷ word "erase"
    ∷ word "rd"
    ∷ word "rmdir"
    ∷ word "rm"
    ∷ text "remove-item"
    ∷ command_token ("format" ∷ [])
    ∷ seq (word "reg") (seq spaces (any_of text ("add" ∷ "delete" ∷ "import" ∷ [])))
    ∷ text "regedit"
    ∷ seq (word "sc") (seq spaces (any_of text ("delete" ∷ "stop" ∷ "config" ∷ "create" ∷ [])))
    ∷ text "set-service"
    ∷ text "stop-service"
    ∷ text "new-service"
    ∷ text "sc.exe"
    ∷ seq (text "netsh") (seq spaces (any_of text ("advfirewall" ∷ "firewall" ∷ [])))
    ∷ text "set-netfirewall"
    ∷ word "schtasks"
    ∷ text "register-scheduledtask"
    ∷ word "icacls"
    ∷ word "takeown"
    ∷ word "cacls"
    ∷ word "taskkill"
    ∷ text "stop-process"
    ∷ word "kill"
    ∷ word "shutdown"
    ∷ text "restart-computer"
    ∷ text "stop-computer"
    ∷ word "diskpart"
    ∷ seq (word "cipher") (seq spaces (text "/w"))
    ∷ seq (word "net") (seq spaces (text "user"))
    ∷ seq (word "net") (seq spaces (text "localgroup"))
    ∷ word "bcdedit"
    ∷ word "vssadmin"
    ∷ text "set-executionpolicy"
    ∷ word "cmdkey"
    ∷ text "c:\\windows"
    ∷ text "%systemroot%"
    ∷ text "%windir%"
    ∷ []

abbrev pub medium_patterns : List Regex
medium_patterns =
    seq (words ("npm" ∷ "pnpm" ∷ "yarn" ∷ []))
      (seq spaces (any_of text ("install" ∷ "i" ∷ "add" ∷ "ci" ∷ [])))
    ∷ seq (word "pip") (seq spaces (text "install"))
    ∷ seq (word "choco") (seq spaces (text "install"))
    ∷ seq (word "winget") (seq spaces (text "install"))
    ∷ seq (word "dotnet") (seq spaces (text "add"))
    ∷ seq (word "git") (seq spaces (any_of text ("push" ∷ "clean" ∷ "reset" ∷ [])))
    ∷ words ("mkdir" ∷ "new-item" ∷ "copy" ∷ "move" ∷ "rename" ∷ [])
    ∷ command_token ("md" ∷ "cp" ∷ "mv" ∷ "ren" ∷ [])
    ∷ word "set-content"
    ∷ word "out-file"
    ∷ word "add-content"
    ∷ text ">"
    ∷ seq boundary (
        seq
          (alt (text "start")
            (alt (seq (text "net") (seq spaces (text "start"))) (text "start-service")))
          boundary)
    ∷ word "curl"
    ∷ word "wget"
    ∷ text "invoke-webrequest"
    ∷ text "invoke-restmethod"
    ∷ []

-- `any(pat.search(text) for pat in patterns)`, as the two loops do.
unfoldable pub any_searches : List Regex → List Char → Bool
any_searches [] text = false
any_searches (p ∷ patterns) text = searches p text || any_searches patterns text

unfoldable pub classify_command : String → RiskLevel
unfolding any_searches lower strip is_space
classify_command command =
    if strip command == ""
    then low
    else let text = chars (lower command) in
      if any_searches high_patterns text
      then high
      else if any_searches medium_patterns text
      then medium
      else low
