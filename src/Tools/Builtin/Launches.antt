-- ===== src/Tools/Builtin/Launches.antt =====
-- src/desktop_worker/tools/builtin.py: which commands the tools hand to the broker.
use Prim.Native.Char.{Char, code}
use desktop_worker.Prelude.{
  ℕ, String, ◌<>◌, Bool, true, false, not, ◌||◌, ◌≡◌, refl, ap, ◌∙◌, ◌⊎◌, inl, inr, Option, none,
  some, List, [], ◌∷◌, Bool-cases, Option-cases, ◌==◌, nat_eq, string_eq, ltb, arith,
}
use Prim.Native.String.{count}
use desktop_worker.Prelude.Text.{lower, strip}
use desktop_worker.Errors.{ok, Result-cases}
use desktop_worker.Value.{Value, Dict, str}
use desktop_worker.Dict.{lookup, get_or}
use desktop_worker.Schema.Results.{CliResult}
use desktop_worker.Safety.Policy.{PermissionPolicy, authorize_app}
use desktop_worker.Broker.Cli.{Broker}
use desktop_worker.Regex.{literal, chars}
use desktop_worker.Regex.Characters.{AllChars, Only, matches_at_start-AllChars}
use desktop_worker.Session.{World, Exec, Outcome, done, raised, hang}
use desktop_worker.Tools.Arguments.{
  sanitize_filename, sanitize_url, app_allowlist, token_of, in_name, in_url, name_part, url_part,
  same_letter, text_of,
}
use desktop_worker.Tools.Builtin.{
  Kit, arg, create_text_file, write_file, show_file, open_app, open_token, open_url, launch_as,
  notepad_command, app_command, url_command, opened_by, denied, is_written,
}

-- The characters that are nothing special to a shell within quotes.
abbrev pub is_plain : ℕ → Bool
is_plain c = not (c == 34 || c == 37 || c == 60 || c == 62)

same_letter-plain : (c d : ℕ) → is_plain c ≡ true → same_letter c d ≡ true → is_plain d ≡ true
same_letter-plain c d h = ground arith

Only-literal : (cs : List Char) → AllChars is_plain cs → Only is_plain (literal same_letter cs)
Only-literal [] h = tt
Only-literal (c ∷ cs) (h, hs) = (λ d. same_letter-plain (code c) d h, Only-literal cs hs)

in_url-plain : (c : ℕ) → in_url c ≡ true → is_plain c ≡ true
in_url-plain c = ground arith

url_part-Only : Only is_plain url_part
url_part-Only = (
  tt,
  (
    Only-literal (chars "http") (refl, (refl, (refl, (refl, tt)))),
    (
      λ d. same_letter-plain b's' d refl,
      (Only-literal (chars "://") (refl, (refl, (refl, tt))), in_url-plain),
    ),
  ),
)

sanitize_url-plain :
    (str_of : Value → String) (v : Value) (url : String)
    → sanitize_url str_of v ≡ ok url
    → AllChars is_plain (chars url)
unfolding sanitize_url
sanitize_url-plain str_of v url h =
    matches_at_start-AllChars is_plain url_part (chars url) url_part-Only refl (ground arith)

sanitize_filename-bare :
    (str_of : Value → String) (v : Value) (name : String)
    → sanitize_filename str_of v ≡ ok name
    → AllChars in_name (chars name)
unfolding sanitize_filename
sanitize_filename-bare str_of v name h =
    matches_at_start-AllChars in_name name_part (chars name) (tt, λ c e. e) refl (ground arith)

module _ {A B : Type 0} where
  -- A value that is computed from the answer leaves the session to the call.
  then_pure :
      (f : A → B) (o : Outcome A × World)
      → let out : Outcome B × World = elim o.0 [
        | done a ↦ (done (f a), o.1)
        | raised e ↦ (raised e, o.1)
        | hang ↦ (hang, o.1)
      ] in
        out.1 ≡ o.1
  then_pure f (done a, w) = refl
  then_pure f (raised e, w) = refl
  then_pure f (hang, w) = refl

module _ (kit : Kit) where
  -- The session is as before, or that of the launch of a command that is as it should be.
  abbrev pub Launches : String → (String → Type 0) → World → World → Type 0
  Launches agent Fine w w' =
      (w' ≡ w)
      ⊎ ((broker : Broker) × (command : String) × (kit.broker ≡ some broker)
          × Fine command
          × (w' ≡ (launch_as kit broker agent command w).1))

  -- A page: no character of the address is special within its quotes.
  abbrev pub OpensPage : String → Type 0
  OpensPage command =
      (url : String) × AllChars is_plain (chars url) × (command ≡ url_command kit url)

  -- A file: its name is bare, and it is the one in the folder of the desktop.
  abbrev pub OpensFile : String → Type 0
  OpensFile command =
      (name : String) × AllChars in_name (chars name)
      × (command ≡ notepad_command kit (kit.disk.join kit.desktop_dir (name <> ".txt")))

  abbrev pub Allows : Option PermissionPolicy → String → Type 0
  Allows none app = Unit
  Allows (some policy) app = authorize_app policy app ≡ true

  policy-cases :
      (p : Option PermissionPolicy) (app : String)
      → (denied kit p app ≡ true) ⊎ ((denied kit p app ≡ false) × Allows p app)
  policy-cases none app = inr (refl, tt)
  policy-cases (some policy) app = elim (Bool-cases (authorize_app policy app)) [
    | inl fine ↦ inr (ap not fine, fine)
    | inr refused ↦ inl (ap not refused)
  ]

  -- An application: a token of the list, which the policy allows.
  abbrev pub OpensApp : String → Type 0
  OpensApp command =
      (app : String) × (token : String) × (token_of app_allowlist app ≡ some token)
      × Allows kit.policy app
      × (command ≡ app_command kit token)

  open_url-Launches :
      (args : Dict) (w : World) → Launches "open_url" OpensPage w (open_url kit args w).1
  unfolding open_url
  open_url-Launches args w = elim (Result-cases (sanitize_url kit.str_of (arg "url" args))) [
    | inl (e, bad) ↦ rw (bad, open_url) (inl refl)
    | inr (url, good) ↦ elim (Option-cases kit.broker) [
      | inl none_there ↦ rw (good, none_there, open_url) (inl refl)
      | inr (broker, there) ↦
          rw (good, there, open_url)
            (inr (
              broker,
              url_command kit url,
              refl,
              (url, sanitize_url-plain kit.str_of (arg "url" args) url good, refl),
              then_pure _ (launch_as kit broker "open_url" (url_command kit url) w),
            ))
    ]
  ]

  open_token-Launches :
      (app token : String) (w : World)
      → token_of app_allowlist app ≡ some token
      → Launches "open_app" OpensApp w (open_token kit app token w).1
  unfolding open_token
  open_token-Launches app token w known = elim (policy-cases kit.policy app) [
    | inl refused ↦ rw (refused, open_token) (inl refl)
    | inr (allowed, fine) ↦ elim (Option-cases kit.broker) [
      | inl none_there ↦ rw (allowed, none_there, open_token) (inl refl)
      | inr (broker, there) ↦
          rw (allowed, there, open_token)
            (inr (
              broker,
              app_command kit token,
              refl,
              (app, token, known, fine, refl),
              then_pure _ (launch_as kit broker "open_app" (app_command kit token) w),
            ))
    ]
  ]

  open_app-Launches :
      (args : Dict) (w : World) → Launches "open_app" OpensApp w (open_app kit args w).1
  unfolding open_app
  open_app-Launches args w = elim (Option-cases (token_of app_allowlist app)) [
    | inl unknown ↦ rw (unknown, open_app) (inl refl)
    | inr (token, known) ↦ rw (known, open_app) (open_token-Launches app token w known)
  ]
    where
      app : String
      app = lower (strip (text_of kit.str_of (get_or (lookup "app" args) (str ""))))

  opened_state : (m : Exec CliResult) (w : World) → (opened_by kit m w).1 ≡ (m w).1
  opened_state m w = caught (m w)
    where
      caught :
          (o : Outcome CliResult × World)
          → let answered : Outcome Bool × World = elim o.0 [
            | done res ↦ (done (not res.blocked), o.1)
            | raised e ↦ (raised e, o.1)
            | hang ↦ (hang, o.1)
          ] in
            let out : Outcome Bool × World = elim answered.0 [
              | done b ↦ (done b, answered.1)
              | raised e ↦ (done false, answered.1)
              | hang ↦ (hang, answered.1)
            ] in
            out.1 ≡ o.1
      caught (done res, w') = refl
      caught (raised e, w') = refl
      caught (hang, w') = refl

  show_file-Launches :
      (name : String) (w : World)
      → AllChars in_name (chars name)
      → Launches "create_text_file" OpensFile w
          (show_file kit (kit.disk.join kit.desktop_dir (name <> ".txt")) w).1
  unfolding show_file
  show_file-Launches name w bare = elim (Option-cases kit.broker) [
    | inl none_there ↦ rw (none_there, show_file) (inl refl)
    | inr (broker, there) ↦
        let command = notepad_command kit (kit.disk.join kit.desktop_dir (name <> ".txt")) in
        rw (there, show_file)
          (inr (
            broker,
            command,
            refl,
            (name, bare, refl),
            opened_state (launch_as kit broker "create_text_file" command) w,
          ))
  ]

  write_file-Launches :
      (name content : String) (w : World)
      → AllChars in_name (chars name)
      → Launches "create_text_file" OpensFile w
          (write_file kit (kit.disk.join kit.desktop_dir (name <> ".txt")) content w).1
  unfolding write_file
  write_file-Launches name content w bare = elim (Option-cases (kit.disk.write path content)) [
    | inr (e, failed) ↦ rw (failed, write_file) (inl refl)
    | inl written ↦ elim (Bool-cases (is_written kit path content)) [
      | inr differs ↦ rw (written, differs, write_file) (inl refl)
      | inl same ↦
          rw (written, same, write_file)
            (elim (show_file-Launches name w bare) [
              | inl kept ↦ inl (then_pure _ (show_file kit path w) ∙ kept)
              | inr (broker, command, there, fine, went) ↦
                  inr (broker, command, there, fine, then_pure _ (show_file kit path w) ∙ went)
            ])
    ]
  ]
    where
      path : String
      path = kit.disk.join kit.desktop_dir (name <> ".txt")

  create_text_file-Launches :
      (args : Dict) (w : World)
      → Launches "create_text_file" OpensFile w (create_text_file kit args w).1
  unfolding create_text_file
  create_text_file-Launches args w =
      elim (Result-cases (sanitize_filename kit.str_of (arg "filename" args))) [
        | inl (e, bad) ↦ rw (bad, create_text_file) (inl refl)
        | inr (name, good) ↦ elim (Bool-cases (ltb 20000 (count content))) [
          | inl long ↦ rw (good, long, create_text_file) (inl refl)
          | inr short ↦
              rw (good, short, create_text_file)
                (write_file-Launches name content w
                  (sanitize_filename-bare kit.str_of (arg "filename" args) name good))
        ]
      ]
    where
      content : String
      content = text_of kit.str_of (get_or (lookup "content" args) (str ""))

  -- Whatever the AI hands over, a tool leaves the session as it was, or hands one command to the
  -- broker: the start of a page whose address has no character that is special within quotes, of an
  -- application on the list that the policy allows, or of the editor on a file with a bare name.
  pub builtin-Launches :
      (args : Dict) (w : World)
      → Launches "open_url" OpensPage w (open_url kit args w).1
        × Launches "open_app" OpensApp w (open_app kit args w).1
        × Launches "create_text_file" OpensFile w (create_text_file kit args w).1
  builtin-Launches args w =
      (open_url-Launches args w, open_app-Launches args w, create_text_file-Launches args w)
