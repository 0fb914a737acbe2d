-- ===== src/Perception/Ocr/Status.antt =====
-- src/desktop_worker/perception/backends.py: where the recognition's binary is looked for, whether
-- recognition is usable, and the backend that is chosen. The host's environment, its files and its
-- installed packages are parameters, as is the joining of paths.
use desktop_worker.Prelude.{
  String, ◌<>◌, Bool, true, false, ◌&&◌, ◌≡◌, refl, Option, none, some, List, [], ◌∷◌, ◌++◌, is_nil,
  ap, ◌==◌, string_eq, if◌then◌else◌,
}

pub record Host : Type 0 where
  -- `os.environ.get`
  pub get : String → Option String
  -- `shutil.which`
  pub which : String → Option String
  pub is_file : String → Bool
  -- `Path(base) / "..."`, and `os.sep`
  pub path : List String → String
  pub sep : String
  pub has_pytesseract : Bool
  pub has_pillow : Bool
  -- `get_tesseract_version`, with the command that was set for it, if any; it may raise
  pub tesseract_version : Option String → Option String

-- A variable that is set, and not to the empty text.
abbrev set_to : Host → String → Option String
set_to h name = elim (h.get name) [ none ↦ none | some v ↦ if v == "" then none else some v ]

abbrev dir_of : Option String → (String → String) → List String
dir_of none f = []
dir_of (some base) f = f base ∷ []

unfoldable pub well_known_tesseract_dirs : Host → List String
well_known_tesseract_dirs h =
    let first = set_to h "ProgramFiles" in
    let second = set_to h "ProgramFiles(x86)" in
    let programs =
      dir_of first (λ base. h.path (base ∷ "Tesseract-OCR" ∷ []))
      ++ dir_of second (λ base. h.path (base ∷ "Tesseract-OCR" ∷ [])) in
    let drives : List String = elim (set_to h "SystemDrive") [
      | none ↦ []
      | some drive ↦
          h.path ((drive <> h.sep) ∷ "Program Files" ∷ "Tesseract-OCR" ∷ [])
          ∷ h.path ((drive <> h.sep) ∷ "Program Files (x86)" ∷ "Tesseract-OCR" ∷ [])
          ∷ []
    ] in
    (if is_nil programs then drives else programs)
    ++ dir_of (set_to h "LOCALAPPDATA") (λ base. h.path (base ∷ "Programs" ∷ "Tesseract-OCR" ∷ []))

unfoldable pub first_file : Host → List String → Option String
first_file h [] = none
first_file h (d ∷ ds) =
    let rest = first_file h ds in
    let candidate = h.path (d ∷ "tesseract.exe" ∷ []) in
    if h.is_file candidate then some candidate else rest

unfoldable pub resolve_tesseract_cmd : Host → Option String
unfolding well_known_tesseract_dirs first_file
resolve_tesseract_cmd h = elim (set_to h "TESSERACT_CMD") [
  | some explicit ↦ some explicit
  | none ↦ elim (h.which "tesseract") [
    | none ↦ first_file h (well_known_tesseract_dirs h)
    | some found ↦ if found == "" then first_file h (well_known_tesseract_dirs h) else some found
  ]
]

pub data Backend : Type 0 where
  tesseract null : Backend

-- Whether the constructor of `TesseractOcrBackend` returns: both packages import, and the version is read.
unfoldable pub usable : Bool → Bool → Option String → Bool
usable pytesseract pillow none = false
usable pytesseract pillow (some version) = pytesseract && pillow

unfoldable pub starts : Host → Bool
unfolding usable resolve_tesseract_cmd
starts h = usable h.has_pytesseract h.has_pillow (h.tesseract_version (resolve_tesseract_cmd h))

unfoldable pub get_ocr_backend : Host → Bool → Backend
unfolding starts
get_ocr_backend h prefer_real = if prefer_real && starts h then tesseract else null

pub record OcrStatus : Type 0 where
  pub available : Bool
  pub backend : String
  pub version : Option String
  pub missing : List String
  pub reason : String

abbrev comma : List String → String
comma [] = ""
comma (s ∷ []) = s
comma (s ∷ t ∷ more) = s <> ", " <> comma (t ∷ more)

abbrev version_text : Option String → String
version_text none = "None"
version_text (some v) = v

abbrev bare_reason : String
bare_reason =
    "pytesseract is installed but the tesseract executable is not on PATH; add its install dir (e.g. C:\\Program Files\\Tesseract-OCR) to PATH"

unfoldable pub reason_of : List String → Option String → String
reason_of [] version = "OCR ready (tesseract " <> version_text version <> ")"
reason_of (part ∷ []) version =
    if part == "tesseract-binary"
    then bare_reason
    else "OCR unavailable — install the [ocr] extra and Tesseract (missing: " <> part <> ")"
reason_of (part ∷ other ∷ more) version =
    "OCR unavailable — install the [ocr] extra and Tesseract (missing: "
    <> comma (part ∷ other ∷ more)
    <> ")"

unfoldable pub missing_parts : Bool → Bool → Option String → List String
missing_parts pytesseract pillow version =
    let binary : List String = elim version [ none ↦ "tesseract-binary" ∷ [] | some v ↦ [] ] in
    (if pytesseract then [] else "pytesseract" ∷ [])
    ++ ((if pillow then [] else "Pillow" ∷ []) ++ (if pytesseract then binary else []))

unfoldable pub ocr_status : Host → OcrStatus
unfolding resolve_tesseract_cmd reason_of missing_parts
ocr_status h =
    let found = h.tesseract_version (resolve_tesseract_cmd h) in
    let version = if h.has_pytesseract then found else none in
    let missing = missing_parts h.has_pytesseract h.has_pillow version in
    record {
      available = is_nil missing;
      backend = if is_nil missing then "tesseract" else "null";
      version = version;
      missing = missing;
      reason = reason_of missing version;
    }

usable-missing_parts :
    (pytesseract pillow : Bool) (found : Option String)
    → usable pytesseract pillow found
      ≡ is_nil (missing_parts pytesseract pillow (if pytesseract then found else none))
unfolding usable missing_parts
usable-missing_parts true true none = refl
usable-missing_parts true true (some v) = refl
usable-missing_parts true false none = refl
usable-missing_parts true false (some v) = refl
usable-missing_parts false true none = refl
usable-missing_parts false true (some v) = refl
usable-missing_parts false false none = refl
usable-missing_parts false false (some v) = refl

-- The status says that recognition is available just when the real backend is the one chosen.
ocr_status-get_ocr_backend :
    (h : Host) → get_ocr_backend h true ≡ (if (ocr_status h).available then tesseract else null)
unfolding get_ocr_backend ocr_status
ocr_status-get_ocr_backend h =
    ap (λ b. if b then tesseract else null)
      (usable-missing_parts h.has_pytesseract h.has_pillow
        (h.tesseract_version (resolve_tesseract_cmd h)))
