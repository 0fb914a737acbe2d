-- ===== src/Audit/Redact/Tests.antt =====
-- Redaction at concrete texts.
use desktop_worker.Prelude.{◌≡◌, refl}
use desktop_worker.Audit.Redact.{redact}
use desktop_worker.Regex.{matches}

named_secret : redact "run API_KEY = abc123 now" ≡ "run API_KEY = ***REDACTED*** now"
unfolding redact matches
named_secret = refl

openai_key : redact "(sk-abcdefgh1)" ≡ "(***REDACTED_KEY***)"
unfolding redact matches
openai_key = refl

bearer : redact "Authorization Bearer a.b-c;" ≡ "Authorization Bearer ***REDACTED***;"
unfolding redact matches
bearer = refl
