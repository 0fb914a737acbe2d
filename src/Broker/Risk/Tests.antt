-- ===== src/Broker/Risk/Tests.antt =====
-- The classifier on the commands that the comments of risk.py name.
use desktop_worker.Prelude.{◌≡◌, refl}
use desktop_worker.Prelude.Text.{lower, strip}
use desktop_worker.Regex.{search_from}
use desktop_worker.Safety.Policy.{low, medium, high}
use desktop_worker.Broker.Risk.{classify_command, any_searches}

type_readme : classify_command "type readme.md" ≡ low
unfolding classify_command lower strip any_searches search_from
type_readme = refl

delete_file : classify_command "DEL a.txt" ≡ high
unfolding classify_command lower strip any_searches search_from
delete_file = refl

output_format : classify_command "tool --output-format x" ≡ low
unfolding classify_command lower strip any_searches search_from
output_format = refl

net_start : classify_command "net  start spooler" ≡ medium
unfolding classify_command lower strip any_searches search_from
net_start = refl

windows_folder : classify_command "dir C:\\Windows" ≡ high
unfolding classify_command lower strip any_searches search_from
windows_folder = refl
