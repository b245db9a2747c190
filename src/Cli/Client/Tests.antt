-- ===== src/Cli/Client/Tests.antt =====
-- The exit code of a reply that says that a route is not there yet.
use bazel_broker.Common.{ℕ, ◌≡◌, ◌↔◌, none, [], GoString}
use bazel_broker.Cli.Client.{Reply, reply, do_request, exit_code_for}
use bazel_broker.Cli.Client.Laws.{HasStatus, exit_codes}

abbrev not_yet : Reply ℕ
not_yet = reply 501 none [] none

abbrev trim_space : GoString → GoString
trim_space text = text

exit_codes_example : exit_code_for (do_request trim_space not_yet) ≡ 6 ↔ HasStatus 501 not_yet
exit_codes_example = (exit_codes trim_space not_yet).3
