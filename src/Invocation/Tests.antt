-- ===== src/Invocation/Tests.antt =====
-- One state of the diagram.
use superlily.Base.{◌≡◌, not}
use superlily.Invocation.{is_terminal, lease_expired}
use superlily.Invocation.Graph.{has_exit, terminal_iff_no_exit}

terminal_iff_no_exit_example : has_exit lease_expired ≡ not (is_terminal lease_expired)
terminal_iff_no_exit_example = terminal_iff_no_exit lease_expired
