-- ===== src/Nginx/Control/Frame.antt =====
-- The commands that test, reload and start nginx leave every file of the model alone.
use ngm.Base.{Option, none, some, List, Result, ok, err, refl, Error}
use ngm.Text.{Text, text, text_eq}
use ngm.Os.Paths.{FilePath}
use ngm.Os.{Env, CmdResult}
use ngm.Os.Frame.{Keeps, >>=-Keeps, wrapping-Keeps, try-Keeps, if-Keeps, return-Keeps, fail-Keeps}
use ngm.Nginx.{Manager}
use ngm.Nginx.Control.{
  run_cmd, outcome, test_config, reload_signal, start_signal, systemctl, reload_systemd,
  start_systemd, active_answer, systemd_is_active, by_mode, reload_or_start,
  reload_or_start_systemd, reload_or_start_signal, recover, is_reload_recoverable,
}

module _ (env : Env) (m : Manager) {q : FilePath} where
  run_cmd-Keeps : (argv : List Text) → Keeps q (run_cmd env m argv)
  unfolding run_cmd
  run_cmd-Keeps argv = record { kept = λ w. refl }

  outcome-Keeps :
      (cmd : Text) (prefix : Option Text) (res : CmdResult) → Keeps q (outcome env m cmd prefix res)
  unfolding outcome
  outcome-Keeps cmd prefix res = split res.failure prefix
    where
      split :
          (f : Option Error) (p : Option Text)
          → Keeps q (outcome env m cmd p (record res { failure = f }))
      split none p = return-Keeps _
      split (some e) none = fail-Keeps _
      split (some e) (some p) = fail-Keeps _

  pub test_config-Keeps : Keeps q (test_config env m)
  unfolding test_config
  test_config-Keeps = >>=-Keeps (run_cmd-Keeps _) λ res. outcome-Keeps _ _ res

  reload_signal-Keeps : Keeps q (reload_signal env m)
  unfolding reload_signal
  reload_signal-Keeps = >>=-Keeps (run_cmd-Keeps _) λ res. outcome-Keeps _ _ res

  start_signal-Keeps : Keeps q (start_signal env m)
  unfolding start_signal
  start_signal-Keeps = >>=-Keeps (run_cmd-Keeps _) λ res. outcome-Keeps _ _ res

  systemctl-Keeps : (verb : Text) → Keeps q (systemctl env m verb)
  unfolding systemctl
  systemctl-Keeps verb = >>=-Keeps (run_cmd-Keeps _) λ res. outcome-Keeps _ _ res

  active_answer-Keeps : (res : CmdResult) → Keeps q (active_answer env m res)
  unfolding active_answer
  active_answer-Keeps res = split res.failure
    where
      split : (f : Option Error) → Keeps q (active_answer env m (record res { failure = f }))
      split none = return-Keeps _
      split (some e) = if-Keeps _ (return-Keeps _) (fail-Keeps _)

  reload_or_start_systemd-Keeps : Keeps q (reload_or_start_systemd env m)
  unfolding reload_or_start_systemd systemd_is_active reload_systemd start_systemd
  reload_or_start_systemd-Keeps =
      >>=-Keeps (>>=-Keeps (run_cmd-Keeps _) λ res. active_answer-Keeps res)
        λ active. if-Keeps active (systemctl-Keeps _) (systemctl-Keeps _)

  recover-Keeps : (r : Result (Unit {0})) → Keeps q (recover env m r)
  unfolding recover
  recover-Keeps (ok u) = return-Keeps _
  recover-Keeps (err e) =
      if-Keeps (is_reload_recoverable e.message)
        (if-Keeps env.systemd_host (fail-Keeps _) (wrapping-Keeps _ start_signal-Keeps))
        (fail-Keeps _)

  pub reload_or_start-Keeps : Keeps q (reload_or_start env m)
  unfolding reload_or_start by_mode reload_or_start_signal
  reload_or_start-Keeps =
      if-Keeps (text_eq m.reload_mode (text "systemd")) reload_or_start_systemd-Keeps
        (>>=-Keeps (try-Keeps reload_signal-Keeps) λ r. recover-Keeps r)
