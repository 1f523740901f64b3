-- ===== src/Nginx/Control.antt =====
-- `TestConfig`, `Reload`, `Start` and `ReloadOrStart` of internal/nginx/manager.go.
pub mod Frame
use ngm.Base.{
  ℕ, Bool, true, false, ◌&&◌, ◌||◌, List, [], ◌∷◌, ◌++◌, Option, none, some, if◌then◌else◌, Error,
  Result, ok, err, errorf, wrap, wrapping, return, fail, try, ◌>>=◌, ◌>>◌, String,
}
use ngm.Text.{Text, text, text_eq, is_empty, trim_space, to_lower, contains}
use ngm.Os.{Env, Io, CmdResult, tick}
use ngm.Nginx.{Manager}

-- `CmdOutputError.Error`
unfoldable pub cmd_output_error : Text → CmdResult → Error → Error
cmd_output_error cmd res e = errorf (cmd ++ (text ": " ++ (e.message ++ (err_part ++ out_part))))
  where
    er : Text
    er = trim_space res.stderr

    out : Text
    out = trim_space res.stdout

    err_part : Text
    err_part = if is_empty er then [] else text "\n--- stderr ---\n" ++ er

    out_part : Text
    out_part = if is_empty out then [] else text "\n--- stdout ---\n" ++ out

unfoldable pub has : Text → String → Bool
unfolding contains text
has s literal = contains s (text literal)

unfoldable pub is_reload_recoverable : Text → Bool
unfolding has to_lower
is_reload_recoverable msg =
    has s "invalid pid number"
    || (has s "open()" && has s "pid")
    || (has s "pid" && has s "no such file or directory")
  where
    s : Text
    s = to_lower msg

module _ (env : Env) (m : Manager) where
  unfoldable pub run_cmd : List Text → Io CmdResult
  run_cmd argv w = (ok (env.run w.clock argv w.files), tick w)

  -- What a command's outcome is to its caller.
  unfoldable pub outcome : Text → Option Text → CmdResult → Io (Unit {0})
  outcome cmd prefix res = elim res.failure [
    | none ↦ return tt
    | some e ↦ elim prefix [
      | none ↦ fail (cmd_output_error cmd res e)
      | some p ↦ fail (cmd_output_error cmd res (wrap p e))
    ]
  ]

  unfoldable pub test_config : Io (Unit {0})
  test_config = do
    res ← run_cmd (m.bin ∷ text "-t" ∷ text "-c" ∷ m.main_conf ∷ [])
    outcome (m.bin ++ (text " -t -c " ++ m.main_conf)) none res

  unfoldable pub reload_signal : Io (Unit {0})
  reload_signal = do
    res ← run_cmd (m.bin ∷ text "-s" ∷ text "reload" ∷ [])
    outcome (m.bin ++ text " -s reload") none res

  unfoldable pub start_signal : Io (Unit {0})
  start_signal = do
    res ← run_cmd (m.bin ∷ text "-c" ∷ m.main_conf ∷ [])
    outcome (m.bin ++ (text " -c " ++ m.main_conf)) none res

  unfoldable pub systemctl : Text → Io (Unit {0})
  systemctl verb = do
    res ← run_cmd (text "systemctl" ∷ verb ∷ m.service_name ∷ [])
    outcome (text "systemctl " ++ (verb ++ (text " " ++ m.service_name)))
        (some (text "systemctl " ++ (verb ++ (text " " ++ (m.service_name ++ text " failed: ")))))
        res

  unfoldable pub reload_systemd : Io (Unit {0})
  reload_systemd = systemctl (text "reload")

  unfoldable pub start_systemd : Io (Unit {0})
  start_systemd = systemctl (text "start")

  unfoldable pub active_answer : CmdResult → Io Bool
  unfolding has
  active_answer res = elim res.failure [
    | none ↦ return (has out "active")
    | some e ↦
        if has out "inactive" || has out "failed" || has out "unknown"
        then return false
        else fail (cmd_output_error (text "systemctl is-active " ++ m.service_name) res e)
  ]
    where
      out : Text
      out = to_lower (trim_space (res.stdout ++ (text "\n" ++ res.stderr)))

  unfoldable pub systemd_is_active : Io Bool
  systemd_is_active = do
    res ← run_cmd (text "systemctl" ∷ text "is-active" ∷ m.service_name ∷ [])
    active_answer res

  unfoldable pub by_mode {ℓ} : {A : Type ℓ} → A → A → A
  unfolding text_eq
  by_mode systemd signal = if text_eq m.reload_mode (text "systemd") then systemd else signal

  unfoldable pub reload : Io (Unit {0})
  reload = by_mode reload_systemd reload_signal

  unfoldable pub start : Io (Unit {0})
  start = by_mode start_systemd start_signal

  unfoldable pub reload_or_start_systemd : Io (Unit {0})
  reload_or_start_systemd = do
    active ← systemd_is_active
    if active then reload_systemd else start_systemd

  unfoldable pub migrate_advice : Error
  migrate_advice = errorf (
      text "nginx reload failed with an invalid pid while reload_mode=signal on a "
      ++ (text "systemd-managed host; set nginx.apply.reload_mode=systemd (service_name=\""
          ++ (m.service_name ++ text "\") to migrate safely")))

  -- What follows a reload by signal.
  unfoldable pub recover : Result (Unit {0}) → Io (Unit {0})
  recover (ok u) = return tt
  recover (err e) =
      if is_reload_recoverable e.message
      then if env.systemd_host
        then fail migrate_advice
        else wrapping (text "nginx start failed after reload fallback: ") start_signal
      else fail e

  unfoldable pub reload_or_start_signal : Io (Unit {0})
  reload_or_start_signal = do r ← try reload_signal; recover r

  unfoldable pub reload_or_start : Io (Unit {0})
  reload_or_start = by_mode reload_or_start_systemd reload_or_start_signal
