-- ===== src/Backup/Gate.antt =====
-- `handleBackup` of internal/web/server.go: whom a session may back up. The reply is the dump that
-- `Create` of internal/backup/backup.go puts into the archive; the files beside it are left out.
pub mod Laws
pub mod Whole
pub mod Reach
pub mod Scopes
use ngm.Base.{
  ℕ, Bool, true, false, not, ◌&&◌, ◌||◌, List, [], ◌∷◌, Option, none, some, Error, Result, ok, err,
  if◌then◌else◌, return, try, ◌>>=◌, ◌>>◌,
}
use ngm.Text.{Text, text, text_eq, is_empty, trim_space}
use ngm.Store.{User, PanelUser}
use ngm.Store.Db.{Db, Sql, Lookup, found, no_rows, failed}
use ngm.Store.Db.PanelUsers.{panel_user_named}
use ngm.Web.Session.{Session}
use ngm.Web.Login.{Method, method_get, method_post, method_other}
use ngm.Web.Access.{is_id}
use ngm.Web.Forms.{Form, query_value, parse_bool}
use ngm.Backup.{Manifest, Dump, BackupOptions}
use ngm.Backup.Build.{build_dump}

pub data BackupReply : Type 0 where
  refused : ℕ → Text → BackupReply
  served : Manifest → Dump → BackupReply

-- What the server adds to the request.
pub record BackupHost : Type 0 where
  pub fault : ℕ → Option Text
  pub range_map : List User → List User
  pub node_id : Text
  pub driver : Text
  pub home_root : Text
  pub certs_root : Text
  pub now : ℕ

-- The default is what the role may see.
unfoldable pub default_scope : Text → Text
default_scope role =
    if text_eq role (text "user")
    then text "user"
    else if text_eq role (text "reseller")
    then text "reseller"
    else text "all"

unfoldable pub scope_asked : Session → Form → Text
scope_asked sess r =
    if is_empty (trim_space (query_value (text "scope") r))
    then default_scope sess.role
    else trim_space (query_value (text "scope") r)

unfoldable pub user_asked : Session → Form → Text
user_asked sess r =
    if is_empty (trim_space (query_value (text "user") r))
    then sess.username
    else trim_space (query_value (text "user") r)

-- `err != nil || pu.ResellerID == nil || *pu.ResellerID != sess.UserID`, the other way round.
unfoldable pub is_under : Session → Lookup PanelUser → Bool
is_under sess (found pu) = is_id pu.reseller_id sess.user_id
is_under sess no_rows = false
is_under sess (failed e) = false

-- The answer of a gate: pass, forbidden, or a scope that is not known.
pub data Passage : Type 0 where
  pass : Passage
  forbidden : Passage
  invalid_scope : Passage

unfoldable pub pass_if : Bool → Passage
pass_if true = pass
pass_if false = forbidden

module _ (host : BackupHost) where
  open host use {fault}

  unfoldable pub under_gate : Session → Text → Sql Passage
  under_gate sess user = λ db.
      let (row, db') = panel_user_named fault user db in (ok (pass_if (is_under sess row)), db')

  unfoldable pub user_gate : Session → Text → Sql Passage
  user_gate sess user =
      if text_eq sess.role (text "user") && not (text_eq user sess.username)
      then return forbidden
      else if text_eq sess.role (text "reseller")
      then under_gate sess user
      else return pass

  unfoldable pub gate : Session → Text → Text → Sql Passage
  gate sess scope user =
      if text_eq scope (text "all")
      then return (pass_if (text_eq sess.role (text "admin")))
      else if text_eq scope (text "reseller")
      then return (
          pass_if (
            text_eq sess.role (text "admin")
            || (text_eq sess.role (text "reseller") && text_eq user sess.username)))
      else if text_eq scope (text "user")
      then user_gate sess user
      else return invalid_scope

  unfoldable pub options : Form → Text → Text → BackupOptions
  options r scope user = record {
    scope = scope;
    username = user;
    include_certs = parse_bool (query_value (text "include_certs") r) false;
    node_id = host.node_id;
    driver = host.driver;
    home_root = host.home_root;
    certs_root = host.certs_root;
    now = host.now;
  }

  unfoldable pub reply_of : Result (Manifest × Dump) → BackupReply
  reply_of (ok (m, d)) = served m d
  reply_of (err e) = refused 500 e.message

  unfoldable pub after_gate : BackupOptions → Passage → Sql BackupReply
  after_gate opts pass = do
    built ← try (build_dump fault host.range_map opts)
    return (reply_of built)
  after_gate opts forbidden = return (refused 403 (text "forbidden"))
  after_gate opts invalid_scope = return (refused 400 (text "invalid scope"))

  unfoldable pub backup_of : Session → Form → Sql BackupReply
  backup_of sess r = do
    p ← gate sess (scope_asked sess r) (user_asked sess r)
    after_gate (options r (scope_asked sess r) (user_asked sess r)) p

  unfoldable pub backup_by : Method → Session → Form → Sql BackupReply
  backup_by method_get sess r = backup_of sess r
  backup_by method_post sess r = backup_of sess r
  backup_by method_other sess r = return (refused 405 (text "method not allowed"))

  unfoldable pub handle_backup : Session → Form → Sql BackupReply
  handle_backup sess r = backup_by r.method sess r
