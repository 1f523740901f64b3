-- ===== src/Backup/Gate/Whole.antt =====
-- `handleBackup` of internal/web/server.go where no call of the database fails.
use ngm.Base.{◌⊎◌, inl, inr, ℕ, ◌≡◌, refl, true, map, none, ok, return, try, ◌>>=◌}
use mathlib.Core.List.{Perm}
use ngm.Text.{Text, text, text_eq}
use ngm.Store.Db.{Db}
use ngm.Web.Session.{Session}
use ngm.Web.Login.{Method, method_get, method_post, method_other}
use ngm.Web.Forms.{Form}
use ngm.Backup.{Manifest, Dump, BackupOptions}
use ngm.Backup.Build.{build_dump}
use ngm.Backup.Build.Whole.{own_fields, rows_of, build_dump-whole}
use ngm.Backup.Gate.{
  BackupReply, BackupHost, served, scope_asked, user_asked, pass, pass_if, gate, options, reply_of,
  after_gate, backup_of, backup_by, handle_backup,
}

gate-all :
    (host : BackupHost) (sess : Session) (scope user : Text) (db : Db)
    → text_eq sess.role (text "admin") ≡ true
    → scope ≡ text "all"
    → gate host sess scope user db ≡ (ok pass, db)
unfolding gate pass_if return text_eq text
gate-all host sess scope user db admin e = rw (e, admin) refl

after_gate-served :
    (host : BackupHost) (opts : BackupOptions) (db : Db) (m : Manifest) (d : Dump)
    → (build_dump host.fault host.range_map opts db).0 ≡ ok (m, d)
    → (after_gate host opts pass db).0 ≡ ok (served m d)
unfolding after_gate reply_of return try ◌>>=◌
after_gate-served host opts db m d e = rw e refl

backup_of-served :
    (host : BackupHost) (sess : Session) (r : Form) (db : Db) (m : Manifest) (d : Dump)
    → text_eq sess.role (text "admin") ≡ true
    → scope_asked sess r ≡ text "all"
    → (build_dump host.fault host.range_map
        (options host r (scope_asked sess r) (user_asked sess r))
        db).0
      ≡ ok (m, d)
    → (backup_of host sess r db).0 ≡ ok (served m d)
unfolding backup_of ◌>>=◌
backup_of-served host sess r db m d admin all e =
    rw (gate-all host sess (scope_asked sess r) (user_asked sess r) db admin all)
      (after_gate-served host _ db m d e)

by_method :
    (host : BackupHost) (method : Method) (sess : Session) (r : Form) (db : Db)
    (reply : BackupReply)
    → (method ≡ method_get) ⊎ (method ≡ method_post)
    → (backup_of host sess r db).0 ≡ ok reply
    → (backup_by host method sess r db).0 ≡ ok reply
unfolding backup_by
by_method host method_get sess r db reply h e = e
by_method host method_post sess r db reply h e = e
by_method host method_other sess r db reply (inl h) e = cc
by_method host method_other sess r db reply (inr h) e = cc

-- Where no call of the database fails, an administrator who asks for all, by GET or POST, is served a
-- backup that holds each panel user once, with its name, password hash, role, state and system user;
-- the name of its reseller, which the backup adds, is left aside.
pub handle_backup-whole :
    (host : BackupHost) (sess : Session) (r : Form) (db : Db)
    → ((n : ℕ) → host.fault n ≡ none)
    → text_eq sess.role (text "admin") ≡ true
    → scope_asked sess r ≡ text "all"
    → (r.method ≡ method_get) ⊎ (r.method ≡ method_post)
    → (m : Manifest) × (d : Dump) × ((handle_backup host sess r db).0 ≡ ok (served m d))
      × Perm (map own_fields d.panel_users) (rows_of db.panel_users)
unfolding handle_backup options
handle_backup-whole host sess r db no_fault admin all get =
    let ((m, d), ran, holds) =
      build_dump-whole host.fault no_fault host.range_map
        (options host r (scope_asked sess r) (user_asked sess r)) db all in
    (
      m,
      d,
      by_method host r.method sess r db (served m d) get
          (backup_of-served host sess r db m d admin all ran),
      holds,
    )
