-- ===== src/Lib.antt =====
-- ngm: the control plane of an nginx host.
--
-- The repository renders one nginx configuration file per domain, publishes it, tests and reloads
-- nginx, and rolls back when nginx refuses. This library models that pipeline and proves what it
-- does to the files on every path, with system calls and commands that may fail at any point.
--
-- Base: shared names, Boolean tests, lists, and the monad of code that may fail with a Go error.
-- Text: Go strings as lists of bytes, read as ASCII, with the functions of `strings` that are called.
-- Os: the environment and internal/util/utilities.go. Every system call is numbered; `fault` says
--   whether the n-th one fails. A file is named by its role (live, staged, backup, temporary).
--   Directories, permissions and what is printed are left out.
-- Names: MakeUpstreamKey of internal/nginx/types.go; makeKey and the paths of internal/fpm/ensure.go.
-- Nginx: internal/nginx/types.go and internal/nginx/manager.go. Nginx/Render is
--   RenderSiteToStaging, Nginx/Control is TestConfig, Reload, Start and ReloadOrStart. The template
--   engine and the embedded template are a parameter.
-- Store: the rows of internal/store/store.go and the part of SiteStore that the apply pipeline calls.
--   Store/Db is internal/store/sqlite/sqlite.go over lists of rows: every statement is one numbered
--   call that may fail and then changes nothing, and a transaction that does not commit is undone.
--   A time is the number of the call; PHP versions are a list instead of its JSON.
-- Dns: internal/dns/types.go and provider.go. Dns/Records and Dns/Zone are
--   internal/dns/bind/zonefile.go, Dns/Include is namedconf.go, Dns/Bind and Dns/Entry are bind.go.
--   The record DnsLib stands for the library that parses and prints records. Where bind.go
--   dereferences a record that the library did not return, the operation ends with `panicked`.
-- Apply: internal/app/apply.go. Apply/One is applyOne, Apply/Batch is Apply, Apply/Needs is
--   siteNeedsApply and computeSiteState. What is relied on of buildTemplateData is the record
--   BuildsFor.
-- Template: buildTemplateData of internal/app/template.go. Template/Pool is its PHP part. What openssl
--   writes is an argument of it.
-- Config: internal/config/config.go: defaults, validation, loading and the directories. A problem is a
--   value instead of its text; the YAML decoder and net.ParseCIDR are arguments.
-- Auth: internal/auth/shadow.go, with the hash functions as an argument.
-- Web: internal/web/session.go, and of internal/web/server.go the login, the logout and the tests of
--   who may see or manage what. Store/PanelUsers is the table that the login works on. Web/Forms is how
--   a form is read and answered; Web/Sites, Web/Users and Web/Packages are the handlers, over the
--   database and the files of Sites/Panel.
-- Sites: of internal/app/site.go the checks of a domain and of its parent, and the default webroot.
--   Sites/Checks and Sites/Add are SiteAdd, Sites/Edit and Sites/Delete its siblings, over the database and
--   the files of Sites/Panel; internal/users, Apply and CertIssue are fields of SiteHost. Sites/Lists
--   is SiteList and DNSList. Sites/Overrides reads and writes the php.ini overrides.
-- Backup: types.go and buildDump of backup.go in internal/backup, over the same database.
--   Backup/Scope is whom a backup takes in; Backup/Gate is handleBackup of internal/web/server.go. The
--   order in which Go ranges over a map is an argument.
-- Fpm: internal/fpm/ensure.go, pools.go and systemd.go, over the same files and commands.
-- Ini: of internal/app/template.go the parser of the overrides, of times and of the owner of a path.
-- Scenario: concrete hosts and files, on which the theorems are applied.
--
-- Times are numbers of seconds, but in Store/Db. Every loop is a recursion on a list, so no fuel is
-- needed. Applies exclude one another by a mutex, so one apply is a sequence of calls, and the other
-- operations are taken one at a time.
-- Not modelled: what the web interface's pages show, the command line's printing, the bootstrap of a
-- host, certificates, the system users, the archive that a backup is written to, the restore of one, and the
-- MySQL store.
pub mod Config
pub mod Base
pub mod Text
pub mod Names
pub mod Os
pub mod Nginx
pub mod Store
pub mod Apply
pub mod Template
pub mod Ini
pub mod Fpm
mod Scenario
pub mod Web
pub mod Sites
pub mod Auth
pub mod Dns
pub mod Backup
