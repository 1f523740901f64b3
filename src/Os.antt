-- ===== src/Os.antt =====
-- The operating system as the program uses it: files, calls that may fail, commands; and
-- internal/util/utilities.go, whose `WriteFileAtomic` all writers of configuration go through.
--
-- A configured directory and a domain name one file: `live d` is SitesDir/d.conf, `staged d` is
-- StageDir/sites/d.conf and `backup d` is BackupDir/d.conf.bak. The three directories are distinct.
-- `temp n` is the file that the n-th call made by `os.CreateTemp`, `other p` any other file.
pub mod Paths
pub mod Atomic
pub mod Frame
use Paths.{FilePath, temp, path_eq}
use ngm.Base.{
  ℕ, zero, suc, ◌≡◌, Bool, true, false, ◌||◌, List, [], ◌∷◌, ◌++◌, Option, none, some,
  if◌then◌else◌, Error, Result, ok, err, M, errorf, wrap, wrapping, return, fail, ◌>>=◌, ◌>>◌,
}
use ngm.Text.{is_empty, text_eq, Text, text}

pub record CmdResult : Type 0 where
  pub stdout : Text
  pub stderr : Text
  pub failure : Option Error

-- What the environment answers. Calls are numbered in the order in which they are made, and each
-- may fail. `run` is `util.Run`: a command's outcome, given the files it finds.
pub record Env : Type 0 where
  pub fault : ℕ → Option Text
  pub short_write : ℕ → ℕ
  pub run : ℕ → List Text → (FilePath → Option Text) → CmdResult
  pub path_text : FilePath → Text
  pub dir_text : FilePath → Text
  -- Whether /run/systemd/system is a directory.
  pub systemd_host : Bool

pub record World : Type 0 where
  pub files : FilePath → Option Text
  pub clock : ℕ

abbrev pub Io : Type 0 → Type 0
Io A = M World A

abbrev pub tick : World → World
tick w = record w { clock = suc w.clock }

abbrev pub put : FilePath → Option Text → World → World
put p content w = record w { files = λ q. if path_eq p q then content else w.files q }

-- `os.ErrNotExist`, as a call on a missing file returns it.
abbrev pub missing : Error
missing = record { not_exist = true; message = text "file does not exist" }

abbrev take : ℕ → Text → Text
take zero s = []
take (suc n) [] = []
take (suc n) (c ∷ s) = c ∷ take n s

module _ (env : Env) where
  -- A system call with no effect on files: mkdir, chmod, fsync, close.
  unfoldable pub call : Io (Unit {0})
  call w = elim (env.fault w.clock) [ none ↦ (ok tt, tick w) | some m ↦ (err (errorf m), tick w) ]

  unfoldable pub found : Option Text → Io Text
  found none w = (err missing, w)
  found (some content) w = (ok content, w)

  unfoldable pub read_file : FilePath → Io Text
  unfolding call found
  read_file p = do call; (λ w. found (w.files p) w)

  unfoldable pub stat : FilePath → Io (Unit {0})
  unfolding read_file
  stat p = do read_file p; return tt

  unfoldable pub remove : FilePath → Io (Unit {0})
  unfolding read_file
  remove p = do read_file p; (λ w. (ok tt, put p none w))

  unfoldable pub create_temp : Io ℕ
  unfolding call
  create_temp w = (do call; (λ w'. (ok w.clock, put (temp w.clock) (some []) w'))) w

  -- A write that fails leaves a part of the data.
  unfoldable pub write : ℕ → Text → Io (Unit {0})
  write n data' w = elim (env.fault w.clock) [
    | none ↦ (ok tt, put (temp n) (some data') (tick w))
    | some m ↦ (err (errorf m), put (temp n) (some (take (env.short_write w.clock) data')) (tick w))
  ]

  unfoldable pub rename : ℕ → FilePath → Io (Unit {0})
  unfolding read_file
  rename n p = do
    content ← read_file (temp n)
    (λ w. (ok tt, put p (some content) (put (temp n) none w)))

  -- `util.MkdirAll`. Directories are not part of the model: the call succeeds or fails, and is not made
  -- for an empty directory or a dot.
  unfoldable pub mkdir_all : Text → Io (Unit {0})
  mkdir_all dir =
      if is_empty dir || text_eq dir (text ".")
      then return tt
      else wrapping (text "mkdirall " ++ (dir ++ text ": ")) call

  unfoldable pub fill_temp : ℕ → Text → Io (Unit {0})
  unfolding call write
  fill_temp n data' = do
    wrapping (text "chmod temp: ") call
    wrapping (text "write temp: ") (write n data')
    wrapping (text "sync temp: ") call
    wrapping (text "close temp: ") call

  unfoldable pub fill_and_rename : ℕ → FilePath → Text → Io (Unit {0})
  fill_and_rename n p data' = do
    fill_temp n data'
    wrapping (text "rename " ++ env.path_text p) (rename n p)

  -- The deferred function: the temporary file goes, unless it was renamed.
  unfoldable pub discard_on_error : ℕ → Result (Unit {0}) × World → Result (Unit {0}) × World
  discard_on_error n (ok u, w) = (ok u, w)
  discard_on_error n (err e, w) = (err e, (remove (temp n) w).1)

  unfoldable pub write_file_atomic : FilePath → Text → Io (Unit {0})
  unfolding mkdir_all create_temp
  write_file_atomic p data' = do
    mkdir_all (env.dir_text p)
    n ← wrapping (text "create temp in " ++ env.dir_text p) create_temp
    (λ w. discard_on_error n (fill_and_rename n p data' w))
