-- ===== src/Disk.antt =====
-- The file system that infrastructure/fs, infrastructure/scheduler and infrastructure/http use, as an
-- interface: the calls of Go's os and path/filepath packages, with what they promise.
use codeburn_watcher.Prelude.{◌≡◌, ◌≢◌, Option, some, [], ◌++◌, Text}
use codeburn_watcher.Prelude.Results.{Result, ok}
use codeburn_watcher.Prelude.Actions.{Action}

-- An error of os.ReadFile; os.IsNotExist tells the first.
pub data ReadError : Type 0 where
  not_exist : Text → ReadError
  unreadable : Text → ReadError

abbrev pub message : ReadError → Text
message (not_exist m) = m
message (unreadable m) = m

-- `content` is what a file holds; `create` truncates the file, `append` writes to it.
pub record Disk (S : Type 0) : Type 0 where
  pub content : S → Text → Option Text
  pub join_path : Text → Text → Text
  pub dir_of : Text → Text
  pub stat : Text → S → Result Text (Unit {0})
  pub read_file : Text → S → Result ReadError Text
  pub mkdir_all : Text → Action S (Unit {0})
  pub create : Text → Action S (Unit {0})
  pub append : Text → Text → Action S (Unit {0})
  pub write_file : Text → Text → Action S (Unit {0})
  pub remove : Text → Action S (Unit {0})

-- A call without an error: a file that is read is what it holds, a file that is written holds what was
-- written, and every other file holds what it held.
pub record IsDisk {S : Type 0} (d : Disk S) : Type 0 where
  pub read-content : (p t : Text) (s : S) → d.read_file p s ≡ ok t → d.content s p ≡ some t
  pub content-mkdir_all : (p q : Text) (s : S) → d.content (d.mkdir_all p s).1 q ≡ d.content s q
  pub content-create : (p : Text) (s s' : S) → d.create p s ≡ (ok tt, s') → d.content s' p ≡ some []
  pub content-create_other :
      (p q : Text) (s : S) → q ≢ p → d.content (d.create p s).1 q ≡ d.content s q
  pub content-append :
      (p t u : Text) (s s' : S)
      → d.append p t s ≡ (ok tt, s')
      → d.content s p ≡ some u
      → d.content s' p ≡ some (u ++ t)
  pub content-append_other :
      (p q t : Text) (s : S) → q ≢ p → d.content (d.append p t s).1 q ≡ d.content s q
  pub content-write_file :
      (p t : Text) (s s' : S) → d.write_file p t s ≡ (ok tt, s') → d.content s' p ≡ some t
  pub content-write_file_other :
      (p q t : Text) (s : S) → q ≢ p → d.content (d.write_file p t s).1 q ≡ d.content s q
