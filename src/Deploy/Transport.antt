-- ===== src/Deploy/Transport.antt =====
-- infrastructure/http/export_transport.go: an export is posted to a URL or written to a folder.
use codeburn_watcher.Prelude.{
  Bool, ℕ, Option, none, some, ◌++◌, Text, codes, has_prefix, leb, if◌then◌else◌,
}
use codeburn_watcher.Prelude.Results.{Result, ok, err}
use codeburn_watcher.Prelude.Actions.{Action}
use codeburn_watcher.Prelude.Runs.{Run, pure, fail, panic, lift, reads, run, wrap, ◌>>=◌, ◌>>◌}
use codeburn_watcher.Disk.{Disk, message}

-- http.Client, of which the code sets the timeout.
pub record Client : Type 0 where
  pub timeout_seconds : ℕ

pub record Request : Type 0 where
  pub method : Text
  pub url : Text
  pub content_type : Text
  pub body : Text

pub record WebResponse : Type 0 where
  pub status_code : ℕ
  pub body : Result Text Text

-- The calls of mime/multipart and net/http. The buffer of a form is a text; `itoa` is the verb %d.
pub record Web (S : Type 0) : Type 0 where
  pub create_form_file : Text → Text → Result Text Text
  pub copy : Text → Text → Result Text Text
  pub close : Text → Text
  pub form_data_content_type : Text
  pub new_request : Text → Text → Text → Result Text Request
  pub send : Client → Request → Action S WebResponse
  pub itoa : ℕ → Text

-- Client is a pointer, which may be nil.
pub record HttpExportTransport : Type 0 where
  pub client : Option Client

abbrev pub new_http_transport : HttpExportTransport
new_http_transport = record { client = some (record { timeout_seconds = 30 }) }

module _ {S : Type 0} (web : Web S) where
  -- t.Client.Do(req), which panics on a nil client.
  abbrev do_request : HttpExportTransport → Request → Run S WebResponse
  do_request t req = elim t.client [ none ↦ panic | some client ↦ run (web.send client req) ]

  abbrev check_status : Text → WebResponse → Run S (Unit {0})
  check_status prefix resp =
      if leb 300 resp.status_code
      then fail (prefix ++ (codes ": server returned " ++ web.itoa resp.status_code))
      else pure tt

  unfoldable pub http_push : HttpExportTransport → Text → Text → Text → Run S (Unit {0})
  http_push t filename body url = do
    header ← wrap (codes "create form file: ") (lift (web.create_form_file (codes "file") filename))
    buf ← wrap (codes "write form file: ") (lift (web.copy header body))
    req ←
        wrap (codes "create request: ") (lift (web.new_request (codes "POST") url (web.close buf)))
    resp ←
        wrap (codes "http push: ")
          (do_request t (record req { content_type = web.form_data_content_type }))
    check_status (codes "http push") resp

  unfoldable pub http_fetch_config : HttpExportTransport → Text → Run S Text
  http_fetch_config t url = do
    req ← wrap (codes "create request: ") (lift (web.new_request (codes "GET") url (codes "")))
    resp ← wrap (codes "fetch config: ") (do_request t req)
    check_status (codes "fetch config") resp
    wrap (codes "read config body: ") (lift resp.body)

module _ {S : Type 0} (d : Disk S) where
  unfoldable pub filesystem_push : Text → Text → Text → Run S (Unit {0})
  filesystem_push filename body destination = do
    wrap (codes "mkdir " ++ (destination ++ codes ": ")) (run (d.mkdir_all destination))
    run (d.write_file (d.join_path destination filename) body)

  unfoldable pub filesystem_fetch_config : Text → Run S Text
  filesystem_fetch_config url =
      wrap (codes "read config file: ")
        (reads (λ s. elim (d.read_file url s) [ ok t ↦ ok t | err e ↦ err (message e) ]))

-- strings.HasPrefix(destination, "http")
abbrev pub is_http : Text → Bool
is_http destination = has_prefix (codes "http") destination

-- CompositeExportTransport; its file system has no fields.
module _ {S : Type 0} (web : Web S) (d : Disk S) where
  unfoldable pub composite_push : HttpExportTransport → Text → Text → Text → Run S (Unit {0})
  composite_push http filename body destination =
      if is_http destination
      then http_push web http filename body destination
      else filesystem_push d filename body destination

  unfoldable pub composite_fetch_config : HttpExportTransport → Text → Run S Text
  composite_fetch_config http url =
      if is_http url then http_fetch_config web http url else filesystem_fetch_config d url
