-- ===== src/Tests/CommandRuns.antt =====
-- The theorems on the commands of application and their wiring at a concrete input.
use codeburn_watcher.Prelude.{
  ◌≡◌, refl, true, false, none, [], ◌∷◌, ◌++◌, Text, codes, text_eq, lookup, inl,
}
use codeburn_watcher.Prelude.Float.{Micro, micro_float}
use codeburn_watcher.Prelude.Results.{ok, err}
use codeburn_watcher.Prelude.Runs.{returned, failed}
use codeburn_watcher.Analytics.Metrics.{QueryWindow}
use codeburn_watcher.Analytics.Price.{new_pricing_service}
use codeburn_watcher.Team.Export.{ExportPayload}
use codeburn_watcher.Trust.{Keyring, canonicalize, sign, public_key_pem}
use codeburn_watcher.Team.Builder.{build, export_filename}
use codeburn_watcher.Team.Builder.Verified.{IsVerified}
use codeburn_watcher.Store.{load_events}
use codeburn_watcher.Insights.FollowThrough.Store.{
  load_records, upsert_records, replace_all, commit_all,
}
use codeburn_watcher.Insights.Recommendation.{enrich, number_from, enrich_key, blended_rates}
use codeburn_watcher.Insights.Finding.{active_of}
use codeburn_watcher.Prelude.Sort.{sort_by, insert_by}
use codeburn_watcher.Analytics.Engine.Compute.{compute}
use codeburn_watcher.Render.Format.{Printing}
use codeburn_watcher.Deploy.Settings.{DeployConfig, load_config}
use codeburn_watcher.Deploy.Unsent.{IsUnsent}
use codeburn_watcher.Scheduler.{linux}
use codeburn_watcher.Command.Deps.{AppDeps, Process, sync_action}
use codeburn_watcher.Command.Report.{prepare, push_export, push_command}
use codeburn_watcher.Command.Analyze.{AnalyzeQuery, analyze}
use codeburn_watcher.Command.Sent.{IsDelivered, push_command-IsSent}
use codeburn_watcher.Command.Unwired.{push_command-wired, analyze-wired}
use codeburn_watcher.Command.Wire.{Machine, wired}
use codeburn_watcher.Tests.TeamRuns.{toy, toy-IsCrypto, identity, private_key, made}
use codeburn_watcher.Tests.Desk.{half, Files, desk, desk_keys, desk_cron}

abbrev plain_printing : Printing Micro
plain_printing = record {
  int = λ z. codes "1";
  signed_int = λ z. codes "+1";
  fixed = λ n x. codes "1.0";
  int_padded = λ n z. codes " 1";
  left = λ n t. t;
  string_width = λ t. 1;
}

abbrev process : Process Files Micro
process = record {
  crypto = toy;
  printing = plain_printing;
  signed_fixed = λ n x. codes "+1.0";
  now = 0;
  now_text = codes "2026-01-01";
  rfc3339 = λ t. none;
  plain_time = λ t. none;
  minutes = λ z. z;
  home = ok (codes "home");
  executable = ok (codes "tm");
  join_path = λ a b. a ++ (codes "/" ++ b);
  getenv = λ v. [];
  in_path = λ c. true;
  exec_agent = λ a p s. (ok 0, s);
  stdout = λ t s. (ok tt, s);
  stderr = λ t s. s;
  write_file = λ p t s. (ok tt, (p, t) ∷ s);
  read_file = desk.read_file;
  encode_payload = λ p. ok (codes "{}\n");
  marshal_export = λ e. ok e.signature;
  indent_export = λ e. ok e.signature;
  indent_llm = λ p. ok (codes "{}");
  decode_export = λ t. err (codes "no export");
}

abbrev at_url : Text → DeployConfig
at_url url = record { username = codes "ann"; push_url = url; members = [] }

abbrev at_folder : DeployConfig
at_folder = at_url (codes "/srv")

-- Dependencies with a transport that writes files, an empty store of events and no records.
abbrev office : AppDeps Files Micro
office = record {
  load_events = λ f s. ok [];
  collect = λ source s. (ok [], s);
  load_records = λ s. ok [];
  upsert_records = λ r s. (ok tt, s);
  ensure_keypair = λ dir s. (err (codes "no key"), s);
  load_keypair = λ dir s. err (codes "no key");
  load_keyring = λ p s. ok [];
  push = λ name bytes url s. (returned tt, (url ++ name, bytes) ∷ s);
  fetch_config = λ url s. (failed (codes "no config"), s);
  load_config = λ s. ok at_folder;
  save_config = λ c s. (ok tt, s);
  install = λ p s. (ok tt, s);
  remove = λ s. (ok tt, s);
  pricing = new_pricing_service;
  agents = [];
  identity = identity;
  username = codes "ann";
}

abbrev week : QueryWindow
week = record { days = 7; project_filter = []; source_filter = [] }

abbrev delivered : Files
delivered = (codes "/srv" ++ export_filename (codes "ann") (codes "2026-01-01"), half ++ half) ∷ []

pushing : push_command process office week [] ≡ (returned tt, delivered)
unfolding push_command prepare push_export sync_action build canonicalize sign public_key_pem
pushing = refl

abbrev no_keys : Keyring
no_keys = []

unlisted : lookup (codes "ann") no_keys ≡ none
unfolding lookup
unlisted = refl

push_command-IsSent_example :
    (payload : ExportPayload Micro) × (t : Files) × (prepare process office week []
      ≡ (returned payload, t))
    × (sent : IsDelivered process office payload t delivered) × IsVerified toy
        process.encode_payload identity payload [] sent.export
push_command-IsSent_example =
    push_command-IsSent process office toy-IsCrypto week private_key [] [] delivered made
      (inl unlisted) pushing

-- A machine whose tables stay empty.
abbrev machine : Machine Files Micro
machine = record {
  events = record {
    rows = λ s. [];
    begin_tx = λ s. ok s;
    prepare = λ s. ok s;
    exec = λ r s. ok (s, 0);
    commit = λ s. ok s;
    failed_commit = λ s t. s;
    query = λ q s. ok ([], none);
  };
  records = record {
    row = λ k s. none;
    begin_tx = λ s. ok s;
    prepare = λ s. ok s;
    replace = λ r s. ok s;
    commit = λ s. ok s;
    failed_commit = λ s t. s;
    query = λ s. ok ([], none);
  };
  record_calls = record { format = λ n. []; parse = λ t. 0; key_name = λ k. [] };
  marshal = λ ts. [];
  unmarshal = λ t. [];
  cutoff = λ n. [];
  reports = λ s. [];
  disk = desk;
  keys = desk_keys;
  settings = record {
    home = ok (codes "home");
    encode = λ c. ok c.push_url;
    decode = λ t. ok (at_url t);
  };
  web = record {
    create_form_file = λ field name. ok name;
    copy = λ header body. ok (header ++ body);
    close = λ t. t;
    form_data_content_type = codes "multipart/form-data";
    new_request = λ method url body.
        ok (record { method = method; url = url; content_type = []; body = body });
    send = λ client req s. (ok (record { status_code = 200; body = ok [] }), s);
    itoa = λ n. [];
  };
  crontab = desk_cron;
  launchctl = record {
    load = λ p s. (ok tt, s);
    unload = λ p s. (ok tt, s);
    home = ok (codes "home");
  };
  system = linux;
  open_db = λ p s. (ok tt, s);
}

-- The settings file holds the URL.
abbrev settled : Files
settled = (codes "home/.token-monitor/config.json", codes "https://team.example") ∷ []

preparing :
    (payload : ExportPayload Micro) × (prepare process
        (wired process machine identity (codes "ann"))
        week
        settled
      ≡ (returned payload, settled))
unfolding prepare sync_action wired load_events load_records upsert_records replace_all commit_all
    compute enrich number_from enrich_key blended_rates active_of sort_by insert_by
preparing = (_, refl)

settled_config :
    load_config machine.disk machine.settings settled ≡ ok (at_url (codes "https://team.example"))
unfolding load_config lookup
settled_config = refl

push_command-wired_example :
    IsUnsent settled
      (push_command process (wired process machine identity (codes "ann")) week settled)
push_command-wired_example =
    push_command-wired process machine identity (codes "ann") week preparing.0
      (at_url (codes "https://team.example")) settled settled preparing.1 settled_config refl

abbrev ask : AnalyzeQuery
ask = record { window = week; llm = true; agent = codes "claude"; json = false }

analyze-wired_example :
    (m : Text) × (analyze process (wired process machine identity (codes "ann")) ask settled
      ≡ (failed m, settled))
analyze-wired_example = analyze-wired process machine identity (codes "ann") ask settled refl refl
