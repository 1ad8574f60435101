-- ===== src/Tests/Services.antt =====
-- Settings of the services at their bounds.
use gatus.Prelude.{
  ◌≡◌, refl, true, false, Option, none, some, [], ◌∷◌, pos, codes, Text, text_eq, ℕ,
}
use gatus.Services.{
  Storage, validate_storage_config, err_memory_storage_does_not_support_path, validate_web,
  err_invalid_port, Checker, is_connected, Announcement, validate_announcements,
  err_missing_timestamp,
}

abbrev on_disk : Storage
on_disk = record {
  path = codes "/data";
  storage_type = [];
  caching = false;
  maximum_number_of_results = pos 0;
  maximum_number_of_events = pos 0;
}

path_runs :
    (validate_storage_config (some on_disk)).1 ≡ some err_memory_storage_does_not_support_path
unfolding validate_storage_config text_eq
path_runs = refl

limits_run :
    (validate_storage_config
      (some (record on_disk { storage_type = codes "sqlite" }))).0.maximum_number_of_results
    ≡ pos 100
unfolding validate_storage_config text_eq
limits_run = refl

abbrev loads : Text → Text → Option ℕ
loads certificate private_key = none

port_runs :
    (validate_web loads
      (record { address = []; port = pos 65536; read_buffer_size = pos 0; tls = none })).1
    ≡ some err_invalid_port
unfolding validate_web
port_runs = refl

abbrev checker : Checker
checker = record {
  target = codes "1.1.1.1:53";
  interval = pos 60;
  connected = true;
  last_check = 0;
}

-- The answer is kept for the whole interval.
kept_runs : (is_connected (λ target. false) 60 checker).1 ≡ true
unfolding is_connected
kept_runs = refl

asked_again_runs : (is_connected (λ target. false) 61 checker).1 ≡ false
unfolding is_connected
asked_again_runs = refl

abbrev untimed : Announcement
untimed = record { timestamp = 0; announcement_type = []; message = codes "m"; archived = false }

untimed_runs : (validate_announcements (untimed ∷ [])).1 ≡ some err_missing_timestamp
unfolding validate_announcements text_eq
untimed_runs = refl
