-- ===== src/Services.antt =====
-- The settings of the services around the monitoring, and their validation: storage/config.go,
-- config/connectivity/connectivity.go, config/web/web.go and
-- config/announcement/announcement.go. Each validation gives the settings as they are left and the
-- error. Loading a key pair is the TLS library's, and the attempt to connect is a parameter.
pub mod Limits
use gatus.Prelude.{
  ℕ, ◌+◌, ◌*◌, pos_part, neg_part, Bool, true, false, not, ◌&&◌, ◌||◌, Option, none, some, List, [],
  ◌∷◌, ◌++◌, ℤ, pos, ltb_ℤ, leb_ℤ, eq_ℤ, Text, codes, text_eq, has_suffix, show_ℤ, length, ltb,
  ◌==◌, if◌then◌else◌,
}
use gatus.Clock.{Time, Duration, second}

pub record Storage : Type 0 where
  pub path : Text
  pub storage_type : Text
  pub caching : Bool
  pub maximum_number_of_results : ℤ
  pub maximum_number_of_events : ℤ

pub data StorageError : Type 0 where
  err_sql_storage_requires_path : StorageError
  err_memory_storage_does_not_support_path : StorageError

abbrev pub type_memory : Text
type_memory = codes "memory"

abbrev pub is_sql : Text → Bool
is_sql t = text_eq t (codes "postgres") || text_eq t (codes "sqlite")

-- A limit, or its default where it is not positive.
abbrev pub limit_or : ℕ → ℤ → ℤ
limit_or default n = if leb_ℤ n (pos 0) then pos default else n

-- storage.Config.ValidateAndSetDefaults.
unfoldable pub validate_storage : Storage → Storage × Option StorageError
validate_storage s =
    let c = (if length s.storage_type == 0 then record s { storage_type = type_memory } else s) in
    if is_sql c.storage_type && length c.path == 0
    then (c, some err_sql_storage_requires_path)
    else if text_eq c.storage_type type_memory && ltb 0 (length c.path)
    then (c, some err_memory_storage_does_not_support_path)
    else (
      record c {
        maximum_number_of_results = limit_or 100 c.maximum_number_of_results;
        maximum_number_of_events = limit_or 50 c.maximum_number_of_events;
      },
      none,
    )

-- ValidateStorageConfig of config/config.go; `none` is a nil configuration.
unfoldable pub validate_storage_config : Option Storage → Storage × Option StorageError
unfolding validate_storage
validate_storage_config none = (
  record {
    path = [];
    storage_type = type_memory;
    caching = false;
    maximum_number_of_results = pos 100;
    maximum_number_of_events = pos 50;
  },
  none,
)
validate_storage_config (some s) = validate_storage s

pub record Checker : Type 0 where
  pub target : Text
  pub interval : Duration
  pub connected : Bool
  pub last_check : Time

pub data CheckerError : Type 0 where
  err_invalid_interval : CheckerError
  err_invalid_dns_target : CheckerError

check_target : Checker → Checker × Option CheckerError
check_target c =
    if has_suffix (codes ":53") c.target then (c, none) else (c, some err_invalid_dns_target)

-- connectivity.Config.ValidateAndSetDefaults, where there is a checker.
unfoldable pub validate_checker : Checker → Checker × Option CheckerError
unfolding check_target
validate_checker c =
    if eq_ℤ c.interval (pos 0)
    then check_target (record c { interval = pos (60 * second) })
    else if ltb_ℤ c.interval (pos (5 * second))
    then (c, some err_invalid_interval)
    else check_target c

-- Checker.IsConnected; `check` is the attempt to connect to the target.
unfoldable pub is_connected : (Text → Bool) → Time → Checker → Checker × Bool
is_connected check now c =
    if ltb (c.last_check + pos_part c.interval) (now + neg_part c.interval)
    then (record c { last_check = now; connected = check c.target }, check c.target)
    else (c, c.connected)

pub record Tls : Type 0 where
  pub certificate_file : Text
  pub private_key_file : Text

pub record Web : Type 0 where
  pub address : Text
  pub port : ℤ
  pub read_buffer_size : ℤ
  pub tls : Option Tls

pub data WebError (L : Type 0) : Type 0 where
  err_invalid_port : WebError L
  err_no_files : WebError L
  err_not_loaded : L → WebError L

abbrev pub has_files : Tls → Bool
has_files t = ltb 0 (length t.certificate_file) && ltb 0 (length t.private_key_file)

module _ {L : Type 0} (load_key_pair : Text → Text → Option L) where
  -- isValid.
  unfoldable pub check_tls : Option Tls → Option (WebError L)
  check_tls none = none
  check_tls (some t) =
      if has_files t
      then elim (load_key_pair t.certificate_file t.private_key_file) [
        | none ↦ none
        | some e ↦ some (err_not_loaded e)
      ]
      else some err_no_files

  -- The sizes, once the port is right.
  unfoldable pub set_read_buffer_size : Web → Web
  set_read_buffer_size w =
      if eq_ℤ w.read_buffer_size (pos 0)
      then record w { read_buffer_size = pos 8192 }
      else if ltb_ℤ w.read_buffer_size (pos 4096)
      then record w { read_buffer_size = pos 4096 }
      else w

  -- web.Config.ValidateAndSetDefaults.
  unfoldable pub validate_web : Web → Web × Option (WebError L)
  unfolding check_tls set_read_buffer_size
  validate_web given =
      let w =
        (if length given.address == 0 then record given { address = codes "0.0.0.0" } else given) in
      if eq_ℤ w.port (pos 0)
      then (set_read_buffer_size (record w { port = pos 8080 }), check_tls w.tls)
      else if ltb_ℤ w.port (pos 0) || ltb_ℤ (pos 65535) w.port
      then (w, some err_invalid_port)
      else (set_read_buffer_size w, check_tls w.tls)

-- HasTLS.
unfoldable pub has_tls : Web → Bool
has_tls w = elim w.tls [ none ↦ false | some t ↦ has_files t ]

-- SocketAddress.
unfoldable pub socket_address : Web → Text
socket_address w = w.address ++ codes ":" ++ show_ℤ w.port

-- A timestamp of 0 is the zero time.
pub record Announcement : Type 0 where
  pub timestamp : Time
  pub announcement_type : Text
  pub message : Text
  pub archived : Bool

pub data AnnouncementError : Type 0 where
  err_invalid_announcement_type : AnnouncementError
  err_empty_message : AnnouncementError
  err_missing_timestamp : AnnouncementError

-- validTypes.
abbrev pub is_valid_type : Text → Bool
is_valid_type t =
    text_eq t (codes "outage")
    || (text_eq t (codes "warning")
        || (text_eq t (codes "information")
            || (text_eq t (codes "operational") || text_eq t (codes "none"))))

-- Announcement.ValidateAndSetDefaults.
unfoldable pub validate_announcement : Announcement → Announcement × Option AnnouncementError
validate_announcement given =
    if length given.message == 0
    then (given, some err_empty_message)
    else (let a =
          (if length given.announcement_type == 0
            then record given { announcement_type = codes "none" }
            else given) in
        if not (is_valid_type a.announcement_type)
        then (a, some err_invalid_announcement_type)
        else if a.timestamp == 0
        then (a, some err_missing_timestamp)
        else (a, none))

-- announcement.ValidateAndSetDefaults: the first error ends the loop.
unfoldable pub validate_announcements :
    List Announcement → List Announcement × Option AnnouncementError
unfolding validate_announcement
validate_announcements [] = ([], none)
validate_announcements (given ∷ rest) =
    let (a, failure) = validate_announcement given in
    let (later, failures) = validate_announcements rest in
    elim failure [ some e ↦ (a ∷ rest, some e) | none ↦ (a ∷ later, failures) ]
