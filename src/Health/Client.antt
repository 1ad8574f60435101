-- ===== src/Health/Client.antt =====
-- The functions that call of config/endpoint/endpoint.go uses: those of the client package, of
-- net/http, of rand and of the clock, over a world of which nothing is assumed. They have the
-- endpoint's client settings.
use gatus.Prelude.{Bool, Option, List, ℤ, Text}
use gatus.Clock.{Time, Duration}

-- What a function of the client returns; a field that it does not return is not read. `label` is
-- the DNS response code or the gRPC status, `certificate` the NotAfter of the peer's certificate.
pub record Answer : Type 0 where
  pub connected : Bool
  pub succeeded : Bool
  pub status : ℤ
  pub label : Text
  pub content : Text
  pub duration : Duration
  pub certificate : Time
  pub failure : Option Text

-- A request; `headers` are set in this order, and `host` is the request's Host if it is set.
pub record Request : Type 0 where
  pub method : Text
  pub url : Text
  pub body : Text
  pub headers : List (Text × Text)
  pub host : Option Text

-- A response; the body is a text, or the error of reading it.
pub record Response : Type 0 where
  pub status_code : ℤ
  pub peer_certificate : Option Time
  pub content : Text
  pub read_error : Option Text

pub data Answered : Type 0 where
  response : Response → Answered
  request_error : Text → Answered

pub record Client (W : Type 0) : Type 0 where
  -- time.Now
  pub now : W → Time × W
  -- the replacement of the matches of \[RANDOM_STRING_\d+\]
  pub fill_random : Text → W → Text × W
  -- json.Marshal of {"query": body}
  pub marshal_query : Text → Text
  pub query_dns : Text → Text → Text → W → Answer × W
  pub can_perform_start_tls : Text → W → Answer × W
  pub can_perform_tls : Text → Text → W → Answer × W
  pub can_create_network_connection : Text → Text → Text → W → Answer × W
  pub can_create_sctp_connection : Text → W → Answer × W
  pub ping : Text → W → Answer × W
  pub query_web_socket : Text → Text → List (Text × Text) → W → Answer × W
  pub check_ssh_banner : Text → W → Answer × W
  -- CanCreateSSHConnection; the connection that it opens is part of the world
  pub can_create_ssh_connection : Text → Text → Text → Text → W → Answer × W
  pub execute_ssh_command : Text → W → Answer × W
  pub perform_grpc_health_check : Text → Bool → W → Answer × W
  -- the HTTP client's Do
  pub perform : Request → W → Answered × W
