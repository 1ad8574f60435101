-- ===== src/Health/Call.antt =====
-- call of config/endpoint/endpoint.go, with getParsedBody and buildHTTPRequest. The functions of
-- the client package, of net/http, of rand and of the clock are parameters over a world of which
-- nothing is assumed; they have the endpoint's client settings.
use gatus.Prelude.{
  Option, none, some, List, [], ◌∷◌, ◌++◌, pos, ltb_ℤ, Text, codes, has_prefix, trim_prefix,
  equal_fold, replace_all, if◌then◌else◌,
}
use gatus.Clock.{Time, sub}
use gatus.Settings.{Dns, Ssh, has_no_credentials}
use gatus.Endpoint.{Endpoint, Result, add_error}
use gatus.Health.Client.{Request, Response, Answered, response, request_error, Client}
use gatus.Health.{
  EndpointType, type_dns, type_tcp, type_sctp, type_udp, type_icmp, type_starttls, type_tls,
  type_http, type_grpc, type_ws, type_ssh, type_unknown, endpoint_type, has_header, add_header,
  user_agent_header, needs_to_read_body,
}

-- request.Host: the last header with the name Host.
unfoldable pub host_of : List (Text × Text) → Option Text → Option Text
host_of [] host = host
host_of (h ∷ headers) host =
    host_of headers (if equal_fold h.0 (codes "Host") then some h.1 else host)

module _ {W : Type 0} (client : Client W) where
  -- getParsedBody.
  unfoldable pub parsed_body : Endpoint → W → Text × W
  parsed_body e = client.fill_random (
      replace_all (codes "[ENDPOINT_URL]") e.url (
        replace_all (codes "[ENDPOINT_GROUP]") e.group
          (replace_all (codes "[ENDPOINT_NAME]") e.name e.body)))

  -- buildHTTPRequest.
  unfoldable pub build_http_request : Endpoint → W → Request × W
  unfolding parsed_body host_of
  build_http_request e w =
      let (body, w') = parsed_body e w in
      (
        record {
          method = e.method;
          url = e.url;
          body = if e.graphql then client.marshal_query body else body;
          headers = e.headers;
          host = host_of e.headers none;
        },
        w',
      )

  -- result.Duration = time.Since(startTime).
  unfoldable pub since : Time → Result → W → Result × W
  since start result w =
      let (time, w') = client.now w in (record result { duration = sub time start }, w')

  -- After a call that may fail: the error, or what is left to do.
  unfoldable pub unless_failed : Option Text → Result → (W → Result × W) → W → Result × W
  unless_failed (some e) result go_on w = (add_error result e, w)
  unless_failed none result go_on w = go_on w

  -- time.Until(certificate.NotAfter).
  unfoldable pub note_certificate : Time → Result × W → Result × W
  note_certificate not_after (result, w) =
      let (time, w') = client.now w in
      (record result { certificate_expiration = sub not_after time }, w')

  unfoldable pub call_dns : Dns → Endpoint → Time → Result → W → Result × W
  unfolding since unless_failed
  call_dns d e start result w =
      let (answer, w') = client.query_dns d.query_type d.query_name e.url w in
      let r = (record result {
        connected = answer.connected;
        dns_rcode = answer.label;
        body = answer.content;
      }) in
      unless_failed answer.failure r (since start r) w'

  unfoldable pub call_starttls : Endpoint → Time → Result → W → Result × W
  unfolding since unless_failed note_certificate
  call_starttls e start result w =
      let (answer, w') = client.can_perform_start_tls (trim_prefix (codes "starttls://") e.url) w in
      let r = (record result { connected = answer.connected }) in
      unless_failed answer.failure r (λ v. note_certificate answer.certificate (since start r v)) w'

  unfoldable pub call_tls : Endpoint → Time → Result → W → Result × W
  unfolding since unless_failed note_certificate parsed_body
  call_tls e start result w =
      let (body, w') = parsed_body e w in
      let (answer, w'') = client.can_perform_tls (trim_prefix (codes "tls://") e.url) body w' in
      let r = (record result { connected = answer.connected; body = answer.content }) in
      unless_failed answer.failure r (λ v. note_certificate answer.certificate (since start r v))
        w''

  -- The branches of TCP and UDP, for the network and the scheme.
  unfoldable pub call_network : Text → Text → Endpoint → Time → Result → W → Result × W
  unfolding since parsed_body
  call_network network scheme e start result w =
      let (body, w') = parsed_body e w in
      let (answer, w'') =
        client.can_create_network_connection network (trim_prefix scheme e.url) body w' in
      since start (record result { connected = answer.connected; body = answer.content }) w''

  unfoldable pub call_sctp : Endpoint → Time → Result → W → Result × W
  unfolding since
  call_sctp e start result w =
      let (answer, w') =
        client.can_create_sctp_connection (trim_prefix (codes "sctp://") e.url) w in
      since start (record result { connected = answer.connected }) w'

  unfoldable pub call_icmp : Endpoint → Result → W → Result × W
  call_icmp e result w =
      let (answer, w') = client.ping (trim_prefix (codes "icmp://") e.url) w in
      (record result { connected = answer.connected; duration = answer.duration }, w')

  unfoldable pub call_ws : Endpoint → Time → Result → W → Result × W
  unfolding since unless_failed parsed_body
  call_ws e start result w =
      let headers =
        (if has_header e.headers user_agent_header
          then e.headers
          else add_header e.headers user_agent_header (codes "Gatus/1.0")) in
      let (body, w') = parsed_body e w in
      let (answer, w'') = client.query_web_socket e.url body headers w' in
      let r = (record result { connected = answer.connected; body = answer.content }) in
      unless_failed answer.failure r (since start r) w''

  unfoldable pub call_ssh_banner : Endpoint → Time → Result → W → Result × W
  unfolding since unless_failed
  call_ssh_banner e start result w =
      let (answer, w') = client.check_ssh_banner (trim_prefix (codes "ssh://") e.url) w in
      let r = (record result { connected = answer.connected; http_status = answer.status }) in
      unless_failed answer.failure r (since start (record r { success = r.connected })) w'

  unfoldable pub execute_command : Endpoint → Time → Result → W → Result × W
  unfolding since unless_failed parsed_body
  execute_command e start result w =
      let (body, w') = parsed_body e w in
      let (answer, w'') = client.execute_ssh_command body w' in
      let r = (record result { success = answer.succeeded; http_status = answer.status }) in
      unless_failed answer.failure r
        (since start (if needs_to_read_body e then record r { body = answer.content } else r)) w''

  unfoldable pub call_ssh : Ssh → Endpoint → Time → Result → W → Result × W
  unfolding unless_failed execute_command
  call_ssh ssh e start result w =
      let (answer, w') =
        client.can_create_ssh_connection (trim_prefix (codes "ssh://") e.url) ssh.username
          ssh.password ssh.private_key w in
      let r = (record result { connected = answer.connected }) in
      unless_failed answer.failure r (execute_command e start r) w'

  unfoldable pub call_grpc : Endpoint → Result → W → Result × W
  unfolding unless_failed
  call_grpc e result w =
      let address = trim_prefix (codes "grpc://") (trim_prefix (codes "grpcs://") e.url) in
      let (answer, w') =
        client.perform_grpc_health_check address (has_prefix (codes "grpcs://") e.url) w in
      let r = (record result { connected = answer.connected; duration = answer.duration }) in
      unless_failed answer.failure result
        (λ v. (
          if needs_to_read_body e
              then record r { body = codes "{\"status\":\"" ++ answer.label ++ codes "\"}" }
              else r,
          v,
        ))
        w'

  -- The response's status and, if a condition needs it, its body.
  unfoldable pub read_response : Endpoint → Response → Result → Result
  read_response e r result =
      let noted = (record result {
        http_status = r.status_code;
        connected = ltb_ℤ (pos 0) r.status_code;
      }) in
      if needs_to_read_body e
      then elim r.read_error [
        | none ↦ record noted { body = r.content }
        | some error ↦
            add_error (record noted { body = r.content })
              (codes "error reading response body:" ++ error)
      ]
      else noted

  -- The expiration of the peer's certificate, if there is one.
  unfoldable pub note_peer : Option Time → Result → W → Result × W
  unfolding note_certificate
  note_peer none result w = (result, w)
  note_peer (some not_after) result w = note_certificate not_after (result, w)

  -- The branch of HTTP behind the request.
  unfoldable pub receive : Endpoint → Result → Answered → W → Result × W
  unfolding note_peer read_response
  receive e result (request_error error) w = (add_error result error, w)
  receive e result (response r) w =
      let (noted, w') = note_peer r.peer_certificate result w in (read_response e r noted, w')

  unfoldable pub call_http : Endpoint → Request → Time → Result → W → Result × W
  unfolding since receive
  call_http e request start result w =
      let (answered, w') = client.perform request w in
      let (timed, w'') = since start result w' in receive e timed answered w''

  abbrev returns : Result × W → Option Result × W
  returns (r, w) = (some r, w)

  -- The branches of call for a type of endpoint; `none` is the panic of a nil pointer: DNS without
  -- its settings is impossible, and an unknown type has no request.
  unfoldable pub call_typed : EndpointType → Endpoint → Time → Result → W → Option Result × W
  unfolding call_dns call_starttls call_tls call_network call_sctp call_icmp call_ws call_ssh_banner
      call_ssh call_grpc
  call_typed type_dns e start result w = elim e.dns_config [
    | some d ↦ returns (call_dns d e start result w)
    | none ↦ (none, w)
  ]
  call_typed type_starttls e start result w = returns (call_starttls e start result w)
  call_typed type_tls e start result w = returns (call_tls e start result w)
  call_typed type_tcp e start result w =
      returns (call_network (codes "tcp") (codes "tcp://") e start result w)
  call_typed type_udp e start result w =
      returns (call_network (codes "udp") (codes "udp://") e start result w)
  call_typed type_sctp e start result w = returns (call_sctp e start result w)
  call_typed type_icmp e start result w = returns (call_icmp e result w)
  call_typed type_ws e start result w = returns (call_ws e start result w)
  call_typed type_ssh e start result w = elim e.ssh_config [
    | none ↦ returns (call_ssh_banner e start result w)
    | some ssh ↦
        if has_no_credentials ssh
        then returns (call_ssh_banner e start result w)
        else returns (call_ssh ssh e start result w)
  ]
  call_typed type_grpc e start result w = returns (call_grpc e result w)
  call_typed type_http e start result w = (none, w)
  call_typed type_unknown e start result w = (none, w)

  -- call: the request of an HTTP endpoint is built before the clock is read.
  unfoldable pub call_by_type : EndpointType → Endpoint → Result → W → Option Result × W
  unfolding build_http_request call_http call_typed
  call_by_type type_http e result w =
      let (request, w') = build_http_request e w in
      let (start, w'') = client.now w' in returns (call_http e request start result w'')
  call_by_type t e result w = let (start, w') = client.now w in call_typed t e start result w'

  unfoldable pub call : Endpoint → Result → W → Option Result × W
  unfolding call_by_type endpoint_type
  call e result w = call_by_type (endpoint_type e) e result w
