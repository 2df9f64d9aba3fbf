-- ===== src/Tests/Socket.antt =====
-- Witnesses for the UDP client, over a network that delivers given packets.
use text.Mathlib.Text
use marstek_energy_trading.Prelude.{
  ◌≡◌, refl, true, Option, none, some, List, [], ◌∷◌, String, pos, negsuc, neg, length,
  if◌then◌else◌,
}
use marstek_energy_trading.Service.Types.{Result, ok, failed, Command}
use marstek_energy_trading.Clients.Marstek.Types.{
  Response, bat_get_status, set_passive, Udp, Socket,
}
use marstek_energy_trading.Clients.Marstek.Socket.{answer_to, send_context}
use marstek_energy_trading.Clients.Marstek.Requests.{get_battery_status, perform}
use marstek_energy_trading.Clients.Marstek.Answers.{
  IsAnswered, send_context-IsAnswered, perform-IsAnswered,
}
use marstek_energy_trading.Clients.Marstek.Status.{IsReported, get_battery_status-IsReported}
use marstek_energy_trading.Tests.Numbers.{numbers}

abbrev answer : Response
answer = record { id = pos 1; src = "VenusC"; result = "true"; error = none }

-- An echo of the request, an answer to an older one, and an answer to the first.
abbrev response_in : String → Option Response
response_in packet =
    if Text.◌==◌ packet "echo"
    then some (record answer { src = "" })
    else if Text.◌==◌ packet "older"
    then some (record answer { id = pos 0 })
    else if Text.◌==◌ packet "answer"
    then some answer
    else none

abbrev next_packet : List String → Result String × List String
next_packet [] = (failed "timeout", [])
next_packet (p ∷ packets) = (ok p, packets)

abbrev network : Udp numbers
network = record {
  World = List String;
  cancelled = "context canceled";
  context_err = λ w. (none, w);
  try_lock = λ w. (true, w);
  lock_waits = λ w. (3, w);
  unlock = λ w. w;
  marshal = λ id method. none;
  resolve_udp_addr = λ w. (none, w);
  listen_udp = λ w. (none, w);
  close_udp = λ w. (none, w);
  write_to_udp = λ id method w. (none, w);
  set_read_deadline = λ w. (none, w);
  packets = λ w. (length w, w);
  read_from_udp = next_packet;
  deadline_error = "i/o timeout";
  decode_response = response_in;
  decode_device_info = λ raw. none;
  decode_battery_status = λ raw. none;
  decode_es_status = λ raw. none;
  decode_es_mode = λ raw. none;
  decode_set_result = λ raw. some (Text.◌==◌ raw "true");
}

abbrev socket : Socket network
socket = record {
  connected = true;
  request_id = 0;
  log = [];
  world = "noise" ∷ "echo" ∷ "older" ∷ "answer" ∷ [];
}

answered : (send_context {U = network} bat_get_status socket).0 ≡ ok answer
unfolding send_context answer_to
answered = refl

send_context-IsAnswered_example :
    IsAnswered network 1 bat_get_status answer []
      (send_context {U = network} bat_get_status socket).1.log
send_context-IsAnswered_example = send_context-IsAnswered bat_get_status socket answer answered

obeyed : (perform {U = network} (Command.charge (pos 2500) (pos 300)) socket).0 ≡ none
unfolding perform answer_to
obeyed = refl

perform-IsAnswered_example :
    (resp : Response) × IsAnswered network 1
      (set_passive (negsuc 2499) (pos 300))
      resp
      []
      (perform {U = network} (Command.charge (pos 2500) (pos 300)) socket).1.log
    × (network.decode_set_result resp.result ≡ some true)
unfolding neg
perform-IsAnswered_example = perform-IsAnswered (Command.charge (pos 2500) (pos 300)) socket obeyed

get_battery_status-IsReported_example :
    IsReported socket (get_battery_status {U = network} socket).0
get_battery_status-IsReported_example = get_battery_status-IsReported socket
