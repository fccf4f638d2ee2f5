-- ===== src/Tests/Sample.antt =====
-- A configuration, a request, a connection, a store and an outside world for the runs.
use nawa.Common.{ℕ, true, false, List, [], ◌∷◌, none, some, Bytes, codes}
use nawa.Config.{Config}
use nawa.Request.{Request}
use nawa.Request.Gpc.{Gpc, get_source}
use nawa.Connection.State.{Connection, new_cookie}
use nawa.Session.Store.{Store, SessionData, text}
use nawa.Session.Start.{World}
use nawa.Filter.Types.{AccessFilter}
use nawa.Filter.Apply.{Outside}

abbrev pub config : Config
config = record { values = ((codes "session", codes "validate_ip"), codes "strict") ∷ [] }

abbrev pub no_gpc : Gpc
no_gpc = record { source = get_source; data_map = [] }

abbrev pub request : Request
request = record {
  env =
      (codes "REMOTE_ADDR", codes "::1")
      ∷ (codes "REQUEST_URI", codes "/a/b?c")
      ∷ (codes "authorization", codes "Basic u:p")
      ∷ [];
  get = no_gpc;
  post = record { gpc = no_gpc; content_type = []; raw_post = none; file_map = [] };
  cookie = no_gpc;
}

abbrev pub connection : Connection
connection = record {
  body_string = [];
  response_status = 200;
  headers = [];
  cookies = (codes "S", new_cookie (codes "x")) ∷ [];
  cookie_policy = new_cookie [];
  is_flushed = false;
  request = request;
  session = record { current_data = none; current_id = []; cookie_name = codes "S" };
  config = config;
  response_stream = [];
}

-- The same connection with the session at a pointer.
abbrev pub resumed : ℕ → Connection
resumed p = record connection {
  session = record { current_data = some p; current_id = codes "id"; cookie_name = codes "S" };
}

abbrev pub world : World
world = record { now = 100; id_draws = λ i. (i, 7); gc_draw = 3; sha1 = λ s. 171 ∷ [] }

-- One live session of the client's address under the ID "id".
abbrev pub visitor : SessionData
visitor = record {
  data_map = (codes "k", text (codes "v")) ∷ [];
  expires = 500;
  source_ip = codes "::1";
}

abbrev pub store : Store
store = record { objects = λ p. visitor; next = 1; session_data = (codes "id", 0) ∷ [] }

abbrev pub outside : Outside
outside = record {
  world = world;
  fuel = 1;
  open_file = λ name. none;
  gmtime = λ t. none;
  base64_decode = λ s. s;
}

abbrev pub filter : List (List Bytes) → AccessFilter
filter paths = record {
  invert = false;
  path_filter = paths;
  invert_path_filter = false;
  extension_filter = [];
  invert_extension_filter = false;
  regex_filter_enabled = false;
  regex_filter = λ s. true;
  response = codes "no";
}
