-- ===== src/Platform/Http.antt =====
-- HTTP messages as the handlers and the client calls of this repository see them.
use besu_interbank_demo.Base.{ℕ, Bool, true, false, List, [], ◌∷◌, Bytes, utf8, ◌==◌, if◌then◌else◌}
use besu_interbank_demo.Platform.Json.{Body, text, doc, Json, object, field, end, string}

pub data Method : Type 0 where
  get head post : Method
  other : Bytes → Method

-- A request at a server, its path clean; the query holds the decoded pairs in order.
pub record Request : Type 0 where
  pub method : Method
  pub path : Bytes
  pub query : List (Bytes × Bytes)
  pub body : Body

-- A request of a client.
pub record Call : Type 0 where
  pub method : Method
  pub url : Bytes
  pub content_type : Bytes
  pub body : Body

-- A call as a server gets it at a path.
abbrev pub at_path : Bytes → Call → Request
at_path path c = record { method = c.method; path = path; query = []; body = c.body }

pub record Response : Type 0 where
  pub status : ℕ
  pub content_type : Bytes
  pub body : Body

-- `r.URL.Query().Get(key)`: the first value, or "".
unfoldable pub query_get : Bytes → List (Bytes × Bytes) → Bytes
query_get key [] = []
query_get key ((k, v) ∷ rest) = if k == key then v else query_get key rest

abbrev pub application_json : Bytes
application_json = utf8 "application/json"

-- http.ServeMux over exact paths: a handler, a path that no pattern has with this method, or none.
pub record Route (H : Type 0) : Type 0 where
  pub method : Method
  pub path : Bytes
  pub handler : H

pub data Routed (H : Type 0) : Type 0 where
  found : H → Routed H
  wrong_method no_route : Routed H

-- A pattern for GET also takes HEAD.
abbrev pub takes_method : Method → Method → Bool
takes_method get get = true
takes_method get head = true
takes_method post post = true
takes_method _ _ = false

unfoldable pub route : {H : Type 0} → List (Route H) → Method → Bytes → Routed H → Routed H
route [] method path missed = missed
route (r ∷ rs) method path missed = elim (r.path == path) [
  | true ↦ elim (takes_method r.method method) [
    | true ↦ found r.handler
    | false ↦ route rs method path wrong_method
  ]
  | false ↦ route rs method path missed
]

abbrev pub plain_text : Bytes
plain_text = utf8 "text/plain; charset=utf-8"

abbrev pub not_found : Response
not_found = record {
  status = 404;
  content_type = plain_text;
  body = text (utf8 "404 page not found\n");
}

abbrev pub method_not_allowed : Response
method_not_allowed = record {
  status = 405;
  content_type = plain_text;
  body = text (utf8 "Method Not Allowed\n");
}

-- `writeJSON` and `writeErr`, which three packages of the program each have.
unfoldable pub write_json : ℕ → Json → Response
write_json status v = record { status = status; content_type = application_json; body = doc v }

unfoldable pub write_err : ℕ → Bytes → Response
unfolding write_json
write_err status msg = write_json status (object (field (utf8 "error") (string msg) end))
