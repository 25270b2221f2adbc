-- ===== src/Shared/Middleware.antt =====
-- shared/middleware.py: the request id, in the logging context and in the answer.
use food_flow.Prelude.{
  ℕ, ◌≡◌, refl, String, Option, none, some, List, [], ◌∷◌, arith, if◌then◌else◌,
}
use food_flow.Shared.Text.{same_text, same_text_refl}
use food_flow.Shared.Error.{ok, err}
use food_flow.Shared.Transaction.{Tx}

-- structlog's context variables, and the headers of an answer: values by name; a header's name is in lower case, as
-- Starlette keeps it.
abbrev pub Values : Type 0
Values = List (String × String)

-- del d[name]
unfoldable pub remove : String → Values → Values
remove name [] = []
remove name ((n, v) ∷ rest) =
    let later = remove name rest in if same_text n name then later else (n, v) ∷ later

-- d[name] = value: the first of the name is written, and any others go, as Starlette's headers do it.
unfoldable pub bind : String → String → Values → Values
bind name value [] = (name, value) ∷ []
bind name value ((n, v) ∷ rest) =
    let later = bind name value rest in
    if same_text n name then (n, value) ∷ remove name rest else (n, v) ∷ later

unfoldable pub find : String → Values → Option String
find name [] = none
find name ((n, v) ∷ rest) = if same_text n name then some v else find name rest

-- The last line of setup_logging; what it configures before is structlog's.
abbrev pub setup_logging : String → Values → Values
setup_logging service_name context = bind "service" service_name context

pub record Request : Type 0 where
  pub method : String
  pub path : String
  pub request_id : Option String

pub record Response : Type 0 where
  pub status_code : ℕ
  pub headers : Values

-- A line of the log, with the context variables that were merged into it.
pub record LogLine : Type 0 where
  pub event : String
  pub method : String
  pub path : String
  pub status_code : ℕ
  pub duration_ms : String
  pub context : Values

-- request.headers.get("X-Request-ID", str(uuid.uuid4()))
abbrev pub request_id_of : String → Option String → String
request_id_of drawn none = drawn
request_id_of drawn (some sent) = sent

-- The context of a request, whatever it was before.
unfoldable pub request_context : String → Values → Values
unfolding bind
request_context request_id context = bind "request_id" request_id []

-- What the middleware makes of the answer of `call_next`: the header, and the line that it logs.
abbrev pub finish : Request → String → Values → String → Response → Response × LogLine
finish request request_id context duration response = (
  record response { headers = bind "x-request-id" request_id response.headers },
  record {
    event = "request_completed";
    method = request.method;
    path = request.path;
    status_code = response.status_code;
    duration_ms = duration;
    context = context;
  },
)

-- RequestIdMiddleware.dispatch. `call_next` is given the context and `request.state.request_id`; what it
-- raises goes on, and then nothing is logged.
unfoldable pub dispatch :
    {S : Type 0}
    → String
    → String
    → (Values → String → Tx S Response)
    → Request
    → Values
    → Tx S (Response × LogLine)
unfolding request_context
dispatch drawn duration call_next request context s =
    let request_id = request_id_of drawn request.request_id in
    let inner = request_context request_id context in
    let (answer, s') = call_next inner request_id s in
    (
      elim answer [
        | err e ↦ err e
        | ok response ↦ ok (finish request request_id inner duration response)
      ],
      s',
    )

find-bind :
    (name value : String) (values : Values) → find name (bind name value values) ≡ some value
unfolding find bind
find-bind name value [] = rw (same_text_refl name) refl
find-bind name value ((n, v) ∷ rest) = ground (arith, find-bind name value rest)

-- What an answered request is marked with.
pub record IsTagged (request_id : String) (answer : Response) (line : LogLine) : Type 0 where
  pub in_answer : find "x-request-id" answer.headers ≡ some request_id
  pub in_log : find "request_id" line.context ≡ some request_id
  pub no_service : find "service" line.context ≡ none

-- If the inner handler answers: the answer has the request's own id in its header, or the one drawn where
-- the request has none, and the line in the log has it too; that line has no service name, although
-- setup_logging bound one.
dispatch-IsTagged :
    {S : Type 0} (drawn duration service_name : String)
    (call_next : Values → String → Tx S Response) (request : Request) (context : Values) (s s' : S)
    (response : Response)
    → call_next
        (request_context
          (request_id_of drawn request.request_id)
          (setup_logging service_name context))
        (request_id_of drawn request.request_id)
        s
      ≡ (ok response, s')
    → (answer : Response) × (line : LogLine) × (dispatch drawn duration call_next request
          (setup_logging service_name context)
          s
        ≡ (ok (answer, line), s'))
      × IsTagged (request_id_of drawn request.request_id) answer line
unfolding dispatch request_context
dispatch-IsTagged drawn duration service_name call_next request context s s' response h =
    let request_id = request_id_of drawn request.request_id in
    let inner = request_context request_id (setup_logging service_name context) in
    let (answer, line) = finish request request_id inner duration response in
    (
      answer,
      line,
      rw h refl,
      record {
        in_answer = find-bind "x-request-id" request_id response.headers;
        in_log = find-bind "request_id" request_id [];
        no_service = unfold find bind in refl;
      },
    )
