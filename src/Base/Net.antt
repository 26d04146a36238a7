-- ===== src/Base/Net.antt =====
-- The network as the clients see it: what the server will answer, and what was sent.
use Prim.Native.Nat.{ℕ}
use mathlib.Core.Bool.{Bool, ◌&&◌}
use mathlib.Core.Option.{Option}
use mathlib.Core.List.{List, [], ◌∷◌, ◌++◌}
use veritas_vpn.Base.Tests.{leb}
use veritas_vpn.Base.Strings.{Text, text}

pub data Method : Type 0 where
  get post delete : Method

-- A request body: the fields of the JSON object that is sent.
pub record Request : Type 0 where
  pub method : Method
  pub url : Text
  pub authorization : Option Text
  pub content_json : Bool
  pub body : List (Text × Text)

-- What `res.json()` gives: the object, or the message of the error that it throws. (For the desktop
-- client, which reads the text first, a body that is no JSON is that text.)
pub data Body (B : Type 0) : Type 0 where
  parsed : B → Body B
  unreadable : Text → Body B

-- A HTTP answer.
pub record Response (B : Type 0) : Type 0 where
  pub status : ℕ
  pub body : Body B

-- `res.ok`.
abbrev pub is_ok : {B : Type 0} → Response B → Bool
is_ok r = leb 200 r.status && leb r.status 299

-- What becomes of one `fetch`: it rejects with a message, or the server answers.
pub data Answer (B : Type 0) : Type 0 where
  rejected : Text → Answer B
  answered : Response B → Answer B

pub record Net (B : Type 0) : Type 0 where
  pub answers : List (Answer B)
  pub sent : List Request

abbrev pub next_answer : {B : Type 0} → List (Answer B) → Answer B
next_answer [] = rejected (text "Failed to fetch")
next_answer (a ∷ rest) = a

abbrev later_answers : {B : Type 0} → List (Answer B) → List (Answer B)
later_answers [] = []
later_answers (a ∷ rest) = rest

-- A request leaves: it is recorded.
unfoldable pub send : {B : Type 0} → Request → Net B → Net B
send r n = record n { sent = n.sent ++ (r ∷ []) }

-- Its answer arrives. Every behaviour of the servers is some list of answers; past its end requests
-- are rejected.
unfoldable pub receive : {B : Type 0} → Net B → Answer B × Net B
receive n = (next_answer n.answers, record n { answers = later_answers n.answers })

-- `await fetch(…)` where nothing else happens between the two.
unfoldable pub fetch : {B : Type 0} → Request → Net B → Answer B × Net B
unfolding send receive
fetch r n = receive (send r n)
